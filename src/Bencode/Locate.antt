-- ===== src/Bencode/Locate.antt =====
-- Where the encoder puts each part of a value, and the values with a canonical text.
use torfoil.Prelude.{ℕ, ◌+◌, ◌≤◌, true, ◌≡◌, refl, length}
use torfoil.Bencode.{Value, Items, Fields}
use torfoil.Bencode.Encode.{encode_str, encode, encode_items, encode_fields}
use torfoil.Bencode.Order.{IsOrdered}
use torfoil.Bencode.Numbers.{IsReadable}

-- A value at the position where its text stands, with the positions of all that it holds.
unfoldable mutual
  pub locate : ℕ → Value → Value
  locate pos (Value.int n s) =
      Value.int n (record { raw_begin = pos; raw_end = pos + length (encode (Value.int n s)) })
  locate pos (Value.str b s) =
      Value.str b (record { raw_begin = pos; raw_end = pos + length (encode (Value.str b s)) })
  locate pos (Value.list vs s) =
      Value.list (locate_items (pos + 1) vs)
        (record { raw_begin = pos; raw_end = pos + length (encode (Value.list vs s)) })
  locate pos (Value.dict d s) =
      Value.dict (locate_fields (pos + 1) d)
        (record { raw_begin = pos; raw_end = pos + length (encode (Value.dict d s)) })

  pub locate_items : ℕ → Items → Items
  locate_items pos Items.no_items = Items.no_items
  locate_items pos (Items.item v vs) =
      Items.item (locate pos v) (locate_items (pos + length (encode v)) vs)

  pub locate_fields : ℕ → Fields → Fields
  locate_fields pos Fields.no_fields = Fields.no_fields
  locate_fields pos (Fields.field key v d) =
      Fields.field key (locate (pos + length (encode_str key)) v)
        (locate_fields (pos + length (encode_str key) + length (encode v)) d)

-- Numbers in range, strings and keys of at most 64 MiB, keys that rise, and nothing below depth 32.
unfoldable mutual
  pub IsCanonical : ℕ → Value → Type 0
  IsCanonical depth (Value.int n s) = (depth ≤ 32) × IsReadable true n
  IsCanonical depth (Value.str b s) = (depth ≤ 32) × (length b ≤ 67108864)
  IsCanonical depth (Value.list vs s) = (depth ≤ 32) × AreCanonical (depth + 1) vs
  IsCanonical depth (Value.dict d s) = (depth ≤ 32) × IsOrdered d × FieldsCanonical (depth + 1) d

  pub AreCanonical : ℕ → Items → Type 0
  AreCanonical depth Items.no_items = Unit
  AreCanonical depth (Items.item v vs) = IsCanonical depth v × AreCanonical depth vs

  pub FieldsCanonical : ℕ → Fields → Type 0
  FieldsCanonical depth Fields.no_fields = Unit
  FieldsCanonical depth (Fields.field key v d) =
      (length key ≤ 67108864) × IsCanonical depth v × FieldsCanonical depth d

mutual
  unfolding encode locate

  pub encode-locate : (pos : ℕ) (v : Value) → encode (locate pos v) ≡ encode v
  encode-locate pos (Value.int n s) = refl
  encode-locate pos (Value.str b s) = refl
  encode-locate pos (Value.list vs s) = rw (encode_items-locate_items (pos + 1) vs) refl
  encode-locate pos (Value.dict d s) = rw (encode_fields-locate_fields (pos + 1) d) refl

  encode_items-locate_items :
      (pos : ℕ) (vs : Items) → encode_items (locate_items pos vs) ≡ encode_items vs
  encode_items-locate_items pos Items.no_items = refl
  encode_items-locate_items pos (Items.item v vs) =
      rw (encode-locate pos v, encode_items-locate_items (pos + length (encode v)) vs) refl

  encode_fields-locate_fields :
      (pos : ℕ) (d : Fields) → encode_fields (locate_fields pos d) ≡ encode_fields d
  encode_fields-locate_fields pos Fields.no_fields = refl
  encode_fields-locate_fields pos (Fields.field key v d) =
      let start = pos + length (encode_str key) in
      rw (encode-locate start v, encode_fields-locate_fields (start + length (encode v)) d) refl
