-- ===== src/Bencode/RoundTrip.antt =====
-- What the encoder prints, the decoder reads back.
use torfoil.Prelude.{
  ℕ, zero, suc, ◌+◌, ◌*◌, ◌<◌, true, false, [], ◌∷◌, ◌++◌, append_assoc, ◌≡◌, refl, ◌∙◌, ap, length,
  length-append, Bytes, ltb, arith,
}
use torfoil.Bencode.{Value, Items, Fields, ok, max_depth, parse, parse_list, parse_dict, bdecode}
use torfoil.Bencode.Encode.{to_string, encode_str, encode, encode_items, encode_fields, bencode}
use torfoil.Bencode.Order.{IsOrdered}
use torfoil.Bencode.Numbers.{read_number-to_string, parse_str-encode_str}
use torfoil.Bencode.Locate.{
  locate, locate_items, locate_fields, IsCanonical, AreCanonical, FieldsCanonical,
}
use torfoil.Bencode.Join.{
  join, join_assoc, join_empty, emplace_last, Follows, Follows-join, empty-Follows,
}
use torfoil.Bencode.Steps.{
  encode_str_head, encode_head, encode_long, parse_digit, parse_list_more, parse_dict_more,
}

mutual
  unfolding parse encode locate IsCanonical join

  parse-encode :
      (f depth pos : ℕ) (v : Value) (rest : Bytes)
      → 2 * length (encode v ++ rest) < f
      → IsCanonical depth v
      → parse f depth (record { pos = pos; rest = encode v ++ rest })
        ≡ ok (locate pos v, record { pos = pos + length (encode v); rest = rest })
  parse-encode zero depth pos v rest enough canonical = absurd (omega arith)
  parse-encode (suc f) depth pos (Value.int n s) rest enough (deep, readable) =
      let open_ : ltb max_depth depth ≡ false = ground arith in
      let place : pos + 1 + length (to_string n) + 1
          ≡ pos + suc (length (to_string n ++ 101 ∷ [])) =
        omega (arith, length-append (to_string n) (101 ∷ [])) in
      rw
        (
          open_,
          append_assoc (to_string n) (101 ∷ []) rest,
          read_number-to_string 101 true n (pos + 1) rest refl readable,
          place,
        )
        refl
  parse-encode (suc f) depth pos (Value.str b s) rest enough (deep, fits) =
      let head = encode_str_head b rest in
      parse_digit f depth pos head.0 head.1 (encode_str b ++ rest) deep head.3 head.2
      ∙ rw (parse_str-encode_str b pos rest fits) refl
  parse-encode (suc f) depth pos (Value.list vs s) rest enough (deep, canonical) =
      let open_ : ltb max_depth depth ≡ false = ground arith in
      let text = append_assoc (encode_items vs) (101 ∷ []) rest in
      let place : pos + 1 + length (encode_items vs) + 1
          ≡ pos + suc (length (encode_items vs ++ 101 ∷ [])) =
        omega (arith, length-append (encode_items vs) (101 ∷ [])) in
      rw
        (
          open_,
          text,
          parse_list-encode_items f depth (pos + 1) vs rest (omega (arith, ap length text))
              canonical,
          place,
        )
        refl
  parse-encode (suc f) depth pos (Value.dict d s) rest enough (deep, ordered, canonical) =
      let open_ : ltb max_depth depth ≡ false = ground arith in
      let text = append_assoc (encode_fields d) (101 ∷ []) rest in
      let place : pos + 1 + length (encode_fields d) + 1
          ≡ pos + suc (length (encode_fields d ++ 101 ∷ [])) =
        omega (arith, length-append (encode_fields d) (101 ∷ [])) in
      rw
        (
          open_,
          text,
          parse_dict-encode_fields f depth (pos + 1) Fields.no_fields d rest
              (omega (arith, ap length text)) ordered canonical (empty-Follows d),
          place,
        )
        refl

  parse_list-encode_items :
      (f depth pos : ℕ) (vs : Items) (rest : Bytes)
      → 2 * length (encode_items vs ++ 101 ∷ rest) + 1 < f
      → AreCanonical (depth + 1) vs
      → parse_list f depth (record { pos = pos; rest = encode_items vs ++ 101 ∷ rest })
        ≡ ok (locate_items pos vs, record { pos = pos + length (encode_items vs) + 1; rest = rest })
  parse_list-encode_items zero depth pos vs rest enough canonical = absurd (omega arith)
  parse_list-encode_items (suc f) depth pos Items.no_items rest enough canonical =
      let place : pos + 1 ≡ pos + 0 + 1 = omega arith in rw place refl
  parse_list-encode_items (suc f) depth pos (Items.item v vs) rest enough (here, there) =
      let after = encode_items vs ++ 101 ∷ rest in
      let text = append_assoc (encode v) (encode_items vs) (101 ∷ rest) in
      let head = encode_head v after in
      let place : pos + length (encode v) + length (encode_items vs) + 1
          ≡ pos + length (encode v ++ encode_items vs) + 1 =
        omega (arith, length-append (encode v) (encode_items vs)) in
      rw
        (
          text,
          parse_list_more f depth pos head.0 head.1 (encode v ++ after) head.3 head.2,
          parse-encode f (depth + 1) pos v after (omega (arith, ap length text)) here,
          parse_list-encode_items f depth (pos + length (encode v)) vs rest
              (omega (arith, ap length text, length-append (encode v) after, encode_long v)) there,
          place,
        )
        refl

  parse_dict-encode_fields :
      (f depth pos : ℕ) (acc d : Fields) (rest : Bytes)
      → 2 * length (encode_fields d ++ 101 ∷ rest) + 1 < f
      → IsOrdered d
      → FieldsCanonical (depth + 1) d
      → Follows acc d
      → parse_dict f depth acc (record { pos = pos; rest = encode_fields d ++ 101 ∷ rest })
        ≡ ok (
          join acc (locate_fields pos d),
          record { pos = pos + length (encode_fields d) + 1; rest = rest },
        )
  parse_dict-encode_fields zero depth pos acc d rest enough ordered canonical follows =
      absurd (omega arith)
  parse_dict-encode_fields (suc f) depth pos acc Fields.no_fields rest enough ordered canonical
        follows =
      let place : pos + 1 ≡ pos + 0 + 1 = omega arith in rw (join_empty acc, place) refl
  parse_dict-encode_fields (suc f) depth pos acc (Fields.field key v d) rest enough
        (before, ordered) (short, here, there) follows =
      let after = encode_fields d ++ 101 ∷ rest in
      let tail = encode v ++ after in
      let start = pos + length (encode_str key) in
      let stored = Fields.field key (locate start v) Fields.no_fields in
      let text = append_assoc (encode_str key ++ encode v) (encode_fields d) (101 ∷ rest) in
      let text2 = append_assoc (encode_str key) (encode v) after in
      let head = encode_str_head key tail in
      let place : start + length (encode v) + length (encode_fields d) + 1
          ≡ pos + length (encode_str key ++ encode v ++ encode_fields d) + 1 =
        omega (
          arith,
          length-append (encode_str key ++ encode v) (encode_fields d),
          length-append (encode_str key) (encode v),
        ) in
      rw
        (
          text,
          text2,
          parse_dict_more f depth pos head.0 acc head.1 (encode_str key ++ tail) head.3 head.2,
          parse_str-encode_str key pos tail short,
          parse-encode f (depth + 1) start v after
              (omega (arith, ap length text, ap length text2, length-append (encode_str key) tail))
              here,
          emplace_last key (locate start v) acc follows,
          parse_dict-encode_fields f depth (start + length (encode v)) (join acc stored) d rest
              (omega (
                arith,
                ap length text,
                ap length text2,
                length-append (encode_str key) tail,
                length-append (encode v) after,
                encode_long v,
              ))
              ordered there (Follows-join key (locate start v) acc d before follows),
          join_assoc acc stored (locate_fields (start + length (encode v)) d),
          place,
        )
        refl

-- The text of a canonical value, whatever bytes follow it, decodes to that value with the positions of
-- its parts in the text.
pub bdecode-bencode :
    (v : Value) (rest : Bytes) → IsCanonical 0 v → bdecode (bencode v ++ rest) ≡ ok (locate 0 v)
unfolding bdecode
bdecode-bencode v rest canonical =
    rw (parse-encode (2 * length (encode v ++ rest) + 1) 0 0 v rest (omega arith) canonical) refl
