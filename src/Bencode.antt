-- ===== src/Bencode.antt =====
-- source/bt/bencode.cpp and include/bt/bencode.hpp: bencoded values, the decoder and the encoder.
-- The decoder's position `p_` and the bytes from there on are a cursor. A failure ends the decoding at
-- once, so its message is the result. `std::map` is the list of its entries in the order of the keys.
pub mod Outcome
pub mod Progress
pub mod Order
pub mod Spans
pub mod Lookup
pub mod Encode
pub mod Numbers
pub mod Locate
pub mod Join
pub mod Steps
pub mod RoundTrip
use Prim.Native.Nat.{compare, Ordering}
use torfoil.Prelude.{
  ℕ, zero, suc, ◌+◌, ◌-◌, ◌*◌, ◌/◌, ◌%◌, ◌^◌, Bool, true, false, not, ◌&&◌, ◌||◌, Option, none,
  some, List, [], ◌∷◌, ◌++◌, ltb, leb, ◌==◌, if◌then◌else◌, length, take, drop, Bytes,
}

-- An `int64_t`: a sign and a magnitude. The program has no `minus 0`.
pub data Integer : Type 0 where
  plus : ℕ → Integer
  minus : ℕ → Integer

-- `raw_begin` and `raw_end`.
pub record Span : Type 0 where
  pub raw_begin : ℕ
  pub raw_end : ℕ

mutual
  pub data Value : Type 0 where
    int : Integer → Span → Value
    str : Bytes → Span → Value
    list : Items → Span → Value
    dict : Fields → Span → Value

  pub data Items : Type 0 where
    no_items : Items
    item : Value → Items → Items

  pub data Fields : Type 0 where
    no_fields : Fields
    field : Bytes → Value → Fields → Fields

-- The messages of `fail`, and `out_of_fuel`, which the program has not.
pub data Error : Type 0 where
  negative_forbidden out_of_range integer_expected leading_zero minus_zero delimiter_expected :
      Error
  string_too_long string_truncated list_unterminated dict_unterminated key_not_text : Error
  too_deep input_truncated unexpected_byte out_of_fuel : Error

pub data Result {ℓ} (A : Type ℓ) : Type ℓ where
  ok : A → Result A
  err : Error → Result A

infixl 5 ◌>>=◌
abbrev pub ◌>>=◌ {ℓ κ} : {A : Type ℓ} {B : Type κ} → Result A → (A → Result B) → Result B
ok a >>= f = f a
err e >>= f = err e

pub record Cursor : Type 0 where
  pub pos : ℕ
  pub rest : Bytes

abbrev pub max_depth : ℕ
max_depth = 32

abbrev pub max_string_len : ℕ
max_string_len = 64 * 1024 * 1024

abbrev pub int64_max : ℕ
int64_max = 2 ^ 63 - 1

abbrev pub is_digit : ℕ → Bool
is_digit c = leb b'0' c && leb c b'9'

-- The loop over the digits, from `value` on.
unfoldable pub scan_digits : ℕ → ℕ → Bytes → Result (ℕ × Cursor)
scan_digits value pos [] = ok (value, record { pos = pos; rest = [] })
scan_digits value pos (c ∷ rest) =
    let more = scan_digits (value * 10 + (c - b'0')) (pos + 1) rest in
    if is_digit c
    then (if ltb ((int64_max - (c - b'0')) / 10) value then err out_of_range else more)
    else ok (value, record { pos = pos; rest = c ∷ rest })

abbrev pub starts_with_zero : Bytes → Bool
starts_with_zero [] = false
starts_with_zero (c ∷ rest) = c == b'0'

-- The delimiter behind the number.
unfoldable pub finish_number : ℕ → Integer → Cursor → Result (Integer × Cursor)
finish_number terminator n c = elim c.rest [
  | [] ↦ err delimiter_expected
  | b ∷ rest ↦
      if b == terminator
      then ok (n, record { pos = c.pos + 1; rest = rest })
      else err delimiter_expected
]

-- The number from its first digit on.
unfoldable pub read_unsigned : ℕ → Bool → Cursor → Result (Integer × Cursor)
unfolding scan_digits finish_number
read_unsigned terminator negative begin = do
  (value, c) ← scan_digits 0 begin.pos begin.rest
  if c.pos == begin.pos
      then err integer_expected
      else if starts_with_zero begin.rest && ltb 1 (c.pos - begin.pos)
      then err leading_zero
      else if negative && value == 0
      then err minus_zero
      else finish_number terminator (if negative then minus value else plus value) c

unfoldable pub read_number : ℕ → Bool → Cursor → Result (Integer × Cursor)
unfolding read_unsigned
read_number terminator allow_negative c = elim c.rest [
  | [] ↦ read_unsigned terminator false c
  | b ∷ rest ↦
      if b == b'-'
      then (if allow_negative
          then read_unsigned terminator true (record { pos = c.pos + 1; rest = rest })
          else err negative_forbidden)
      else read_unsigned terminator false c
]

abbrev pub advance : Cursor → Cursor
advance c = record { pos = c.pos + 1; rest = drop 1 c.rest }

abbrev pub magnitude : Integer → ℕ
magnitude (plus n) = n
magnitude (minus n) = n

unfoldable pub parse_str : Cursor → Result (Bytes × Cursor)
unfolding read_number
parse_str c = do
  (n, c') ← read_number b':' false c
  let len = magnitude n
  if ltb max_string_len len
      then err string_too_long
      else if ltb (length c'.rest) len
      then err string_truncated
      else ok (take len c'.rest, record { pos = c'.pos + len; rest = drop len c'.rest })

-- `std::string` compares its bytes as unsigned characters.
unfoldable pub compare_keys : Bytes → Bytes → Ordering
compare_keys [] [] = Ordering.eq
compare_keys [] (d ∷ b) = Ordering.lt
compare_keys (c ∷ a) [] = Ordering.gt
compare_keys (c ∷ a) (d ∷ b) = elim (compare c d) [
  | Ordering.lt ↦ Ordering.lt
  | Ordering.gt ↦ Ordering.gt
  | Ordering.eq ↦ compare_keys a b
]

-- `v.d.emplace`: a key that is there already keeps its value.
unfoldable pub emplace : Bytes → Value → Fields → Fields
unfolding compare_keys
emplace key v no_fields = field key v no_fields
emplace key v (field k w rest) = elim (compare_keys key k) [
  | Ordering.lt ↦ field key v (field k w rest)
  | Ordering.eq ↦ field k w rest
  | Ordering.gt ↦ field k w (emplace key v rest)
]

abbrev pub span : Cursor → Cursor → Span
span c c' = record { raw_begin = c.pos; raw_end = c'.pos }

abbrev pub as_value {ℓ} :
    {A : Type ℓ} → Cursor → (A → Span → Value) → Result (A × Cursor) → Result (Value × Cursor)
as_value c make r = r >>= λ (a, c'). ok (make a (span c c'), c')

-- Every call costs a unit of fuel.
unfoldable mutual
  unfolding read_number parse_str emplace

  pub parse : ℕ → ℕ → Cursor → Result (Value × Cursor)
  parse zero depth c = err out_of_fuel
  parse (suc f) depth c =
      let as_list = as_value c list (parse_list f depth (advance c)) in
      let as_dict = as_value c dict (parse_dict f depth no_fields (advance c)) in
      if ltb max_depth depth then err too_deep else elim c.rest [
        | [] ↦ err input_truncated
        | b ∷ rest ↦
            if b == b'i'
            then as_value c int (read_number b'e' true (advance c))
            else if b == b'l'
            then as_list
            else if b == b'd'
            then as_dict
            else if is_digit b
            then as_value c str (parse_str c)
            else err unexpected_byte
      ]

  pub parse_list : ℕ → ℕ → Cursor → Result (Items × Cursor)
  parse_list zero depth c = err out_of_fuel
  parse_list (suc f) depth c =
      let more = do
        (v, c') ← parse f (depth + 1) c
        (rest, c'') ← parse_list f depth c'
        ok (item v rest, c'')
      in elim c.rest [
        | [] ↦ err list_unterminated
        | b ∷ rest ↦ if b == b'e' then ok (no_items, advance c) else more
      ]

  pub parse_dict : ℕ → ℕ → Fields → Cursor → Result (Fields × Cursor)
  parse_dict zero depth d c = err out_of_fuel
  parse_dict (suc f) depth d c =
      let more = do
        (key, c') ← parse_str c
        (v, c'') ← parse f (depth + 1) c'
        parse_dict f depth (emplace key v d) c''
      in elim c.rest [
        | [] ↦ err dict_unterminated
        | b ∷ rest ↦
            if b == b'e' then ok (d, advance c) else if is_digit b then more else err key_not_text
      ]

-- Bytes behind the value are accepted.
unfoldable pub bdecode : Bytes → Result Value
unfolding parse
bdecode buf = do (v, c) ← parse (2 * length buf + 1) 0 (record { pos = 0; rest = buf }); ok v
