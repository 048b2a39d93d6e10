-- ===== src/Bencode/Encode.antt =====
-- source/bt/bencode.cpp: the encoder.
use torfoil.Prelude.{ℕ, zero, suc, ◌+◌, ◌/◌, ◌%◌, [], ◌∷◌, ◌++◌, Bytes, ltb, if◌then◌else◌, length}
use torfoil.Bencode.{Integer, plus, minus, Value, Items, Fields}

-- The decimal digits of a number, the first ahead.
unfoldable pub digits : ℕ → ℕ → Bytes
digits zero n = []
digits (suc f) n =
    let front = digits f (n / 10) in
    if ltb n 10 then (b'0' + n) ∷ [] else front ++ (b'0' + n % 10) ∷ []

-- `std::to_string`. A number has fewer digits than the number after it says.
abbrev pub decimal : ℕ → Bytes
decimal n = digits (n + 1) n

unfoldable pub to_string : Integer → Bytes
unfolding digits
to_string (plus n) = decimal n
to_string (minus n) = b'-' ∷ decimal n

-- A string with its length ahead.
unfoldable pub encode_str : Bytes → Bytes
unfolding digits
encode_str b = decimal (length b) ++ b':' ∷ b

unfoldable mutual
  unfolding to_string encode_str

  pub encode : Value → Bytes
  encode (Value.int n s) = b'i' ∷ to_string n ++ b'e' ∷ []
  encode (Value.str b s) = encode_str b
  encode (Value.list vs s) = b'l' ∷ encode_items vs ++ b'e' ∷ []
  encode (Value.dict d s) = b'd' ∷ encode_fields d ++ b'e' ∷ []

  pub encode_items : Items → Bytes
  encode_items Items.no_items = []
  encode_items (Items.item v vs) = encode v ++ encode_items vs

  pub encode_fields : Fields → Bytes
  encode_fields Fields.no_fields = []
  encode_fields (Fields.field key v d) = encode_str key ++ encode v ++ encode_fields d

abbrev pub bencode : Value → Bytes
bencode v = encode v
