-- ===== src/WireGuard/Keys.antt =====
-- source/net/wg/wireguard.cpp: keys as text, in base 64.
pub mod RoundTrip
use torfoil.Prelude.{
  ℕ, zero, suc, ◌+◌, ◌-◌, ◌*◌, ◌/◌, ◌%◌, ◌^◌, ◌<◌, Bool, true, false, not, ◌&&◌, ◌||◌, Option, none,
  some, [], ◌∷◌, ◌≡◌, refl, sym, ap, ◌∙◌, ◌==◌, ==_iff, leb, ltb, if◌then◌else◌, ◌>>=◌, >>=-some,
  Bool-cases, inl, inr, length, get_or, Bytes, IsByte, All, codes, arith, table, table_lem, &&-true,
}
use torfoil.Bytes.Base32.{emit, absorb, stop, length-stop, length-absorb}

abbrev pub alphabet : ℕ → ℕ
alphabet v = get_or (codes "ABCDEFGHIJKLMNOPQRSTUVWXYZabcdefghijklmnopqrstuvwxyz0123456789+/") v 0

-- `length key` bytes, three at a time.
unfoldable pub key_to_base64 : Bytes → Bytes
key_to_base64 [] = []
key_to_base64 (a ∷ []) =
    let triple = a * 2 ^ 16 in
    alphabet (triple / 2 ^ 18 % 64) ∷ alphabet (triple / 2 ^ 12 % 64) ∷ b'=' ∷ b'=' ∷ []
key_to_base64 (a ∷ b ∷ []) =
    let triple = a * 2 ^ 16 + b * 2 ^ 8 in
    alphabet (triple / 2 ^ 18 % 64)
    ∷ alphabet (triple / 2 ^ 12 % 64)
    ∷ alphabet (triple / 2 ^ 6 % 64)
    ∷ b'='
    ∷ []
key_to_base64 (a ∷ b ∷ c ∷ key) =
    let triple = a * 2 ^ 16 + b * 2 ^ 8 + c in
    alphabet (triple / 2 ^ 18 % 64)
    ∷ alphabet (triple / 2 ^ 12 % 64)
    ∷ alphabet (triple / 2 ^ 6 % 64)
    ∷ alphabet (triple % 64)
    ∷ key_to_base64 key

-- `value_of`; none stands for -1.
unfoldable pub base64_digit : ℕ → Option ℕ
base64_digit c =
    if leb b'A' c && leb c b'Z'
    then some (c - b'A')
    else if leb b'a' c && leb c b'z'
    then some (c - b'a' + 26)
    else if leb b'0' c && leb c b'9'
    then some (c - b'0' + 52)
    else if c == b'+'
    then some 62
    else if c == b'/'
    then some 63
    else none

abbrev pub is_skipped : ℕ → Bool
is_skipped c = c == b'=' || c == b'\n' || c == b'\r' || c == b' '

-- The key has to be full at the end.
unfoldable pub base64_loop : ℕ → ℕ → ℕ → Bytes → Option Bytes
unfolding base64_digit absorb
base64_loop acc bits room [] = stop room
base64_loop acc bits room (c ∷ rest) =
    let next = λ (a b r : ℕ). base64_loop a b r rest in
    let more = (do v ← base64_digit c; absorb 6 v acc bits room next) in
    if is_skipped c then base64_loop acc bits room rest else more

unfoldable pub key_from_base64 : Bytes → Option Bytes
unfolding base64_loop
key_from_base64 text = base64_loop 0 0 32 text
