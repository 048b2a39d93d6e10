-- ===== src/Bytes/Hex.antt =====
-- source/util/bytes.cpp: hexadecimal and percent encodings. A byte is a number below 256; the
-- `hi << 4 | lo` of two half bytes joins disjoint bits and is written as a sum.
use torfoil.Prelude.{
  ℕ, Bool-cases, inl, inr, ◌⊎◌, ◌≤◌, ◌+◌, ◌-◌, ◌*◌, ◌/◌, ◌%◌, ◌<◌, ◌≡◌, refl, Bool, true, false,
  ◌&&◌, ◌||◌, Option, none, some, [], ◌∷◌, arith, ltb, leb, ◌==◌, if◌then◌else◌, ◌>>=◌, >>=-some,
  length, All, Bytes, IsByte,
}

-- `kHexDigits[v]`, for a half byte.
unfoldable pub hex_digit : ℕ → ℕ
hex_digit v = if ltb v 10 then b'0' + v else b'a' + (v - 10)

-- `none` is the -1 of the source.
pub hex_val : ℕ → Option ℕ
hex_val c =
    if leb b'0' c && leb c b'9'
    then some (c - b'0')
    else if leb b'a' c && leb c b'f'
    then some (c - b'a' + 10)
    else if leb b'A' c && leb c b'F'
    then some (c - b'A' + 10)
    else none

unfoldable pub to_hex : Bytes → Bytes
unfolding hex_digit
to_hex [] = []
to_hex (c ∷ rest) = hex_digit (c / 16) ∷ hex_digit (c % 16) ∷ to_hex rest

hex_byte : ℕ → ℕ → Option ℕ
hex_byte a b = do hi ← hex_val a; lo ← hex_val b; some (hi * 16 + lo)

-- The loop of `from_hex`, over a text of even length.
hex_pairs : Bytes → Option Bytes
hex_pairs [] = some []
hex_pairs (a ∷ []) = none
hex_pairs (a ∷ b ∷ rest) = do c ← hex_byte a b; out ← hex_pairs rest; some (c ∷ out)

-- `none` where the source returns false; what it has written to its buffer by then is lost.
unfoldable pub from_hex : Bytes → ℕ → Option Bytes
unfolding hex_pairs hex_byte hex_val
from_hex hex out_len = if length hex == out_len * 2 then hex_pairs hex else none

is_unreserved : ℕ → Bool
is_unreserved c =
    leb b'A' c && leb c b'Z'
    || leb b'a' c && leb c b'z'
    || leb b'0' c && leb c b'9'
    || c == b'-'
    || c == b'_'
    || c == b'.'
    || c == b'~'

unfoldable pub url_encode : Bytes → Bytes
unfolding hex_digit is_unreserved
url_encode [] = []
url_encode (c ∷ rest) =
    if is_unreserved c
    then c ∷ url_encode rest
    else b'%' ∷ hex_digit (c / 16) ∷ hex_digit (c % 16) ∷ url_encode rest

-- A byte that starts no escape.
plain : ℕ → ℕ
plain c = if c == b'+' then b' ' else c

escaped : ℕ → ℕ → ℕ → Option ℕ
escaped c a b = if c == b'%' then hex_byte a b else none

-- An escape needs two more bytes behind the `%`.
unfoldable pub url_decode : Bytes → Bytes
unfolding plain escaped hex_byte hex_val
url_decode [] = []
url_decode (c ∷ []) = plain c ∷ []
url_decode (c ∷ a ∷ []) = plain c ∷ url_decode (a ∷ [])
url_decode (c ∷ a ∷ b ∷ rest) = elim (escaped c a b) [
  | some v ↦ v ∷ url_decode rest
  | none ↦ plain c ∷ url_decode (a ∷ b ∷ rest)
]

hex_byte-hex_digit : (c : ℕ) → c < 256 → hex_byte (hex_digit (c / 16)) (hex_digit (c % 16)) ≡ some c
unfolding hex_byte hex_val hex_digit
hex_byte-hex_digit c h = ground arith

pub length-to_hex : (d : Bytes) → length (to_hex d) ≡ length d * 2
unfolding to_hex
length-to_hex [] = refl
length-to_hex (c ∷ d) = omega (arith, length-to_hex d)

hex_pairs-to_hex : (d : Bytes) → All IsByte d → hex_pairs (to_hex d) ≡ some d
unfolding hex_pairs to_hex
hex_pairs-to_hex [] h = refl
hex_pairs-to_hex (c ∷ d) h = ground (arith, hex_byte-hex_digit c h.0, hex_pairs-to_hex d h.1)

-- A string of bytes printed in hexadecimal is read back, when as many bytes are asked for as were
-- printed.
pub from_hex-to_hex : (d : Bytes) → All IsByte d → from_hex (to_hex d) (length d) ≡ some d
unfolding from_hex
from_hex-to_hex d h = ground (arith, length-to_hex d, hex_pairs-to_hex d h)

-- `tolower` in the C locale.
unfoldable pub to_lower : ℕ → ℕ
to_lower c = if leb b'A' c && leb c b'Z' then c + 32 else c

unfoldable pub lower_all : Bytes → Bytes
lower_all [] = []
lower_all (c ∷ s) = to_lower c ∷ lower_all s

hex_byte_sound :
    (a b c : ℕ)
    → hex_byte a b ≡ some c
    → (c < 256) × (hex_digit (c / 16) ≡ to_lower a) × (hex_digit (c % 16) ≡ to_lower b)
unfolding hex_byte hex_val hex_digit to_lower
hex_byte_sound a b c h = ground arith

hex_pairs_sound :
    (h d : Bytes)
    → hex_pairs h ≡ some d
    → (length h ≡ length d * 2) × All IsByte d × (to_hex d ≡ lower_all h)
unfolding hex_pairs to_hex lower_all
hex_pairs_sound [] d e = ground arith
hex_pairs_sound (a ∷ []) d e = cc
hex_pairs_sound (a ∷ b ∷ rest) d e =
    let (c, first, e') = >>=-some (hex_byte a b) _ e in
    let (out, more, last) = >>=-some (hex_pairs rest) _ e' in
    let (fits, hi, lo) = hex_byte_sound a b c first in
    let (size, fit, text) = hex_pairs_sound rest out more in
    let same : d ≡ c ∷ out = cc in rw same (omega arith, (fits, fit), rw (hi, lo, text))

-- What is accepted has two characters for each byte asked for, and the bytes returned print as that
-- text in lower case.
pub from_hex_sound :
    (h : Bytes) (n : ℕ) (d : Bytes)
    → from_hex h n ≡ some d
    → (length d ≡ n) × (length h ≡ n * 2) × All IsByte d × (to_hex d ≡ lower_all h)
unfolding from_hex
from_hex_sound h n d e = ground (arith, hex_pairs_sound h d)

escaped-hex_digit :
    (c : ℕ) → c < 256 → escaped b'%' (hex_digit (c / 16)) (hex_digit (c % 16)) ≡ some c
unfolding escaped
escaped-hex_digit c h = hex_byte-hex_digit c h

-- An unreserved character stands for itself, whatever follows it.
unreserved-plain : (c : ℕ) → is_unreserved c ≡ true → (plain c ≡ c) × ((c == b'%') ≡ false)
unfolding is_unreserved plain
unreserved-plain c h = ground arith

url_decode-plain :
    (c : ℕ) (s : Bytes) → is_unreserved c ≡ true → url_decode (c ∷ s) ≡ c ∷ url_decode s
unfolding url_decode
url_decode-plain c [] h = ground (arith, unreserved-plain c h)
url_decode-plain c (a ∷ []) h = ground (arith, unreserved-plain c h)
url_decode-plain c (a ∷ b ∷ rest) h = ground (arith, unreserved-plain c h)

url_decode-escape :
    (c : ℕ) (s : Bytes)
    → c < 256
    → url_decode (b'%' ∷ hex_digit (c / 16) ∷ hex_digit (c % 16) ∷ s) ≡ c ∷ url_decode s
unfolding url_decode
url_decode-escape c s h = rw (escaped-hex_digit c h, url_decode)

-- Decoding an encoded string of bytes gives it back.
pub url_decode-url_encode : (s : Bytes) → All IsByte s → url_decode (url_encode s) ≡ s
unfolding url_encode
url_decode-url_encode [] h = unfold url_decode in refl
url_decode-url_encode (c ∷ s) h = ground (
  arith,
  url_decode-plain c (url_encode s),
  url_decode-escape c (url_encode s) h.0,
  url_decode-url_encode s h.1,
)

abbrev pub IsUrlSafe : ℕ → Type 0
IsUrlSafe c =
    ((b'A' ≤ c) × (c ≤ b'Z'))
    ⊎ ((b'a' ≤ c) × (c ≤ b'z'))
    ⊎ ((b'0' ≤ c) × (c ≤ b'9'))
    ⊎ (c ≡ b'-')
    ⊎ (c ≡ b'_')
    ⊎ (c ≡ b'.')
    ⊎ (c ≡ b'~')
    ⊎ (c ≡ b'%')

is_unreserved-IsUrlSafe : (c : ℕ) → is_unreserved c ≡ true → IsUrlSafe c
unfolding is_unreserved
is_unreserved-IsUrlSafe c h = ground arith

hex_digit-IsUrlSafe : (v : ℕ) → v < 16 → IsUrlSafe (hex_digit v)
unfolding hex_digit
hex_digit-IsUrlSafe v h = ground arith

-- The encoding of any bytes consists of letters, digits, `-`, `_`, `.`, `~` and `%`.
pub url_encode-IsUrlSafe : (s : Bytes) → All IsByte s → All IsUrlSafe (url_encode s)
unfolding url_encode
url_encode-IsUrlSafe [] h = tt
url_encode-IsUrlSafe (c ∷ s) h = elim (Bool-cases (is_unreserved c)) [
  | inl e ↦ rw (e, url_encode) (is_unreserved-IsUrlSafe c e, url_encode-IsUrlSafe s h.1)
  | inr e ↦
      rw (e, url_encode)
        (
          omega arith,
          (
            hex_digit-IsUrlSafe (c / 16) (omega arith),
            (hex_digit-IsUrlSafe (c % 16) (omega arith), url_encode-IsUrlSafe s h.1),
          ),
        )
]
