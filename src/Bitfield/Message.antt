-- ===== src/Bitfield/Message.antt =====
-- source/bt/piece_picker.cpp: Bitfield::from_bytes, which reads a bitfield message of a peer.
use Prim.Native.Nat.{bit_and}
use torfoil.Prelude.{
  ◌∙◌, dec_lt, ℕ, zero, suc, ◌+◌, ◌-◌, ◌*◌, ◌/◌, ◌%◌, ◌^◌, ◌<◌, ◌≤◌, ◌≡◌, refl, true, arith, [],
  ◌∷◌, length, get_or, some, Bytes, All, IsByte, ◌↔◌,
}
use torfoil.Prelude.Sums.{sum_below, sum_below-eq, sum_below-zero, sum_below-add}
use torfoil.Bitfield.{Bitfield, bytes_for, from_bytes, count_ones, padding_is_zero}
use torfoil.Bitfield.Bits.{bit, ones_from-bit, low_bits-zero, low_bits-none}
use torfoil.Bitfield.Valid.{IsValid, bit_at, get_or-IsByte}

get_or-bit_at : (x : ℕ) (xs : Bytes) (i : ℕ) → bit_at (x ∷ xs) (8 + i) ≡ bit_at xs i
get_or-bit_at x xs i =
    let q : (8 + i) / 8 ≡ suc (i / 8) = omega arith in
    let r : (8 + i) % 8 ≡ i % 8 = omega arith in rw (q, r)

count_ones-bit_at :
    (bytes : Bytes)
    → All IsByte bytes
    → count_ones bytes ≡ sum_below (length bytes * 8) (bit_at bytes)
unfolding count_ones
count_ones-bit_at [] h = refl
count_ones-bit_at (x ∷ xs) h =
    let e : suc (length xs) * 8 ≡ 8 + length xs * 8 = omega arith in
    rw (e, sum_below-add 8 (length xs * 8) (bit_at (x ∷ xs)))
      (omega (
        arith,
        ones_from-bit x h.0,
        count_ones-bit_at xs h.1,
        sum_below-eq (length xs * 8) _ (bit_at xs) (λ i _. get_or-bit_at x xs i),
      ))

get_or-outside : (xs : Bytes) (i : ℕ) → length xs ≤ i → get_or xs i 0 ≡ 0
get_or-outside [] i h = refl
get_or-outside (x ∷ xs) zero h = absurd (omega arith)
get_or-outside (x ∷ xs) (suc i) h = get_or-outside xs i (omega arith)

-- No bit is set behind the last piece.
abbrev pub IsPadded : Bytes → ℕ → Type 0
IsPadded bytes bits = (i : ℕ) → bits ≤ i → bit_at bytes i ≡ 0

abbrev spare_of : ℕ → ℕ
spare_of bits = (bytes_for bits * 8 + 2 ^ 32 - bits) % 2 ^ 32

abbrev last_of : Bytes → ℕ → ℕ
last_of bytes bits = get_or bytes (bytes_for bits - 1) 0

padding_is_zero-test :
    (bytes : Bytes) (bits : ℕ)
    → padding_is_zero bytes bits ≡ true
    → 0 < spare_of bits
    → bit_and (last_of bytes bits) (2 ^ spare_of bits - 1) ≡ 0
unfolding padding_is_zero
padding_is_zero-test bytes bits h some_spare = ground arith

padding_is_zero-IsPadded :
    (bytes : Bytes) (bits : ℕ)
    → bits + 7 < 2 ^ 32
    → All IsByte bytes
    → length bytes ≡ (bits + 7) / 8
    → padding_is_zero bytes bits ≡ true
    → IsPadded bytes bits
padding_is_zero-IsPadded bytes bits small fits size ok i far =
    elim (dec_lt (i / 8) (length bytes)) [
      | yes inside ↦
          let at_end : i / 8 ≡ bytes_for bits - 1 = omega arith in
          rw at_end (
            low_bits-zero (last_of bytes bits) (spare_of bits) (i % 8)
              (get_or-IsByte bytes (bytes_for bits - 1) fits) (omega arith) (omega arith)
              (padding_is_zero-test bytes bits ok (omega arith)) (omega arith))
      | no outside ↦ rw (get_or-outside bytes (i / 8) (omega arith)) (omega arith)
    ]

padded-last :
    (bytes : Bytes) (bits j : ℕ)
    → bits + 7 < 2 ^ 32
    → IsPadded bytes bits
    → j < 8
    → 8 - spare_of bits ≤ j
    → bit (last_of bytes bits) j ≡ 0
padded-last bytes bits j small padded lt low =
    let i : ℕ = (bytes_for bits - 1) * 8 + j in
    let at_end : i / 8 ≡ bytes_for bits - 1 = omega arith in
    let at_bit : i % 8 ≡ j = omega arith in
    let zero_there : bit_at bytes i ≡ 0 = padded i (omega arith) in
    rw (at_end, at_bit) at zero_there

IsPadded-padding_is_zero :
    (bytes : Bytes) (bits : ℕ)
    → bits + 7 < 2 ^ 32
    → All IsByte bytes
    → length bytes ≡ (bits + 7) / 8
    → IsPadded bytes bits
    → padding_is_zero bytes bits ≡ true
unfolding padding_is_zero
IsPadded-padding_is_zero bytes bits small fits size padded =
    let masked : bit_and (last_of bytes bits) (2 ^ spare_of bits - 1) ≡ 0 =
      low_bits-none (last_of bytes bits) (spare_of bits)
        (get_or-IsByte bytes (bytes_for bits - 1) fits) (omega arith)
        (λ j lt low. padded-last bytes bits j small padded lt low) in
    ground arith

from_bytes-some :
    (bytes : Bytes) (bits : ℕ) {b : Bitfield}
    → from_bytes bytes bits ≡ some b
    → (length bytes ≡ bytes_for bits)
      × (padding_is_zero bytes bits ≡ true)
      × (b ≡ record { bytes = bytes; bits = bits; count = count_ones bytes })
unfolding from_bytes
from_bytes-some bytes bits h = ground arith

count_ones-padded :
    (bytes : Bytes) (bits : ℕ)
    → All IsByte bytes
    → bits ≤ length bytes * 8
    → IsPadded bytes bits
    → count_ones bytes ≡ sum_below bits (bit_at bytes)
count_ones-padded bytes bits fits room padded =
    let spare : ℕ = length bytes * 8 - bits in
    let whole : length bytes * 8 ≡ bits + spare = omega arith in
    count_ones-bit_at bytes fits
    ∙ rw whole (
        omega (
          arith,
          sum_below-add bits spare (bit_at bytes),
          sum_below-zero spare (λ i. bit_at bytes (bits + i))
              (λ i _. padded (bits + i) (omega arith)),
        ))

-- A bitfield message that is accepted becomes a well-formed bitfield of exactly those bytes.
pub from_bytes-IsValid :
    (bytes : Bytes) (bits : ℕ) {b : Bitfield}
    → bits + 7 < 2 ^ 32
    → All IsByte bytes
    → from_bytes bytes bits ≡ some b
    → (b.bytes ≡ bytes) × (b.bits ≡ bits) × IsValid b
from_bytes-IsValid bytes bits small fits h =
    let (size, clean, e) = from_bytes-some bytes bits h in
    let padded = padding_is_zero-IsPadded bytes bits small fits (omega arith) clean in
    rw e (
      refl,
      refl,
      record {
        small = small;
        size = omega arith;
        fits = fits;
        padding = padded;
        counted = count_ones-padded bytes bits fits (omega arith) padded;
      },
    )

-- It is accepted exactly when its length is right and no bit behind the last piece is set.
pub from_bytes_iff :
    (bytes : Bytes) (bits : ℕ)
    → bits + 7 < 2 ^ 32
    → All IsByte bytes
    → ((b : Bitfield) × (from_bytes bytes bits ≡ some b))
      ↔ ((length bytes ≡ (bits + 7) / 8) × IsPadded bytes bits)
unfolding from_bytes
from_bytes_iff bytes bits small fits = (
  λ h.
      let (size, clean, e) = from_bytes-some bytes bits h.1 in
      (omega arith, padding_is_zero-IsPadded bytes bits small fits (omega arith) clean),
  λ h.
      let clean = IsPadded-padding_is_zero bytes bits small fits h.0 h.1 in
      let size : length bytes ≡ bytes_for bits = omega arith in
      (record { bytes = bytes; bits = bits; count = count_ones bytes }, ground arith),
)
