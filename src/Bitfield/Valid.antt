-- ===== src/Bitfield/Valid.antt =====
-- source/bt/piece_picker.cpp: class Bitfield and the invariant that it keeps.
use torfoil.Prelude.{
  false, sym, ℕ, zero, suc, ◌+◌, ◌/◌, ◌%◌, ◌^◌, ◌<◌, ◌≤◌, ◌≡◌, refl, arith, [], ◌∷◌, length, get_or,
  set, Bytes, All, IsByte, length-replicate,
}
use torfoil.Prelude.Sums.{sum_below, sum_below-zero}
use torfoil.Bitfield.{get, Bitfield, zeros, bytes_for, resize, clear}
use torfoil.Bitfield.Bits.{bit}

-- Bit `i` of a string of bytes, zero behind its end.
abbrev pub bit_at : Bytes → ℕ → ℕ
bit_at bytes i = bit (get_or bytes (i / 8) 0) (i % 8)

-- One bit for each piece, none set behind the last one, and the count is the number of bits set.
pub record IsValid (b : Bitfield) : Type 0 where
  pub small : b.bits + 7 < 2 ^ 32
  pub size : length b.bytes ≡ (b.bits + 7) / 8
  pub fits : All IsByte b.bytes
  pub padding : (i : ℕ) → b.bits ≤ i → bit_at b.bytes i ≡ 0
  pub counted : b.count ≡ sum_below b.bits (bit_at b.bytes)

pub get_or-IsByte : (xs : Bytes) (i : ℕ) → All IsByte xs → get_or xs i 0 < 256
get_or-IsByte [] i h = omega arith
get_or-IsByte (x ∷ xs) zero h = h.0
get_or-IsByte (x ∷ xs) (suc i) h = get_or-IsByte xs i h.1

pub set-IsByte : (xs : Bytes) (i v : ℕ) → All IsByte xs → v < 256 → All IsByte (set xs i v)
set-IsByte [] i v h hv = tt
set-IsByte (x ∷ xs) zero v h hv = (hv, h.1)
set-IsByte (x ∷ xs) (suc i) v h hv = (h.0, set-IsByte xs i v h.1 hv)

pub replicate-IsByte : (n : ℕ) → All IsByte (zeros n)
replicate-IsByte zero = tt
replicate-IsByte (suc n) = (omega arith, replicate-IsByte n)

get_or-replicate : (n i : ℕ) → get_or (zeros n) i 0 ≡ 0
get_or-replicate zero i = refl
get_or-replicate (suc n) zero = refl
get_or-replicate (suc n) (suc i) = get_or-replicate n i

bit_at-replicate : (n i : ℕ) → bit_at (zeros n) i ≡ 0
bit_at-replicate n i = rw (get_or-replicate n (i / 8)) (omega arith)

zeros-IsValid :
    (n bits : ℕ)
    → bits + 7 < 2 ^ 32
    → n ≡ (bits + 7) / 8
    → IsValid (record { bytes = zeros n; bits = bits; count = 0 })
zeros-IsValid n bits h e = record {
  small = h;
  size = rw (length-replicate {A = ℕ} n 0) e;
  fits = replicate-IsByte n;
  padding = λ i _. bit_at-replicate n i;
  counted = sym (sum_below-zero bits _ (λ i _. bit_at-replicate n i));
}

pub resize-IsValid : (bits : ℕ) → bits + 7 < 2 ^ 32 → IsValid (resize bits)
unfolding resize
resize-IsValid bits h = zeros-IsValid (bytes_for bits) bits h (omega arith)

pub clear-IsValid : {b : Bitfield} → IsValid b → IsValid (clear b)
unfolding clear
clear-IsValid {b} v = zeros-IsValid (length b.bytes) b.bits v.small v.size

pub bits-resize : (n : ℕ) → (resize n).bits ≡ n
unfolding resize
bits-resize n = refl

pub get-resize : (n i : ℕ) → get (resize n) i ≡ false
unfolding get resize
get-resize n i = ground (arith, get_or-replicate (bytes_for n) (i / 8))
