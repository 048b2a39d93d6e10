-- ===== src/Bitfield/Writes.antt =====
-- source/bt/piece_picker.cpp: Bitfield::set, bit by bit.
use Prim.Native.Nat.{bit_and}
use torfoil.Prelude.{
  ◌⊎◌, ◌∙◌, dec_lt, ℕ, ◌+◌, ◌-◌, ◌/◌, ◌%◌, ◌^◌, ◌<◌, ◌≤◌, ◌≡◌, refl, Bool, true, false, not, leb,
  ◌==◌, if◌then◌else◌, arith, length, get_or, set, Bytes, Bool-cases, inl, inr, length-set,
  get_or-set_self, get_or-set_ne, ℕ_discrete,
}
use torfoil.Prelude.Sums.{sum_below, sum_below_bump, sum_below-le, le-sum_below}
use torfoil.Bitfield.{Bitfield, clear, set_bit, write_bit, mask_of, same_bool}
use torfoil.Bitfield.Bits.{bit, bit-le, byte-Ops}
use torfoil.Bitfield.Valid.{IsValid, bit_at, get_or-IsByte, set-IsByte}

-- One byte replaced by one that differs from it in one bit at most.
bit_at-set :
    (bytes : Bytes) (i v w : ℕ)
    → i / 8 < length bytes
    → ((k : ℕ) → k < 8 → bit v k ≡ (if k == i % 8 then w else bit (get_or bytes (i / 8) 0) k))
    → (j : ℕ) → bit_at (set bytes (i / 8) v) j ≡ (if j == i then w else bit_at bytes j)
bit_at-set bytes i v w lt written j = elim (ℕ_discrete (i / 8) (j / 8)) [
  | yes same ↦ rw (← same, get_or-set_self bytes (i / 8) v 0 lt) (ground (arith, written (j % 8)))
  | no other ↦ rw (get_or-set_ne bytes (i / 8) (j / 8) v 0 other) (ground arith)
]

-- The count follows the one bit that changes.
count-written :
    (n i w old c : ℕ) (value : Bool) (f g : ℕ → ℕ)
    → i < n
    → f i + w ≡ 1
    → w ≡ (if value then 1 else 0)
    → ((j : ℕ) → g j ≡ (if j == i then w else f j))
    → old ≡ sum_below n f
    → c ≡ (if value then old + 1 else old - 1)
    → c ≡ sum_below n g
count-written n i w old c true f g lt flips is reads counted next =
    omega (
      arith,
      sum_below_bump n i 1 f g lt (ground (arith, reads i)) (λ j ne. ground (arith, reads j)),
    )
count-written n i w old c false f g lt flips is reads counted next =
    omega (
      arith,
      sum_below_bump n i 1 g f lt (ground (arith, reads i)) (λ j ne. ground (arith, reads j)),
    )

written-IsValid :
    (b : Bitfield) (i v w : ℕ) (value : Bool)
    → IsValid b
    → i < b.bits
    → bit_at b.bytes i + w ≡ 1
    → w ≡ (if value then 1 else 0)
    → v < 256
    → ((k : ℕ) → k < 8 → bit v k ≡ (if k == i % 8 then w else bit (get_or b.bytes (i / 8) 0) k))
    → (c : ℕ) → (c ≡ (if value then b.count + 1 else b.count - 1))
    → IsValid (record { bytes = set b.bytes (i / 8) v; bits = b.bits; count = c })
written-IsValid b i v w value valid lt flips is v_fits written c counts =
    let inside : i / 8 < length b.bytes = omega (arith, valid.size) in
    let reads = bit_at-set b.bytes i v w inside written in
    record {
      small = valid.small;
      size = rw (length-set b.bytes (i / 8) v) valid.size;
      fits = set-IsByte b.bytes (i / 8) v valid.fits v_fits;
      padding = λ j far. ground (arith, reads j, valid.padding j far);
      counted = count-written b.bits i w b.count c value _ _ lt flips is reads valid.counted counts;
    }

-- The two writes: of a one over a zero, and of a zero over a one.
write_bit-true :
    (b : Bitfield) (i : ℕ)
    → IsValid b
    → i < b.bits
    → bit_at b.bytes i ≡ 0
    → IsValid (write_bit b i true)
unfolding write_bit mask_of
write_bit-true b i v lt clear =
    let x = get_or b.bytes (i / 8) 0 in
    let ops = λ (k : ℕ) (lt : k < 8).
      byte-Ops x (i % 8) k (get_or-IsByte b.bytes (i / 8) v.fits) (omega arith) lt in
    let bound = sum_below-le b.bits 1 (bit_at b.bytes) (λ j _. bit-le _ _) in
    written-IsValid b i _ 1 true v lt (omega arith) refl (ops 0 (omega arith)).or_fits
      (λ k lt. (ops k lt).after_or) _ (omega (arith, v.counted, v.small, bound))

write_bit-false :
    (b : Bitfield) (i : ℕ)
    → IsValid b
    → i < b.bits
    → bit_at b.bytes i ≡ 1
    → IsValid (write_bit b i false)
unfolding write_bit mask_of
write_bit-false b i v lt here =
    let x = get_or b.bytes (i / 8) 0 in
    let ops = λ (k : ℕ) (lt : k < 8).
      byte-Ops x (i % 8) k (get_or-IsByte b.bytes (i / 8) v.fits) (omega arith) lt in
    let bound = sum_below-le b.bits 1 (bit_at b.bytes) (λ j _. bit-le _ _) in
    let some_bit : bit_at b.bytes i ≤ sum_below b.bits (bit_at b.bytes) =
      le-sum_below b.bits i _ lt in
    written-IsValid b i _ 0 false v lt (omega arith) refl (ops 0 (omega arith)).and_fits
      (λ k lt. (ops k lt).after_and) _ (omega (arith, v.counted, v.small, bound))

-- A write inside the bitfield is skipped where the bit has the value already.
set_bit-inside :
    (b : Bitfield) (i : ℕ) (value : Bool)
    → IsValid b
    → i < b.bits
    → set_bit b i value
      ≡ (if same_bool value (bit_at b.bytes i == 1) then b else write_bit b i value)
unfolding set_bit mask_of
set_bit-inside b i value v lt =
    let x = get_or b.bytes (i / 8) 0 in
    let test =
      (byte-Ops x (i % 8) 0 (get_or-IsByte b.bytes (i / 8) v.fits) (omega arith)
        (omega arith)).test in
    let was : not (bit_and x (2 ^ (7 - i % 8)) == 0) ≡ (bit_at b.bytes i == 1) =
      rw test (ground (arith, bit-le x (i % 8))) in
    let inside : leb b.bits i ≡ false = ground arith in rw (inside, was)

pub set_bit_cases :
    (b : Bitfield) (i : ℕ) (value : Bool)
    → IsValid b
    → i < b.bits
    → ((set_bit b i value ≡ b) × (bit_at b.bytes i ≡ (if value then 1 else 0)))
      ⊎ ((set_bit b i value ≡ write_bit b i value) × (bit_at b.bytes i ≡ (if value then 0 else 1)))
unfolding same_bool
set_bit_cases b i true v lt = elim (Bool-cases (bit_at b.bytes i == 1)) [
  | inl e ↦ inl (set_bit-inside b i true v lt ∙ rw e, ground arith)
  | inr e ↦ inr (
    set_bit-inside b i true v lt ∙ rw e,
    ground (arith, bit-le (get_or b.bytes (i / 8) 0) (i % 8)),
  )
]
set_bit_cases b i false v lt = elim (Bool-cases (bit_at b.bytes i == 1)) [
  | inl e ↦ inr (set_bit-inside b i false v lt ∙ rw e, ground arith)
  | inr e ↦ inl (
    set_bit-inside b i false v lt ∙ rw e,
    ground (arith, bit-le (get_or b.bytes (i / 8) 0) (i % 8)),
  )
]

pub set_bit-outside : (b : Bitfield) (i : ℕ) (value : Bool) → b.bits ≤ i → set_bit b i value ≡ b
unfolding set_bit
set_bit-outside b i value h = ground arith

write_bit-IsValid :
    (b : Bitfield) (i : ℕ) (value : Bool)
    → IsValid b
    → i < b.bits
    → bit_at b.bytes i ≡ (if value then 0 else 1)
    → IsValid (write_bit b i value)
write_bit-IsValid b i true v lt e = write_bit-true b i v lt e
write_bit-IsValid b i false v lt e = write_bit-false b i v lt e

-- A write keeps a bitfield well formed, its cached count included, at any index.
pub set_bit-IsValid :
    {b : Bitfield} (i : ℕ) (value : Bool) → IsValid b → IsValid (set_bit b i value)
set_bit-IsValid {b} i value v = elim (dec_lt i b.bits) [
  | yes lt ↦ elim (set_bit_cases b i value v lt) [
    | inl (same, e) ↦ rw same v
    | inr (wrote, e) ↦ rw wrote (write_bit-IsValid b i value v lt e)
  ]
  | no out ↦ rw (set_bit-outside b i value (omega arith)) v
]

pub bit_at-write_bit :
    (b : Bitfield) (i : ℕ) (value : Bool)
    → IsValid b
    → i < b.bits
    → (j : ℕ)
    → bit_at (write_bit b i value).bytes j
      ≡ (if j == i then (if value then 1 else 0) else bit_at b.bytes j)
unfolding write_bit mask_of
bit_at-write_bit b i true v lt =
    let x = get_or b.bytes (i / 8) 0 in
    bit_at-set b.bytes i _ 1 (omega (arith, v.size)) (λ k lt.
      (byte-Ops x (i % 8) k (get_or-IsByte b.bytes (i / 8) v.fits) (omega arith) lt).after_or)
bit_at-write_bit b i false v lt =
    let x = get_or b.bytes (i / 8) 0 in
    bit_at-set b.bytes i _ 0 (omega (arith, v.size)) (λ k lt.
      (byte-Ops x (i % 8) k (get_or-IsByte b.bytes (i / 8) v.fits) (omega arith) lt).after_and)

pub bits-set_bit : (b : Bitfield) (i : ℕ) (value : Bool) → (set_bit b i value).bits ≡ b.bits
unfolding set_bit write_bit
bits-set_bit b i true = ground arith
bits-set_bit b i false = ground arith
