-- ===== src/Bitfield/Laws.antt =====
-- source/bt/piece_picker.cpp: what Bitfield's `get`, `set` and `full` promise a caller.
use torfoil.Prelude.{
  sym, ◌∙◌, dec_lt, ℕ, ◌<◌, ◌≤◌, ◌≡◌, Bool, true, false, leb, ◌==◌, ==_iff, if◌then◌else◌, arith,
  ◌↔◌, inl, inr, ℕ_discrete,
}
use torfoil.Prelude.Sums.{sum_below_full, sum_below-ones}
use torfoil.Bitfield.{Bitfield, get, set_bit, full}
use torfoil.Bitfield.Bits.{bit-le}
use torfoil.Bitfield.Valid.{IsValid, bit_at}
use torfoil.Bitfield.Writes.{set_bit_cases, set_bit-outside, bit_at-write_bit, bits-set_bit}

get-bit_at : (b : Bitfield) (i : ℕ) → i < b.bits → get b i ≡ (bit_at b.bytes i == 1)
unfolding get
get-bit_at b i lt = ground arith

get-outside : (b : Bitfield) (i : ℕ) → b.bits ≤ i → get b i ≡ false
unfolding get
get-outside b i h = ground arith

bit_at-set_bit :
    (b : Bitfield) (i : ℕ) (value : Bool)
    → IsValid b
    → i < b.bits
    → (j : ℕ)
    → bit_at (set_bit b i value).bytes j
      ≡ (if j == i then (if value then 1 else 0) else bit_at b.bytes j)
bit_at-set_bit b i value v lt j = elim (set_bit_cases b i value v lt) [
  | inl (same, e) ↦
      rw same
        (elim (ℕ_discrete j i) [ yes hit ↦ rw hit (ground (arith, e)) | no miss ↦ ground arith ])
  | inr (wrote, e) ↦ rw wrote (bit_at-write_bit b i value v lt j)
]

-- A bit reads as it was last written, every other bit as before, and a write behind the end changes
-- nothing.
pub get-set_bit :
    (b : Bitfield) (i j : ℕ) (value : Bool)
    → IsValid b
    → get (set_bit b i value) j
      ≡ (if leb b.bits i then get b j else if j == i then value else get b j)
get-set_bit b i j value v = elim (dec_lt i b.bits) [
  | yes lt ↦ elim (dec_lt j b.bits) [
    | yes in_range ↦ ground (
      arith,
      get-bit_at (set_bit b i value) j (rw (bits-set_bit b i value) in_range),
      get-bit_at b j in_range,
      bit_at-set_bit b i value v lt j,
    )
    | no far ↦ ground (
      arith,
      get-outside (set_bit b i value) j (rw (bits-set_bit b i value) (omega arith)),
      get-outside b j (omega arith),
    )
  ]
  | no out ↦ rw (set_bit-outside b i value (omega arith)) (ground arith)
]

full-count : (b : Bitfield) → (full b ≡ true) ↔ ((0 < b.bits) × (b.count ≡ b.bits))
unfolding full
full-count b = (λ h. ground arith, λ h. ground arith)

-- The cached count makes `full` tell whether every piece is there.
pub full_iff :
    (b : Bitfield)
    → IsValid b
    → (full b ≡ true) ↔ ((0 < b.bits) × ((i : ℕ) → i < b.bits → get b i ≡ true))
full_iff b v = (
  λ h.
      let (some_bits, all) = (full-count b).0 h in
      (
        some_bits,
        λ i lt.
            get-bit_at b i lt
            ∙ (==_iff _ 1).1 (
                sum_below_full b.bits (bit_at b.bytes) (λ i. bit-le _ _) (sym v.counted ∙ all) i
                  lt),
      ),
  λ h. (full-count b).1 (
    h.0,
    v.counted
        ∙ sum_below-ones b.bits _ (λ i lt. (==_iff _ 1).0 (sym (get-bit_at b i lt) ∙ h.1 i lt)),
  ),
)
