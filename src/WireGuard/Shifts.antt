-- ===== src/WireGuard/Shifts.antt =====
-- source/net/wg/wireguard.cpp: the bits of the window under its two writes, `bits << shift | 1` and
-- `bits | 1 << shift`.
use torfoil.Prelude.{
  ℕ, zero, suc, ◌+◌, ◌*◌, ◌/◌, ◌%◌, ◌^◌, ◌≤◌, ◌<◌, true, false, ◌==◌, ==_iff, ◌≡◌, ◌≢◌, refl, sym,
  ap, ◌∙◌, arith, Bool-cases, inl, inr,
}
use native.Mathlib.Nat.{
  div-div-eq-div-mul, pow-succ', add-suc, add-zero, mul-one, pow-zero, div-add-mod',
}
use torfoil.WireGuard.Transport.{bit_set, set_shifted, slide}

-- Bit `k`, by halving.
unfoldable bit_at : ℕ → ℕ → ℕ
bit_at zero x = x % 2
bit_at (suc k) x = bit_at k (x / 2)

bit_at-div : (k x : ℕ) → x / 2 ^ k % 2 ≡ bit_at k x
unfolding bit_at
bit_at-div zero x = omega arith
bit_at-div (suc k) x =
    rw (pow-succ' 2 k)
      (ap (λ y. y % 2) (sym (div-div-eq-div-mul x 2 (2 ^ k))) ∙ bit_at-div k (x / 2))

bit_at-zero : (k : ℕ) → bit_at k 0 ≡ 0
unfolding bit_at
bit_at-zero zero = refl
bit_at-zero (suc k) = bit_at-zero k

bit_at-le : (k x : ℕ) → bit_at k x ≤ 1
unfolding bit_at
bit_at-le zero x = omega arith
bit_at-le (suc k) x = bit_at-le k (x / 2)

double : (b s : ℕ) → b * 2 ^ suc s ≡ 2 * (b * 2 ^ s)
double b s = rw (pow-succ' 2 s) (omega arith)

-- Below `n`, a multiple of 2^n changes no bit.
bit_at-multiple : (k n q r : ℕ) → k < n → bit_at k (q * 2 ^ n + r) ≡ bit_at k r
unfolding bit_at
bit_at-multiple k zero q r h = absurd (omega arith)
bit_at-multiple zero (suc n) q r h = omega (arith, double q n)
bit_at-multiple (suc k) (suc n) q r h =
    ap (bit_at k) (halved _ (double q n)) ∙ bit_at-multiple k n q (r / 2) (omega arith)
  where
    halved : (x : ℕ) → x ≡ 2 * (q * 2 ^ n) → (x + r) / 2 ≡ q * 2 ^ n + r / 2
    halved x e = omega arith

bit_at-shift : (k s b : ℕ) → bit_at (k + s) (b * 2 ^ s) ≡ bit_at k b
unfolding bit_at
bit_at-shift k zero b = simp (add-zero, mul-one, pow-zero) refl
bit_at-shift k (suc s) b =
    rw (add-suc k s) (ap (bit_at (k + s)) (halved _ (double b s)) ∙ bit_at-shift k s b)
  where
    halved : (x : ℕ) → x ≡ 2 * (b * 2 ^ s) → x / 2 ≡ b * 2 ^ s
    halved x e = omega arith

bit_at-other : (s j b : ℕ) → bit_at s b ≡ 0 → j ≢ s → bit_at j (b + 2 ^ s) ≡ bit_at j b
unfolding bit_at
bit_at-other zero zero b h ne = absurd (ne refl)
bit_at-other zero (suc j) b h ne = ap (bit_at j) halved
  where
    halved : (b + 1) / 2 ≡ b / 2
    halved = omega arith
bit_at-other (suc s) zero b h ne = omega (arith, pow-succ' 2 s)
bit_at-other (suc s) (suc j) b h ne =
    ap (bit_at j) halved ∙ bit_at-other s j (b / 2) h (λ e. ne (ap suc e))
  where
    halved : (b + 2 ^ suc s) / 2 ≡ b / 2 + 2 ^ s
    halved = omega (arith, pow-succ' 2 s)

bit_at-same : (s b : ℕ) → bit_at s b ≡ 0 → bit_at s (b + 2 ^ s) ≡ 1
unfolding bit_at
bit_at-same zero b h = omega arith
bit_at-same (suc s) b h = ap (bit_at s) halved ∙ bit_at-same s (b / 2) h
  where
    halved : (b + 2 ^ suc s) / 2 ≡ b / 2 + 2 ^ s
    halved = omega (arith, pow-succ' 2 s)

bit_at-mod : (k x : ℕ) → k < 64 → bit_at k (x % 2 ^ 64) ≡ bit_at k x
bit_at-mod k x h =
    sym (bit_at-multiple k 64 (x / 2 ^ 64) (x % 2 ^ 64) h) ∙ ap (bit_at k) (div-add-mod' x (2 ^ 64))

bit_at-slide :
    (k s b : ℕ) → k < 63 → bit_at (suc k) (slide b (suc s)) ≡ bit_at (suc k) (b * 2 ^ suc s)
unfolding bit_at
bit_at-slide k s b h = ap (bit_at k) (halved _ (double b s)) ∙ bit_at-mod (suc k) _ (omega arith)
  where
    halved : (x : ℕ) → x ≡ 2 * (b * 2 ^ s) → (x % 2 ^ 64 + 1) / 2 ≡ x % 2 ^ 64 / 2
    halved x e = omega arith

bit_at-true : (k x : ℕ) → bit_at k x ≡ 1 → bit_set x k ≡ true
bit_at-true k x h = (==_iff _ _).1 (bit_at-div k x ∙ h)

bit_at-false : (k x : ℕ) → bit_at k x ≡ 0 → bit_set x k ≡ false
bit_at-false k x h = rw (bit_at-div k x ∙ h) refl

bit_at-same_bit : (k j x y : ℕ) → bit_at k x ≡ bit_at j y → bit_set x k ≡ bit_set y j
bit_at-same_bit k j x y h = ap (λ d. d == 1) (bit_at-div k x ∙ h ∙ sym (bit_at-div j y))

clear-bit_at : (k x : ℕ) → bit_set x k ≡ false → bit_at k x ≡ 0
clear-bit_at k x h = ground (arith, bit_at-le k x, bit_at-div k x)

-- After `bits | 1 << s`, bit `s` is set and the others are as they were.
pub set_shifted-same : (bits s : ℕ) → bit_set (set_shifted bits s) s ≡ true
set_shifted-same bits s = elim (Bool-cases (bit_set bits s)) [
  | inl set ↦ rw set set
  | inr clear ↦ rw clear (bit_at-true s _ (bit_at-same s bits (clear-bit_at s bits clear)))
]

pub set_shifted-other : (bits s j : ℕ) → j ≢ s → bit_set (set_shifted bits s) j ≡ bit_set bits j
set_shifted-other bits s j ne = elim (Bool-cases (bit_set bits s)) [
  | inl set ↦ rw set refl
  | inr clear ↦
      rw clear (bit_at-same_bit j j _ _ (bit_at-other s j bits (clear-bit_at s bits clear) ne))
]

-- After `bits << s | 1` with `s` not 0, bit 0 is set, those below `s` are not, and the others have
-- moved.
pub slide-zero : (bits s : ℕ) → bit_set (slide bits (suc s)) 0 ≡ true
slide-zero bits s = low _ (double bits s)
  where
    low : (x : ℕ) → x ≡ 2 * (bits * 2 ^ s) → bit_set (x % 2 ^ 64 + 1) 0 ≡ true
    low x e = (==_iff _ _).1 (omega arith)

pub slide-low : (bits s k : ℕ) → suc k < 64 → k < s → bit_set (slide bits (suc s)) (suc k) ≡ false
slide-low bits s k small low = bit_at-false (suc k) _ (
    bit_at-slide k s bits (omega arith)
    ∙ ap (bit_at (suc k)) (sym (add-zero _))
    ∙ bit_at-multiple (suc k) (suc s) bits 0 (omega arith)
    ∙ bit_at-zero (suc k))

pub slide-high :
    (bits s k : ℕ) → k + suc s < 64 → bit_set (slide bits (suc s)) (k + suc s) ≡ bit_set bits k
slide-high bits s k small = bit_at-same_bit (k + suc s) k _ _ (
    rw (add-suc k s) (
      bit_at-slide (k + s) s bits (omega arith)
      ∙ ap (λ j. bit_at j (bits * 2 ^ suc s)) (sym (add-suc k s))
      ∙ bit_at-shift k (suc s) bits))

pub one-other : (k : ℕ) → bit_set 1 (suc k) ≡ false
unfolding bit_at
one-other k = bit_at-false (suc k) 1 (bit_at-zero k)
