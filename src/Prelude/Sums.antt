-- ===== src/Prelude/Sums.antt =====
-- Sums over an initial segment of the numbers.
use Prim.Native.Nat.{ℕ, zero, suc, ◌+◌, ◌*◌, ◌≤◌, ◌<◌}
use mathlib.Core.Path.{◌≡◌, refl, sym, subst}
use mathlib.Core.Logic.{◌≢◌}
use native.Mathlib.Omega.{arith}
use native.Mathlib.Decide.{ℕ_discrete}
use native.Mathlib.Nat.{add-zero, add-suc}

abbrev pub sum_below : ℕ → (ℕ → ℕ) → ℕ
sum_below zero f = 0
sum_below (suc n) f = sum_below n f + f n

pub sum_below-eq :
    (n : ℕ) (f g : ℕ → ℕ) → ((i : ℕ) → i < n → f i ≡ g i) → sum_below n f ≡ sum_below n g
sum_below-eq zero f g h = refl
sum_below-eq (suc n) f g h =
    omega (arith, sum_below-eq n f g (λ i lt. h i (omega arith)), h n (omega arith))

-- A term that grows by `d` makes the sum grow by `d`.
pub sum_below_bump :
    (n i d : ℕ) (f g : ℕ → ℕ)
    → i < n
    → g i ≡ f i + d
    → ((j : ℕ) → j ≢ i → g j ≡ f j)
    → sum_below n g ≡ sum_below n f + d
sum_below_bump zero i d f g lt up same = absurd (omega arith)
sum_below_bump (suc n) i d f g lt up same = elim (ℕ_discrete n i) [
  | yes e ↦ omega (
    arith,
    sum_below-eq n g f (λ j below. same j (omega arith)),
    subst (λ k. g k ≡ f k + d) (sym e) up,
  )
  | no ne ↦ omega (arith, sum_below_bump n i d f g (omega arith) up same, same n ne)
]

pub sum_below-add :
    (m n : ℕ) (f : ℕ → ℕ) → sum_below (m + n) f ≡ sum_below m f + sum_below n (λ i. f (m + i))
sum_below-add m zero f = rw (add-zero m) (omega arith)
sum_below-add m (suc n) f = rw (add-suc m n) (omega (arith, sum_below-add m n f))

pub sum_below-zero : (n : ℕ) (f : ℕ → ℕ) → ((i : ℕ) → i < n → f i ≡ 0) → sum_below n f ≡ 0
sum_below-zero zero f h = refl
sum_below-zero (suc n) f h =
    omega (arith, sum_below-zero n f (λ i lt. h i (omega arith)), h n (omega arith))

pub sum_below-le : (n c : ℕ) (f : ℕ → ℕ) → ((i : ℕ) → i < n → f i ≤ c) → sum_below n f ≤ n * c
sum_below-le zero c f h = omega arith
sum_below-le (suc n) c f h =
    grind (arith, sum_below-le n c f (λ i lt. h i (omega arith)), h n (omega arith))

-- A sum of zeros and ones reaches its bound only where each term is one.
pub sum_below_full :
    (n : ℕ) (f : ℕ → ℕ) → ((i : ℕ) → f i ≤ 1) → sum_below n f ≡ n → (i : ℕ) → i < n → f i ≡ 1
sum_below_full zero f h e i lt = absurd (omega arith)
sum_below_full (suc n) f h e i lt =
    let below : sum_below n f ≤ n * 1 = sum_below-le n 1 f (λ j _. h j) in
    let last : f n ≡ 1 = omega (arith, h n) in
    elim (ℕ_discrete i n) [
      | yes same ↦ rw same last
      | no other ↦ sum_below_full n f h (omega (arith, h n)) i (omega arith)
    ]

pub le-sum_below : (n i : ℕ) (f : ℕ → ℕ) → i < n → f i ≤ sum_below n f
le-sum_below zero i f lt = absurd (omega arith)
le-sum_below (suc n) i f lt = elim (ℕ_discrete i n) [
  | yes e ↦ rw e (omega arith)
  | no ne ↦ omega (arith, le-sum_below n i f (omega arith))
]

pub sum_below-ones : (n : ℕ) (f : ℕ → ℕ) → ((i : ℕ) → i < n → f i ≡ 1) → sum_below n f ≡ n
sum_below-ones zero f h = refl
sum_below-ones (suc n) f h =
    omega (arith, sum_below-ones n f (λ i lt. h i (omega arith)), h n (omega arith))

pub sum_below_mono :
    (n : ℕ) (f g : ℕ → ℕ) → ((i : ℕ) → i < n → f i ≤ g i) → sum_below n f ≤ sum_below n g
sum_below_mono zero f g h = omega arith
sum_below_mono (suc n) f g h =
    omega (arith, sum_below_mono n f g (λ i lt. h i (omega arith)), h n (omega arith))

-- Equal sums of terms that are each at most as large have equal terms.
pub sum_below-eq_of_le :
    (n : ℕ) (f g : ℕ → ℕ)
    → ((i : ℕ) → i < n → f i ≤ g i)
    → sum_below n f ≡ sum_below n g
    → (i : ℕ) → i < n
    → f i ≡ g i
sum_below-eq_of_le zero f g h e i lt = absurd (omega arith)
sum_below-eq_of_le (suc n) f g h e i lt =
    let below = sum_below_mono n f g (λ j lt. h j (omega arith)) in
    elim (ℕ_discrete i n) [
      | yes same ↦ rw same (omega (arith, h n (omega arith)))
      | no other ↦
          sum_below-eq_of_le n f g (λ j lt. h j (omega arith)) (omega (arith, h n (omega arith))) i
            (omega arith)
    ]
