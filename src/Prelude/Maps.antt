-- ===== src/Prelude/Maps.antt =====
-- An `unordered_map` with numbers for keys, as the list of its entries in the order of iteration.
use Prim.Native.Nat.{ℕ}
use mathlib.Core.Path.{◌≡◌, refl, sym, subst}
use mathlib.Core.Logic.{◌⊎◌, inl, inr, ◌≢◌}
use mathlib.Core.Bool.{true, false}
use mathlib.Core.List.{List, [], ◌∷◌}
use mathlib.Core.Option.{Option, none, some}
use native.Mathlib.Omega.{arith}
use native.Mathlib.Decide.{ℕ_discrete}
use torfoil.Prelude.Lists.{All}
use torfoil.Prelude.Tests.{Bool-cases, ◌==◌, if◌then◌else◌}

module _ {ℓ} {V : Type ℓ} where
  unfoldable pub find : ℕ → List (ℕ × V) → Option V
  find key [] = none
  find key ((k, value) ∷ rest) = if k == key then some value else find key rest

  -- `m[k] = v`.
  unfoldable pub put : ℕ → V → List (ℕ × V) → List (ℕ × V)
  put key new [] = (key, new) ∷ []
  put key new ((k, old) ∷ rest) =
      if k == key then (key, new) ∷ rest else (k, old) ∷ put key new rest

  unfoldable pub erase : ℕ → List (ℕ × V) → List (ℕ × V)
  erase k [] = []
  erase k ((j, v) ∷ m) = if j == k then erase k m else (j, v) ∷ erase k m

  abbrev pub keys : List (ℕ × V) → List ℕ
  keys [] = []
  keys ((k, v) ∷ m) = k ∷ keys m

module _ {ℓ} {V : Type ℓ} where
  pub find-put :
      (k j : ℕ) (v : V) (m : List (ℕ × V))
      → find j (put k v m) ≡ (if k == j then some v else find j m)
  unfolding find put
  find-put k j v [] = refl
  find-put k j v ((i, w) ∷ m) = ground (arith, find-put k j v m)

  pub find-erase :
      (k j : ℕ) (m : List (ℕ × V)) → find j (erase k m) ≡ (if k == j then none else find j m)
  unfolding find erase
  find-erase k j [] = ground arith
  find-erase k j ((i, w) ∷ m) = ground (arith, find-erase k j m)

module _ {ℓ κ} {V : Type ℓ} (P : ℕ → V → Type κ) where
  -- Every entry that a lookup can find.
  abbrev pub Holds : List (ℕ × V) → Type (ℓ ⊔ κ)
  Holds m = (k : ℕ) (v : V) → find k m ≡ some v → P k v

  pub Holds-put :
      (k : ℕ) (v : V) (m : List (ℕ × V))
      → P k v
      → ((j : ℕ) (w : V) → j ≢ k → find j m ≡ some w → P j w)
      → Holds (put k v m)
  Holds-put k v m new old j w e = elim (ℕ_discrete k j) [
    | yes same ↦
        let value : v ≡ w = ground (arith, find-put k j v m) in
        subst (P j) value (subst (λ i. P i v) same new)
    | no other ↦ old j w (λ e. other (sym e)) (ground (arith, find-put k j v m))
  ]

  pub Holds-erase :
      (k : ℕ) (m : List (ℕ × V))
      → ((j : ℕ) (w : V) → j ≢ k → find j m ≡ some w → P j w)
      → Holds (erase k m)
  Holds-erase k m old j w e = elim (ℕ_discrete k j) [
    | yes same ↦ absurd (ground (arith, find-erase k j m))
    | no other ↦ old j w (λ e. other (sym e)) (ground (arith, find-erase k j m))
  ]

module _ {ℓ κ} {V : Type ℓ} (Q : ℕ → Type κ) where
  -- What holds of every key that a lookup finds holds of every key of the list.
  pub All-keys : (m : List (ℕ × V)) → ((k : ℕ) (v : V) → find k m ≡ some v → Q k) → All Q (keys m)
  unfolding find
  All-keys [] h = tt
  All-keys ((k, v) ∷ m) h =
      (h k v (ground arith), All-keys m (λ j w e. found j w e (Bool-cases (k == j))))
    where
      found : (j : ℕ) (w : V) → find j m ≡ some w → ((k == j) ≡ true) ⊎ ((k == j) ≡ false) → Q j
      found j w e (inl same) = h j v (rw same)
      found j w e (inr other) = h j w (rw other e)
