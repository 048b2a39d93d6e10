-- ===== src/WireGuard/Tells.antt =====
-- source/net/wg/wireguard.cpp: what the bits of the window tell of the counters seen.
use torfoil.Prelude.{
  ℕ, suc, ◌+◌, ◌-◌, ◌≤◌, ◌<◌, Bool, true, false, List, [], ◌∷◌, ◌≡◌, ◌≢◌, ◌⊎◌, ◌↔◌, inl, inr, refl,
  sym, ap, ◌∙◌, arith, subst, ℕ_discrete, dec_lt,
}
use torfoil.WireGuard.Transport.{bit_set, set_shifted, slide}
use torfoil.WireGuard.Shifts.{
  set_shifted-same, set_shifted-other, slide-zero, slide-low, slide-high, one-other,
}

-- The counters let through so far, the last first.
abbrev pub Seen : ℕ → List ℕ → Type 0
Seen counter [] = ⊥
Seen counter (a ∷ seen) = (counter ≡ a) ⊎ Seen counter seen

-- The bits tell which of the 64 counters from the highest down were seen.
abbrev pub Tells : ℕ → ℕ → List ℕ → Type 0
Tells bits highest seen =
    (n : ℕ) → n ≤ highest → highest < n + 64 → (bit_set bits (highest - n) ≡ true) ↔ Seen n seen

clear_iff {ℓ} : {A : Type ℓ} {b : Bool} → b ≡ false → (A → ⊥) → (b ≡ true) ↔ A
clear_iff clear no_a = ((λ set. absurd (cc)), (λ a. absurd (no_a a)))

set_iff {ℓ} : {A : Type ℓ} {b : Bool} → b ≡ true → A → (b ≡ true) ↔ A
set_iff set a = ((λ _. a), (λ _. set))

self-minus : (n : ℕ) → n - n ≡ 0
self-minus n = omega arith

-- A difference that is not 0.
difference : (a b : ℕ) → b ≤ a → a ≢ b → (k : ℕ) × (a - b ≡ suc k)
difference a b le ne = (a - b - 1, ground arith)

-- The highest counter itself.
highest-Tells :
    (bits counter n : ℕ) (seen : List ℕ)
    → bit_set bits 0 ≡ true
    → counter ≡ n
    → (bit_set bits (counter - n) ≡ true) ↔ Seen n (counter ∷ seen)
highest-Tells bits counter n seen set same = set_iff (rw (same, self-minus n) set) (inl (sym same))

-- A counter that was passed over.
passed-Tells :
    {b : Bool} {counter n : ℕ} (seen : List ℕ)
    → b ≡ false
    → counter ≢ n
    → (Seen n seen → ⊥)
    → (b ≡ true) ↔ Seen n (counter ∷ seen)
passed-Tells seen clear other unseen =
    clear_iff clear (λ s. elim s [ inl e ↦ other (sym e) | inr s' ↦ unseen s' ])

-- A counter whose bit is as it was.
same-Tells :
    {b b' : Bool} {counter n : ℕ} (seen : List ℕ)
    → b' ≡ b
    → counter ≢ n
    → (b ≡ true) ↔ Seen n seen
    → (b' ≡ true) ↔ Seen n (counter ∷ seen)
same-Tells seen kept other tells = (
  (λ set. inr (tells.0 (sym kept ∙ set))),
  (λ s. elim s [ inl e ↦ absurd (other (sym e)) | inr s' ↦ kept ∙ tells.1 s' ]),
)

-- The bits of a window that held nothing, or nothing near.
pub restart-Tells :
    (counter : ℕ) (seen : List ℕ)
    → ((n : ℕ) → counter < n + 64 → Seen n seen → ⊥)
    → Tells 1 counter (counter ∷ seen)
restart-Tells counter seen unseen n le near = elim (ℕ_discrete counter n) [
  | yes same ↦ highest-Tells 1 counter n seen refl same
  | no other ↦
      let (k, e) = difference counter n le other in
      passed-Tells seen (rw e (one-other k)) other (unseen n near)
]

-- The window moves up by `suc s`.
slide-Tells :
    (bits highest s : ℕ) (seen : List ℕ)
    → ((n : ℕ) → Seen n seen → n ≤ highest)
    → Tells bits highest seen
    → Tells (slide bits (suc s)) (highest + suc s) ((highest + suc s) ∷ seen)
slide-Tells bits highest s seen below tells n le near = elim (ℕ_discrete (highest + suc s) n) [
  | yes same ↦ highest-Tells _ _ n seen (slide-zero bits s) same
  | no other ↦ elim (dec_lt highest n) [
    | yes above ↦
        let (k, e) = difference _ n le other in
        passed-Tells seen (rw e (slide-low bits s k (omega arith) (omega arith))) other
          (λ seen_n. absurd (above_all above (below n seen_n)))
    | no not_above ↦
        same-Tells seen
          (ap (bit_set _) (distance (omega arith)) ∙ slide-high bits s (highest - n) (omega arith))
          other (tells n (omega arith) (omega arith))
  ]
]
  where
    above_all : highest < n → n ≤ highest → ⊥
    above_all a b = omega arith

    distance : n ≤ highest → highest + suc s - n ≡ (highest - n) + suc s
    distance h = omega arith

-- The window moves up to `counter`.
pub climb-Tells :
    (bits highest counter : ℕ) (seen : List ℕ)
    → highest < counter
    → ((n : ℕ) → Seen n seen → n ≤ highest)
    → Tells bits highest seen
    → Tells (slide bits (counter - highest)) counter (counter ∷ seen)
climb-Tells bits highest counter seen above below tells =
    let (s, e) = difference counter highest (omega arith) (omega arith) in
    rw e (
      subst (λ m. Tells (slide bits (suc s)) m (m ∷ seen)) (reached s e)
        (slide-Tells bits highest s seen below tells))
  where
    reached : (s : ℕ) → counter - highest ≡ suc s → highest + suc s ≡ counter
    reached s e = omega arith

-- A counter below the highest is marked.
pub mark-Tells :
    (bits highest counter : ℕ) (seen : List ℕ)
    → counter ≤ highest
    → Tells bits highest seen
    → Tells (set_shifted bits (highest - counter)) highest (counter ∷ seen)
mark-Tells bits highest counter seen within tells n le near = elim (ℕ_discrete counter n) [
  | yes same ↦
      set_iff
        (ap (λ m. bit_set (set_shifted bits (highest - counter)) (highest - m)) (sym same)
          ∙ set_shifted-same bits (highest - counter))
        (inl (sym same))
  | no other ↦
      same-Tells seen (set_shifted-other bits (highest - counter) (highest - n) (apart other)) other
        (tells n le near)
]
  where
    apart : counter ≢ n → highest - n ≢ highest - counter
    apart other e = other (omega arith)
