-- ===== src/Bytes/Text/Laws.antt =====
-- source/util/bytes.cpp: what `starts_with`, `split` and `trim` return.
use torfoil.Prelude.{
  ℕ, ◌≤◌, ◌≡◌, refl, ◌≢◌, ◌⊎◌, inl, inr, ◌↔◌, true, false, List, [], ◌∷◌, ◌++◌, arith, ◌==◌, All,
  Bytes, Bool-cases, ap, ◌∙◌,
}
use torfoil.Bytes.Sanitize.{drop_back, keep_front, drop_back_split}
use torfoil.Bytes.Text.{is_space, drop_front, trim, starts_with, push_front, split}

starts_with-front : (p r : Bytes) → starts_with (p ++ r) p ≡ true
unfolding starts_with
starts_with-front [] r = refl
starts_with-front (c ∷ p) r = ground (arith, starts_with-front p r)

starts_with-rest : (s p : Bytes) → starts_with s p ≡ true → (r : Bytes) × (s ≡ p ++ r)
unfolding starts_with
starts_with-rest s [] h = (s, refl)
starts_with-rest [] (p ∷ prefix) h = cc
starts_with-rest (c ∷ s) (p ∷ prefix) h =
    let (r, e) = starts_with-rest s prefix (ground arith) in (r, ground arith)

-- `starts_with` tells exactly whether the text is the prefix with something behind it.
pub starts_with_iff : (s p : Bytes) → (starts_with s p ≡ true) ↔ ((r : Bytes) × (s ≡ p ++ r))
starts_with_iff s p = (starts_with-rest s p, λ h. rw h.1 (starts_with-front p h.0))

abbrev pub Lacks : ℕ → Bytes → Type 0
Lacks b = All (λ c. c ≢ b)

-- The parts with a separator between any two.
abbrev pub join : ℕ → List Bytes → Bytes
join sep [] = []
join sep (part ∷ []) = part
join sep (part ∷ next ∷ more) = part ++ sep ∷ join sep (next ∷ more)

push_front-ne-nil : (c : ℕ) (parts : List Bytes) → push_front c parts ≢ []
unfolding push_front
push_front-ne-nil c [] = cc
push_front-ne-nil c (part ∷ parts) = cc

split-ne-nil : (s : Bytes) (sep : ℕ) → split s sep ≢ []
unfolding split
split-ne-nil [] sep = cc
split-ne-nil (c ∷ s) sep = elim (Bool-cases (c == sep)) [
  | inl e ↦ rw (e, split) (cc)
  | inr e ↦ rw (e, split) (push_front-ne-nil c (split s sep))
]

join-push_front :
    (c sep : ℕ) (parts : List Bytes)
    → parts ≢ []
    → join sep (push_front c parts) ≡ c ∷ join sep parts
unfolding push_front
join-push_front c sep [] h = absurd (h refl)
join-push_front c sep (part ∷ []) h = refl
join-push_front c sep (part ∷ next ∷ more) h = refl

join-nil :
    (sep : ℕ) (parts : List Bytes) → parts ≢ [] → join sep ([] ∷ parts) ≡ sep ∷ join sep parts
join-nil sep [] h = absurd (h refl)
join-nil sep (part ∷ parts) h = refl

join-split : (s : Bytes) (sep : ℕ) → join sep (split s sep) ≡ s
unfolding split
join-split [] sep = refl
join-split (c ∷ s) sep = elim (Bool-cases (c == sep)) [
  | inl e ↦
      rw (e, split) (join-nil sep _ (split-ne-nil s sep) ∙ rw (join-split s sep) (ground arith))
  | inr e ↦ rw (e, split) (join-push_front c sep _ (split-ne-nil s sep) ∙ rw (join-split s sep))
]

push_front-Lacks :
    (c sep : ℕ) (parts : List Bytes)
    → c ≢ sep
    → All (Lacks sep) parts
    → All (Lacks sep) (push_front c parts)
unfolding push_front
push_front-Lacks c sep [] h all = ((h, tt), tt)
push_front-Lacks c sep (part ∷ parts) h all = ((h, all.0), all.1)

split-Lacks : (s : Bytes) (sep : ℕ) → All (Lacks sep) (split s sep)
unfolding split
split-Lacks [] sep = (tt, tt)
split-Lacks (c ∷ s) sep = elim (Bool-cases (c == sep)) [
  | inl e ↦ rw (e, split) (tt, split-Lacks s sep)
  | inr e ↦ rw (e, split) (push_front-Lacks c sep _ (ground arith) (split-Lacks s sep))
]

-- `split` cuts a text at every separator: no part holds one, there is at least one part, and the parts
-- with a separator between any two are the text.
pub split_lem :
    (s : Bytes) (sep : ℕ)
    → (split s sep ≢ []) × All (Lacks sep) (split s sep) × (join sep (split s sep) ≡ s)
split_lem s sep = (split-ne-nil s sep, split-Lacks s sep, join-split s sep)

abbrev pub IsSpace : ℕ → Type 0
IsSpace c = (c ≡ b' ') ⊎ ((9 ≤ c) × (c ≤ 13))

is_space_iff : (c : ℕ) → (is_space c ≡ true) ↔ IsSpace c
unfolding is_space
is_space_iff c = (λ h. ground arith, λ h. ground arith)

All-IsSpace : (s : Bytes) → All (λ c. is_space c ≡ true) s → All IsSpace s
All-IsSpace [] h = tt
All-IsSpace (c ∷ s) h = ((is_space_iff c).0 h.0, All-IsSpace s h.1)

-- The first character, and the last one, if there are any, are no blanks.
abbrev pub StartsSolid : Bytes → Type 0
StartsSolid [] = Unit {0}
StartsSolid (c ∷ s) = ¬ IsSpace c

abbrev pub EndsSolid : Bytes → Type 0
EndsSolid [] = Unit {0}
EndsSolid (c ∷ []) = ¬ IsSpace c
EndsSolid (c ∷ d ∷ s) = EndsSolid (d ∷ s)

not-IsSpace : (c : ℕ) → is_space c ≡ false → ¬ IsSpace c
unfolding is_space
not-IsSpace c e h = ground arith

drop_front_split :
    (s : Bytes) → (l : Bytes) × (s ≡ l ++ drop_front s) × All IsSpace l × StartsSolid (drop_front s)
unfolding drop_front
drop_front_split [] = ([], refl, tt, tt)
drop_front_split (c ∷ s) = elim (Bool-cases (is_space c)) [
  | inl e ↦
      let (l, whole, blank, solid) = drop_front_split s in
      (
        c ∷ l,
        rw (e, drop_front) (ap (◌∷◌ c) whole),
        ((is_space_iff c).0 e, blank),
        rw (e, drop_front) solid,
      )
  | inr e ↦ ([], rw (e, drop_front) refl, tt, rw (e, drop_front) (not-IsSpace c e))
]

keep_front-EndsSolid : (c : ℕ) (s : Bytes) → EndsSolid s → EndsSolid (keep_front is_space c s)
unfolding keep_front
keep_front-EndsSolid c [] h = elim (Bool-cases (is_space c)) [
  | inl e ↦ rw e tt
  | inr e ↦ rw e (not-IsSpace c e)
]
keep_front-EndsSolid c (d ∷ s) h = h

drop_back-EndsSolid : (s : Bytes) → EndsSolid (drop_back is_space s)
unfolding drop_back
drop_back-EndsSolid [] = tt
drop_back-EndsSolid (c ∷ s) = keep_front-EndsSolid c _ (drop_back-EndsSolid s)

keep_front-StartsSolid : (c : ℕ) (s : Bytes) → ¬ IsSpace c → StartsSolid (keep_front is_space c s)
unfolding keep_front
keep_front-StartsSolid c [] h = elim (Bool-cases (is_space c)) [ inl e ↦ rw e tt | inr e ↦ rw e h ]
keep_front-StartsSolid c (d ∷ s) h = h

drop_back-StartsSolid : (s : Bytes) → StartsSolid s → StartsSolid (drop_back is_space s)
unfolding drop_back
drop_back-StartsSolid [] h = tt
drop_back-StartsSolid (c ∷ s) h = keep_front-StartsSolid c (drop_back is_space s) h

-- `trim` takes blanks off both ends and nothing else, and leaves none there.
pub trim_lem :
    (s : Bytes)
    → (l r : Bytes) × (s ≡ l ++ (trim s ++ r))
      × All IsSpace l
      × All IsSpace r
      × StartsSolid (trim s)
      × EndsSolid (trim s)
unfolding trim
trim_lem s =
    let (l, front, blank, solid) = drop_front_split s in
    let (r, back, blanks) = drop_back_split is_space (drop_front s) in
    (
      l,
      r,
      front ∙ ap (◌++◌ l) back,
      blank,
      All-IsSpace r blanks,
      drop_back-StartsSolid _ solid,
      drop_back-EndsSolid (drop_front s),
    )

push_front-append :
    (c : ℕ) (parts more : List Bytes)
    → parts ≢ []
    → push_front c (parts ++ more) ≡ push_front c parts ++ more
unfolding push_front
push_front-append c [] more h = absurd (h refl)
push_front-append c (part ∷ parts) more h = refl

-- Two texts with a separator between are split apart there.
pub split-append : (a b : Bytes) (sep : ℕ) → split (a ++ sep ∷ b) sep ≡ split a sep ++ split b sep
unfolding split
split-append [] b sep = let same : (sep == sep) ≡ true = ground arith in rw (same, split) refl
split-append (c ∷ a) b sep = elim (Bool-cases (c == sep)) [
  | inl e ↦ rw (e, split) (ap (◌∷◌ []) (split-append a b sep))
  | inr e ↦
      rw (e, split)
        (ap (push_front c) (split-append a b sep)
          ∙ push_front-append c (split a sep) (split b sep) (split-ne-nil a sep))
]

-- A text with no separator is one part.
pub split_whole : (s : Bytes) (sep : ℕ) → Lacks sep s → split s sep ≡ s ∷ []
unfolding split
split_whole [] sep h = refl
split_whole (c ∷ s) sep (other, h) =
    let it : (c == sep) ≡ false = ground arith in
    rw (it, split) (ap (push_front c) (split_whole s sep h))
