-- ===== src/Bytes/Sanitize.antt =====
-- source/util/bytes.cpp: `sanitize_filename`. A text is the list of its bytes.
pub mod Names
use torfoil.Prelude.{
  ap, ℕ, suc, ◌+◌, ◌≤◌, ◌<◌, ◌≡◌, refl, ◌≢◌, ◌⊎◌, inl, inr, Bool, true, false, ◌&&◌, ◌||◌, List, [],
  ◌∷◌, ◌++◌, arith, ltb, leb, ◌==◌, if◌then◌else◌, length, take, All, All-take, Bytes, Bool-cases,
  length-take, map, codes, append_assoc, min, length-append,
}

-- Control characters, and what exFAT and FAT32 refuse.
is_forbidden : ℕ → Bool
is_forbidden c =
    ltb c 0x20
    || c == 0x5c
    || c == b'/'
    || c == b':'
    || c == b'*'
    || c == b'?'
    || c == 0x22
    || c == b'<'
    || c == b'>'
    || c == b'|'

replace_forbidden : Bytes → Bytes
replace_forbidden [] = []
replace_forbidden (c ∷ s) = (if is_forbidden c then b'_' else c) ∷ replace_forbidden s

is_dot_or_space : ℕ → Bool
is_dot_or_space c = c == b'.' || c == b' '

-- A byte in front of what `pop_back` has left.
unfoldable pub keep_front : (ℕ → Bool) → ℕ → Bytes → Bytes
keep_front p c [] = if p c then [] else c ∷ []
keep_front p c (d ∷ s) = c ∷ d ∷ s

-- `while (!out.empty() && p(out.back())) out.pop_back();`
unfoldable pub drop_back : (ℕ → Bool) → Bytes → Bytes
drop_back p [] = []
drop_back p (c ∷ s) = keep_front p c (drop_back p s)

or_underscore : Bytes → Bytes
or_underscore [] = b'_' ∷ []
or_underscore (c ∷ s) = c ∷ s

abbrev pub max_name : ℕ
max_name = 200

unfoldable pub sanitize_filename : Bytes → Bytes
unfolding is_forbidden replace_forbidden is_dot_or_space keep_front drop_back or_underscore
sanitize_filename name =
    let out = or_underscore (drop_back is_dot_or_space (replace_forbidden name)) in
    if ltb max_name (length out) then take max_name out else out

keep_front-append :
    (p : ℕ → Bool) (d : ℕ) (s : Bytes) (c : ℕ) → keep_front p d (s ++ c ∷ []) ≡ d ∷ (s ++ c ∷ [])
unfolding keep_front
keep_front-append p d [] c = refl
keep_front-append p d (e ∷ s) c = refl

-- `drop_back` is the loop of the source: a round looks at the last byte only.
pub drop_back-append :
    (p : ℕ → Bool) (s : Bytes) (c : ℕ)
    → drop_back p (s ++ c ∷ []) ≡ (if p c then drop_back p s else s ++ c ∷ [])
unfolding drop_back
drop_back-append p [] c = unfold keep_front in refl
drop_back-append p (d ∷ s) c = ground (arith, drop_back-append p s c, keep_front-append p d s c)

-- A character that exFAT and FAT32 accept in a name.
abbrev pub IsAllowed : ℕ → Type 0
IsAllowed c =
    (0x20 ≤ c)
    × (c ≢ 0x5c)
    × (c ≢ b'/')
    × (c ≢ b':')
    × (c ≢ b'*')
    × (c ≢ b'?')
    × (c ≢ 0x22)
    × (c ≢ b'<')
    × (c ≢ b'>')
    × (c ≢ b'|')

replace-IsAllowed : (c : ℕ) → IsAllowed (if is_forbidden c then b'_' else c)
unfolding is_forbidden
replace-IsAllowed c = elim (Bool-cases (is_forbidden c)) [
  | inl e ↦ rw e (omega arith)
  | inr e ↦ rw e (unfold is_forbidden in ground arith)
]

replace_forbidden-IsAllowed : (s : Bytes) → All IsAllowed (replace_forbidden s)
unfolding replace_forbidden
replace_forbidden-IsAllowed [] = tt
replace_forbidden-IsAllowed (c ∷ s) = (replace-IsAllowed c, replace_forbidden-IsAllowed s)

replace_forbidden_lem : (s : Bytes) → All IsAllowed s → replace_forbidden s ≡ s
unfolding replace_forbidden is_forbidden
replace_forbidden_lem [] h = refl
replace_forbidden_lem (c ∷ s) (hc, hs) = ground (arith, replace_forbidden_lem s hs)

length-replace_forbidden : (s : Bytes) → length (replace_forbidden s) ≡ length s
unfolding replace_forbidden
length-replace_forbidden [] = refl
length-replace_forbidden (c ∷ s) = ap suc (length-replace_forbidden s)

keep_front-All :
    (p : ℕ → Bool) (c : ℕ) (s : Bytes)
    → IsAllowed c
    → All IsAllowed s
    → All IsAllowed (keep_front p c s)
unfolding keep_front
keep_front-All p c [] hc hs = elim (Bool-cases (p c)) [ inl e ↦ rw e tt | inr e ↦ rw e (hc, tt) ]
keep_front-All p c (d ∷ s) hc hs = (hc, hs)

drop_back-All : (p : ℕ → Bool) (s : Bytes) → All IsAllowed s → All IsAllowed (drop_back p s)
unfolding drop_back
drop_back-All p [] h = tt
drop_back-All p (c ∷ s) h = keep_front-All p c _ h.0 (drop_back-All p s h.1)

-- The last character, if there is one, is neither a dot nor a space.
abbrev pub EndsClean : Bytes → Type 0
EndsClean [] = Unit {0}
EndsClean (c ∷ []) = (c ≢ b'.') × (c ≢ b' ')
EndsClean (c ∷ d ∷ s) = EndsClean (d ∷ s)

keep_front-EndsClean :
    (c : ℕ) (s : Bytes) → EndsClean s → EndsClean (keep_front is_dot_or_space c s)
unfolding keep_front is_dot_or_space
keep_front-EndsClean c [] h = elim (Bool-cases (is_dot_or_space c)) [
  | inl e ↦ rw e tt
  | inr e ↦ rw e (unfold is_dot_or_space in ground arith)
]
keep_front-EndsClean c (d ∷ s) h = h

drop_back-EndsClean : (s : Bytes) → EndsClean (drop_back is_dot_or_space s)
unfolding drop_back
drop_back-EndsClean [] = tt
drop_back-EndsClean (c ∷ s) = keep_front-EndsClean c _ (drop_back-EndsClean s)

length-keep_front-le :
    (p : ℕ → Bool) (c : ℕ) (s : Bytes) → length (keep_front p c s) ≤ suc (length s)
unfolding keep_front
length-keep_front-le p c [] = ground arith
length-keep_front-le p c (d ∷ s) = omega arith

length-drop_back-le : (p : ℕ → Bool) (s : Bytes) → length (drop_back p s) ≤ length s
unfolding drop_back
length-drop_back-le p [] = omega arith
length-drop_back-le p (c ∷ s) =
    omega (arith, length-keep_front-le p c (drop_back p s), length-drop_back-le p s)

keep_front_split :
    (p : ℕ → Bool) (c : ℕ) (s kept cut : Bytes)
    → s ≡ kept ++ cut
    → All (λ d. p d ≡ true) cut
    → (cut' : Bytes) × (c ∷ s ≡ keep_front p c kept ++ cut') × All (λ d. p d ≡ true) cut'
unfolding keep_front
keep_front_split p c s [] cut e ok = elim (Bool-cases (p c)) [
  | inl drop ↦ (c ∷ cut, rw drop (ap (◌∷◌ c) e), (drop, ok))
  | inr stay ↦ (cut, rw stay (ap (◌∷◌ c) e), ok)
]
keep_front_split p c s (d ∷ kept) cut e ok = (cut, ap (◌∷◌ c) e, ok)

-- The bytes that `drop_back` takes off all pass its test.
pub drop_back_split :
    (p : ℕ → Bool) (s : Bytes)
    → (cut : Bytes) × (s ≡ drop_back p s ++ cut) × All (λ c. p c ≡ true) cut
unfolding drop_back
drop_back_split p [] = ([], refl, tt)
drop_back_split p (c ∷ s) =
    let (cut, e, ok) = drop_back_split p s in keep_front_split p c s (drop_back p s) cut e ok
