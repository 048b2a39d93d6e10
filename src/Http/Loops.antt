-- ===== src/Http/Loops.antt =====
-- source/net/http_parse.cpp: the loops that move a position forward have enough rounds.
use torfoil.Prelude.{
  ℕ, zero, suc, ◌+◌, ◌-◌, ◌≤◌, ◌<◌, ◌≡◌, refl, sym, ◌∙◌, ◌||◌, Option, none, some, List, [], ◌∷◌,
  ltb, ltb→lt, le→ltb, ◌==◌, if◌then◌else◌, length, drop, get_or, Bytes, arith, ap, Bool-cases,
  Option-cases, inl, inr,
}
use torfoil.Magnet.{cut_at}
use torfoil.Http.{
  find_at, find_text, crlf, or_at, substr, trim_ws, field_loop, param_at, param_loop,
}
use torfoil.Http.Laws.{find_at-some}

-- A place found from a position on is not before it.
find_text-ge : (needle s : Bytes) (pos at : ℕ) → find_text needle pos s ≡ some at → pos ≤ at
find_text-ge needle s pos at h =
    let (front, back, whole, place) = find_at-some needle (drop pos s) pos at h in
    omega (arith, place)

end_of : Bytes → ℕ → ℕ → ℕ
end_of raw stop pos =
    let found = or_at stop (find_text crlf pos raw) in if ltb stop found then stop else found

end_of-ge : (raw : Bytes) (stop pos : ℕ) → pos < stop → pos ≤ end_of raw stop pos
unfolding end_of
end_of-ge raw stop pos h = elim (Option-cases (find_text crlf pos raw)) [
  | inl e ↦ rw e (ground arith)
  | inr (at, e) ↦ rw e (ground (arith, find_text-ge crlf raw pos at e))
]

-- One round more changes nothing, where the rounds given reach the end.
pub field_loop-enough :
    (fuel : ℕ) (raw : Bytes) (stop pos : ℕ)
    → stop ≤ pos + fuel
    → field_loop fuel raw stop pos ≡ field_loop (suc fuel) raw stop pos
unfolding field_loop end_of
field_loop-enough zero raw stop pos h = rw (le→ltb stop pos (omega arith)) refl
field_loop-enough (suc fuel) raw stop pos h = elim (Bool-cases (ltb pos stop)) [
  | inr e ↦ rw e refl
  | inl e ↦
      let end = end_of raw stop pos in
      ap
        (λ later.
          if ltb pos stop
          then elim (cut_at b':' (substr raw pos (end - pos))) as (λ _. List (Bytes × Bytes)) [
            | none ↦ later
            | some (name, value) ↦ (trim_ws name, trim_ws value) ∷ later
          ]
          else [])
        (field_loop-enough fuel raw stop (end + 2)
          (omega (arith, end_of-ge raw stop pos (ltb→lt pos stop e))))
]

drop-long : (s : Bytes) (n : ℕ) → length s ≤ n → drop n s ≡ []
drop-long [] zero h = refl
drop-long [] (suc n) h = refl
drop-long (c ∷ s) zero h = absurd (omega arith)
drop-long (c ∷ s) (suc n) h = drop-long s n (omega arith)

-- Behind the end nothing is found.
find_text-none : (needle s : Bytes) (pos : ℕ) → length s ≤ pos → find_text needle pos s ≡ none
unfolding find_at
find_text-none needle s pos h = ap (find_at needle pos) (drop-long s pos h)

-- One round, with what the later rounds return.
round : Bytes → Bytes → Bytes → (ℕ → Bytes) → Option ℕ → Bytes
round haystack needle value later none = []
round haystack needle value later (some at) =
    if at == 0 || get_or haystack (at - 1) 0 == b';' || get_or haystack (at - 1) 0 == b' '
    then param_at value (at + length needle)
    else later (at + length needle)

round-same :
    (haystack needle value : Bytes) (f g : ℕ → Bytes) (found : Option ℕ)
    → ((at : ℕ) → found ≡ some at → f (at + length needle) ≡ g (at + length needle))
    → round haystack needle value f found ≡ round haystack needle value g found
unfolding round
round-same haystack needle value f g none h = refl
round-same haystack needle value f g (some at) h =
    ap
      (λ later.
        if at == 0 || get_or haystack (at - 1) 0 == b';' || get_or haystack (at - 1) 0 == b' '
        then param_at value (at + length needle)
        else later)
      (h at refl)

param_loop-round :
    (fuel : ℕ) (haystack needle value : Bytes) (pos : ℕ)
    → param_loop (suc fuel) haystack needle value pos
      ≡ round haystack needle value
          (param_loop fuel haystack needle value)
          (find_text needle pos haystack)
unfolding param_loop round
param_loop-round fuel haystack needle value pos = refl

-- One round more of `param_loop` changes nothing, where the rounds given reach the end.
pub param_loop-enough :
    (fuel : ℕ) (haystack needle value : Bytes) (pos : ℕ)
    → 0 < length needle
    → length haystack ≤ pos + fuel
    → param_loop fuel haystack needle value pos ≡ param_loop (suc fuel) haystack needle value pos
unfolding param_loop
param_loop-enough zero haystack needle value pos some_needle h = sym (
    param_loop-round zero haystack needle value pos
    ∙ ap (round haystack needle value (param_loop zero haystack needle value))
        (find_text-none needle haystack pos (omega arith))
    ∙ unfold round in refl)
param_loop-enough (suc fuel) haystack needle value pos some_needle h =
    param_loop-round fuel haystack needle value pos
    ∙ round-same haystack needle value (param_loop fuel haystack needle value)
        (param_loop (suc fuel) haystack needle value) (find_text needle pos haystack)
        (λ at e.
          param_loop-enough fuel haystack needle value (at + length needle) some_needle
            (omega (arith, find_text-ge needle haystack pos at e)))
    ∙ sym (param_loop-round (suc fuel) haystack needle value pos)
