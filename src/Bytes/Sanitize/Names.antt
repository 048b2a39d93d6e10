-- ===== src/Bytes/Sanitize/Names.antt =====
-- source/util/bytes.cpp: what the names returned by `sanitize_filename` are good for, and the one way
-- in which they fail.
use torfoil.Prelude.{
  ℕ, ◌≤◌, ◌<◌, ◌≡◌, refl, ◌≢◌, ◌⊎◌, inl, inr, true, false, [], ◌∷◌, ◌++◌, arith, ltb, if◌then◌else◌,
  length, take, All, All-take, ltb→lt, lt→ltb, ◌∙◌, append_assoc, Bytes, Bool-cases, length-take,
  codes, length-append, All-append, take-append, ap, subst,
}
use torfoil.Bytes.Sanitize.{
  is_dot_or_space, replace_forbidden, drop_back, or_underscore, max_name, sanitize_filename,
  IsAllowed, EndsClean, replace_forbidden-IsAllowed, drop_back-All, drop_back-EndsClean,
  length-drop_back-le, length-replace_forbidden, replace_forbidden_lem, drop_back-append,
}

or_underscore-IsName :
    (s : Bytes)
    → All IsAllowed s
    → EndsClean s
    → (or_underscore s ≢ []) × All IsAllowed (or_underscore s) × EndsClean (or_underscore s)
unfolding or_underscore
or_underscore-IsName [] h e = (cc, omega arith, omega arith)
or_underscore-IsName (c ∷ s) h e = (cc, h, e)

length-or_underscore-le : (s : Bytes) (n : ℕ) → length s ≤ n → 0 < n → length (or_underscore s) ≤ n
unfolding or_underscore
length-or_underscore-le [] n h k = omega arith
length-or_underscore-le (c ∷ s) n h k = h

-- The name before the cut to 200 bytes.
abbrev uncut : Bytes → Bytes
uncut name = or_underscore (drop_back is_dot_or_space (replace_forbidden name))

uncut-IsName :
    (name : Bytes) → (uncut name ≢ []) × All IsAllowed (uncut name) × EndsClean (uncut name)
uncut-IsName name =
    or_underscore-IsName _ (drop_back-All _ _ (replace_forbidden-IsAllowed name))
      (drop_back-EndsClean (replace_forbidden name))

sanitize_filename-uncut :
    (name : Bytes)
    → sanitize_filename name
      ≡ (if ltb max_name (length (uncut name)) then take max_name (uncut name) else uncut name)
unfolding sanitize_filename
sanitize_filename-uncut name = refl

-- A name that can stand as one component of a path on the card.
pub record IsFileName (s : Bytes) : Type 0 where
  pub nonempty : s ≢ []
  pub allowed : All IsAllowed s
  pub short : length s ≤ 200
  pub not_here : s ≢ codes "."
  pub not_parent : s ≢ codes ".."

EndsClean-not_dots : (s : Bytes) → EndsClean s → (s ≢ codes ".") × (s ≢ codes "..")
EndsClean-not_dots s h =
    (λ e. absurd ((subst EndsClean e h).0 refl), λ e. absurd ((subst EndsClean e h).0 refl))

long-not_dots : (s : Bytes) → length s ≡ 200 → (s ≢ []) × (s ≢ codes ".") × (s ≢ codes "..")
long-not_dots s h = (
  λ e. absurd (omega (arith, ap length e)),
  λ e. absurd (omega (arith, ap length e)),
  λ e. absurd (omega (arith, ap length e)),
)

cut-IsFileName :
    (s : Bytes)
    → s ≢ []
    → All IsAllowed s
    → EndsClean s
    → IsFileName (if ltb max_name (length s) then take max_name s else s)
cut-IsFileName s some_name ok ends = elim (Bool-cases (ltb max_name (length s))) [
  | inl e ↦
      let n : length (take max_name s) ≡ 200 =
        omega (arith, length-take max_name s, ltb→lt _ _ e) in
      let far = long-not_dots (take max_name s) n in
      rw e (record {
        nonempty = far.0;
        allowed = All-take IsAllowed max_name s ok;
        short = omega arith;
        not_here = far.1;
        not_parent = far.2;
      })
  | inr e ↦ rw e (record {
    nonempty = some_name;
    allowed = ok;
    short = ground arith;
    not_here = (EndsClean-not_dots s ends).0;
    not_parent = (EndsClean-not_dots s ends).1;
  })
]

-- Whatever the torrent says, the name is not empty, not `.` and not `..`, at most 200 bytes long, and
-- free of separators, control characters and the characters that exFAT refuses.
pub sanitize_filename-IsFileName : (name : Bytes) → IsFileName (sanitize_filename name)
sanitize_filename-IsFileName name =
    let (some_name, ok, ends) = uncut-IsName name in
    rw (sanitize_filename-uncut name) (cut-IsFileName (uncut name) some_name ok ends)

-- A name of at most 200 bytes comes out with no dot and no space at its end.
pub sanitize_filename-EndsClean :
    (name : Bytes) → length name ≤ 200 → EndsClean (sanitize_filename name)
sanitize_filename-EndsClean name h =
    let fits : length (uncut name) ≤ 200 =
      length-or_underscore-le _ 200
        (omega (
          arith,
          length-drop_back-le is_dot_or_space (replace_forbidden name),
          length-replace_forbidden name,
        ))
        (omega arith) in
    let all : ltb max_name (length (uncut name)) ≡ false = ground arith in
    rw (sanitize_filename-uncut name, all) (uncut-IsName name).2

or_underscore_lem : (s : Bytes) → 0 < length s → or_underscore s ≡ s
unfolding or_underscore
or_underscore_lem [] h = absurd (omega arith)
or_underscore_lem (c ∷ s) h = refl

-- A text of acceptable bytes that ends in another byte than a dot or a space is not changed before
-- the cut.
uncut-clean :
    (s : Bytes) (d : ℕ)
    → All IsAllowed (s ++ d ∷ [])
    → is_dot_or_space d ≡ false
    → uncut (s ++ d ∷ []) ≡ s ++ d ∷ []
uncut-clean s d ok plain =
    let whole : drop_back is_dot_or_space (s ++ d ∷ []) ≡ s ++ d ∷ [] =
      drop_back-append is_dot_or_space s d ∙ rw plain in
    rw (replace_forbidden_lem _ ok, whole)
      (or_underscore_lem _ (omega (arith, length-append s (d ∷ []))))

-- The cut to 200 bytes comes after the loop that removes dots and spaces: behind 199 acceptable
-- bytes, a dot or a space with one acceptable byte more is where the name is cut, so it ends there.
pub sanitize_filename_cut :
    (stem : Bytes) (c d : ℕ)
    → length stem ≡ 199
    → All IsAllowed stem
    → (c ≡ b'.') ⊎ (c ≡ b' ')
    → IsAllowed d
    → d ≢ b'.'
    → d ≢ b' '
    → sanitize_filename (stem ++ c ∷ d ∷ []) ≡ stem ++ c ∷ []
sanitize_filename_cut stem c d n ok hc hd dot space =
    let front : Bytes = stem ++ c ∷ [] in
    let fits : IsAllowed c = ground arith in
    let plain : is_dot_or_space d ≡ false = unfold is_dot_or_space in ground arith in
    let all : All IsAllowed (front ++ d ∷ []) =
      All-append IsAllowed front _ (All-append IsAllowed stem _ ok (fits, tt)) (hd, tt) in
    let size : length front ≡ 200 = omega (arith, length-append stem (c ∷ [])) in
    let long : ltb max_name (length (front ++ d ∷ [])) ≡ true =
      lt→ltb _ _ (omega (arith, length-append front (d ∷ []))) in
    let kept : take max_name (front ++ d ∷ []) ≡ front = rw (← size) (take-append front (d ∷ [])) in
    rw
      (
        ← append_assoc stem (c ∷ []) (d ∷ []),
        sanitize_filename-uncut (front ++ d ∷ []),
        uncut-clean front d all plain,
        long,
      )
      kept
