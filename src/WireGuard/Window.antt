-- ===== src/WireGuard/Window.antt =====
-- source/net/wg/wireguard.cpp: the window against replay, and the set of counters that it stands for.
use torfoil.Prelude.{
  ℕ, ◌+◌, ◌-◌, ◌%◌, ◌^◌, ◌≤◌, ◌<◌, Bool, true, false, ◌&&◌, none, some, List, [], ◌∷◌, ◌≡◌, ◌↔◌,
  inl, inr, refl, arith, leb, ltb, leb→le, leb→gt, le→leb, &&-true, ltb→lt, ltb→ge, lt→ltb, subst,
  Bool-cases,
}
use torfoil.WireGuard.{WireError}
use torfoil.WireGuard.Transport.{Window, bit_set, refuses, admit}
use torfoil.WireGuard.Tells.{Seen, Tells, restart-Tells, climb-Tells, mark-Tells}

-- What a window knows of the counters seen: there is none before the first; after that each is at
-- most the highest, and the bits tell of the last ones.
pub record Knows (w : Window) (seen : List ℕ) : Type 0 where
  pub fresh : w.have_recv ≡ false → seen ≡ []
  pub below : w.have_recv ≡ true → (n : ℕ) → Seen n seen → n ≤ w.highest
  pub tells : w.have_recv ≡ true → Tells w.bits w.highest seen
  pub fits : w.have_recv ≡ true → w.highest < 2 ^ 64

-- A bound of the counters seen and of one more.
below_one_more :
    (bound counter n : ℕ) (seen : List ℕ)
    → counter ≤ bound
    → (Seen n seen → n ≤ bound)
    → Seen n (counter ∷ seen)
    → n ≤ bound
below_one_more bound counter n seen h below (inl e) = omega arith
below_one_more bound counter n seen h below (inr s) = below s

-- A counter let in.
admit-Knows_first :
    (w : Window) (seen : List ℕ) (counter : ℕ)
    → counter < 2 ^ 64
    → w.have_recv ≡ false
    → Knows w seen
    → Knows (admit w counter) (counter ∷ seen)
unfolding admit
admit-Knows_first w seen counter small first v =
    rw (first, v.fresh first)
      record {
        fresh = λ e. absurd (cc);
        below = λ _ n. below_one_more counter counter n [] (omega arith) (λ s. absurd s);
        tells = λ _. restart-Tells counter [] (λ n near s. s);
        fits = λ _. small;
      }

admit-Knows_above :
    (w : Window) (seen : List ℕ) (counter : ℕ)
    → counter < 2 ^ 64
    → w.have_recv ≡ true
    → w.highest < counter
    → Knows w seen
    → Knows (admit w counter) (counter ∷ seen)
unfolding admit
admit-Knows_above w seen counter small begun above v =
    rw (begun, lt→ltb _ _ above)
      record {
        fresh = λ e. absurd (cc);
        below = λ _ n. below_one_more counter counter n seen (omega arith) (λ s. passed n s);
        tells = λ _. elim (Bool-cases (leb 64 (counter - w.highest))) [
          | inl far ↦ rw far (restart-Tells counter seen (too_old far))
          | inr near ↦
              rw near
                (climb-Tells w.bits w.highest counter seen above (v.below begun) (v.tells begun))
        ];
        fits = λ _. small;
      }
  where
    passed : (n : ℕ) → Seen n seen → n ≤ counter
    passed n s = omega (arith, v.below begun n s)

    too_old : leb 64 (counter - w.highest) ≡ true → (n : ℕ) → counter < n + 64 → Seen n seen → ⊥
    too_old far n near s =
        absurd (omega (arith, leb→le 64 (counter - w.highest) far, v.below begun n s))

admit-Knows_within :
    (w : Window) (seen : List ℕ) (counter : ℕ)
    → w.have_recv ≡ true
    → ltb w.highest counter ≡ false
    → Knows w seen
    → Knows (admit w counter) (counter ∷ seen)
unfolding admit
admit-Knows_within w seen counter begun within v =
    rw (begun, within)
      record {
        fresh = λ e. absurd (cc);
        below =
            λ _ n. below_one_more w.highest counter n seen (ltb→ge _ _ within) (v.below begun n);
        tells = λ _. mark-Tells w.bits w.highest counter seen (ltb→ge _ _ within) (v.tells begun);
        fits = λ _. v.fits begun;
      }

-- Every counter that proves authentic keeps what the window knows.
pub admit-Knows :
    (w : Window) (seen : List ℕ) (counter : ℕ)
    → counter < 2 ^ 64
    → Knows w seen
    → Knows (admit w counter) (counter ∷ seen)
admit-Knows w seen counter small v = elim (Bool-cases w.have_recv) [
  | inr first ↦ admit-Knows_first w seen counter small first v
  | inl begun ↦ elim (Bool-cases (ltb w.highest counter)) [
    | inl above ↦ admit-Knows_above w seen counter small begun (ltb→lt _ _ above) v
    | inr within ↦ admit-Knows_within w seen counter begun within v
  ]
]

-- A counter seen that is near has its bit set.
Seen-bit_set :
    (w : Window) (seen : List ℕ) (counter : ℕ)
    → w.have_recv ≡ true
    → Knows w seen
    → w.highest < counter + 64
    → Seen counter seen
    → (leb counter w.highest && bit_set w.bits (w.highest - counter)) ≡ true
Seen-bit_set w seen counter begun v near s =
    let within = v.below begun counter s in
    rw (le→leb counter w.highest within) ((v.tells begun counter within near).1 s)

-- A bit set is that of a counter seen.
bit_set-Seen :
    (w : Window) (seen : List ℕ) (counter : ℕ)
    → w.have_recv ≡ true
    → Knows w seen
    → w.highest < counter + 64
    → (leb counter w.highest && bit_set w.bits (w.highest - counter)) ≡ true
    → Seen counter seen
bit_set-Seen w seen counter begun v near h =
    let (within, set) = &&-true _ _ h in (v.tells begun counter (leb→le _ _ within) near).0 set

-- The window lets a counter through exactly if the counter was not seen and is not 64 or more below
-- the highest, for a counter that is at least 64 below 2^64.
pub refuses-none :
    (w : Window) (seen : List ℕ) (counter : ℕ)
    → counter + 64 < 2 ^ 64
    → w.have_recv ≡ true
    → Knows w seen
    → (refuses w counter ≡ none) ↔ ((w.highest < counter + 64) × (Seen counter seen → ⊥))
unfolding refuses
refuses-none w seen counter small begun v =
    rw begun (elim (Bool-cases (leb ((counter + 64) % 2 ^ 64) w.highest)) [
      | inl old ↦ rw old ((λ e. absurd (cc)), (λ h. absurd (too_old old h.0)))
      | inr near ↦
          rw near
            (elim (Bool-cases (leb counter w.highest && bit_set w.bits (w.highest - counter))) [
              | inl replayed ↦ rw replayed (
                (λ e. absurd (cc)),
                (λ h. absurd (h.1 (bit_set-Seen w seen counter begun v h.0 replayed))),
              )
              | inr new ↦ rw new (
                (λ _. (
                  within near,
                  (λ s.
                      absurd (two_ways new (Seen-bit_set w seen counter begun v (within near) s))),
                )),
                (λ _. refl),
              )
            ])
    ])
  where
    too_old : leb ((counter + 64) % 2 ^ 64) w.highest ≡ true → w.highest < counter + 64 → ⊥
    too_old old h = absurd (omega (arith, leb→le _ _ old))

    within : leb ((counter + 64) % 2 ^ 64) w.highest ≡ false → w.highest < counter + 64
    within near = omega (arith, leb→gt _ _ near)

    two_ways : {b : Bool} → b ≡ false → b ≡ true → ⊥
    two_ways f t = absurd (cc)

-- A counter that was seen is refused.
pub refuses-some :
    (w : Window) (seen : List ℕ) (counter : ℕ)
    → Knows w seen
    → Seen counter seen
    → (e : WireError) × (refuses w counter ≡ some e)
unfolding refuses
refuses-some w seen counter v s = elim (Bool-cases w.have_recv) [
  | inr first ↦ absurd (subst (Seen counter) (v.fresh first) s)
  | inl begun ↦ rw begun (elim (Bool-cases (leb ((counter + 64) % 2 ^ 64) w.highest)) [
    | inl old ↦ rw old (WireError.packet_old, refl)
    | inr near ↦
        rw (near, Seen-bit_set w seen counter begun v (within begun near) s)
          (WireError.packet_replayed, refl)
  ])
]
  where
    within :
        w.have_recv ≡ true
        → leb ((counter + 64) % 2 ^ 64) w.highest ≡ false
        → w.highest < counter + 64
    within begun near = omega (arith, leb→gt _ _ near, v.fits begun)
