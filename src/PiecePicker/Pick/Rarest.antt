-- ===== src/PiecePicker/Pick/Rarest.antt =====
-- source/bt/piece_picker.cpp: the rarest piece of the sample that PiecePicker::pick weighs.
use torfoil.Prelude.{
  ℕ, zero, suc, ◌+◌, ◌%◌, ◌<◌, ◌≡◌, refl, true, false, not, arith, ltb, if◌then◌else◌, get_or, some,
  none, Option, Bool-cases, inl, inr, ◌&&◌,
}
use torfoil.Prelude.Maps.{find}
use torfoil.Bitfield.{Bitfield, get}
use torfoil.MetaInfo.{piece_count}
use torfoil.PiecePicker.{PieceProgress, PiecePicker, u32}
use torfoil.PiecePicker.Pick.{
  Weighing, is_candidate, is_new, weigh, weigh_from, rarest, rarest_sample,
}

-- A piece that a new round may open: missing here, held by the peer, not begun, and known to some peer.
pub record IsCandidate (p : PiecePicker) (peer : Bitfield) (i : ℕ) : Type 0 where
  pub known : i < piece_count p.meta
  pub missing : get p.have i ≡ false
  pub offered : get peer i ≡ true
  pub fresh : find i p.progress ≡ none
  pub available : 0 < get_or p.availability i 0

is_new-none : (o : Option PieceProgress) → is_new o ≡ true → o ≡ none
is_new-none none h = refl
is_new-none (some prog) h = cc

is_candidate-IsCandidate :
    (p : PiecePicker) (peer : Bitfield) (i : ℕ)
    → i < piece_count p.meta
    → is_candidate p peer i ≡ true
    → IsCandidate p peer i
unfolding is_candidate
is_candidate-IsCandidate p peer i known h = record {
  known = known;
  missing = ground arith;
  offered = ground arith;
  fresh = is_new-none (find i p.progress) (ground arith);
  available = ground arith;
}

IsCandidate-is_candidate :
    (p : PiecePicker) (peer : Bitfield) (i : ℕ)
    → IsCandidate p peer i
    → is_candidate p peer i ≡ true
unfolding is_candidate
IsCandidate-is_candidate p peer i c =
    rw (c.missing, c.offered, c.fresh) (ground (arith, c.available))

-- The best so far is a candidate, and its availability is the one noted.
abbrev IsBest : PiecePicker → Bitfield → Weighing → Type 0
IsBest p peer w =
    (i : ℕ) → w.best ≡ some i → IsCandidate p peer i × (w.best_avail ≡ get_or p.availability i 0)

weigh-IsBest :
    (p : PiecePicker) (peer : Bitfield) (i : ℕ) (w : Weighing)
    → i < piece_count p.meta
    → IsBest p peer w
    → IsBest p peer (if is_candidate p peer i then weigh p i w else w)
unfolding weigh
weigh-IsBest p peer i w known h = elim (Bool-cases (is_candidate p peer i)) [
  | inr other ↦ rw other h
  | inl candidate ↦ elim (Bool-cases (ltb (get_or p.availability i 0) w.best_avail)) [
    | inr common ↦ rw (candidate, common) h
    | inl rarer ↦
        rw (candidate, rarer)
          (λ j e.
            let same : i ≡ j = cc in
            rw (← same) (is_candidate-IsCandidate p peer i known candidate, refl))
  ]
]

weigh_from-IsBest :
    (p : PiecePicker) (peer : Bitfield) (left step : ℕ) (w : Weighing)
    → 0 < piece_count p.meta
    → IsBest p peer w
    → IsBest p peer (weigh_from p peer left step w)
unfolding weigh_from
weigh_from-IsBest p peer zero step w some_piece h = h
weigh_from-IsBest p peer (suc left) step w some_piece h =
    elim (Bool-cases (ltb w.weighed rarest_sample && not w.stopped)) [
      | inr over ↦ rw over h
      | inl more ↦ rw more (
          weigh_from-IsBest p peer left (step + 1) _ some_piece (
            weigh-IsBest p peer (u32 (p.pick_cursor + step) % piece_count p.meta) w (grind arith)
              h))
    ]

-- What is found is a candidate.
pub rarest-IsCandidate :
    (p : PiecePicker) (peer : Bitfield) (i : ℕ)
    → 0 < piece_count p.meta
    → rarest p peer ≡ some i
    → IsCandidate p peer i
unfolding rarest
rarest-IsCandidate p peer i some_piece e =
    (weigh_from-IsBest p peer (piece_count p.meta) 0 _ some_piece (λ j none_yet. cc) i e).0
