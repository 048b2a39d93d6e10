-- ===== src/PiecePicker/Availability.antt =====
-- source/bt/piece_picker.cpp: how many peers have a piece.
use torfoil.Prelude.{
  ◌∙◌, ap, ℕ, suc, ◌+◌, ◌<◌, ◌≡◌, refl, List, [], ◌∷◌, arith, ltb, length, get_or, length-set,
  Bool-cases, inl, inr, ◌&&◌, All,
}
use torfoil.Bitfield.{Bitfield}
use torfoil.PiecePicker.{PiecePicker, count_up, count_down, peer_added, peer_removed, peer_has}
use torfoil.PiecePicker.Invariant.{Inv}

length-count_up :
    (pieces : Bitfield) (n i : ℕ) (xs : List ℕ) → length (count_up pieces n i xs) ≡ length xs
unfolding count_up
length-count_up pieces n i [] = refl
length-count_up pieces n i (a ∷ xs) = ap suc (length-count_up pieces n (i + 1) xs)

length-count_down :
    (pieces : Bitfield) (n i : ℕ) (xs : List ℕ) → length (count_down pieces n i xs) ≡ length xs
unfolding count_down
length-count_down pieces n i [] = refl
length-count_down pieces n i (a ∷ xs) = ap suc (length-count_down pieces n (i + 1) xs)

with_counters-Inv :
    (p : PiecePicker) (xs : List ℕ)
    → Inv p
    → length xs ≡ length p.availability
    → Inv (record p { availability = xs })
with_counters-Inv p xs v e = record {
  consistent = v.consistent;
  have_valid = v.have_valid;
  have_bits = v.have_bits;
  counters = e ∙ v.counters;
  begun = v.begun;
  asked = v.asked;
  bytes = v.bytes;
}

-- A peer that comes, goes, or tells of a piece keeps the invariant.
pub peers-Inv :
    (p : PiecePicker) (pieces : Bitfield) (piece : ℕ)
    → Inv p
    → Inv (peer_added p pieces) × Inv (peer_removed p pieces) × Inv (peer_has p piece)
unfolding peer_added peer_removed peer_has
peers-Inv p pieces piece v = (
  with_counters-Inv p _ v (length-count_up pieces _ 0 p.availability),
  with_counters-Inv p _ v (length-count_down pieces _ 0 p.availability),
  elim (Bool-cases
      (ltb piece (length p.availability) && ltb (get_or p.availability piece 0) 0xffff)) [
        | inl counted ↦ rw counted (
            with_counters-Inv p _ v
              (length-set p.availability piece (get_or p.availability piece 0 + 1)))
        | inr not_counted ↦ rw not_counted v
      ],
)

-- A counter that one more peer would not saturate.
abbrev pub IsLow : ℕ → Type 0
IsLow a = a < 0xffff

count_down-count_up :
    (pieces : Bitfield) (n i : ℕ) (xs : List ℕ)
    → All IsLow xs
    → count_down pieces n i (count_up pieces n i xs) ≡ xs
unfolding count_up count_down
count_down-count_up pieces n i [] h = refl
count_down-count_up pieces n i (a ∷ xs) h =
    ground (arith, count_down-count_up pieces n (i + 1) xs h.1)

-- A peer that comes and goes leaves the counters as they were, if none was saturated.
pub peer_removed-peer_added :
    (p : PiecePicker) (pieces : Bitfield)
    → All IsLow p.availability
    → peer_removed (peer_added p pieces) pieces ≡ p
unfolding peer_added peer_removed
peer_removed-peer_added p pieces h =
    ap (λ xs. record p { availability = xs }) (count_down-count_up pieces _ 0 p.availability h)
