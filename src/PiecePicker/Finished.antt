-- ===== src/PiecePicker/Finished.antt =====
-- source/bt/piece_picker.cpp: the bytes done tell whether the torrent is complete.
use torfoil.Prelude.{sym, ◌∙◌, ℕ, ◌<◌, ◌≡◌, ◌↔◌, true, arith, if◌then◌else◌}
use torfoil.Prelude.Sums.{sum_below-eq, sum_below-eq_of_le}
use torfoil.Bitfield.{get, full}
use torfoil.Bitfield.Laws.{full_iff}
use torfoil.MetaInfo.{piece_count, size_of_piece}
use torfoil.MetaInfo.Pieces.{sum-size_of_piece, size_of_piece_bounds, piece_count_pos}
use torfoil.PiecePicker.{PiecePicker, is_complete}
use torfoil.PiecePicker.Invariant.{Inv}

held-of_full : (p : PiecePicker) → Inv p → full p.have ≡ true → p.bytes_done ≡ p.meta.total_size
held-of_full p v h =
    let all = ((full_iff p.have v.have_valid).0 h).1 in
    v.bytes
    ∙ sum_below-eq (piece_count p.meta) _ (size_of_piece p.meta)
        (λ i lt. let there = all i (rw v.have_bits lt) in rw there)
    ∙ sum-size_of_piece p.meta v.consistent

get-of_held :
    (p : PiecePicker) (i : ℕ)
    → Inv p
    → p.bytes_done ≡ p.meta.total_size
    → i < piece_count p.meta
    → get p.have i ≡ true
get-of_held p i v h lt =
    let same =
      sum_below-eq_of_le (piece_count p.meta)
        (λ i. if get p.have i then size_of_piece p.meta i else 0) (size_of_piece p.meta)
        (λ i _. ground arith) (sym v.bytes ∙ h ∙ sym (sum-size_of_piece p.meta v.consistent)) i
        lt in
    ground (arith, same, (size_of_piece_bounds p.meta i v.consistent lt).0)

-- The torrent is complete exactly when the bytes done are all its bytes.
pub is_complete_iff :
    (p : PiecePicker) → Inv p → (is_complete p ≡ true) ↔ (p.bytes_done ≡ p.meta.total_size)
unfolding is_complete
is_complete_iff p v = (
  held-of_full p v,
  λ h. (full_iff p.have v.have_valid).1 (
    rw v.have_bits (piece_count_pos v.consistent),
    λ i lt. get-of_held p i v h (rw v.have_bits at lt),
  ),
)
