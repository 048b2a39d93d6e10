-- ===== src/PiecePicker/Checks.antt =====
-- source/bt/piece_picker.cpp: blocks that arrive and pieces that are checked keep the invariant of
-- class PiecePicker.
use torfoil.Prelude.{
  sym, ◌∙◌, ap, ℕ, ◌*◌, ◌/◌, ◌^◌, ◌≡◌, ◌≢◌, refl, Bool, true, false, List, [], ◌∷◌, arith, length,
  get_or, replicate, some, none, Option-cases, inl, inr, ℕ_discrete, length-replicate,
}
use torfoil.Prelude.Maps.{find, put, Holds-put}
use torfoil.Bitfield.{Bitfield}
use torfoil.MetaInfo.{MetaInfo}
use torfoil.MetaInfo.Pieces.{piece_count-length}
use torfoil.PiecePicker.{
  free, pending, PieceProgress, PiecePicker, block_size, block_key, is_done, is_pending, u32,
  on_piece_verified, forget_piece, restart,
}
use torfoil.PiecePicker.Counts.{get_or-replicate, count-replicate}
use torfoil.PiecePicker.Invariant.{Inv, IsProgress, IsAsked}
use torfoil.PiecePicker.Have.{set_have-Inv}
use torfoil.PiecePicker.Blocks.{Inv-blocks, offset_fits}

restarted-IsProgress :
    (meta : MetaInfo) (have : Bitfield) (piece : ℕ) (prog : PieceProgress)
    → IsProgress meta have piece prog
    → IsProgress meta have piece
        (record { blocks = replicate (length prog.blocks) free; done = 0; pending = 0 })
restarted-IsProgress meta have piece prog b = record {
  known = b.known;
  missing = b.missing;
  size = length-replicate (length prog.blocks) free ∙ b.size;
  done_count = sym (count-replicate is_done (length prog.blocks) refl);
  pending_count = sym (count-replicate is_pending (length prog.blocks) refl);
}

find-forget_piece :
    (piece key : ℕ) (asked : List (ℕ × ℕ))
    → u32 (key / 2 ^ 32) ≢ piece
    → find key asked ≢ none
    → find key (forget_piece piece asked) ≢ none
unfolding find forget_piece
find-forget_piece piece key [] ne here = here
find-forget_piece piece key ((k, at) ∷ rest) ne here = elim (ℕ_discrete k key) [
  | yes same ↦ λ e. ground arith
  | no other ↦
      let more = find-forget_piece piece key rest ne (λ e. here (ground arith)) in
      λ e. more (ground arith)
]

restart-none :
    (m : List (ℕ × PieceProgress)) (piece : ℕ) → find piece m ≡ none → restart m piece ≡ m
unfolding restart
restart-none m piece e = rw (e, restart)

restart-some :
    (m : List (ℕ × PieceProgress)) (piece : ℕ) (prog : PieceProgress)
    → find piece m ≡ some prog
    → restart m piece
      ≡ put piece (record { blocks = replicate (length prog.blocks) free; done = 0; pending = 0 }) m
unfolding restart
restart-some m piece prog e = rw (e, restart)

-- The requests of the other pieces stay.
others-IsAsked :
    (p : PiecePicker) (piece k : ℕ) (w : PieceProgress)
    → Inv p
    → k ≢ piece
    → find k p.progress ≡ some w
    → IsAsked (forget_piece piece p.pending) k w
others-IsAsked p piece k w v ne e b lt is =
    let begun = v.begun k w e in
    let small = offset_fits p.meta p.have k w b v.consistent begun lt in
    let known = begun.known in
    let few = piece_count-length v.consistent in
    find-forget_piece piece (block_key k (b * block_size)) p.pending
      (λ same. ne (omega (arith, v.consistent.few))) (v.asked k w e b lt is)

failed_piece-Inv : (p : PiecePicker) (piece : ℕ) → Inv p → Inv (on_piece_verified p piece false)
unfolding on_piece_verified
failed_piece-Inv p piece v = elim (Option-cases (find piece p.progress)) [
  | inl e ↦ rw (restart-none p.progress piece e) (
      Inv-blocks p p.progress _ v v.begun (λ k w found.
        others-IsAsked p piece k w v
          (λ same. ground (arith, ap (λ (i : ℕ). find i p.progress) same)) found))
  | inr (prog, e) ↦ rw (restart-some p.progress piece prog e) (
      Inv-blocks p _ _ v
        (Holds-put _ piece _ p.progress
          (restarted-IsProgress p.meta p.have piece prog (v.begun piece prog e))
          (λ k w _ found. v.begun k w found))
        (Holds-put _ piece _ p.progress (λ b lt is. absurd (free-not_pending b prog is))
          (λ k w ne found. others-IsAsked p piece k w v ne found)))
]
  where
    free-not_pending :
        (b : ℕ) (prog : PieceProgress)
        → get_or (replicate (length prog.blocks) free) b free ≡ pending
        → ⊥
    free-not_pending b prog is = ground (arith, get_or-replicate (length prog.blocks) b)

-- A piece that was checked keeps the invariant, whether its hash was right or not.
pub on_piece_verified-Inv :
    (p : PiecePicker) (piece : ℕ) (ok : Bool) → Inv p → Inv (on_piece_verified p piece ok)
on_piece_verified-Inv p piece true v = unfold on_piece_verified in set_have-Inv p piece v
on_piece_verified-Inv p piece false v = failed_piece-Inv p piece v
