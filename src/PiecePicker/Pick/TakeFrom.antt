-- ===== src/PiecePicker/Pick/TakeFrom.antt =====
-- source/bt/piece_picker.cpp: `take_from` in PiecePicker::pick, which asks for blocks of one piece.
use torfoil.Prelude.{
  sym, ◌∙◌, ℕ, ◌+◌, ◌*◌, ◌%◌, ◌≤◌, ◌<◌, ◌≡◌, refl, Bool, true, false, List, [], ◌∷◌, arith, length,
  length-append, Option-cases, inl, inr, All, All-append, length-replicate,
}
use torfoil.Prelude.Maps.{find, Holds-put}
use torfoil.Bitfield.{Bitfield, get}
use torfoil.MetaInfo.{MetaInfo, piece_count, size_of_piece}
use torfoil.MetaInfo.Pieces.{IsConsistent}
use torfoil.PiecePicker.{
  free, PiecePicker, block_size, is_done, is_pending, u32, progress_for, blocks_in_piece,
}
use torfoil.PiecePicker.Counts.{
  get_or-replicate, count-replicate, count-le, block_bounds, blocks_in_piece-lt,
}
use torfoil.PiecePicker.Invariant.{progress_for-some, progress_for-none, Inv, IsProgress, IsAsked}
use torfoil.PiecePicker.Blocks.{Inv-blocks}
use torfoil.PiecePicker.Pick.{
  BlockRequest, Taker, Taken, request, take_from, taker, taking, taken_progress,
}
use torfoil.PiecePicker.Pick.TakeBlocks.{take_blocks-keeps, take_blocks-counts}
use torfoil.PiecePicker.Pick.Asking.{take_blocks-asked_mono, take_blocks-AskedFrom}

-- A request for a whole block of a piece that is missing here and that the peer has: it begins at a
-- multiple of the block size, asks for at least one byte and at most a block, and ends in the piece.
pub record IsWanted (meta : MetaInfo) (have peer : Bitfield) (r : BlockRequest) : Type 0 where
  pub known : r.piece < piece_count meta
  pub missing : get have r.piece ≡ false
  pub offered : get peer r.piece ≡ true
  pub aligned : r.offset % block_size ≡ 0
  pub nonempty : 0 < r.length
  pub short : r.length ≤ block_size
  pub inside : r.offset + r.length ≤ size_of_piece meta r.piece

request-IsWanted :
    (meta : MetaInfo) (have peer : Bitfield) (t : Taker) (b : ℕ)
    → IsConsistent meta
    → t.piece < piece_count meta
    → get have t.piece ≡ false
    → get peer t.piece ≡ true
    → t.piece_size ≡ size_of_piece meta t.piece
    → b < blocks_in_piece meta t.piece
    → IsWanted meta have peer (request t b)
request-IsWanted meta have peer t b c known missing offered size lt =
    let bounds = block_bounds meta t.piece b c known lt in
    let offset : u32 (b * block_size) ≡ b * block_size = omega (arith, bounds.0, bounds.2) in
    record {
      known = known;
      missing = missing;
      offered = offered;
      aligned = omega arith;
      nonempty = omega (arith, bounds.0, bounds.2);
      short = omega arith;
      inside = omega (arith, bounds.0, bounds.2);
    }

-- The progress that `progress_for` finds or makes.
pub progress_for_lem :
    (p : PiecePicker) (piece : ℕ)
    → Inv p
    → piece < piece_count p.meta
    → get p.have piece ≡ false
    → IsProgress p.meta p.have piece (progress_for p piece)
      × IsAsked p.pending piece (progress_for p piece)
progress_for_lem p piece v known missing = elim (Option-cases (find piece p.progress)) [
  | inr (prog, e) ↦
      rw (progress_for-some p piece prog e) (v.begun piece prog e, v.asked piece prog e)
  | inl e ↦ rw (progress_for-none p piece e) (
    record {
      known = known;
      missing = missing;
      size = length-replicate (blocks_in_piece p.meta piece) free;
      done_count = sym (count-replicate is_done (blocks_in_piece p.meta piece) refl);
      pending_count = sym (count-replicate is_pending (blocks_in_piece p.meta piece) refl);
    },
    λ b lt is. ground (arith, get_or-replicate (blocks_in_piece p.meta piece) b),
  )
]

-- The state of `pick` between two pieces: a picker in order, and only requests that are wanted, no
-- more than the buffer holds.
pub record IsPicking (peer : Bitfield) (max : ℕ) (p : PiecePicker) (out : List BlockRequest)
    : Type 0 where
  pub picker : Inv p
  pub wanted : All (IsWanted p.meta p.have peer) out
  pub room : length out ≤ max

abbrev IsTaking : MetaInfo → Bitfield → Bitfield → ℕ → Taken → Type 0
IsTaking meta have peer max s = All (IsWanted meta have peer) s.out × (length s.out ≤ max)

module _ (peer : Bitfield) (max : ℕ) (e : Bool) (now : ℕ) (p : PiecePicker)
    (out : List BlockRequest) (piece : ℕ) (h : IsPicking peer max p out)
    (known : piece < piece_count p.meta) (missing : get p.have piece ≡ false)
    (offered : get peer piece ≡ true) where
  before :
      IsProgress p.meta p.have piece (progress_for p piece)
      × IsAsked p.pending piece (progress_for p piece)
  before = progress_for_lem p piece h.picker known missing

  taking-IsTaking : IsTaking p.meta p.have peer max (taking max e now (p, out) piece).1
  taking-IsTaking =
      let t = taker max e now p piece in
      take_blocks-keeps (IsTaking p.meta p.have peer max) t (blocks_in_piece p.meta piece)
        (λ b state s lt more so_far. (
          All-append (IsWanted p.meta p.have peer) s.out _ so_far.0 (
            request-IsWanted p.meta p.have peer t b h.picker.consistent known missing offered refl
                lt,
            tt,
          ),
          omega (arith, length-append s.out (request t b ∷ [])),
        ))
        0 (progress_for p piece).blocks _ (omega (arith, before.0.size)) (h.wanted, h.room)

  taken_progress-IsProgress :
      IsProgress p.meta p.have piece
        (taken_progress (progress_for p piece) (taking max e now (p, out) piece))
  taken_progress-IsProgress =
      let b = before.0 in
      let counts =
        take_blocks-counts (taker max e now p piece) 0 (progress_for p piece).blocks
          (record { out = out; waiting = (progress_for p piece).pending; asked = p.pending })
          (omega (
            arith,
            b.size,
            b.pending_count,
            count-le is_pending (progress_for p piece).blocks,
            blocks_in_piece-lt p.meta piece,
          )) in
      record {
        known = known;
        missing = missing;
        size = counts.0 ∙ b.size;
        done_count = b.done_count ∙ sym counts.1;
        pending_count = omega (arith, counts.2, b.pending_count);
      }

  taken_progress-IsAsked :
      IsAsked
        (taking max e now (p, out) piece).1.asked
        piece
        (taken_progress (progress_for p piece) (taking max e now (p, out) piece))
  taken_progress-IsAsked b lt is =
      take_blocks-AskedFrom (taker max e now p piece) 0 (progress_for p piece).blocks _
        (omega (arith, before.0.size, blocks_in_piece-lt p.meta piece))
        (λ j c eq lt is. let same : c ≡ j = omega arith in rw same (before.1 j lt is)) b b
        (omega arith) lt is

  -- Taking blocks of a piece that is missing here and that the peer has keeps that state.
  pub take_from-IsPicking : let r = take_from max e now (p, out) piece in IsPicking peer max r.0 r.1
  unfolding take_from
  take_from-IsPicking = record {
    picker =
        Inv-blocks p _ _ h.picker
          (Holds-put _ piece _ p.progress taken_progress-IsProgress
            (λ k w _ found. h.picker.begun k w found))
          (Holds-put _ piece _ p.progress taken_progress-IsAsked (λ k w _ found b lt is.
            take_blocks-asked_mono (taker max e now p piece) 0 _ (progress_for p piece).blocks _
              (h.picker.asked k w found b lt is)));
    wanted = taking-IsTaking.0;
    room = taking-IsTaking.1;
  }

  pub meta-take_from :
      ((take_from max e now (p, out) piece).0.meta ≡ p.meta)
      × ((take_from max e now (p, out) piece).0.have ≡ p.have)
  unfolding take_from
  meta-take_from = (refl, refl)
