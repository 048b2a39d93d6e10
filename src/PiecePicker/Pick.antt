-- ===== src/PiecePicker/Pick.antt =====
-- source/bt/piece_picker.cpp: PiecePicker::pick. The requests chosen so far are a list, in the order of
-- the buffer; `picked` is its length.
pub mod TakeBlocks
pub mod Asking
pub mod TakeFrom
pub mod Rarest
pub mod Wanted
use torfoil.Prelude.{
  ℕ, zero, suc, ◌+◌, ◌-◌, ◌*◌, ◌/◌, ◌%◌, ◌^◌, Bool, true, false, not, ◌&&◌, ◌||◌, Option, none,
  some, List, [], ◌∷◌, ◌++◌, ltb, leb, ◌==◌, if◌then◌else◌, length, get_or, set, replicate, min,
}
use torfoil.Prelude.Maps.{find, put, erase, keys}
use torfoil.Bitfield.{Bitfield, get}
use torfoil.MetaInfo.{piece_count, size_of_piece}
use torfoil.PiecePicker.{
  BlockState, free, pending, done, PieceProgress, PiecePicker, block_size, u32, is_free, is_pending,
  block_key, progress_for, endgame,
}

pub record BlockRequest : Type 0 where
  pub piece : ℕ
  pub offset : ℕ
  pub length : ℕ

-- What a call of `take_from` reads and does not change.
pub record Taker : Type 0 where
  pub piece : ℕ
  pub piece_size : ℕ
  pub max : ℕ
  pub in_endgame : Bool
  pub now_ms : ℕ

-- What it changes beside the blocks: the buffer, `prog.pending` and `pending_`.
pub record Taken : Type 0 where
  pub out : List BlockRequest
  pub waiting : ℕ
  pub asked : List (ℕ × ℕ)

abbrev pub request : Taker → ℕ → BlockRequest
request t b =
    let offset = u32 (b * block_size) in
    record {
      piece = t.piece;
      offset = offset;
      length = min block_size (u32 (t.piece_size + 2 ^ 32 - offset));
    }

-- Whether a block in this state is asked for: a free one, and in the endgame a pending one again.
abbrev pub is_takable : Bool → BlockState → Bool
is_takable in_endgame state = is_free state || in_endgame && is_pending state

unfoldable pub take_block : Taker → ℕ → BlockState → Taken → BlockState × Taken
take_block t b state s =
    if is_takable t.in_endgame state
    then (
      pending,
      record {
        out = s.out ++ request t b ∷ [];
        waiting = if is_free state then u32 (s.waiting + 1) else s.waiting;
        asked = put (block_key t.piece (request t b).offset) t.now_ms s.asked;
      },
    )
    else (state, s)

-- The loop over the blocks of the piece, from block `b` on, while the buffer has room.
unfoldable pub take_blocks : Taker → ℕ → List BlockState → Taken → List BlockState × Taken
take_blocks t b [] s = ([], s)
take_blocks t b (state ∷ rest) s =
    let (state', s') = take_block t b state s in
    let (rest', s'') = take_blocks t (b + 1) rest s' in
    if ltb (length s.out) t.max then (state' ∷ rest', s'') else (state ∷ rest, s)

abbrev pub Picked : Type 0
Picked = PiecePicker × List BlockRequest

abbrev pub taker : ℕ → Bool → ℕ → PiecePicker → ℕ → Taker
taker max in_endgame now_ms p piece = record {
  piece = piece;
  piece_size = size_of_piece p.meta piece;
  max = max;
  in_endgame = in_endgame;
  now_ms = now_ms;
}

-- The blocks of the piece after the loop, the buffer, and the requests.
abbrev pub taking : ℕ → Bool → ℕ → Picked → ℕ → List BlockState × Taken
taking max in_endgame now_ms (p, out) piece =
    let prog = progress_for p piece in
    take_blocks (taker max in_endgame now_ms p piece) 0 prog.blocks
      (record { out = out; waiting = prog.pending; asked = p.pending })

abbrev pub taken_progress : PieceProgress → List BlockState × Taken → PieceProgress
taken_progress prog r = record { blocks = r.0; done = prog.done; pending = r.1.waiting }

unfoldable pub take_from : ℕ → Bool → ℕ → Picked → ℕ → Picked
take_from max in_endgame now_ms (p, out) piece =
    let r = taking max in_endgame now_ms (p, out) piece in
    (
      record p {
        progress = put piece (taken_progress (progress_for p piece) r) p.progress;
        pending = r.1.asked;
      },
      r.1.out,
    )

-- Phase 1: the pieces begun, in the order of the map.
unfoldable pub has_room : Bool → PieceProgress → Bool
has_room in_endgame prog = ltb (u32 (prog.done + prog.pending)) (length prog.blocks) || in_endgame

unfoldable pub finish_one : ℕ → Bool → ℕ → Bitfield → Picked → ℕ → Picked
unfolding has_room take_from
finish_one max in_endgame now_ms peer (p, out) piece =
    if get p.have piece || not (get peer piece)
    then (p, out)
    else if has_room in_endgame (progress_for p piece)
    then take_from max in_endgame now_ms (p, out) piece
    else (p, out)

unfoldable pub finish_begun : ℕ → Bool → ℕ → Bitfield → List ℕ → Picked → Picked
unfolding finish_one
finish_begun max in_endgame now_ms peer [] (p, out) = (p, out)
finish_begun max in_endgame now_ms peer (piece ∷ rest) (p, out) =
    let next =
      finish_begun max in_endgame now_ms peer rest
        (finish_one max in_endgame now_ms peer (p, out) piece) in
    if ltb (length out) max then next else (p, out)

-- Phase 2: the rarest of a sample of the pieces not begun.
abbrev pub rarest_sample : ℕ
rarest_sample = 256

pub record Weighing : Type 0 where
  pub best : Option ℕ
  pub best_avail : ℕ
  pub weighed : ℕ
  pub stopped : Bool

abbrev pub is_new : Option PieceProgress → Bool
is_new none = true
is_new (some prog) = false

unfoldable pub is_candidate : PiecePicker → Bitfield → ℕ → Bool
is_candidate p peer i =
    not (get p.have i)
    && get peer i
    && is_new (find i p.progress)
    && not (get_or p.availability i 0 == 0)

unfoldable pub weigh : PiecePicker → ℕ → Weighing → Weighing
weigh p i w =
    let avail = get_or p.availability i 0 in
    if ltb avail w.best_avail
    then record { best = some i; best_avail = avail; weighed = w.weighed + 1; stopped = avail == 1 }
    else record w { weighed = w.weighed + 1 }

unfoldable pub weigh_from : PiecePicker → Bitfield → ℕ → ℕ → Weighing → Weighing
unfolding is_candidate weigh
weigh_from p peer zero step w = w
weigh_from p peer (suc left) step w =
    let i = u32 (p.pick_cursor + step) % piece_count p.meta in
    let next =
      weigh_from p peer left (step + 1) (if is_candidate p peer i then weigh p i w else w) in
    if ltb w.weighed rarest_sample && not w.stopped then next else w

unfoldable pub rarest : PiecePicker → Bitfield → Option ℕ
unfolding weigh_from
rarest p peer =
    (weigh_from p peer (piece_count p.meta) 0
      (record { best = none; best_avail = 0xffff; weighed = 0; stopped = false })).best

-- A round of the second loop, at most one for each place of the buffer.
unfoldable pub open_rarest : ℕ → Bool → ℕ → Bitfield → ℕ → Picked → Picked
unfolding rarest take_from
open_rarest max in_endgame now_ms peer zero (p, out) = (p, out)
open_rarest max in_endgame now_ms peer (suc rounds) (p, out) =
    let found = rarest p peer in
    let round = λ (best : ℕ).
      let q : PiecePicker = record p { pick_cursor = u32 (best + 1) % piece_count p.meta } in
      let taken : Picked = take_from max in_endgame now_ms (q, out) best in
      let next : Picked = open_rarest max in_endgame now_ms peer rounds taken in
      if length taken.1 == length out then taken else next in
    if ltb (length out) max
    then (elim found [ none ↦ (p, out) | some best ↦ round best ])
    else (p, out)

unfoldable pub pick : PiecePicker → Bitfield → ℕ → ℕ → Picked
unfolding finish_begun open_rarest
pick p peer max now_ms =
    let in_endgame = endgame p in
    if max == 0 || piece_count p.meta == 0
    then (p, [])
    else open_rarest max in_endgame now_ms peer max
        (finish_begun max in_endgame now_ms peer (keys p.progress) (p, []))
