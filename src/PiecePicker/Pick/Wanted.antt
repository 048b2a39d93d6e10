-- ===== src/PiecePicker/Pick/Wanted.antt =====
-- source/bt/piece_picker.cpp: every request that PiecePicker::pick hands out is one that the peer can
-- serve and that is needed, and the picker is in order afterwards.
use torfoil.Prelude.{
  ◌∙◌, ℕ, zero, suc, ◌+◌, ◌%◌, ◌≤◌, ◌<◌, ◌≡◌, refl, Bool, true, false, not, List, [], ◌∷◌, arith,
  ltb, ◌==◌, if◌then◌else◌, length, Bool-cases, Option-cases, inl, inr, ◌||◌, All,
}
use torfoil.Prelude.Maps.{keys, All-keys}
use torfoil.Bitfield.{Bitfield, get}
use torfoil.MetaInfo.{MetaInfo, piece_count}
use torfoil.MetaInfo.Pieces.{piece_count_pos}
use torfoil.PiecePicker.{PiecePicker, u32, progress_for, endgame}
use torfoil.PiecePicker.Invariant.{Inv}
use torfoil.PiecePicker.Pick.{
  BlockRequest, Picked, take_from, has_room, finish_one, finish_begun, rarest, open_rarest, pick,
}
use torfoil.PiecePicker.Pick.Rarest.{rarest-IsCandidate}
use torfoil.PiecePicker.Pick.TakeFrom.{IsWanted, IsPicking, take_from-IsPicking, meta-take_from}

-- The state of `pick` with the torrent and the pieces there as they were.
record IsPickingAs (peer : Bitfield) (max : ℕ) (meta : MetaInfo) (have : Bitfield) (r : Picked)
    : Type 0 where
  picking : IsPicking peer max r.0 r.1
  same_meta : r.0.meta ≡ meta
  same_have : r.0.have ≡ have

take_from-As :
    (peer : Bitfield) (max : ℕ) (e : Bool) (now : ℕ) (meta : MetaInfo) (have : Bitfield)
    (p : PiecePicker) (out : List BlockRequest) (piece : ℕ)
    → IsPickingAs peer max meta have (p, out)
    → piece < piece_count meta
    → get have piece ≡ false
    → get peer piece ≡ true
    → IsPickingAs peer max meta have (take_from max e now (p, out) piece)
take_from-As peer max e now meta have p out piece h known missing offered =
    let known' : piece < piece_count p.meta = rw h.same_meta known in
    let missing' : get p.have piece ≡ false = rw h.same_have missing in
    let same = meta-take_from peer max e now p out piece h.picking known' missing' offered in
    record {
      picking = take_from-IsPicking peer max e now p out piece h.picking known' missing' offered;
      same_meta = same.0 ∙ h.same_meta;
      same_have = same.1 ∙ h.same_have;
    }

finish_one-As :
    (peer : Bitfield) (max : ℕ) (e : Bool) (now : ℕ) (meta : MetaInfo) (have : Bitfield)
    (p : PiecePicker) (out : List BlockRequest) (piece : ℕ)
    → IsPickingAs peer max meta have (p, out)
    → piece < piece_count meta
    → IsPickingAs peer max meta have (finish_one max e now peer (p, out) piece)
unfolding finish_one
finish_one-As peer max e now meta have p out piece h known =
    elim (Bool-cases (get p.have piece || not (get peer piece))) [
      | inl skip ↦ rw skip h
      | inr wanted ↦ elim (Bool-cases (has_room e (progress_for p piece))) [
        | inr full ↦ rw (wanted, full) h
        | inl room ↦
            let missing : get p.have piece ≡ false = ground arith in
            rw (wanted, room)
              (take_from-As peer max e now meta have p out piece h known (rw h.same_have at missing)
                (ground arith))
      ]
    ]

finish_begun-As :
    (peer : Bitfield) (max : ℕ) (e : Bool) (now : ℕ) (meta : MetaInfo) (have : Bitfield)
    (ks : List ℕ) (p : PiecePicker) (out : List BlockRequest)
    → IsPickingAs peer max meta have (p, out)
    → All (λ k. k < piece_count meta) ks
    → IsPickingAs peer max meta have (finish_begun max e now peer ks (p, out))
unfolding finish_begun
finish_begun-As peer max e now meta have [] p out h known = h
finish_begun-As peer max e now meta have (k ∷ ks) p out h known =
    elim (Bool-cases (ltb (length out) max)) [
      | inr full ↦ rw full h
      | inl more ↦ rw more (
          finish_begun-As peer max e now meta have ks _ _
            (finish_one-As peer max e now meta have p out k h known.0) known.1)
    ]

-- The picker of a round, its cursor moved.
abbrev moved : PiecePicker → ℕ → PiecePicker
moved p best = record p { pick_cursor = u32 (best + 1) % piece_count p.meta }

moved-As :
    (peer : Bitfield) (max : ℕ) (meta : MetaInfo) (have : Bitfield) (p : PiecePicker)
    (out : List BlockRequest) (best : ℕ)
    → IsPickingAs peer max meta have (p, out)
    → IsPickingAs peer max meta have (moved p best, out)
moved-As peer max meta have p out best h =
    let v = h.picking.picker in
    record {
      picking = record {
        picker = record {
          consistent = v.consistent;
          have_valid = v.have_valid;
          have_bits = v.have_bits;
          counters = v.counters;
          begun = v.begun;
          asked = v.asked;
          bytes = v.bytes;
        };
        wanted = h.picking.wanted;
        room = h.picking.room;
      };
      same_meta = h.same_meta;
      same_have = h.same_have;
    }

open_rarest-As :
    (peer : Bitfield) (max : ℕ) (e : Bool) (now : ℕ) (meta : MetaInfo) (have : Bitfield)
    (rounds : ℕ) (p : PiecePicker) (out : List BlockRequest)
    → IsPickingAs peer max meta have (p, out)
    → IsPickingAs peer max meta have (open_rarest max e now peer rounds (p, out))
unfolding open_rarest
open_rarest-As peer max e now meta have zero p out h = h
open_rarest-As peer max e now meta have (suc rounds) p out h =
    elim (Bool-cases (ltb (length out) max)) [
      | inr full ↦ rw full h
      | inl more ↦ elim (Option-cases (rarest p peer)) [
        | inl nothing ↦ rw (more, nothing) h
        | inr (best, found) ↦
            let c =
              rarest-IsCandidate p peer best (piece_count_pos h.picking.picker.consistent) found in
            let taken =
              take_from-As peer max e now meta have (moved p best) out best
                (moved-As peer max meta have p out best h) (rw h.same_meta at c.known)
                (rw h.same_have at c.missing) c.offered in
            rw (more, found)
              (either (take_from max e now (moved p best, out) best) taken
                (open_rarest-As peer max e now meta have rounds _ _ taken))
      ]
    ]
  where
    either :
        (r : Picked)
        → IsPickingAs peer max meta have r
        → IsPickingAs peer max meta have (open_rarest max e now peer rounds r)
        → IsPickingAs peer max meta have
            (if length r.1 == length out then r else open_rarest max e now peer rounds r)
    either r stay next = elim (Bool-cases (length r.1 == length out)) [
      | inl same ↦ rw same stay
      | inr grown ↦ rw grown next
    ]

pick-As :
    (p : PiecePicker) (peer : Bitfield) (max now : ℕ)
    → Inv p
    → IsPickingAs peer max p.meta p.have (pick p peer max now)
unfolding pick
pick-As p peer max now v = elim (Bool-cases (max == 0 || piece_count p.meta == 0)) [
  | inl nothing ↦ rw nothing start
  | inr some_room ↦ rw some_room (
      open_rarest-As peer max (endgame p) now p.meta p.have max _ _ (
        finish_begun-As peer max (endgame p) now p.meta p.have (keys p.progress) p [] start
          (All-keys (λ k. k < piece_count p.meta) p.progress (λ k w e. (v.begun k w e).known))))
]
  where
    start : IsPickingAs peer max p.meta p.have (p, [])
    start = record {
      picking = record { picker = v; wanted = tt; room = omega arith };
      same_meta = refl;
      same_have = refl;
    }

-- `pick` keeps the invariant and changes neither the torrent nor the pieces that are there. It hands
-- out at most `max` requests. Each asks for a block, aligned and inside its piece, of a piece that is
-- missing here and that the peer has.
pub pick_lem :
    (p : PiecePicker) (peer : Bitfield) (max now : ℕ)
    → Inv p
    → Inv (pick p peer max now).0
      × ((pick p peer max now).0.meta ≡ p.meta)
      × ((pick p peer max now).0.have ≡ p.have)
      × (length (pick p peer max now).1 ≤ max)
      × All (IsWanted p.meta p.have peer) (pick p peer max now).1
pick_lem p peer max now v =
    let h = pick-As p peer max now v in
    (
      h.picking.picker,
      h.same_meta,
      h.same_have,
      h.picking.room,
      rw (h.same_meta, h.same_have) at h.picking.wanted,
    )
