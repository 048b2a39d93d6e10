-- ===== src/PiecePicker/Histories.antt =====
-- source/bt/piece_picker.cpp: any history of calls of class PiecePicker.
use torfoil.Prelude.{ℕ, ◌<◌, ◌^◌, Bool, List, [], ◌∷◌, All}
use torfoil.Bitfield.{Bitfield}
use torfoil.MetaInfo.{MetaInfo}
use torfoil.MetaInfo.Pieces.{IsConsistent}
use torfoil.PiecePicker.{
  PiecePicker, init, set_have, peer_added, peer_removed, peer_has, on_block_received,
  on_request_dropped, on_piece_verified, expire_requests,
}
use torfoil.PiecePicker.Invariant.{Inv, init-Inv}
use torfoil.PiecePicker.Availability.{peers-Inv}
use torfoil.PiecePicker.Have.{set_have-Inv}
use torfoil.PiecePicker.Expiry.{on_request_dropped-Inv, expire_requests-Inv}
use torfoil.PiecePicker.Checks.{on_piece_verified-Inv}
use torfoil.PiecePicker.Received.{on_block_received-Inv}
use torfoil.PiecePicker.Pick.{pick}
use torfoil.PiecePicker.Pick.Wanted.{pick_lem}

pub data Call : Type 0 where
  has_piece : ℕ → Call
  joins leaves : Bitfield → Call
  tells : ℕ → Call
  picks : Bitfield → ℕ → ℕ → Call
  receives drops : ℕ → ℕ → Call
  verifies : ℕ → Bool → Call
  expires : ℕ → ℕ → Call

pub step : PiecePicker → Call → PiecePicker
step p (has_piece piece) = set_have p piece
step p (joins pieces) = peer_added p pieces
step p (leaves pieces) = peer_removed p pieces
step p (tells piece) = peer_has p piece
step p (picks peer max now) = (pick p peer max now).0
step p (receives piece offset) = (on_block_received p piece offset).0
step p (drops piece offset) = on_request_dropped p piece offset
step p (verifies piece ok) = on_piece_verified p piece ok
step p (expires now timeout) = (expire_requests p now timeout).0

pub run : PiecePicker → List Call → PiecePicker
run p [] = p
run p (c ∷ cs) = run (step p c) cs

-- An offset is a `uint32_t`.
abbrev pub Fits : Call → Type 0
Fits (receives piece offset) = offset < 2 ^ 32
Fits (drops piece offset) = offset < 2 ^ 32
Fits _ = Unit {0}

step-Inv : (p : PiecePicker) (c : Call) → Fits c → Inv p → Inv (step p c)
unfolding step
step-Inv p (has_piece piece) f v = set_have-Inv p piece v
step-Inv p (joins pieces) f v = (peers-Inv p pieces 0 v).0
step-Inv p (leaves pieces) f v = (peers-Inv p pieces 0 v).1
step-Inv p (tells piece) f v = (peers-Inv p p.have piece v).2
step-Inv p (picks peer max now) f v = (pick_lem p peer max now v).0
step-Inv p (receives piece offset) f v = on_block_received-Inv p piece offset v f
step-Inv p (drops piece offset) f v = on_request_dropped-Inv p piece offset v f
step-Inv p (verifies piece ok) f v = on_piece_verified-Inv p piece ok v
step-Inv p (expires now timeout) f v = expire_requests-Inv p now timeout v

run-Inv : (p : PiecePicker) (cs : List Call) → All Fits cs → Inv p → Inv (run p cs)
unfolding run
run-Inv p [] f v = v
run-Inv p (c ∷ cs) f v = run-Inv (step p c) cs f.1 (step-Inv p c f.0 v)

-- After any history of calls on a new picker of a consistent torrent, the invariant holds: the
-- counters of each piece begun are what they count, no piece is both begun and there, the bytes done
-- are those of the pieces that are there, and every pending block has a request that can expire.
pub run-init-Inv :
    (meta : MetaInfo) (cs : List Call) → IsConsistent meta → All Fits cs → Inv (run (init meta) cs)
run-init-Inv meta cs c f = run-Inv (init meta) cs f (init-Inv meta c)
