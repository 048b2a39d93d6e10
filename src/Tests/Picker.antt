-- ===== src/Tests/Picker.antt =====
-- source/bt/piece_picker.cpp, class PiecePicker, at fixed inputs.
use torfoil.Prelude.{◌*◌, ◌≤◌, ◌≡◌, ◌↔◌, refl, some, true, false, List, [], ◌∷◌, arith, length, All}
use torfoil.Prelude.Sums.{sum_below}
use torfoil.Prelude.Maps.{find, put}
use torfoil.Bitfield.{Bitfield, get, resize}
use torfoil.MetaInfo.{MetaInfo, piece_count, size_of_piece}
use torfoil.MetaInfo.Pieces.{IsConsistent, sum-size_of_piece}
use torfoil.PiecePicker.{
  is_complete, free, pending, PieceProgress, PiecePicker, block_size, init, set_have, peer_added,
  peer_removed, peer_has, on_block_received, on_request_dropped, on_piece_verified, expire_requests,
  endgame, progress_for, blocks_in_piece,
}
use torfoil.PiecePicker.Invariant.{Inv, init-Inv}
use torfoil.PiecePicker.Availability.{peers-Inv, peer_removed-peer_added}
use torfoil.PiecePicker.Have.{set_have-Inv}
use torfoil.PiecePicker.Expiry.{on_request_dropped-Inv, expire_requests-Inv}
use torfoil.PiecePicker.Checks.{on_piece_verified-Inv}
use torfoil.PiecePicker.Received.{on_block_received-Inv}
use torfoil.PiecePicker.Complete.{OthersDone, on_block_received_iff}
use torfoil.PiecePicker.Histories.{
  Call, joins, picks, receives, verifies, expires, run, run-init-Inv,
}
use torfoil.PiecePicker.Finished.{is_complete_iff}
use torfoil.PiecePicker.Pick.{BlockRequest, pick, take_blocks, take_block}
use torfoil.PiecePicker.Pick.TakeFrom.{IsWanted}
use torfoil.PiecePicker.Pick.Wanted.{pick_lem}

-- Two pieces, of two blocks and of one.
abbrev small : MetaInfo
small = record {
  info_hash = [];
  name = [];
  piece_length = 32768;
  piece_hashes = [] ∷ [] ∷ [];
  files = [];
  total_size = 40000;
  single_file = true;
  is_private = false;
  trackers = [];
}

small-IsConsistent : IsConsistent small
small-IsConsistent = omega arith

-- A peer that has both.
abbrev seed : Bitfield
seed = record { bytes = 0xc0 ∷ []; bits = 2; count = 2 }

joined : PiecePicker
joined = peer_added (init small) seed

joined-Inv : Inv joined
unfolding joined
joined-Inv = (peers-Inv (init small) seed 0 (init-Inv small small-IsConsistent)).0

begun : PiecePicker
unfolding joined
begun = (pick joined seed 1 5).0

begun-Inv : Inv begun
unfolding begun
begun-Inv = (pick_lem joined seed 1 5 joined-Inv).0

abbrev first_request : BlockRequest
first_request = record { piece = 0; offset = 0; length = 16384 }

pick_run : (pick joined seed 1 5).1 ≡ first_request ∷ []
unfolding joined pick peer_added init get piece_count size_of_piece endgame resize find take_blocks
    progress_for blocks_in_piece take_block
pick_run = refl

abbrev begun_progress : PieceProgress
begun_progress = record { blocks = pending ∷ free ∷ []; done = 0; pending = 1 }

begun_run : find 0 begun.progress ≡ some begun_progress
unfolding begun joined pick peer_added init get piece_count size_of_piece endgame resize find
    take_blocks progress_for blocks_in_piece take_block put
begun_run = refl

-- One block of two arrives: the piece is not complete.
received_run : (on_block_received begun 0 0).1 ≡ false
unfolding begun joined pick peer_added init get piece_count size_of_piece endgame resize find
    take_blocks progress_for blocks_in_piece take_block on_block_received put
received_run = refl

sum-size_of_piece_example : sum_below (piece_count small) (size_of_piece small) ≡ 40000
sum-size_of_piece_example = sum-size_of_piece small small-IsConsistent

pick_lem_example :
    Inv (pick joined seed 4 5).0
    × ((pick joined seed 4 5).0.meta ≡ joined.meta)
    × ((pick joined seed 4 5).0.have ≡ joined.have)
    × (length (pick joined seed 4 5).1 ≤ 4)
    × All (IsWanted joined.meta joined.have seed) (pick joined seed 4 5).1
pick_lem_example = pick_lem joined seed 4 5 joined-Inv

on_block_received-Inv_example : Inv (on_block_received begun 0 0).0
on_block_received-Inv_example = on_block_received-Inv begun 0 0 begun-Inv (omega arith)

on_block_received_iff_example :
    ((on_block_received begun 0 (1 * block_size)).1 ≡ true) ↔ OthersDone begun_progress 1
on_block_received_iff_example =
    on_block_received_iff begun 0 1 begun_progress begun-Inv begun_run (omega arith) (cc)

on_request_dropped-Inv_example : Inv (on_request_dropped begun 0 0)
on_request_dropped-Inv_example = on_request_dropped-Inv begun 0 0 begun-Inv (omega arith)

on_piece_verified-Inv_example : Inv (on_piece_verified begun 0 false)
on_piece_verified-Inv_example = on_piece_verified-Inv begun 0 false begun-Inv

expire_requests-Inv_example : Inv (expire_requests begun 60000 30000).0
expire_requests-Inv_example = expire_requests-Inv begun 60000 30000 begun-Inv

set_have-Inv_example : Inv (set_have begun 0)
set_have-Inv_example = set_have-Inv begun 0 begun-Inv

peers-Inv_example :
    Inv (peer_added begun seed) × Inv (peer_removed begun seed) × Inv (peer_has begun 1)
peers-Inv_example = peers-Inv begun seed 1 begun-Inv

init-Inv_example : Inv (init small)
init-Inv_example = init-Inv small small-IsConsistent

peer_removed-peer_added_example : peer_removed (peer_added (init small) seed) seed ≡ init small
peer_removed-peer_added_example =
    peer_removed-peer_added (init small) seed (unfold init piece_count in omega arith)

abbrev history : List Call
history =
    joins seed
    ∷ picks seed 2 5
    ∷ receives 0 0
    ∷ receives 0 16384
    ∷ verifies 0 true
    ∷ expires 90000 30000
    ∷ []

run-init-Inv_example : Inv (run (init small) history)
run-init-Inv_example = run-init-Inv small history small-IsConsistent (omega arith)

is_complete_iff_example : (is_complete begun ≡ true) ↔ (begun.bytes_done ≡ begun.meta.total_size)
is_complete_iff_example = is_complete_iff begun begun-Inv
