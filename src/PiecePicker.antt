-- ===== src/PiecePicker.antt =====
-- source/bt/piece_picker.cpp and include/bt/piece_picker.hpp: class PiecePicker, its state and every
-- operation but `pick`. Sums of `uint32_t` and `uint64_t` are written with their wrap.
pub mod Counts
pub mod Invariant
pub mod Availability
pub mod Have
pub mod Blocks
pub mod Expiry
pub mod Checks
pub mod Received
pub mod Complete
pub mod Pick
pub mod Histories
pub mod Finished
use torfoil.Prelude.{
  ℕ, zero, suc, ◌+◌, ◌-◌, ◌*◌, ◌/◌, ◌%◌, ◌^◌, Bool, true, false, not, ◌&&◌, ◌||◌, Option, none,
  some, List, [], ◌∷◌, ltb, leb, ◌==◌, if◌then◌else◌, length, get_or, set, replicate, min,
}
use torfoil.Prelude.Maps.{find, put, erase}
use torfoil.Bitfield.{Bitfield, get, set_bit, full}
use torfoil.Bitfield
use torfoil.MetaInfo.{MetaInfo, piece_count, size_of_piece}

pub data BlockState : Type 0 where
  free pending done : BlockState

pub record PieceProgress : Type 0 where
  pub blocks : List BlockState
  pub done : ℕ
  pub pending : ℕ

pub record PiecePicker : Type 0 where
  pub meta : MetaInfo
  pub have : Bitfield
  pub availability : List ℕ
  pub progress : List (ℕ × PieceProgress)
  pub pending : List (ℕ × ℕ)
  pub bytes_done : ℕ
  pub pick_cursor : ℕ

abbrev pub block_size : ℕ
block_size = 16 * 1024

abbrev pub u32 : ℕ → ℕ
u32 x = x % 2 ^ 32

abbrev pub is_free : BlockState → Bool
is_free free = true
is_free _ = false

abbrev pub is_pending : BlockState → Bool
is_pending pending = true
is_pending _ = false

abbrev pub is_done : BlockState → Bool
is_done done = true
is_done _ = false

-- `piece << 32 | offset`.
abbrev pub block_key : ℕ → ℕ → ℕ
block_key piece offset = piece * 2 ^ 32 + offset

unfoldable pub init : MetaInfo → PiecePicker
init meta = record {
  meta = meta;
  have = Bitfield.resize (piece_count meta);
  availability = replicate (piece_count meta) 0;
  progress = [];
  pending = [];
  bytes_done = 0;
  pick_cursor = 0;
}

unfoldable pub blocks_in_piece : MetaInfo → ℕ → ℕ
blocks_in_piece meta piece = u32 (size_of_piece meta piece + (block_size - 1)) / block_size

abbrev pub fresh : MetaInfo → ℕ → PieceProgress
fresh meta piece = record {
  blocks = replicate (blocks_in_piece meta piece) free;
  done = 0;
  pending = 0;
}

-- The reference that `progress_for` returns; the caller stores what it makes of it.
unfoldable pub progress_for : PiecePicker → ℕ → PieceProgress
progress_for p piece = elim (find piece p.progress) [ some prog ↦ prog | none ↦ fresh p.meta piece ]

unfoldable pub set_have : PiecePicker → ℕ → PiecePicker
set_have p piece = if leb (piece_count p.meta) piece || get p.have piece then p else record p {
  have = set_bit p.have piece true;
  bytes_done = (p.bytes_done + size_of_piece p.meta piece) % 2 ^ 64;
  progress = erase piece p.progress;
}

-- One round for each counter, from piece `i` on, up to piece `n`.
unfoldable pub count_up : Bitfield → ℕ → ℕ → List ℕ → List ℕ
count_up pieces n i [] = []
count_up pieces n i (a ∷ rest) =
    (if ltb i n && (get pieces i && ltb a 0xffff) then a + 1 else a)
    ∷ count_up pieces n (i + 1) rest

unfoldable pub count_down : Bitfield → ℕ → ℕ → List ℕ → List ℕ
count_down pieces n i [] = []
count_down pieces n i (a ∷ rest) =
    (if ltb i n && (get pieces i && ltb 0 a) then a - 1 else a) ∷ count_down pieces n (i + 1) rest

unfoldable pub peer_added : PiecePicker → Bitfield → PiecePicker
unfolding count_up
peer_added p pieces = record p {
  availability = count_up pieces (min pieces.bits (piece_count p.meta)) 0 p.availability;
}

unfoldable pub peer_removed : PiecePicker → Bitfield → PiecePicker
unfolding count_down
peer_removed p pieces = record p {
  availability = count_down pieces (min pieces.bits (piece_count p.meta)) 0 p.availability;
}

unfoldable pub peer_has : PiecePicker → ℕ → PiecePicker
peer_has p piece =
    if ltb piece (length p.availability) && ltb (get_or p.availability piece 0) 0xffff
    then record p { availability = set p.availability piece (get_or p.availability piece 0 + 1) }
    else p

unfoldable pub endgame : PiecePicker → Bool
endgame p =
    let total = piece_count p.meta in
    ltb 0 total && ltb (u32 (u32 (total + 2 ^ 32 - p.have.count) * 50)) total

abbrev pub drop_pending : ℕ → ℕ
drop_pending n = if ltb 0 n then n - 1 else n

-- A block that was not done yet becomes `done`.
unfoldable pub received : PieceProgress → ℕ → BlockState → PieceProgress
received prog index state = record {
  blocks = set prog.blocks index done;
  done = u32 (prog.done + 1);
  pending = if is_pending state then drop_pending prog.pending else prog.pending;
}

abbrev pub store_received : PiecePicker → ℕ → PieceProgress → PiecePicker × Bool
store_received p piece prog =
    (record p { progress = put piece prog p.progress }, prog.done == length prog.blocks)

-- `true` when that was the last block of the piece.
unfoldable pub receive_block : PiecePicker → ℕ → ℕ → PieceProgress → BlockState → PiecePicker × Bool
unfolding received
receive_block p piece index prog done = (p, false)
receive_block p piece index prog free = store_received p piece (received prog index free)
receive_block p piece index prog pending = store_received p piece (received prog index pending)

unfoldable pub receive_in : PiecePicker → ℕ → ℕ → PieceProgress → PiecePicker × Bool
unfolding receive_block
receive_in p piece offset prog =
    let index = offset / block_size in
    if leb (length prog.blocks) index
    then (p, false)
    else receive_block (record p { pending = erase (block_key piece offset) p.pending }) piece index
        prog (get_or prog.blocks index free)

unfoldable pub on_block_received : PiecePicker → ℕ → ℕ → PiecePicker × Bool
unfolding receive_in
on_block_received p piece offset =
    if leb (piece_count p.meta) piece || get p.have piece
    then (p, false)
    else if not (offset % block_size == 0)
    then (p, false)
    else elim (find piece p.progress) [
      | none ↦ (p, false)
      | some prog ↦ receive_in p piece offset prog
    ]

-- A pending block at `index` becomes free again.
unfoldable pub release_block : PieceProgress → ℕ → PieceProgress
release_block prog index =
    if ltb index (length prog.blocks) && is_pending (get_or prog.blocks index free)
    then record prog { blocks = set prog.blocks index free; pending = drop_pending prog.pending }
    else prog

unfoldable pub release_in : List (ℕ × PieceProgress) → ℕ → ℕ → List (ℕ × PieceProgress)
unfolding release_block
release_in m piece offset = elim (find piece m) [
  | none ↦ m
  | some prog ↦ put piece (release_block prog (offset / block_size)) m
]

unfoldable pub on_request_dropped : PiecePicker → ℕ → ℕ → PiecePicker
unfolding release_in
on_request_dropped p piece offset = record p {
  pending = erase (block_key piece offset) p.pending;
  progress = release_in p.progress piece offset;
}

-- The requests of other pieces.
unfoldable pub forget_piece : ℕ → List (ℕ × ℕ) → List (ℕ × ℕ)
forget_piece piece [] = []
forget_piece piece ((key, at) ∷ rest) =
    if u32 (key / 2 ^ 32) == piece
    then forget_piece piece rest
    else (key, at) ∷ forget_piece piece rest

unfoldable pub restart : List (ℕ × PieceProgress) → ℕ → List (ℕ × PieceProgress)
restart m piece = elim (find piece m) [
  | none ↦ m
  | some prog ↦
      put piece (record { blocks = replicate (length prog.blocks) free; done = 0; pending = 0 }) m
]

unfoldable pub on_piece_verified : PiecePicker → ℕ → Bool → PiecePicker
unfolding forget_piece restart
on_piece_verified p piece true = set_have p piece
on_piece_verified p piece false = record p {
  progress = restart p.progress piece;
  pending = forget_piece piece p.pending;
}

pub record Expired : Type 0 where
  pub kept : List (ℕ × ℕ)
  pub progress : List (ℕ × PieceProgress)
  pub freed : ℕ

unfoldable pub expire_from : ℕ → ℕ → List (ℕ × ℕ) → List (ℕ × PieceProgress) → Expired
unfolding release_in
expire_from now timeout [] m = record { kept = []; progress = m; freed = 0 }
expire_from now timeout ((key, at) ∷ rest) m =
    let late = not (ltb ((now + 2 ^ 64 - at) % 2 ^ 64) timeout) in
    let m' = if late then release_in m (u32 (key / 2 ^ 32)) (u32 key) else m in
    let r = expire_from now timeout rest m' in
    record {
      kept = if late then r.kept else (key, at) ∷ r.kept;
      progress = r.progress;
      freed = if late then r.freed + 1 else r.freed;
    }

unfoldable pub expire_requests : PiecePicker → ℕ → ℕ → PiecePicker × ℕ
unfolding expire_from
expire_requests p now timeout =
    let r = expire_from now timeout p.pending p.progress in
    (record p { pending = r.kept; progress = r.progress }, r.freed)

unfoldable pub is_complete : PiecePicker → Bool
is_complete p = full p.have
