-- ===== src/PiecePicker/Counts.antt =====
-- source/bt/piece_picker.cpp: the counters `done` and `pending` beside the blocks that they count, and
-- the cut of a piece into blocks.
use torfoil.Prelude.{
  ℕ, zero, suc, ◌+◌, ◌*◌, ◌^◌, ◌≤◌, ◌<◌, ◌≡◌, refl, Bool, true, false, List, [], ◌∷◌, arith,
  if◌then◌else◌, length, get_or, set, replicate,
}
use torfoil.MetaInfo.{MetaInfo, piece_count, size_of_piece}
use torfoil.MetaInfo.Pieces.{IsConsistent, size_of_piece_bounds}
use torfoil.PiecePicker.{BlockState, free, block_size, blocks_in_piece}

-- How many blocks pass a test.
abbrev pub count : (BlockState → Bool) → List BlockState → ℕ
count test [] = 0
count test (s ∷ rest) = (if test s then 1 else 0) + count test rest

pub count-le : (test : BlockState → Bool) (xs : List BlockState) → count test xs ≤ length xs
count-le test [] = omega arith
count-le test (s ∷ rest) = ground (arith, count-le test rest)

pub count-set :
    (test : BlockState → Bool) (xs : List BlockState) (i : ℕ) (s : BlockState)
    → i < length xs
    → count test (set xs i s) + (if test (get_or xs i free) then 1 else 0)
      ≡ count test xs + (if test s then 1 else 0)
count-set test [] i s lt = elim lt [ ]
count-set test (x ∷ xs) zero s lt = omega arith
count-set test (x ∷ xs) (suc i) s lt = omega (arith, count-set test xs i s (omega arith))

pub count-replicate :
    (test : BlockState → Bool) (n : ℕ) → test free ≡ false → count test (replicate n free) ≡ 0
count-replicate test zero h = refl
count-replicate test (suc n) h = ground (arith, count-replicate test n h)

-- All blocks done: the count reaches the number of blocks.
pub count-all :
    (test : BlockState → Bool) (xs : List BlockState) (i : ℕ)
    → count test xs ≡ length xs
    → i < length xs
    → test (get_or xs i free) ≡ true
count-all test [] i e lt = elim lt [ ]
count-all test (x ∷ xs) zero e lt = ground (arith, count-le test xs)
count-all test (x ∷ xs) (suc i) e lt =
    count-all test xs i (ground (arith, count-le test xs)) (omega arith)

-- A block begins inside its piece, and the piece ends inside its last block.
pub block_bounds :
    (m : MetaInfo) (piece b : ℕ)
    → IsConsistent m
    → piece < piece_count m
    → b < blocks_in_piece m piece
    → (b * block_size < size_of_piece m piece)
      × (size_of_piece m piece ≤ blocks_in_piece m piece * block_size)
      × (size_of_piece m piece ≤ 2 ^ 28)
unfolding blocks_in_piece
block_bounds m piece b c known lt =
    let bounds = size_of_piece_bounds m piece c known in
    (
      omega (arith, bounds.0, bounds.1, c.piece_length-le),
      omega (arith, bounds.0, bounds.1, c.piece_length-le),
      omega (arith, bounds.1, c.piece_length-le),
    )

-- A piece has few enough blocks for its counters.
pub blocks_in_piece-lt : (m : MetaInfo) (piece : ℕ) → blocks_in_piece m piece < 2 ^ 18
unfolding blocks_in_piece
blocks_in_piece-lt m piece = omega arith

pub count-full :
    (test : BlockState → Bool) (xs : List BlockState)
    → ((i : ℕ) → i < length xs → test (get_or xs i free) ≡ true)
    → count test xs ≡ length xs
count-full test [] h = refl
count-full test (x ∷ xs) h =
    let rest = count-full test xs (λ i lt. h (suc i) (omega arith)) in
    ground (arith, h 0 (omega arith), rest)

pub get_or-replicate : (n b : ℕ) → get_or (replicate n free) b free ≡ free
get_or-replicate zero b = refl
get_or-replicate (suc n) zero = refl
get_or-replicate (suc n) (suc b) = get_or-replicate n b
