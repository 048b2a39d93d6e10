-- ===== src/MetaInfo/Pieces.antt =====
-- source/bt/metainfo.cpp: MetaInfo::size_of_piece cuts the torrent into pieces.
use torfoil.Prelude.{
  dec_lt, ℕ, zero, suc, ◌+◌, ◌-◌, ◌*◌, ◌%◌, ◌^◌, ◌≤◌, ◌<◌, ◌≡◌, refl, arith, length, false, ltb,
}
use torfoil.Prelude.Sums.{sum_below}
use torfoil.MetaInfo.{MetaInfo, piece_count, size_of_piece}

-- What `read_info` establishes of the numbers of a torrent: the pieces are as many as the size needs.
pub record IsConsistent (m : MetaInfo) : Type 0 where
  pub piece_length_pos : 0 < m.piece_length
  pub piece_length-le : m.piece_length ≤ 256 * 1024 * 1024
  pub total_pos : 0 < m.total_size
  pub total_fits : m.total_size < 2 ^ 64
  pub few : length m.piece_hashes < 2 ^ 32 - 8
  pub enough : m.total_size ≤ length m.piece_hashes * m.piece_length
  pub none_spare : length m.piece_hashes * m.piece_length < m.total_size + m.piece_length

pub piece_count-length : {m : MetaInfo} → IsConsistent m → piece_count m ≡ length m.piece_hashes
unfolding piece_count
piece_count-length c = omega (arith, c.few)

-- With `q` for what lies before the last piece.
last_piece :
    (n i pl total q all : ℕ)
    → i + 1 ≡ n
    → q ≡ i * pl
    → all ≡ n * pl
    → total ≤ all
    → all < total + pl
    → (q < total) × (total ≤ q + pl)
last_piece n i pl total q all e eq ea enough spare =
    let step : all ≡ q + pl = rw (ea, ← e, eq) (omega arith) in (omega arith, omega arith)

pub piece_count_pos : {m : MetaInfo} → IsConsistent m → 0 < piece_count m
piece_count_pos {m} c = grind (arith, piece_count-length c, c.enough, c.total_pos)

-- Every piece but the last has the piece length.
pub size_of_piece-inner :
    (m : MetaInfo) (i : ℕ)
    → IsConsistent m
    → i + 1 < piece_count m
    → size_of_piece m i ≡ m.piece_length
unfolding size_of_piece
size_of_piece-inner m i c h = ground (arith, piece_count-length c, c.few)

-- The last one has what is left.
pub size_of_piece-last :
    (m : MetaInfo) (i : ℕ)
    → IsConsistent m
    → i + 1 ≡ piece_count m
    → (size_of_piece m i + i * m.piece_length ≡ m.total_size)
      × (0 < size_of_piece m i)
      × (size_of_piece m i ≤ m.piece_length)
unfolding size_of_piece
size_of_piece-last m i c h =
    let (before, rest) =
      last_piece (length m.piece_hashes) i m.piece_length m.total_size (i * m.piece_length)
        (length m.piece_hashes * m.piece_length) (omega (arith, piece_count-length c)) refl refl
        c.enough c.none_spare in
    let last : ltb ((i + 1) % 2 ^ 32) (piece_count m) ≡ false =
      ground (arith, piece_count-length c, c.few) in
    rw last (
      omega (arith, c.total_fits, c.piece_length-le),
      omega (arith, c.total_fits, c.piece_length-le),
      omega (arith, c.total_fits, c.piece_length-le),
    )

-- A piece is never empty and never longer than the piece length.
pub size_of_piece_bounds :
    (m : MetaInfo) (i : ℕ)
    → IsConsistent m
    → i < piece_count m
    → (0 < size_of_piece m i) × (size_of_piece m i ≤ m.piece_length)
size_of_piece_bounds m i c lt = elim (dec_lt (i + 1) (piece_count m)) [
  | yes inner ↦ rw (size_of_piece-inner m i c inner) (c.piece_length_pos, omega arith)
  | no last ↦ let bounds = size_of_piece-last m i c (omega arith) in (bounds.1, bounds.2)
]

sum-inner :
    (m : MetaInfo) (n : ℕ)
    → IsConsistent m
    → n < piece_count m
    → sum_below n (size_of_piece m) ≡ n * m.piece_length
sum-inner m zero c h = omega arith
sum-inner m (suc n) c h =
    omega (arith, sum-inner m n c (omega arith), size_of_piece-inner m n c (omega arith))

sum-pieces :
    (m : MetaInfo) (n : ℕ)
    → IsConsistent m
    → suc n ≡ piece_count m
    → sum_below (suc n) (size_of_piece m) ≡ m.total_size
sum-pieces m n c h =
    omega (arith, sum-inner m n c (omega arith), (size_of_piece-last m n c (omega arith)).0)

-- The pieces of a consistent torrent are its bytes: their sizes add up to the total size.
pub sum-size_of_piece :
    (m : MetaInfo) → IsConsistent m → sum_below (piece_count m) (size_of_piece m) ≡ m.total_size
sum-size_of_piece m c =
    let n : ℕ = piece_count m - 1 in
    let e : suc n ≡ piece_count m = omega (arith, piece_count_pos c) in
    rw (← e) (sum-pieces m n c e)
