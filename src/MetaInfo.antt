-- ===== src/MetaInfo.antt =====
-- include/bt/metainfo.hpp and source/bt/metainfo.cpp: what is known of a torrent. An
-- `std::array<uint8_t, 20>` is the list of its bytes.
pub mod Pieces
pub mod Trackers
pub mod Read
pub mod Accepted
pub mod Files
pub mod Torrents
use torfoil.Prelude.{
  ℕ, ◌+◌, ◌-◌, ◌*◌, ◌%◌, ◌^◌, Bool, not, ◌&&◌, List, [], ◌∷◌, ltb, ◌==◌, if◌then◌else◌, length,
  Bytes,
}

pub record FileEntry : Type 0 where
  pub path : Bytes
  pub length : ℕ
  pub offset : ℕ

pub record MetaInfo : Type 0 where
  pub info_hash : Bytes
  pub name : Bytes
  pub piece_length : ℕ
  pub piece_hashes : List Bytes
  pub files : List FileEntry
  pub total_size : ℕ
  pub single_file : Bool
  pub is_private : Bool
  pub trackers : List Bytes

unfoldable pub piece_count : MetaInfo → ℕ
piece_count m = length m.piece_hashes % 2 ^ 32

unfoldable pub valid : MetaInfo → Bool
valid m = ltb 0 m.piece_length && not (length m.piece_hashes == 0) && ltb 0 m.total_size

-- `uint64_t` differences and the cast to `uint32_t` wrap.
unfoldable pub size_of_piece : MetaInfo → ℕ → ℕ
size_of_piece m index =
    if ltb ((index + 1) % 2 ^ 32) (piece_count m)
    then m.piece_length
    else (m.total_size + 2 ^ 64 - index * m.piece_length % 2 ^ 64) % 2 ^ 64 % 2 ^ 32
