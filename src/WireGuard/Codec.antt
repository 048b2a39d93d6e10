-- ===== src/WireGuard/Codec.antt =====
-- source/net/wg/wireguard.cpp: numbers with the lowest byte first, and the time stamp.
use torfoil.Prelude.{ℕ, zero, suc, ◌+◌, ◌*◌, ◌/◌, ◌%◌, ◌^◌, ◌<◌, ◌≡◌, [], ◌∷◌, ◌++◌, Bytes, arith}
use torfoil.Bytes.BigEndian.{wr_be32, wr_be64}

unfoldable pub write_le32 : ℕ → Bytes
write_le32 v = (v % 256) ∷ (v / 2 ^ 8 % 256) ∷ (v / 2 ^ 16 % 256) ∷ (v / 2 ^ 24 % 256) ∷ []

-- The first four bytes; a missing one counts for zero, and the callers have them all.
unfoldable pub read_le32 : Bytes → ℕ
read_le32 (a ∷ b ∷ c ∷ d ∷ _) = a + b * 2 ^ 8 + c * 2 ^ 16 + d * 2 ^ 24
read_le32 _ = 0

-- `n` bytes of a number.
unfoldable pub write_le : ℕ → ℕ → Bytes
write_le zero v = []
write_le (suc n) v = (v % 256) ∷ write_le n (v / 256)

unfoldable pub read_le : ℕ → Bytes → ℕ
read_le zero b = 0
read_le (suc n) [] = 0
read_le (suc n) (c ∷ b) = read_le n b * 256 + c

abbrev pub write_le64 : ℕ → Bytes
write_le64 v = write_le 8 v

abbrev pub read_le64 : Bytes → ℕ
read_le64 b = read_le 8 b

-- TAI64N: `wr_be64` keeps 64 bits of the sum, `wr_be32` 32 bits.
unfoldable pub tai64n : ℕ → Bytes
unfolding wr_be32 wr_be64
tai64n unix_ns =
    wr_be64 (0x400000000000000A + unix_ns / 1000000000) ++ wr_be32 (unix_ns % 1000000000)

pub read_le32-write_le32 :
    (v : ℕ) (rest : Bytes) → v < 2 ^ 32 → read_le32 (write_le32 v ++ rest) ≡ v
unfolding read_le32 write_le32
read_le32-write_le32 v rest small = omega arith

pub read_le64-write_le64 :
    (v : ℕ) (rest : Bytes) → v < 2 ^ 64 → read_le64 (write_le64 v ++ rest) ≡ v
unfolding read_le write_le
read_le64-write_le64 v rest small = omega arith
