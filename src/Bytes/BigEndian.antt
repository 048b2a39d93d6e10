-- ===== src/Bytes/BigEndian.antt =====
-- include/util/bytes.hpp: numbers in network order. A buffer is the list of its bytes; a write gives
-- the bytes that it stores, and a read at a pointer takes the bytes from there on. The `<<` and `|` of
-- a read join disjoint bits and are written as a sum.
use torfoil.Prelude.{
  ℕ, ◌+◌, ◌*◌, ◌/◌, ◌%◌, ◌^◌, ◌<◌, ◌≡◌, [], ◌∷◌, ◌++◌, arith, get_or, drop, Bytes,
}

unfoldable pub rd_be16 : Bytes → ℕ
rd_be16 p = get_or p 0 0 * 2 ^ 8 + get_or p 1 0

unfoldable pub rd_be32 : Bytes → ℕ
rd_be32 p = get_or p 0 0 * 2 ^ 24 + get_or p 1 0 * 2 ^ 16 + get_or p 2 0 * 2 ^ 8 + get_or p 3 0

unfoldable pub rd_be64 : Bytes → ℕ
unfolding rd_be32
rd_be64 p = rd_be32 p * 2 ^ 32 + rd_be32 (drop 4 p)

unfoldable pub wr_be16 : ℕ → Bytes
wr_be16 v = (v / 2 ^ 8 % 256) ∷ (v % 256) ∷ []

unfoldable pub wr_be32 : ℕ → Bytes
wr_be32 v = (v / 2 ^ 24 % 256) ∷ (v / 2 ^ 16 % 256) ∷ (v / 2 ^ 8 % 256) ∷ (v % 256) ∷ []

unfoldable pub wr_be64 : ℕ → Bytes
unfolding wr_be32
wr_be64 v = wr_be32 (v / 2 ^ 32 % 2 ^ 32) ++ wr_be32 (v % 2 ^ 32)

-- A number of 16, 32 or 64 bits that was written is read back, whatever follows it in the buffer.
pub rd_be-wr_be :
    (v w x : ℕ) (rest : Bytes)
    → v < 2 ^ 16
    → w < 2 ^ 32
    → x < 2 ^ 64
    → (rd_be16 (wr_be16 v ++ rest) ≡ v)
      × (rd_be32 (wr_be32 w ++ rest) ≡ w)
      × (rd_be64 (wr_be64 x ++ rest) ≡ x)
unfolding rd_be16 rd_be32 rd_be64 wr_be16 wr_be32 wr_be64
rd_be-wr_be v w x rest hv hw hx = (omega arith, omega arith, omega arith)

pub wr_be32-rd_be32 :
    (a b c d : ℕ) (rest : Bytes)
    → a < 256
    → b < 256
    → c < 256
    → d < 256
    → wr_be32 (rd_be32 (a ∷ b ∷ c ∷ d ∷ rest)) ≡ a ∷ b ∷ c ∷ d ∷ []
unfolding rd_be32 wr_be32
wr_be32-rd_be32 a b c d rest ha hb hc hd = ground arith
