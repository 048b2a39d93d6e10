-- ===== src/Bitfield/Bits.antt =====
-- source/bt/piece_picker.cpp: the bit operations of Bitfield on one byte, by a table of all bytes.
use Prim.Native.Nat.{bit_and, bit_or}
use torfoil.Prelude.{
  ℕ, ◌+◌, ◌-◌, ◌/◌, ◌%◌, ◌^◌, ◌<◌, ◌≤◌, ◌≡◌, refl, Bool, true, ◌&&◌, ltb, leb, ◌==◌, ==_iff,
  if◌then◌else◌, table, table_lem, table2, table2_lem, table3, table3_lem, arith,
}
use torfoil.Prelude.Sums.{sum_below, sum_below-zero}
use torfoil.Bitfield.{ones_from}

-- Bit `k` of a byte, from the highest.
abbrev pub bit : ℕ → ℕ → ℕ
bit x k = x / 2 ^ (7 - k) % 2

-- What the three operations do to bit `k`, seen at bit `j`.
row : ℕ → ℕ → ℕ → Bool
row x k j =
    (if bit_and x (2 ^ (7 - k)) == 0 then bit x k == 0 else bit x k == 1)
    && bit (bit_or x (2 ^ (7 - k))) j == (if j == k then 1 else bit x j)
    && bit (bit_and x (255 - 2 ^ (7 - k))) j == (if j == k then 0 else bit x j)
    && ltb (bit_or x (2 ^ (7 - k))) 256
    && ltb (bit_and x (255 - 2 ^ (7 - k))) 256

rows : table3 row 256 8 8 ≡ true
unfolding table row
rows = refl

row_lem : (x k j : ℕ) → x < 256 → k < 8 → j < 8 → row x k j ≡ true
row_lem x k j hx hk hj = table3_lem row 256 8 8 x k j hx hk hj rows

pub record Ops (x k j : ℕ) : Type 0 where
  pub test : (bit_and x (2 ^ (7 - k)) == 0) ≡ (bit x k == 0)
  pub after_or : bit (bit_or x (2 ^ (7 - k))) j ≡ (if j == k then 1 else bit x j)
  pub after_and : bit (bit_and x (255 - 2 ^ (7 - k))) j ≡ (if j == k then 0 else bit x j)
  pub or_fits : bit_or x (2 ^ (7 - k)) < 256
  pub and_fits : bit_and x (255 - 2 ^ (7 - k)) < 256

row-Ops : (x k j : ℕ) → row x k j ≡ true → Ops x k j
unfolding row
row-Ops x k j h = record {
  test = ground arith;
  after_or = ground arith;
  after_and = ground arith;
  or_fits = ground arith;
  and_fits = ground arith;
}

pub byte-Ops : (x k j : ℕ) → x < 256 → k < 8 → j < 8 → Ops x k j
byte-Ops x k j hx hk hj = row-Ops x k j (row_lem x k j hx hk hj)

pub bit-le : (x k : ℕ) → bit x k ≤ 1
bit-le x k = omega arith

-- The count of one byte, and the test of its lowest `s` bits.
count_row : ℕ → Bool
count_row x =
    ones_from 8 0 x == bit x 0 + bit x 1 + bit x 2 + bit x 3 + bit x 4 + bit x 5 + bit x 6 + bit x 7

count_rows : table count_row 256 ≡ true
unfolding table count_row ones_from
count_rows = refl

pub ones_from-bit :
    (x : ℕ)
    → x < 256
    → ones_from 8 0 x
      ≡ bit x 0 + bit x 1 + bit x 2 + bit x 3 + bit x 4 + bit x 5 + bit x 6 + bit x 7
unfolding count_row
ones_from-bit x h = (==_iff _ _).0 (table_lem count_row 256 x h count_rows)

low_row : ℕ → ℕ → ℕ → Bool
low_row x s j =
    (if bit_and x (2 ^ s - 1) == 0 then (if leb (8 - s) j then bit x j == 0 else true) else true)

low_rows : table3 low_row 256 8 8 ≡ true
unfolding table low_row
low_rows = refl

-- Where the lowest `s` bits are masked to zero, each of them is zero.
pub low_bits-zero :
    (x s j : ℕ) → x < 256 → s < 8 → j < 8 → bit_and x (2 ^ s - 1) ≡ 0 → 8 - s ≤ j → bit x j ≡ 0
low_bits-zero x s j hx hs hj none_set low =
    let checked : low_row x s j ≡ true = table3_lem low_row 256 8 8 x s j hx hs hj low_rows in
    unfold low_row in ground arith

ones_low_row : ℕ → ℕ → Bool
ones_low_row x s =
    if sum_below s (λ k. bit x (7 - k)) == 0 then bit_and x (2 ^ s - 1) == 0 else true

ones_low_rows : table2 ones_low_row 256 8 ≡ true
unfolding table ones_low_row
ones_low_rows = refl

-- And the other way round.
pub low_bits-none :
    (x s : ℕ)
    → x < 256
    → s < 8
    → ((j : ℕ) → j < 8 → 8 - s ≤ j → bit x j ≡ 0)
    → bit_and x (2 ^ s - 1) ≡ 0
low_bits-none x s hx hs low =
    let checked : ones_low_row x s ≡ true = table2_lem ones_low_row 256 8 x s hx hs ones_low_rows in
    let ones : sum_below s (λ k. bit x (7 - k)) ≡ 0 =
      sum_below-zero s _ (λ k lt. low (7 - k) (omega arith) (omega arith)) in
    unfold ones_low_row in ground (arith, ones)
