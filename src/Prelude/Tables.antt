-- ===== src/Prelude/Tables.antt =====
-- A property of all small numbers, checked by evaluation.
use Prim.Native.Nat.{ℕ, zero, suc, ◌<◌}
use mathlib.Core.Path.{◌≡◌}
use mathlib.Core.Bool.{Bool, true, ◌&&◌}
use native.Mathlib.Omega.{arith}

-- `test` passes at every number below the bound.
unfoldable pub table : (ℕ → Bool) → ℕ → Bool
table test zero = true
table test (suc bound) = table test bound && test bound

pub table_lem :
    (test : ℕ → Bool) (bound k : ℕ) → k < bound → table test bound ≡ true → test k ≡ true
unfolding table
table_lem test zero k small passed = elim small [ ]
table_lem test (suc bound) k small passed = ground (arith, table_lem test bound k)

-- Tables over two and three numbers.
abbrev pub table2 : (ℕ → ℕ → Bool) → ℕ → ℕ → Bool
table2 test m n = table (λ i. table (test i) n) m

pub table2_lem :
    (test : ℕ → ℕ → Bool) (m n i j : ℕ) → i < m → j < n → table2 test m n ≡ true → test i j ≡ true
table2_lem test m n i j hi hj passed =
    table_lem (test i) n j hj (table_lem (λ i. table (test i) n) m i hi passed)

abbrev pub table3 : (ℕ → ℕ → ℕ → Bool) → ℕ → ℕ → ℕ → Bool
table3 test l m n = table (λ h. table2 (test h) m n) l

pub table3_lem :
    (test : ℕ → ℕ → ℕ → Bool) (l m n h i j : ℕ)
    → h < l
    → i < m
    → j < n
    → table3 test l m n ≡ true
    → test h i j ≡ true
table3_lem test l m n h i j hh hi hj passed =
    table2_lem (test h) m n i j hi hj (table_lem (λ h. table2 (test h) m n) l h hh passed)
