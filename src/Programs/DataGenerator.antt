-- ===== src/Programs/DataGenerator.antt =====
-- DataGenerator/DataGenerator.cpp
pub mod Drawn
use gorn.Common.{ℕ, zero, suc, ◌+◌, ◌*◌, Option, none, some, List, [], ◌∷◌, ◌++◌, map}
use gorn.Text.{Bytes, codes}
use gorn.Text.Find.{atoi}
use gorn.Text.Stream.Decimal.{print}
use gorn.Files.{delimited}

-- The calls of `rand` from the number `k` on.
abbrev pub draws : (ℕ → ℕ) → ℕ → ℕ → List ℕ
draws rand zero k = []
draws rand (suc n) k = rand k ∷ draws rand n (k + 1)

-- The loop over the iterations: a line of numbers each.
unfoldable pub iterations : (ℕ → ℕ) → ℕ → ℕ → ℕ → Bytes
iterations rand num_per_iteration zero k = []
iterations rand num_per_iteration (suc n) k =
    delimited 32 (map print (draws rand num_per_iteration k))
    ++ 10 ∷ iterations rand num_per_iteration n (k + num_per_iteration)

-- `main`: what it returns and what it writes to `std::cout`; `none` where `atoi` is undefined.
unfoldable pub main : (ℕ → ℕ) → List Bytes → Option (ℕ × Bytes)
main rand (program ∷ num_per_iteration ∷ num_iterations ∷ []) = elim (atoi num_per_iteration) [
  | none ↦ none
  | some n ↦ elim (atoi num_iterations) [ none ↦ none | some m ↦ some (0, iterations rand n m 0) ]
]
main rand argv = some (1, codes "try ./DataGenerator <num_per_iteration> <num_iterations>\n")
