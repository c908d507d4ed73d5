-- ===== src/Examples/Programs.antt =====
-- The merge sort program on given values of `rand`.
use gorn.Common.{concat, ℕ, ◌≡◌, List, map, Perm, IsSorted, nat_order}
use gorn.Programs.MergeSort
use gorn.Programs.MergeSort.{random_longs}
use gorn.Programs.MergeSort.Printed.{line, main-lines}

abbrev counter : ℕ → ℕ
counter k = k

abbrev ones : ℕ → ℕ
ones k = 1

main-lines_example :
    (xs : List ℕ) × (MergeSort.main counter ones ≡ concat (map line xs))
    × IsSorted xs
    × Perm xs (random_longs counter ones 2000 0)
main-lines_example = main-lines counter ones
