-- ===== src/Programs/MergeSort.antt =====
-- MergeSort/main.cpp
pub mod Printed
use gorn.Common.{ℕ, zero, suc, ◌+◌, ◌*◌, List, [], ◌∷◌, ◌++◌, map, nat_order}
use gorn.Text.{Bytes}
use gorn.Text.Stream.Decimal.{print}
use gorn.Files.{delimited}
use gorn.Sorting.{merge, std_sort}

-- `(long)rand()+2147483647*(long)rand()` for each cell, less the sort. Which of the two calls comes
-- first is left to the compiler: `rand` and `rand'` are the values that the first and the second
-- operand get in each round. A sum is below 2 ^ 62.
unfoldable pub random_longs : (ℕ → ℕ) → (ℕ → ℕ) → ℕ → ℕ → List ℕ
random_longs rand rand' zero k = []
random_longs rand rand' (suc size) k =
    (rand k + 2147483647 * rand' k) ∷ random_longs rand rand' size (k + 1)

-- `generate_sorted_data`, whose calls of `rand` begin with the number `k`.
unfoldable pub generate_sorted_data : (ℕ → ℕ) → (ℕ → ℕ) → ℕ → ℕ → List ℕ
generate_sorted_data rand rand' size k = std_sort (random_longs rand rand' size k)

-- `operator +` on vectors of `long`.
unfoldable pub add : List ℕ → List ℕ → List ℕ
add a b = merge a b

-- What `main` prints, with arrays of `size` numbers.
unfoldable pub sums : (ℕ → ℕ) → (ℕ → ℕ) → ℕ → List ℕ
sums rand rand' size =
    add (generate_sorted_data rand rand' size 0) (generate_sorted_data rand rand' size size)

unfoldable pub main_of_size : (ℕ → ℕ) → (ℕ → ℕ) → ℕ → Bytes
main_of_size rand rand' size = delimited 10 (map print (sums rand rand' size))

unfoldable pub main : (ℕ → ℕ) → (ℕ → ℕ) → Bytes
main rand rand' = main_of_size rand rand' 1000
