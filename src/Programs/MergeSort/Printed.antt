-- ===== src/Programs/MergeSort/Printed.antt =====
-- The merge sort program prints the numbers that it drew, in order.
use mathlib.Core.List.Perm
use gorn.Common.{
  ℕ, zero, suc, ◌+◌, ◌*◌, ◌≡◌, refl, sym, ap, subst, ◌∙◌, List, [], ◌∷◌, ◌++◌, map, arith, All,
  Perm, IsSorted, nat_order, append_assoc, concat,
}
use gorn.Text.{Bytes}
use gorn.Text.Stream.Decimal.{print}
use gorn.Text.Stream.Extract.{IsWord, print-IsWord}
use gorn.Files.{delimited}
use gorn.Sorting.{std_sort}
use gorn.Sorting.Merge.{merge-perm, merge-IsSorted}
use gorn.Sorting.Sort.{std_sort-perm, std_sort-IsSorted}
use gorn.Programs.MergeSort.{random_longs, generate_sorted_data, add, sums, main_of_size, main}

-- A number and a line feed.
abbrev pub line : ℕ → Bytes
line n = print n ++ b'\n' ∷ []

delimited-lines : (ns : List ℕ) → delimited 10 (map print ns) ≡ concat (map line ns)
unfolding delimited
delimited-lines [] = refl
delimited-lines (n ∷ ns) =
    ap (λ z. print n ++ 10 ∷ z) (delimited-lines ns)
    ∙ sym (append_assoc (print n) (10 ∷ []) (concat (map line ns)))

pub prints-IsWord : (ns : List ℕ) → All IsWord (map print ns)
prints-IsWord [] = tt
prints-IsWord (n ∷ ns) = (print-IsWord n, prints-IsWord ns)

module _ (rand rand' : ℕ → ℕ) where
  random_longs-split :
      (a b k : ℕ)
      → random_longs rand rand' (a + b) k
        ≡ random_longs rand rand' a k ++ random_longs rand rand' b (k + a)
  unfolding random_longs
  random_longs-split zero b k =
      ap (λ n. random_longs rand rand' n k) (omega arith)
      ∙ ap (λ n. random_longs rand rand' b n) (omega arith)
  random_longs-split (suc a) b k =
      let count : suc a + b ≡ suc (a + b) = omega arith in
      let later : k + 1 + a ≡ k + suc a = omega arith in
      ap (λ n. random_longs rand rand' n k) count
      ∙ ap (λ z. (rand k + 2147483647 * rand' k) ∷ z)
          (random_longs-split a b (k + 1)
            ∙ ap (λ n. random_longs rand rand' a (k + 1) ++ random_longs rand rand' b n) later)

  sums-perm : (size : ℕ) → Perm (sums rand rand' size) (random_longs rand rand' (size + size) 0)
  unfolding sums add generate_sorted_data
  sums-perm size =
      let xs = random_longs rand rand' size 0 in
      let ys = random_longs rand rand' size size in
      let whole : xs ++ ys ≡ random_longs rand rand' (size + size) 0 =
        ap (λ k. xs ++ random_longs rand rand' size k) (omega arith)
        ∙ sym (random_longs-split size size 0) in
      subst (λ z. Perm (sums rand rand' size) z) whole
        (Perm.trans (merge-perm (std_sort xs) (std_sort ys))
          (Perm.append (std_sort-perm xs) (std_sort-perm ys)))

  sums-IsSorted : (size : ℕ) → IsSorted (sums rand rand' size)
  unfolding sums add generate_sorted_data
  sums-IsSorted size =
      merge-IsSorted (generate_sorted_data rand rand' size 0)
        (generate_sorted_data rand rand' size size)
        (std_sort-IsSorted (random_longs rand rand' size 0))
        (std_sort-IsSorted (random_longs rand rand' size size))

  main_of_size-lines :
      (size : ℕ)
      → (xs : List ℕ) × (main_of_size rand rand' size ≡ concat (map line xs))
        × IsSorted xs
        × Perm xs (random_longs rand rand' (size + size) 0)
  unfolding main_of_size
  main_of_size-lines size =
      let xs = sums rand rand' size in (xs, delimited-lines xs, sums-IsSorted size, sums-perm size)

  -- The program prints the 2000 numbers that it drew, in ascending order, each with a line feed behind
  -- it and nothing else.
  pub main-lines :
      (xs : List ℕ) × (main rand rand' ≡ concat (map line xs))
      × IsSorted xs
      × Perm xs (random_longs rand rand' 2000 0)
  unfolding main
  main-lines = main_of_size-lines 1000
