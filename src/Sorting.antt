-- ===== src/Sorting.antt =====
-- utils/data/sorting.h, which MergeSort/main.cpp repeats for `long`, and what the program uses of
-- the standard library's ordered algorithms and containers.
pub mod Merge
pub mod Sort
pub mod Unique
use gorn.Common.{ℕ, zero, suc, ◌+◌, Bool, true, false, List, [], ◌∷◌, length, Order, lt}

module _ {ℓ} {A : Type ℓ} ⦃o : Order A⦄ where
  -- The loop of `operator +` over the cells of C that are left; `a` and `b` are what `it_A` and
  -- `it_B` have before them. With both at their ends no cell is left.
  pub fill : ℕ → List A → List A → List A
  fill zero a b = []
  fill (suc n) [] [] = []
  fill (suc n) [] (y ∷ b) = y ∷ fill n [] b
  fill (suc n) (x ∷ a) [] = x ∷ fill n a []
  fill (suc n) (x ∷ a) (y ∷ b) = elim (lt y x) [
    | true ↦ y ∷ fill n (x ∷ a) b
    | false ↦ x ∷ fill n a (y ∷ b)
  ]

  -- `A + B`: the merge of two vectors.
  unfoldable pub merge : List A → List A → List A
  unfolding fill
  merge a b = fill (length a + length b) a b

  pub insert : A → List A → List A
  insert x [] = x ∷ []
  insert x (y ∷ ys) = elim (lt y x) [ true ↦ y ∷ insert x ys | false ↦ x ∷ y ∷ ys ]

  -- `std::sort`: what it returns on keys of a total order, by insertion.
  unfoldable pub std_sort : List A → List A
  unfolding insert
  std_sort [] = []
  std_sort (x ∷ xs) = insert x (std_sort xs)

  -- `std::set::insert`: the set is the list of its keys in order.
  unfoldable pub set_insert : A → List A → List A
  set_insert x [] = x ∷ []
  set_insert x (y ∷ ys) = elim (lt x y) [
    | true ↦ x ∷ y ∷ ys
    | false ↦ elim (lt y x) [ true ↦ y ∷ set_insert x ys | false ↦ y ∷ ys ]
  ]

  -- A loop that inserts each entry of a vector.
  unfoldable pub insert_all : List A → List A → List A
  unfolding set_insert
  insert_all [] s = s
  insert_all (x ∷ xs) s = insert_all xs (set_insert x s)
