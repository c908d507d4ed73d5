-- ===== src/Sorting/Sort.antt =====
-- `std::sort` as the program uses it: ascending, a rearrangement, and the one such list.
use mathlib.Core.List.Perm
use gorn.Common.{
  suc, ◌≡◌, refl, ap, ◌∙◌, length, inl, inr, true, false, List, [], ◌∷◌, Perm, arith, Order, lt, Le,
  IsSorted, All, All-lt_trans, lt_asymm, Bool-cases,
}
use gorn.Sorting.{insert, std_sort}

module _ {ℓ} {A : Type ℓ} ⦃o : Order A⦄ where
  insert_past : {x y : A} (ys : List A) → lt y x ≡ true → insert x (y ∷ ys) ≡ y ∷ insert x ys
  unfolding insert
  insert_past ys e = ground arith

  insert_here : {x y : A} (ys : List A) → lt y x ≡ false → insert x (y ∷ ys) ≡ x ∷ y ∷ ys
  unfolding insert
  insert_here ys e = ground arith

  insert-perm : (x : A) (ys : List A) → Perm (insert x ys) (x ∷ ys)
  unfolding insert
  insert-perm x [] = Perm.rfl
  insert-perm x (y ∷ ys) = elim (Bool-cases (lt y x)) [
    | inl h ↦ rw (insert_past ys h) (Perm.trans (Perm.cons y (insert-perm x ys)) (Perm.swap x y ys))
    | inr h ↦ rw (insert_here ys h) Perm.rfl
  ]

  insert-All {κ} : (P : A → Type κ) (x : A) (ys : List A) → P x → All P ys → All P (insert x ys)
  unfolding insert
  insert-All P x [] p q = (p, tt)
  insert-All P x (y ∷ ys) p q = elim (Bool-cases (lt y x)) [
    | inl h ↦ rw (insert_past ys h) (q.0, insert-All P x ys p q.1)
    | inr h ↦ rw (insert_here ys h) (p, q)
  ]

  insert-IsSorted : (x : A) (ys : List A) → IsSorted ys → IsSorted (insert x ys)
  unfolding insert
  insert-IsSorted x [] s = (tt, tt)
  insert-IsSorted x (y ∷ ys) s = elim (Bool-cases (lt y x)) [
    | inl h ↦
        rw (insert_past ys h)
          (insert-All (Le y) x ys (lt_asymm y x h) s.0, insert-IsSorted x ys s.1)
    | inr h ↦ rw (insert_here ys h) ((h, All-lt_trans x y ys h s.0), s)
  ]

  pub std_sort-perm : (xs : List A) → Perm (std_sort xs) xs
  unfolding std_sort
  std_sort-perm [] = Perm.rfl
  std_sort-perm (x ∷ xs) = Perm.trans (insert-perm x (std_sort xs)) (Perm.cons x (std_sort-perm xs))

  pub std_sort-IsSorted : (xs : List A) → IsSorted (std_sort xs)
  unfolding std_sort
  std_sort-IsSorted [] = tt
  std_sort-IsSorted (x ∷ xs) = insert-IsSorted x (std_sort xs) (std_sort-IsSorted xs)

  pub std_sort-All {κ} : (P : A → Type κ) (xs : List A) → All P xs → All P (std_sort xs)
  unfolding std_sort
  std_sort-All P [] h = tt
  std_sort-All P (x ∷ xs) (p, h) = insert-All P x (std_sort xs) p (std_sort-All P xs h)

  length-insert : (x : A) (ys : List A) → length (insert x ys) ≡ suc (length ys)
  unfolding insert
  length-insert x [] = refl
  length-insert x (y ∷ ys) = elim (Bool-cases (lt y x)) [
    | inl h ↦ rw (insert_past ys h) (ap suc (length-insert x ys))
    | inr h ↦ rw (insert_here ys h) refl
  ]

  pub length-std_sort : (xs : List A) → length (std_sort xs) ≡ length xs
  unfolding std_sort
  length-std_sort [] = refl
  length-std_sort (x ∷ xs) = length-insert x (std_sort xs) ∙ ap suc (length-std_sort xs)
