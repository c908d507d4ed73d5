-- ===== src/Sorting/Merge.antt =====
-- `operator +` of utils/data/sorting.h returns the ascending merge of ascending vectors.
use mathlib.Core.List.{perm_middle}
use mathlib.Core.List.Perm
use gorn.Common.{
  ℕ, zero, suc, ◌+◌, ◌≡◌, refl, inl, inr, true, false, List, [], ◌∷◌, ◌++◌, Perm, arith, length,
  Order, lt, Le, IsSorted, All, All-lt_trans, lt_asymm, Bool-cases,
}
use gorn.Sorting.{fill, merge}

module _ {ℓ} {A : Type ℓ} ⦃o : Order A⦄ where
  fill_right :
      {x y : A} (n : ℕ) (a b : List A)
      → lt y x ≡ true
      → fill (suc n) (x ∷ a) (y ∷ b) ≡ y ∷ fill n (x ∷ a) b
  unfolding fill
  fill_right n a b e = ground arith

  fill_left :
      {x y : A} (n : ℕ) (a b : List A)
      → lt y x ≡ false
      → fill (suc n) (x ∷ a) (y ∷ b) ≡ x ∷ fill n a (y ∷ b)
  unfolding fill
  fill_left n a b e = ground arith

  fill-perm : (n : ℕ) (a b : List A) → length a + length b ≡ n → Perm (fill n a b) (a ++ b)
  unfolding fill
  fill-perm zero [] [] e = Perm.rfl
  fill-perm zero [] (y ∷ b) e = absurd (omega arith)
  fill-perm zero (x ∷ a) b e = absurd (omega arith)
  fill-perm (suc n) [] [] e = Perm.rfl
  fill-perm (suc n) [] (y ∷ b) e = Perm.cons y (fill-perm n [] b (omega arith))
  fill-perm (suc n) (x ∷ a) [] e = Perm.cons x (fill-perm n a [] (omega arith))
  fill-perm (suc n) (x ∷ a) (y ∷ b) e = elim (Bool-cases (lt y x)) [
    | inl h ↦ rw (fill_right n a b h) (
        Perm.trans (Perm.cons y (fill-perm n (x ∷ a) b (omega arith)))
          (Perm.symm (perm_middle (x ∷ a) b)))
    | inr h ↦ rw (fill_left n a b h) (Perm.cons x (fill-perm n a (y ∷ b) (omega arith)))
  ]

  -- A bound of both inputs bounds the output.
  fill-All {κ} : (P : A → Type κ) (n : ℕ) (a b : List A) → All P a → All P b → All P (fill n a b)
  unfolding fill
  fill-All P zero a b p q = tt
  fill-All P (suc n) [] [] p q = tt
  fill-All P (suc n) [] (y ∷ b) p q = (q.0, fill-All P n [] b p q.1)
  fill-All P (suc n) (x ∷ a) [] p q = (p.0, fill-All P n a [] p.1 q)
  fill-All P (suc n) (x ∷ a) (y ∷ b) p q = elim (Bool-cases (lt y x)) [
    | inl h ↦ rw (fill_right n a b h) (q.0, fill-All P n (x ∷ a) b p q.1)
    | inr h ↦ rw (fill_left n a b h) (p.0, fill-All P n a (y ∷ b) p.1 q)
  ]

  fill-IsSorted : (n : ℕ) (a b : List A) → IsSorted a → IsSorted b → IsSorted (fill n a b)
  unfolding fill
  fill-IsSorted zero a b p q = tt
  fill-IsSorted (suc n) [] [] p q = tt
  fill-IsSorted (suc n) [] (y ∷ b) p q =
      (fill-All (Le y) n [] b tt q.0, fill-IsSorted n [] b tt q.1)
  fill-IsSorted (suc n) (x ∷ a) [] p q =
      (fill-All (Le x) n a [] p.0 tt, fill-IsSorted n a [] p.1 tt)
  fill-IsSorted (suc n) (x ∷ a) (y ∷ b) p q = elim (Bool-cases (lt y x)) [
    | inl h ↦
        let y_le_x = lt_asymm y x h in
        rw (fill_right n a b h) (
          fill-All (Le y) n (x ∷ a) b (y_le_x, All-lt_trans y x a y_le_x p.0) q.0,
          fill-IsSorted n (x ∷ a) b p q.1,
        )
    | inr h ↦ rw (fill_left n a b h) (
      fill-All (Le x) n a (y ∷ b) p.0 (h, All-lt_trans x y b h q.0),
      fill-IsSorted n a (y ∷ b) p.1 q,
    )
  ]

  -- The sum of two vectors holds exactly their entries, whether they ascend or not.
  pub merge-perm : (a b : List A) → Perm (merge a b) (a ++ b)
  unfolding merge
  merge-perm a b = fill-perm (length a + length b) a b refl

  -- The sum of two ascending vectors ascends.
  pub merge-IsSorted : (a b : List A) → IsSorted a → IsSorted b → IsSorted (merge a b)
  unfolding merge
  merge-IsSorted a b p q = fill-IsSorted (length a + length b) a b p q

  -- Of two ascending vectors, `A + B` is ascending and holds exactly the entries of both, as often.
  pub merge_correct :
      (a b : List A) → IsSorted a → IsSorted b → IsSorted (merge a b) × Perm (merge a b) (a ++ b)
  merge_correct a b p q = (merge-IsSorted a b p q, merge-perm a b)
