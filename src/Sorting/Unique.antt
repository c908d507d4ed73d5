-- ===== src/Sorting/Unique.antt =====
-- `std::set`: strictly ascending, with the keys that were inserted.
use gorn.Common.{◌≡◌, refl, true, ◌||◌, List, [], ◌∷◌, arith, Order, lt, eqv, elem, IsStrict, All}
use gorn.Sorting.{set_insert, insert_all}

module _ {ℓ} {A : Type ℓ} ⦃o : Order A⦄ where
  set_insert-All {κ} :
      (P : A → Type κ) (x : A) (ys : List A) → P x → All P ys → All P (set_insert x ys)
  unfolding set_insert
  set_insert-All P x [] p q = (p, tt)
  set_insert-All P x (y ∷ ys) p q = ground (arith, set_insert-All P x ys p q.1)

  All-lt :
      (x y : A) (ys : List A)
      → lt x y ≡ true
      → All (λ z. lt y z ≡ true) ys
      → All (λ z. lt x z ≡ true) ys
  All-lt x y [] h q = tt
  All-lt x y (z ∷ ys) h q = (o.lt_trans x y z h q.0, All-lt x y ys h q.1)

  pub set_insert-IsStrict : (x : A) (ys : List A) → IsStrict ys → IsStrict (set_insert x ys)
  unfolding set_insert
  set_insert-IsStrict x [] s = (tt, tt)
  set_insert-IsStrict x (y ∷ ys) s =
      ground (
        arith,
        All-lt x y ys,
        set_insert-All (λ z. lt y z ≡ true) x ys,
        set_insert-IsStrict x ys s.1,
      )

  pub elem-set_insert : (a x : A) (ys : List A) → elem a (set_insert x ys) ≡ (eqv a x || elem a ys)
  unfolding set_insert
  elem-set_insert a x [] = refl
  elem-set_insert a x (y ∷ ys) = ground (arith, elem-set_insert a x ys, o.lt_connex x y)

  pub insert_all-IsStrict : (xs s : List A) → IsStrict s → IsStrict (insert_all xs s)
  unfolding insert_all
  insert_all-IsStrict [] s h = h
  insert_all-IsStrict (x ∷ xs) s h =
      insert_all-IsStrict xs (set_insert x s) (set_insert-IsStrict x s h)

  pub elem-insert_all : (a : A) (xs s : List A) → elem a (insert_all xs s) ≡ (elem a xs || elem a s)
  unfolding insert_all
  elem-insert_all a [] s = refl
  elem-insert_all a (x ∷ xs) s =
      ground (arith, elem-insert_all a xs (set_insert x s), elem-set_insert a x s)

  -- What holds of the keys holds of those that are kept.
  pub insert_all-All {κ} :
      (P : A → Type κ) (xs s : List A) → All P xs → All P s → All P (insert_all xs s)
  unfolding insert_all
  insert_all-All P [] s p q = q
  insert_all-All P (x ∷ xs) s (p, h) q =
      insert_all-All P xs (set_insert x s) h (set_insert-All P x s p q)
