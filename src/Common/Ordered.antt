-- ===== src/Common/Ordered.antt =====
-- The strict order `<` that the program's containers and sorts compare by, as an interface: a
-- Boolean test with the laws of a strict total order. `std::set`, `std::map` and `std::sort` take
-- two keys for equal when neither is less.
use Prim.Native.Nat.{ℕ}
use mathlib.Core.Path.{◌≡◌, refl}
use mathlib.Core.Logic.{inl, inr, ◌↔◌}
use mathlib.Core.Bool.{Bool, true, false, not, ◌&&◌, ◌||◌}
use mathlib.Core.List.{List, [], ◌∷◌, ◌++◌}
use native.Mathlib.Omega.{arith}
use gorn.Common.Tests.{ltb, Bool-cases}
use gorn.Common.Lists.{All}

pub record Order {ℓ} (A : Type ℓ) : Type ℓ where
  pub lt : A → A → Bool
  pub lt_irrefl : (a : A) → lt a a ≡ false
  pub lt_trans : (a b c : A) → lt a b ≡ true → lt b c ≡ true → lt a c ≡ true
  pub lt_connex : (a b : A) → lt a b ≡ false → lt b a ≡ false → a ≡ b

pub nat_lt_trans :
    (low mid high : ℕ) → ltb low mid ≡ true → ltb mid high ≡ true → ltb low high ≡ true
nat_lt_trans low mid high below above = ground arith

pub nat_lt_connex : (a b : ℕ) → ltb a b ≡ false → ltb b a ≡ false → a ≡ b
nat_lt_connex a b p q = ground arith

pub nat_lt_irrefl : (a : ℕ) → ltb a a ≡ false
nat_lt_irrefl a = ground arith

instance abbrev pub nat_order : Order ℕ
nat_order = record {
  lt = ltb;
  lt_irrefl = nat_lt_irrefl;
  lt_trans = nat_lt_trans;
  lt_connex = nat_lt_connex;
}

module _ {ℓ} {A : Type ℓ} ⦃o : Order A⦄ where
  abbrev pub lt : A → A → Bool
  lt = o.lt

  -- Neither key is less.
  abbrev pub eqv : A → A → Bool
  eqv a b = not (lt a b) && not (lt b a)

  abbrev pub elem : A → List A → Bool
  elem a [] = false
  elem a (x ∷ xs) = eqv a x || elem a xs

  abbrev pub Le : A → A → Type 0
  Le a b = lt b a ≡ false

  -- Ascending, equal neighbours allowed.
  abbrev pub IsSorted : List A → Type 0
  IsSorted [] = Unit
  IsSorted (x ∷ xs) = All (Le x) xs × IsSorted xs

  -- Strictly ascending: each entry occurs once.
  abbrev pub IsStrict : List A → Type 0
  IsStrict [] = Unit
  IsStrict (x ∷ xs) = All (λ y. lt x y ≡ true) xs × IsStrict xs

  pub lt_asymm : (a b : A) → lt a b ≡ true → lt b a ≡ false
  lt_asymm a b h = elim (Bool-cases (lt b a)) [
    | inl e ↦ cc (o.lt_trans a b a h e, o.lt_irrefl a)
    | inr e ↦ e
  ]

  pub le_trans : (a b c : A) → Le a b → Le b c → Le a c
  le_trans a b c p q = elim (Bool-cases (lt c a)) [
    | inr e ↦ e
    | inl e ↦ elim (Bool-cases (lt a b)) [
      | inl f ↦ cc (o.lt_trans c a b e f, q)
      | inr f ↦ cc (o.lt_connex a b f p)
    ]
  ]

  pub lt_le_trans : (a b c : A) → lt a b ≡ true → Le b c → lt a c ≡ true
  lt_le_trans a b c p q = elim (Bool-cases (lt b c)) [
    | inl e ↦ o.lt_trans a b c p e
    | inr e ↦ cc (o.lt_connex b c e q)
  ]

  pub le_lt_trans : (a b c : A) → Le a b → lt b c ≡ true → lt a c ≡ true
  le_lt_trans a b c p q = elim (Bool-cases (lt a b)) [
    | inl e ↦ o.lt_trans a b c e q
    | inr e ↦ cc (o.lt_connex a b e p)
  ]

  pub eqv_refl : (a : A) → eqv a a ≡ true
  eqv_refl a = ground (arith, o.lt_irrefl a)

  pub eqv→eq : (a b : A) → eqv a b ≡ true → a ≡ b
  eqv→eq a b h = ground (arith, o.lt_connex a b)

  pub eqv_iff : (a b : A) → (eqv a b ≡ true) ↔ (a ≡ b)
  eqv_iff a b = (eqv→eq a b, λ e. subst_eqv a b e)
    where
      subst_eqv : (a b : A) → a ≡ b → eqv a b ≡ true
      subst_eqv a b e = cc (eqv_refl a)

  pub elem-append : (a : A) (xs ys : List A) → elem a (xs ++ ys) ≡ (elem a xs || elem a ys)
  elem-append a [] ys = refl
  elem-append a (x ∷ xs) ys = ground (arith, elem-append a xs ys)

  pub All-lt_trans : (a b : A) (xs : List A) → Le a b → All (Le b) xs → All (Le a) xs
  All-lt_trans a b [] p h = tt
  All-lt_trans a b (x ∷ xs) p (q, h) = (le_trans a b x p q, All-lt_trans a b xs p h)

  -- What every entry satisfies, an entry satisfies.
  pub All-elem {κ} : (P : A → Type κ) (a : A) (xs : List A) → All P xs → elem a xs ≡ true → P a
  All-elem P a [] h e = absurd (ground arith)
  All-elem P a (x ∷ xs) (p, h) e = elim (Bool-cases (eqv a x)) [
    | inl f ↦ rw (eqv→eq a x f) p
    | inr f ↦ All-elem P a xs h (ground arith)
  ]

  pub IsStrict-IsSorted : (xs : List A) → IsStrict xs → IsSorted xs
  IsStrict-IsSorted [] h = tt
  IsStrict-IsSorted (x ∷ xs) (p, h) = (weaken xs p, IsStrict-IsSorted xs h)
    where
      weaken : (ys : List A) → All (λ y. lt x y ≡ true) ys → All (Le x) ys
      weaken [] q = tt
      weaken (y ∷ ys) (q, r) = (lt_asymm x y q, weaken ys r)
