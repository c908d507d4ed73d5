-- ===== src/Text/Order.antt =====
-- The order of `std::string`: byte by byte, bytes as unsigned numbers, a proper prefix first.
use gorn.Common.{
  ℕ, ◌≡◌, refl, Bool, true, false, List, [], ◌∷◌, arith, ltb, ◌==◌, ◌&&◌, ◌||◌, ◌↔◌, not, ◌++◌,
  Order, eqv, eqv_iff, ◌≢◌,
}

abbrev pub lt_text : List ℕ → List ℕ → Bool
lt_text [] [] = false
lt_text [] (y ∷ ys) = true
lt_text (x ∷ xs) [] = false
lt_text (x ∷ xs) (y ∷ ys) = ltb x y || (x == y && lt_text xs ys)

pub lt_text_irrefl : (a : List ℕ) → lt_text a a ≡ false
lt_text_irrefl [] = refl
lt_text_irrefl (x ∷ xs) = ground (arith, lt_text_irrefl xs)

pub lt_text_trans : (a b c : List ℕ) → lt_text a b ≡ true → lt_text b c ≡ true → lt_text a c ≡ true
lt_text_trans [] [] c p q = cc
lt_text_trans [] (y ∷ b) [] p q = cc
lt_text_trans [] (y ∷ b) (z ∷ c) p q = refl
lt_text_trans (x ∷ a) [] c p q = cc
lt_text_trans (x ∷ a) (y ∷ b) [] p q = cc
lt_text_trans (x ∷ a) (y ∷ b) (z ∷ c) p q = ground (arith, lt_text_trans a b c)

pub lt_text_connex : (a b : List ℕ) → lt_text a b ≡ false → lt_text b a ≡ false → a ≡ b
lt_text_connex [] [] p q = refl
lt_text_connex [] (y ∷ b) p q = cc
lt_text_connex (x ∷ a) [] p q = cc
lt_text_connex (x ∷ a) (y ∷ b) p q = ground (arith, lt_text_connex a b)

instance abbrev pub text_order : Order (List ℕ)
text_order = record {
  lt = lt_text;
  lt_irrefl = lt_text_irrefl;
  lt_trans = lt_text_trans;
  lt_connex = lt_text_connex;
}

-- `operator ==` of two texts.
unfoldable pub eq_text : List ℕ → List ℕ → Bool
eq_text a b = eqv a b

pub eq_text_iff : (a b : List ℕ) → (eq_text a b ≡ true) ↔ (a ≡ b)
unfolding eq_text
eq_text_iff a b = eqv_iff a b

pub eq_text_refl : (a : List ℕ) → eq_text a a ≡ true
eq_text_refl a = (eq_text_iff a a).1 refl

-- Membership of a text in a list of texts.
unfoldable pub member : List ℕ → List (List ℕ) → Bool
member a [] = false
member a (x ∷ xs) = eq_text a x || member a xs

-- No text occurs twice.
unfoldable pub distinct : List (List ℕ) → Bool
unfolding member
distinct [] = true
distinct (x ∷ xs) = not (member x xs) && distinct xs

pub member-append :
    (a : List ℕ) (xs ys : List (List ℕ)) → member a (xs ++ ys) ≡ (member a xs || member a ys)
unfolding member
member-append a [] ys = refl
member-append a (x ∷ xs) ys = ground (arith, member-append a xs ys)

-- Texts that the test tells apart differ.
pub eq_text-differ : (a b : List ℕ) → eq_text a b ≡ false → a ≢ b
eq_text-differ a b e p = ground (arith, eq_text_iff a b)
