-- ===== src/Fresh/Counts.antt =====
-- `verify_uniqueness` decides whether a text occurs twice.
use gorn.Common.{
  ◌≤◌, ◌≡◌, refl, sym, ap, ◌∙◌, Bool, true, false, not, ◌&&◌, ◌||◌, List, [], ◌∷◌, ◌++◌, arith,
  concat,
}
use gorn.Text.{Bytes}
use gorn.Text.Order.{eq_text, eq_text_iff, member, distinct}
use gorn.Fresh.{
  CountMap, has, put, bump, count_one, count_row, count_rows, all_single, verify_uniqueness,
}

-- Every count is at least 1.
abbrev Positive : CountMap → Type 0
Positive [] = Unit
Positive ((j, v) ∷ m) = (1 ≤ v) × Positive m

pub has-put : (j k : Bytes) (m : CountMap) → has j (put k m) ≡ (eq_text j k || has j m)
unfolding has put
has-put j k [] = refl
has-put j k ((i, v) ∷ m) =
    ground (arith, eq_text_iff j k, eq_text_iff k i, eq_text_iff j i, has-put j k m)

has-bump : (j k : Bytes) (m : CountMap) → has j (bump k m) ≡ has j m
unfolding has bump
has-bump j k [] = refl
has-bump j k ((i, v) ∷ m) = ground (arith, has-bump j k m)

put-Positive : (k : Bytes) (m : CountMap) → Positive m → Positive (put k m)
unfolding put
put-Positive k [] h = (omega arith, tt)
put-Positive k ((i, v) ∷ m) (p, h) = ground (arith, put-Positive k m h)

bump-Positive : (k : Bytes) (m : CountMap) → Positive m → Positive (bump k m)
unfolding bump
bump-Positive k [] h = tt
bump-Positive k ((i, v) ∷ m) (p, h) = ground (arith, bump-Positive k m h)

all_single-put : (k : Bytes) (m : CountMap) → has k m ≡ false → all_single (put k m) ≡ all_single m
unfolding has put all_single
all_single-put k [] e = refl
all_single-put k ((i, v) ∷ m) e = ground (arith, all_single-put k m)

all_single-bump :
    (k : Bytes) (m : CountMap) → Positive m → has k m ≡ true → all_single (bump k m) ≡ false
unfolding has bump all_single
all_single-bump k [] h e = cc
all_single-bump k ((i, v) ∷ m) (p, h) e = ground (arith, all_single-bump k m h)

-- What one count does, in terms of what the map has and whether a count exceeds 1.
has-count_one : (j k : Bytes) (m : CountMap) → has j (count_one m k) ≡ (eq_text j k || has j m)
unfolding count_one
has-count_one j k m = ground (arith, has-put j k m, has-bump j k m, eq_text_iff j k)

count_one-Positive : (k : Bytes) (m : CountMap) → Positive m → Positive (count_one m k)
unfolding count_one
count_one-Positive k m h = ground (arith, put-Positive k m h, bump-Positive k m h)

all_single-count_one :
    (k : Bytes) (m : CountMap)
    → Positive m
    → all_single (count_one m k) ≡ (all_single m && not (has k m))
unfolding count_one
all_single-count_one k m h = ground (arith, all_single-put k m, all_single-bump k m h)

-- None of the texts is in the map.
unfoldable pub none_of : CountMap → List Bytes → Bool
none_of m [] = true
none_of m (k ∷ ks) = not (has k m) && none_of m ks

none_of-count_one :
    (m : CountMap) (k : Bytes) (ks : List Bytes)
    → none_of (count_one m k) ks ≡ (none_of m ks && not (member k ks))
unfolding none_of member
none_of-count_one m k [] = refl
none_of-count_one m k (j ∷ ks) =
    ground (arith, none_of-count_one m k ks, has-count_one j k m, eq_text_iff j k, eq_text_iff k j)

count_row-append :
    (m : CountMap) (xs ys : List Bytes) → count_row m (xs ++ ys) ≡ count_row (count_row m xs) ys
unfolding count_row
count_row-append m [] ys = refl
count_row-append m (x ∷ xs) ys = count_row-append (count_one m x) xs ys

count_rows-concat :
    (m : CountMap) (vec : List (List Bytes)) → count_rows m vec ≡ count_row m (concat vec)
unfolding count_rows
count_rows-concat m [] = unfold count_row in refl
count_rows-concat m (r ∷ rs) =
    count_rows-concat (count_row m r) rs ∙ sym (count_row-append m r (concat rs))

all_single-count_row :
    (m : CountMap) (ks : List Bytes)
    → Positive m
    → all_single (count_row m ks) ≡ (all_single m && (none_of m ks && distinct ks))
unfolding count_row none_of distinct
all_single-count_row m [] h = ground arith
all_single-count_row m (k ∷ ks) h =
    all_single-count_row (count_one m k) ks (count_one-Positive k m h)
    ∙ ground (arith, all_single-count_one k m h, none_of-count_one m k ks)

pub none_of_empty : (ks : List Bytes) → none_of [] ks ≡ true
unfolding none_of has
none_of_empty [] = refl
none_of_empty (k ∷ ks) = none_of_empty ks

-- `verify_uniqueness` is true exactly if no text occurs twice in all the vectors together.
pub verify_uniqueness-distinct :
    (vec : List (List Bytes)) → verify_uniqueness vec ≡ distinct (concat vec)
unfolding verify_uniqueness
verify_uniqueness-distinct vec =
    ap all_single (count_rows-concat [] vec)
    ∙ (all_single-count_row [] (concat vec) tt ∙ ground (arith, none_of_empty (concat vec)))
