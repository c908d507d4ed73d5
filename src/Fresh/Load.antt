-- ===== src/Fresh/Load.antt =====
-- DistributedQueue/DistributedQueue.cpp: the first loop of `remove_non_unique`, which marks the keys
-- of `unique` and returns at the first that occurs twice.
use gorn.Common.{
  ◌≡◌, refl, sym, ◌∙◌, inl, inr, true, false, not, ◌&&◌, ◌||◌, Option, none, some, List, [], ◌∷◌,
  ◌++◌, arith, concat, Bool-cases,
}
use gorn.Text.{Bytes}
use gorn.Text.Order.{eq_text_iff, member, distinct}
use gorn.Fresh.{CountMap, has, put, load_row, load_rows}
use gorn.Fresh.Counts.{has-put, none_of}

-- Both sides of a map that was loaded.
abbrev pub Loaded : CountMap → List Bytes → CountMap → Type 0
Loaded m ks m' = (j : Bytes) → has j m' ≡ (member j ks || has j m)

none_of-put :
    (m : CountMap) (k : Bytes) (ks : List Bytes)
    → none_of (put k m) ks ≡ (none_of m ks && not (member k ks))
unfolding none_of member
none_of-put m k [] = ground arith
none_of-put m k (j ∷ ks) =
    ground (arith, none_of-put m k ks, has-put j k m, eq_text_iff j k, eq_text_iff k j)

pub load_row-some :
    (m : CountMap) (ks : List Bytes)
    → none_of m ks ≡ true
    → distinct ks ≡ true
    → (m' : CountMap) × (load_row m ks ≡ some m') × Loaded m ks m'
unfolding load_row none_of member distinct
load_row-some m [] h d = (m, refl, λ j. refl)
load_row-some m (k ∷ ks) h d =
    let (m', e, l) =
      load_row-some (put k m) ks (ground (arith, none_of-put m k ks)) (ground arith) in
    let hk : has k m ≡ false = ground arith in
    (m', rw (hk, e) refl, λ j. ground (arith, l j, has-put j k m))

pub load_row-none :
    (m : CountMap) (ks : List Bytes) → (none_of m ks && distinct ks) ≡ false → load_row m ks ≡ none
unfolding load_row none_of member distinct
load_row-none m [] h = cc
load_row-none m (k ∷ ks) h = elim (Bool-cases (has k m)) [
  | inl e ↦ rw e refl
  | inr e ↦ rw e (load_row-none (put k m) ks (ground (arith, none_of-put m k ks)))
]

load_row-append :
    (m : CountMap) (xs ys : List Bytes)
    → load_row m (xs ++ ys) ≡ elim (load_row m xs) [ none ↦ none | some m' ↦ load_row m' ys ]
unfolding load_row
load_row-append m [] ys = refl
load_row-append m (x ∷ xs) ys = elim (Bool-cases (has x m)) [
  | inl e ↦ rw e refl
  | inr e ↦ rw e (load_row-append (put x m) xs ys)
]

-- Two ways to go on from a loaded map agree if they agree on each map.
next_cong :
    (o : Option CountMap) (f g : CountMap → Option CountMap)
    → ((m : CountMap) → f m ≡ g m)
    → elim o [ none ↦ none | some m ↦ f m ] ≡ elim o [ none ↦ none | some m ↦ g m ]
next_cong none f g h = refl
next_cong (some m) f g h = h m

pub load_rows-concat :
    (m : CountMap) (rows : List (List Bytes)) → load_rows m rows ≡ load_row m (concat rows)
unfolding load_rows
load_rows-concat m [] = unfold load_row in refl
load_rows-concat m (r ∷ rs) =
    next_cong (load_row m r) (λ m'. load_rows m' rs) (λ m'. load_row m' (concat rs))
      (λ m'. load_rows-concat m' rs)
    ∙ sym (load_row-append m r (concat rs))
