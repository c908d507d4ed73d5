-- ===== src/Fresh/Unique.antt =====
-- DistributedQueue/DistributedQueue.cpp: `remove_non_unique` and `verify_uniqueness` together.
use gorn.Common.{
  ℕ, ◌<◌, ◌≡◌, refl, sym, ap, ◌∙◌, true, false, not, ◌&&◌, List, [], ◌∷◌, ◌++◌, arith, concat,
}
use gorn.Text.{Bytes}
use gorn.Text.Order.{eq_text_iff, member, distinct, member-append}
use gorn.Fresh.{verify_uniqueness, remove_non_unique}
use gorn.Fresh.Counts.{verify_uniqueness-distinct}
use gorn.Fresh.Output.{fresh, concat-append, remove_non_unique-fresh}

pub member-fresh :
    (j : Bytes) (seen ks : List Bytes)
    → member j (fresh seen ks) ≡ (member j ks && not (member j seen))
unfolding fresh member
member-fresh j seen [] = refl
member-fresh j seen (k ∷ ks) =
    ground (arith, member-fresh j seen ks, member-fresh j (k ∷ seen) ks, eq_text_iff j k)

fresh-distinct : (seen ks : List Bytes) → distinct (fresh seen ks) ≡ true
unfolding fresh member distinct
fresh-distinct seen [] = refl
fresh-distinct seen (k ∷ ks) = ground (
  arith,
  fresh-distinct seen ks,
  fresh-distinct (k ∷ seen) ks,
  member-fresh k (k ∷ seen) ks,
  eq_text_iff k k,
)

pub distinct-append :
    (xs ys : List Bytes)
    → distinct xs ≡ true
    → distinct ys ≡ true
    → ((j : Bytes) → member j xs ≡ true → member j ys ≡ false)
    → distinct (xs ++ ys) ≡ true
unfolding distinct member
distinct-append [] ys d e h = e
distinct-append (x ∷ xs) ys d e h = ground (
  arith,
  distinct-append xs ys (ground arith) e (λ j p. h j (ground arith)),
  member-append x xs ys,
  h x,
  eq_text_iff x x,
)

-- If no text is twice in `unique`, then none is twice in `unique` and the output of
-- `remove_non_unique` together, and the output has exactly the texts of the input that are not in
-- `unique`, if `n_numbers` is above 0.
pub verify_uniqueness-remove_non_unique :
    (unique inp old : List (List Bytes)) (n : ℕ)
    → 0 < n
    → verify_uniqueness unique ≡ true
    → (verify_uniqueness (unique ++ remove_non_unique unique inp old n) ≡ true)
      × ((j : Bytes)
          → member j (concat (remove_non_unique unique inp old n))
            ≡ (member j (concat inp) && not (member j (concat unique))))
verify_uniqueness-remove_non_unique unique inp old n hn v =
    let d = sym (verify_uniqueness-distinct unique) ∙ v in
    let out = remove_non_unique unique inp old n in
    let (full, rest, shape, a, b, keys) = remove_non_unique-fresh unique inp old n hn d in
    let has_keys =
      λ (j : Bytes). ap (member j) keys ∙ member-fresh j (concat unique) (concat inp) in
    (
      verify_uniqueness-distinct (unique ++ out)
          ∙ (ap distinct (concat-append unique out)
              ∙ distinct-append (concat unique) (concat out) d
                  (ap distinct keys ∙ fresh-distinct (concat unique) (concat inp))
                  (λ j p. has_keys j ∙ ground arith)),
      has_keys,
    )
