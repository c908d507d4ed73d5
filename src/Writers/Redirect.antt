-- ===== src/Writers/Redirect.antt =====
-- HashTableDaemon/HashTableDaemon.cpp: the redirection threads lose and reorder nothing.
use gorn.Common.{
  ℕ, ◌+◌, ◌≤◌, ◌≡◌, refl, sym, ap, ◌∙◌, inl, inr, true, false, none, some, List, [], ◌∷◌, ◌++◌,
  append_assoc, append-nil, arith, ltb, length, length-append, concat, All, Bool-cases,
}
use gorn.Text.{Bytes}
use gorn.Writers.{redirect, redirect_all, push_sent, addresses, save_map, save_list}

module _ (limit : ℕ) where
  redirect_full :
      (q : List Bytes) (item : Bytes)
      → length q ≡ limit
      → redirect limit q item ≡ (some (q ++ item ∷ []), [])
  unfolding redirect
  redirect_full q item h =
      let full : ltb limit (length (q ++ item ∷ [])) ≡ true =
        ground (arith, length-append q (item ∷ [])) in
      rw full refl

  redirect_more :
      (q : List Bytes) (item : Bytes)
      → length q + 1 ≤ limit
      → redirect limit q item ≡ (none, q ++ item ∷ [])
  unfolding redirect
  redirect_more q item h =
      let short : ltb limit (length (q ++ item ∷ [])) ≡ false =
        ground (arith, length-append q (item ∷ [])) in
      rw short refl

  ltb_lt : (n : ℕ) → ltb n limit ≡ true → n + 1 ≤ limit
  ltb_lt n e = ground arith

  -- What the rounds of a collecting thread give, from a `Q` of at most `limit` items: the vectors
  -- sent on and the last `Q`, one behind the other, are the first `Q` and the items; each vector sent
  -- has one item more than `limit`, and the last `Q` at most `limit`.
  pub redirect_all-items :
      (q items : List Bytes)
      → length q ≤ limit
      → (concat (redirect_all limit q items).0 ++ (redirect_all limit q items).1 ≡ q ++ items)
        × All (λ v. length v ≡ limit + 1) (redirect_all limit q items).0
        × (length (redirect_all limit q items).1 ≤ limit)
  unfolding redirect_all push_sent
  redirect_all-items q [] h = (sym (append-nil q), tt, h)
  redirect_all-items q (item ∷ items) h = elim (Bool-cases (ltb (length q) limit)) [
    | inl e ↦
        let less = ltb_lt (length q) e in
        let (a, b, c) =
          redirect_all-items (q ++ item ∷ []) items
            (omega (arith, length-append q (item ∷ []), less)) in
        rw (redirect_more q item less) (a ∙ append_assoc q (item ∷ []) items, b, c)
    | inr e ↦
        let (a, b, c) = redirect_all-items [] items (omega arith) in
        let n : length q ≡ limit = ground arith in
        rw (redirect_full q item n) (
          append_assoc (q ++ item ∷ []) (concat (redirect_all limit [] items).0)
                (redirect_all limit [] items).1
              ∙ (ap (λ z. (q ++ item ∷ []) ++ z) a ∙ append_assoc q (item ∷ []) items),
          (omega (arith, n, length-append q (item ∷ [])), b),
          c,
        )
  ]

-- What `save_map` and `save_list` hand to `push_map` and `push_list`, and keep, are the addresses of
-- the nodes in order; a vector handed on has 101 or 1001 of them.
pub save_map-addresses :
    (nodes : List (Bytes × Bytes))
    → (concat (save_map nodes).0 ++ (save_map nodes).1 ≡ addresses nodes)
      × All (λ v. length v ≡ 101) (save_map nodes).0
      × (concat (save_list nodes).0 ++ (save_list nodes).1 ≡ addresses nodes)
      × All (λ v. length v ≡ 1001) (save_list nodes).0
unfolding save_map save_list
save_map-addresses nodes =
    let (a, b, c) = redirect_all-items 100 [] (addresses nodes) (omega arith) in
    let (d, e, f) = redirect_all-items 1000 [] (addresses nodes) (omega arith) in (a, b, d, e)
