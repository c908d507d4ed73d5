-- ===== src/Merging/Picked.antt =====
-- utils/data/data.h: which entry of the vectors the loop over the iterators chooses, and that the
-- vectors are left without it.
use gorn.Common.{
  ℕ, suc, ◌+◌, ◌≡◌, refl, sym, ap, subst, ◌∙◌, inl, inr, ◌⊎◌, true, false, Option, none, some, List,
  [], ◌∷◌, ◌++◌, append_assoc, arith, All, All-append, All-lt_trans, Le, IsSorted, concat, lt_asymm,
  le_trans, Bool-cases,
}
use gorn.Text.{Bytes}
use gorn.Text.Order.{lt_text, lt_text_irrefl, text_order}
use gorn.Search.{pick, advance}

-- `r` is the index of a vector with `x` before its iterator.
abbrev pub Taken : ℕ → List (List Bytes) → Bytes → Option ℕ → Type 0
Taken k vecs x r =
    (i : ℕ) × (pre : List Bytes) × (post : List Bytes) × (r ≡ some (k + i))
    × (concat vecs ≡ pre ++ x ∷ post)
    × (concat (advance i vecs) ≡ pre ++ post)
    × All IsSorted (advance i vecs)

Taken-past :
    (k : ℕ) (xs : List Bytes) (vecs : List (List Bytes)) (x : Bytes) (r : Option ℕ)
    → IsSorted xs
    → Taken (suc k) vecs x r
    → Taken k (xs ∷ vecs) x r
unfolding advance
Taken-past k xs vecs x r s (i, pre, post, e, before, behind, sorted) =
    let index : suc k + i ≡ k + suc i = omega arith in
    (
      suc i,
      xs ++ pre,
      post,
      e ∙ ap some index,
      ap (λ z. xs ++ z) before ∙ sym (append_assoc xs pre (x ∷ post)),
      ap (λ z. xs ++ z) behind ∙ sym (append_assoc xs pre post),
      (s, sorted),
    )

Taken-here :
    (k : ℕ) (x : Bytes) (xs : List Bytes) (vecs : List (List Bytes)) (r : Option ℕ)
    → All IsSorted ((x ∷ xs) ∷ vecs)
    → r ≡ some k
    → Taken k ((x ∷ xs) ∷ vecs) x r
unfolding advance
Taken-here k x xs vecs r ((_, s), sorted) e =
    let index : k ≡ k + 0 = omega arith in
    (0, [], xs ++ concat vecs, e ∙ ap some index, refl, refl, (s, sorted))

-- What is chosen when `line` of the vector `before` was the least so far.
abbrev Least : ℕ → List (List Bytes) → Bytes → Option ℕ → Bytes × Option ℕ → Type 0
Least k vecs line before p =
    All (Le p.0) (concat vecs)
    × Le p.0 line
    × (((p.1 ≡ before) × (p.0 ≡ line)) ⊎ Taken k vecs p.0 p.1)

Least-here :
    (k : ℕ) (x : Bytes) (xs : List Bytes) (vecs : List (List Bytes)) (p : Bytes × Option ℕ)
    → All IsSorted ((x ∷ xs) ∷ vecs)
    → Least (suc k) vecs x (some k) p
    → All (Le p.0) (concat ((x ∷ xs) ∷ vecs)) × Taken k ((x ∷ xs) ∷ vecs) p.0 p.1
Least-here k x xs vecs p s (a, b, inl (r, e)) = (
  (b, All-append (Le p.0) xs (concat vecs) (All-lt_trans p.0 x xs b s.0.0) a),
  subst (λ z. Taken k ((x ∷ xs) ∷ vecs) z p.1) (sym e) (Taken-here k x xs vecs p.1 s r),
)
Least-here k x xs vecs p s (a, b, inr t) = (
  (b, All-append (Le p.0) xs (concat vecs) (All-lt_trans p.0 x xs b s.0.0) a),
  Taken-past k (x ∷ xs) vecs p.0 p.1 s.0 t,
)

Least-past :
    (k : ℕ) (xs : List Bytes) (vecs : List (List Bytes)) (line : Bytes) (before : Option ℕ)
    (p : Bytes × Option ℕ)
    → IsSorted xs
    → All (Le line) xs
    → Least (suc k) vecs line before p
    → Least k (xs ∷ vecs) line before p
Least-past k xs vecs line before p s h (a, b, inl e) =
    (All-append (Le p.0) xs (concat vecs) (All-lt_trans p.0 line xs b h) a, b, inl e)
Least-past k xs vecs line before p s h (a, b, inr t) = (
  All-append (Le p.0) xs (concat vecs) (All-lt_trans p.0 line xs b h) a,
  b,
  inr (Taken-past k xs vecs p.0 p.1 s t),
)

pick-less :
    (k j : ℕ) (x : Bytes) (xs : List Bytes) (vecs : List (List Bytes)) (line : Bytes)
    → lt_text x line ≡ true
    → pick k ((x ∷ xs) ∷ vecs) line (some j) ≡ pick (suc k) vecs x (some k)
unfolding pick
pick-less k j x xs vecs line e = ground arith

pick-not_less :
    (k j : ℕ) (x : Bytes) (xs : List Bytes) (vecs : List (List Bytes)) (line : Bytes)
    → lt_text x line ≡ false
    → pick k ((x ∷ xs) ∷ vecs) line (some j) ≡ pick (suc k) vecs line (some j)
unfolding pick
pick-not_less k j x xs vecs line e = ground arith

pick-Least :
    (k j : ℕ) (vecs : List (List Bytes)) (line : Bytes)
    → All IsSorted vecs
    → Least k vecs line (some j) (pick k vecs line (some j))
unfolding pick
pick-Least k j [] line s = (tt, lt_text_irrefl line, inl (refl, refl))
pick-Least k j ([] ∷ vecs) line s =
    Least-past k [] vecs line (some j) (pick (suc k) vecs line (some j)) tt tt
      (pick-Least (suc k) j vecs line s.1)
pick-Least k j ((x ∷ xs) ∷ vecs) line s = elim (Bool-cases (lt_text x line)) [
  | inl e ↦
      let p = pick (suc k) vecs x (some k) in
      let below = pick-Least (suc k) k vecs x s.1 in
      let (a, t) = Least-here k x xs vecs p s below in
      subst (Least k ((x ∷ xs) ∷ vecs) line (some j)) (sym (pick-less k j x xs vecs line e))
        (a, le_trans p.0 x line a.0 (lt_asymm x line e), inr t)
  | inr e ↦
      subst (Least k ((x ∷ xs) ∷ vecs) line (some j)) (sym (pick-not_less k j x xs vecs line e)) (
        Least-past k (x ∷ xs) vecs line (some j) (pick (suc k) vecs line (some j)) s.0
          (e, All-lt_trans line x xs e s.0.0) (pick-Least (suc k) j vecs line s.1))
]

-- The vectors are spent, or the chosen entry is before an iterator and no entry is below it.
abbrev pub Picked : ℕ → List (List Bytes) → Bytes → Bytes × Option ℕ → Type 0
Picked k vecs line p =
    ((p ≡ (line, none)) × (concat vecs ≡ [])) ⊎ (All (Le p.0) (concat vecs) × Taken k vecs p.0 p.1)

pub pick-Picked :
    (k : ℕ) (vecs : List (List Bytes)) (line : Bytes)
    → All IsSorted vecs
    → Picked k vecs line (pick k vecs line none)
unfolding pick
pick-Picked k [] line s = inl (refl, refl)
pick-Picked k ([] ∷ vecs) line s =
    past (pick (suc k) vecs line none) (pick-Picked (suc k) vecs line s.1)
  where
    past : (p : Bytes × Option ℕ) → Picked (suc k) vecs line p → Picked k ([] ∷ vecs) line p
    past p (inl e) = inl e
    past p (inr (a, t)) = inr (a, Taken-past k [] vecs p.0 p.1 tt t)
pick-Picked k ((x ∷ xs) ∷ vecs) line s =
    inr (Least-here k x xs vecs (pick (suc k) vecs x (some k)) s (pick-Least (suc k) k vecs x s.1))
