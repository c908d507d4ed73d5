-- ===== src/Batches/Cover.antt =====
-- What all batches of a vector hold.
use gorn.Common.{
  ℕ, zero, suc, ◌+◌, ◌≤◌, ◌<◌, ◌≡◌, refl, sym, subst, ◌∙◌, ap, List, [], ◌∷◌, ◌++◌, arith, length,
  take, drop, concat, get_elem?, some, length-take, length-drop, length-append, take-append-drop,
}
use native.Mathlib.Decide.{dec_lt}
use gorn.Batches.{batch_count, batch_loop, batches}
use gorn.Batches.Collect.{batch_loop_last, batch_loop_next}

module _ {ℓ} {A : Type ℓ} where
  -- All but the last batch are full, and the last is not.
  abbrev pub Shaped : List (List A) → Type 0
  Shaped [] = ⊥
  Shaped (b ∷ []) = length b < batch_count
  Shaped (b ∷ c ∷ bs) = (length b ≡ batch_count) × Shaped (c ∷ bs)

  -- The batches put together, without the last item of each full one.
  abbrev pub glue : List (List A) → List A
  glue [] = []
  glue (b ∷ []) = b
  glue (b ∷ c ∷ bs) = take 99 b ++ glue (c ∷ bs)

  take-take : (n : ℕ) (ws : List A) → take n (take (suc n) ws) ≡ take n ws
  take-take zero ws = refl
  take-take (suc n) [] = refl
  take-take (suc n) (w ∷ ws) = ap (◌∷◌ w) (take-take n ws)

  abbrev Right : List A → List (List A) → Type ℓ
  Right ws bs = (glue bs ≡ ws) × Shaped bs

  Right-next :
      (ws : List A) (bs : List (List A))
      → batch_count ≤ length ws
      → Right (drop 99 ws) bs
      → Right ws (take 100 ws ∷ bs)
  Right-next ws [] full (g, s) = absurd s
  Right-next ws (b ∷ bs) full (g, s) =
      (rw (take-take 99 ws, g) (take-append-drop 99 ws), (omega (arith, length-take 100 ws), s))

  batch_loop-Right : (fuel : ℕ) (ws : List A) → length ws < fuel → Right ws (batch_loop fuel ws)
  batch_loop-Right zero ws h = absurd (omega arith)
  batch_loop-Right (suc fuel) ws h = elim (dec_lt (length ws) batch_count) [
    | yes short ↦ rw (batch_loop_last fuel ws short) (refl, short)
    | no full ↦ rw (batch_loop_next fuel ws (omega arith)) (
        Right-next ws (batch_loop fuel (drop 99 ws)) (omega arith)
          (batch_loop-Right fuel (drop 99 ws) (omega (arith, length-drop 99 ws))))
  ]

  -- The batches of a vector, without the last item of each full batch, are the vector: every item is
  -- sent, in order, whatever the vector's length. All batches but the last have 100 items, and the
  -- last has fewer.
  pub batches_cover : (ws : List A) → (glue (batches ws) ≡ ws) × Shaped (batches ws)
  unfolding batches
  batches_cover ws = batch_loop-Right (suc (length ws)) ws (omega arith)

  length-glue :
      (bs : List (List A)) → Shaped bs → length (concat bs) + 1 ≡ length (glue bs) + length bs
  length-glue [] s = absurd s
  length-glue (b ∷ []) s = omega (arith, length-append b [])
  length-glue (b ∷ c ∷ bs) (full, s) = omega (
    arith,
    length-glue (c ∷ bs) s,
    length-append b (concat (c ∷ bs)),
    length-append (take 99 b) (glue (c ∷ bs)),
    length-take 99 b,
  )

  -- Each batch but the first begins with the last item of the one before it.
  abbrev pub Repeats : List (List A) → Type ℓ
  Repeats [] = Unit
  Repeats (b ∷ []) = Unit
  Repeats (b ∷ c ∷ bs) =
      ((w : A) × (get_elem? b 99 ≡ some w) × (get_elem? c 0 ≡ some w)) × Repeats (c ∷ bs)

  get_elem?-take : (n k : ℕ) (ws : List A) → n < k → get_elem? (take k ws) n ≡ get_elem? ws n
  get_elem?-take n zero ws h = absurd (omega arith)
  get_elem?-take n (suc k) [] h = refl
  get_elem?-take zero (suc k) (w ∷ ws) h = refl
  get_elem?-take (suc n) (suc k) (w ∷ ws) h = get_elem?-take n k ws (omega arith)

  get_elem?-drop : (n : ℕ) (ws : List A) → get_elem? (drop n ws) 0 ≡ get_elem? ws n
  get_elem?-drop zero ws = refl
  get_elem?-drop (suc n) [] = refl
  get_elem?-drop (suc n) (w ∷ ws) = get_elem?-drop n ws

  get_elem?-there : (n : ℕ) (ws : List A) → n < length ws → (w : A) × (get_elem? ws n ≡ some w)
  get_elem?-there n [] h = absurd (omega arith)
  get_elem?-there zero (w ∷ ws) h = (w, refl)
  get_elem?-there (suc n) (w ∷ ws) h = get_elem?-there n ws (omega arith)

  -- The first batch begins as the vector does, where the vector is not empty.
  abbrev Begins : List A → List (List A) → Type ℓ
  Begins ws bs =
      (b : List A) × (rest : List (List A)) × (bs ≡ b ∷ rest) × (get_elem? b 0 ≡ get_elem? ws 0)

  Repeats-next :
      (ws : List A) (bs : List (List A))
      → batch_count ≤ length ws
      → Begins (drop 99 ws) bs
      → Repeats bs
      → Repeats (take 100 ws ∷ bs)
  Repeats-next ws bs full (b, rest, e, begins) r =
      let (w, there) = get_elem?-there 99 ws (omega arith) in
      subst (λ z. Repeats (take 100 ws ∷ z)) (sym e)
        (
          (
            w,
            get_elem?-take 99 100 ws (omega arith) ∙ there,
            begins ∙ (get_elem?-drop 99 ws ∙ there),
          ),
          subst Repeats e r,
        )

  batch_loop-Repeats :
      (fuel : ℕ) (ws : List A)
      → length ws < fuel
      → Begins ws (batch_loop fuel ws) × Repeats (batch_loop fuel ws)
  batch_loop-Repeats zero ws h = absurd (omega arith)
  batch_loop-Repeats (suc fuel) ws h = elim (dec_lt (length ws) batch_count) [
    | yes short ↦ rw (batch_loop_last fuel ws short) ((ws, [], refl, refl), tt)
    | no full ↦
        let (a, b) = batch_loop-Repeats fuel (drop 99 ws) (omega (arith, length-drop 99 ws)) in
        rw (batch_loop_next fuel ws (omega arith)) (
          (take 100 ws, batch_loop fuel (drop 99 ws), refl, get_elem?-take 0 100 ws (omega arith)),
          Repeats-next ws (batch_loop fuel (drop 99 ws)) (omega arith) a b,
        )
  ]

  -- The last item of each full batch is sent again as the first of the next, and so the items sent
  -- are one more than the vector has for each full batch.
  pub batches_repeat :
      (ws : List A)
      → Repeats (batches ws) × (length (concat (batches ws)) + 1 ≡ length ws + length (batches ws))
  unfolding batches
  batches_repeat ws =
      let (g, s) = batches_cover ws in
      (
        (batch_loop-Repeats (suc (length ws)) ws (omega arith)).1,
        omega (arith, length-glue (batches ws) s, ap length g),
      )
