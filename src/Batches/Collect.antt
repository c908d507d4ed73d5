-- ===== src/Batches/Collect.antt =====
-- One round of the sending loop.
use gorn.Common.{
  ℕ, zero, suc, ◌+◌, ◌≤◌, ◌<◌, ◌≡◌, refl, true, false, List, [], ◌∷◌, arith, length, take, drop,
}
use gorn.Batches.{batch_count, collect, batch_loop}

module _ {ℓ} {A : Type ℓ} where
  -- Fewer items than a batch has room for: all are taken, and the loop is done.
  pub collect_short :
      (count : ℕ) (ws : List A)
      → count + length ws < batch_count
      → collect count ws ≡ (ws, [], true)
  unfolding collect
  collect_short count [] h = refl
  collect_short count (w ∷ ws) h = ground (arith, collect_short (count + 1) ws)

  -- Else the batch is filled, and its last item is the first of what is left.
  pub collect_full :
      (room count : ℕ) (ws : List A)
      → count + suc room ≡ batch_count
      → suc room ≤ length ws
      → collect count ws ≡ (take (suc room) ws, drop room ws, false)
  unfolding collect
  collect_full room count [] e h = absurd (omega arith)
  collect_full zero count (w ∷ ws) e h = ground arith
  collect_full (suc room) count (w ∷ ws) e h = ground (arith, collect_full room (count + 1) ws)

  pub batch_loop_last :
      (fuel : ℕ) (ws : List A) → length ws < batch_count → batch_loop (suc fuel) ws ≡ ws ∷ []
  unfolding batch_loop
  batch_loop_last fuel ws h = rw (collect_short 0 ws (omega arith))

  pub batch_loop_next :
      (fuel : ℕ) (ws : List A)
      → batch_count ≤ length ws
      → batch_loop (suc fuel) ws ≡ take 100 ws ∷ batch_loop fuel (drop 99 ws)
  unfolding batch_loop
  batch_loop_next fuel ws h = rw (collect_full 99 0 ws refl h)
