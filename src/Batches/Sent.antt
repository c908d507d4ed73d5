-- ===== src/Batches/Sent.antt =====
-- What the peer reads from the texts that the sending loops hand to the client.
use gorn.Common.{
  ℕ, zero, suc, ◌≤◌, ◌<◌, ◌≡◌, refl, ap, ◌∙◌, List, [], ◌∷◌, map, arith, length, take, drop,
  length-take, length-drop, All,
}
use native.Mathlib.Decide.{dec_lt}
use mathlib.Core.Path.{ap₂}
use gorn.Text.{Bytes}
use gorn.Text.Stream.Extract.{IsWord}
use gorn.Message.{Kind, store, find, serialize, deserialize, Outcome}
use gorn.Message.RoundTrip.{deserialize-serialize, set_data_lem, All-take, All-drop}
use gorn.Batches.{
  batch_count, batch_loop, batches, batch_text, redirection_thread, find_redirection_thread,
  push_map, push_list,
}
use gorn.Batches.Collect.{batch_loop_last, batch_loop_next}

-- The items that a peer's message object takes from a text.
pub read_text : ℕ → Kind → Bytes → List Bytes
read_text unset k text = (deserialize unset k [] text).items

abbrev pub Fits : List Bytes → Type 0
Fits b = All IsWord b × (length b ≤ batch_count)

batch_loop-Fits :
    (fuel : ℕ) (ws : List Bytes) → length ws < fuel → All IsWord ws → All Fits (batch_loop fuel ws)
batch_loop-Fits zero ws h words = absurd (omega arith)
batch_loop-Fits (suc fuel) ws h words = elim (dec_lt (length ws) batch_count) [
  | yes short ↦ rw (batch_loop_last fuel ws short) ((words, omega arith), tt)
  | no full ↦ rw (batch_loop_next fuel ws (omega arith)) (
    (All-take 100 ws words, omega (arith, length-take 100 ws)),
    batch_loop-Fits fuel (drop 99 ws) (omega (arith, length-drop 99 ws)) (All-drop 99 ws words),
  )
]

take-length : (ws : List Bytes) → take (length ws) ws ≡ ws
take-length [] = refl
take-length (w ∷ ws) = ap (◌∷◌ w) (take-length ws)

pub read_text-batch :
    (unset : ℕ) (k : Kind) (b : List Bytes) → Fits b → read_text unset k (batch_text k b) ≡ b
unfolding read_text
read_text-batch unset k b (words, few) =
    ap (λ (m : List Bytes). (deserialize unset k [] (serialize k m 0 (length b))).items)
      (set_data_lem [] b)
    ∙ (ap (λ (o : Outcome). o.items)
          (deserialize-serialize unset k [] b (length b) words (omega arith) (omega arith))
        ∙ take-length b)

pub read_texts :
    (unset : ℕ) (k : Kind) (bs : List (List Bytes))
    → All Fits bs
    → map (read_text unset k) (map (batch_text k) bs) ≡ bs
read_texts unset k [] h = refl
read_texts unset k (b ∷ bs) (p, h) = ap₂ ◌∷◌ (read_text-batch unset k b p) (read_texts unset k bs h)

-- From the texts that each of the four functions sends of a vector of words, the peer's message
-- objects read the batches of the vector, one from each text.
pub sent_batches :
    (unset : ℕ) (ws : List Bytes)
    → All IsWord ws
    → (map (read_text unset store) (redirection_thread ws) ≡ batches ws)
      × (map (read_text unset find) (find_redirection_thread ws) ≡ batches ws)
      × (map (read_text unset store) (push_map ws) ≡ batches ws)
      × (map (read_text unset find) (push_list ws) ≡ batches ws)
unfolding redirection_thread find_redirection_thread push_map push_list batches
sent_batches unset ws words =
    let fits = batch_loop-Fits (suc (length ws)) ws (omega arith) words in
    let of_store = read_texts unset store (batch_loop (suc (length ws)) ws) fits in
    let of_find = read_texts unset find (batch_loop (suc (length ws)) ws) fits in
    (of_store, of_find, of_store, of_find)
