-- ===== src/Batches.antt =====
-- The sending loops of HashTableDaemon/HashTableDaemon.cpp (`redirection_thread`,
-- `find_redirection_thread`) and Crawler/DistributedCrawler.cpp (`push_map`, `push_list`): a vector is
-- sent in messages of at most `batch_count` items. The items before `k` are gone, those from `k` on
-- are the list. The `break` leaves the inner `for` before its `++k`.
pub mod Collect
pub mod Cover
pub mod Sent
use gorn.Common.{
  ℕ, zero, suc, ◌+◌, Bool, true, false, List, [], ◌∷◌, map, ◌==◌, if◌then◌else◌, length,
}
use gorn.Text.{Bytes}
use gorn.Message.{Kind, store, find, serialize, set_data}

abbrev pub batch_count : ℕ
batch_count = 100

module _ {ℓ} {A : Type ℓ} where
  -- The inner `for` with `count` items taken: `cpy`, the items from `k` on, and `done`.
  pub collect : ℕ → List A → List A × List A × Bool
  collect count [] = ([], [], true)
  collect count (w ∷ ws) =
      let rest = collect (count + 1) ws in
      if count + 1 == batch_count then (w ∷ [], w ∷ ws, false) else (w ∷ rest.0, rest.1, rest.2)

  -- The outer loop: the last batch is sent behind the full ones, also when it is empty.
  pub batch_loop : ℕ → List A → List (List A)
  unfolding collect
  batch_loop zero ws = []
  batch_loop (suc fuel) ws =
      let round = collect 0 ws in
      let rest = batch_loop fuel round.1 in if round.2 then round.0 ∷ [] else round.0 ∷ rest

  -- A full batch moves `k` on by 99, so as many rounds as there are items, and one, are enough.
  unfoldable pub batches : List A → List (List A)
  unfolding batch_loop
  batches ws = batch_loop (suc (length ws)) ws

-- `message . set_data ( cpy ) ; message . serialize ( 0 , cpy . size () )`
abbrev pub batch_text : Kind → List Bytes → Bytes
batch_text k cpy = serialize k (set_data [] cpy) 0 (length cpy)

-- The texts that each function hands to its client, in order.
pub redirection_thread : List Bytes → List Bytes
redirection_thread ws = map (batch_text store) (batches ws)

pub find_redirection_thread : List Bytes → List Bytes
find_redirection_thread ws = map (batch_text find) (batches ws)

pub push_map : List Bytes → List Bytes
push_map ws = map (batch_text store) (batches ws)

pub push_list : List Bytes → List Bytes
push_list ws = map (batch_text find) (batches ws)
