-- ===== src/Daemon/Consume.antt =====
-- HashTableDaemon.cpp: `consumeItem` and the queues that it feeds.
pub mod Queues
pub mod Delivered
pub mod Store
pub mod Find
pub mod Cluster
pub mod Orderly
use gorn.Common.{
  ℕ, zero, suc, ◌+◌, ◌-◌, ◌%◌, ◌^◌, Bool, true, false, Option, none, some, List, [], ◌∷◌, ◌++◌, ltb,
  ◌==◌, if◌then◌else◌,
}
use gorn.Text.{Bytes}
use gorn.Config.{Peer}
use gorn.Message.{
  Kind, store, find, store_type, find_type, extract_type, deserialize, deserialize_find, Outcome,
}
use gorn.Daemon.{find_chord_connection, node_index}

-- The daemon's globals: a queue is the list of the messages in it, oldest first; there is one sorting
-- queue of each class for each connection.
pub record Node : Type 0 where
  pub host : Peer
  pub connections : List Peer
  pub node_index : ℕ
  pub sorting_queue : List (List Bytes)
  pub find_sorting_queue : List (List Bytes)
  pub output_queue : List Bytes
  pub find_output_queue : List Bytes

abbrev pub empty_queues : List Peer → List (List Bytes)
empty_queues [] = []
empty_queues (c ∷ cs) = [] ∷ empty_queues cs

-- The globals as `main` sets them up from the configuration.
abbrev pub start : Peer → List Peer → Node
start host connections = record {
  host = host;
  connections = connections;
  node_index = node_index host.port_no;
  sorting_queue = empty_queues connections;
  find_sorting_queue = empty_queues connections;
  output_queue = [];
  find_output_queue = [];
}

-- `queues [k] -> put ( item )`; with no queue `k` the access is out of bounds, `none`.
pub put_at : ℕ → Bytes → List (List Bytes) → Option (List (List Bytes))
put_at k w [] = none
put_at zero w (q ∷ qs) = some ((q ++ w ∷ []) ∷ qs)
put_at (suc k) w (q ∷ qs) = elim (put_at k w qs) [ none ↦ none | some qs' ↦ some (q ∷ qs') ]

-- `(std::size_t)c` for a signed `char`.
abbrev pub widen : ℕ → ℕ
widen c = if ltb c 128 then c else c + 2 ^ 64 - 256

-- `index`: the first character, or 0, modulo 4.
abbrev pub bucket : Bytes → ℕ
bucket [] = 0
bucket (c ∷ s) = widen c % 4

-- The body of the loop over a store message's items.
pub place_store : Node → Bytes → Option Node
unfolding put_at
place_store n w =
    if bucket w == n.node_index
    then some (record n { output_queue = n.output_queue ++ w ∷ [] })
    else elim (find_chord_connection n.host.port_no n.connections (bucket w)) [
      | none ↦ none
      | some q ↦ elim (put_at q w n.sorting_queue) [
        | none ↦ none
        | some qs ↦ some (record n { sorting_queue = qs })
      ]
    ]

-- The body of the loop over a find message's items.
pub place_find : Node → Bytes → Option Node
unfolding put_at
place_find n w =
    if bucket w == n.node_index
    then some (record n { find_output_queue = n.find_output_queue ++ w ∷ [] })
    else elim (find_chord_connection n.host.port_no n.connections (bucket w)) [
      | none ↦ none
      | some q ↦ elim (put_at q w n.find_sorting_queue) [
        | none ↦ none
        | some qs ↦ some (record n { find_sorting_queue = qs })
      ]
    ]

pub place_all : (Node → Bytes → Option Node) → Node → List Bytes → Option Node
place_all place n [] = some n
place_all place n (w ∷ ws) = elim (place n w) [ none ↦ none | some n' ↦ place_all place n' ws ]

-- The two cases of the `switch` that change the queues.
pub handle : (Node → Bytes → Option Node) → Node → Outcome → Option Node
unfolding place_all
handle place n o = if o.status == 0 then place_all place n o.items else some n

-- `consumeItem` on a message, with `none` for an access out of bounds. Status reports and requests,
-- and messages of another type, leave the queues alone.
unfoldable pub consume_item : ℕ → Node → Bytes → Option Node
unfolding handle place_store place_find
consume_item unset n message =
    let type = extract_type unset message in
    if type == store_type
    then handle place_store n (deserialize unset store [] message)
    else if type == find_type
    then handle place_find n (deserialize_find unset [] message)
    else some n

-- `consumer_thread` on the messages that its queue gives.
unfoldable pub consume_each : ℕ → Node → List Bytes → Option Node
consume_each unset n [] = some n
consume_each unset n (message ∷ messages) = elim (consume_item unset n message) [
  | none ↦ none
  | some n' ↦ consume_each unset n' messages
]
