-- ===== src/Daemon/Consume/Store.antt =====
-- `consumeItem` on a store message.
use gorn.Common.{
  ℕ, ◌^◌, ◌<◌, ◌≡◌, refl, sym, ◌∙◌, inl, inr, true, false, some, List, [], ◌∷◌, ◌++◌, length, All,
  take,
}
use gorn.Text.{Bytes}
use gorn.Text.Stream.Extract.{IsWord}
use gorn.Message.{store, serialize}
use gorn.Message.RoundTrip.{extract_type-serialize, deserialize-serialize}
use gorn.Daemon.{find_chord_connection}
use gorn.Daemon.Consume.{Node, put_at, bucket, place_store, place_all, consume_item}
use gorn.Daemon.Consume.Queues.{keeps, sends}
use gorn.Daemon.Consume.Delivered.{
  Delivered, Wired, Wired-size, place_one, Delivered-nil, Delivered-cons, place_step,
}

-- The node after the items of a store message: only the sorting queues and the output queue move.
abbrev pub after_store : Node → List (List Bytes) → List Bytes → Node
after_store n qs out = record n { sorting_queue = qs; output_queue = out }

abbrev pub Stored : Node → List Bytes → Type 0
Stored n ws =
    (qs : List (List Bytes)) × (out : List Bytes) × (place_all place_store n ws
      ≡ some (after_store n qs out))
    × Delivered (keeps n) (sends n) ws n.sorting_queue n.output_queue qs out

store_kept :
    (n : Node) (w : Bytes)
    → keeps n w ≡ true
    → place_store n w ≡ some (after_store n n.sorting_queue (n.output_queue ++ w ∷ []))
unfolding place_store
store_kept n w own = rw own

store_sent :
    (n : Node) (w : Bytes) (q : ℕ) (qs : List (List Bytes))
    → keeps n w ≡ false
    → find_chord_connection n.host.port_no n.connections (bucket w) ≡ some q
    → put_at q w n.sorting_queue ≡ some qs
    → place_store n w ≡ some (after_store n qs n.output_queue)
unfolding place_store
store_sent n w q qs other chosen put = rw (other, chosen, place_store, put)

pub place_all-store : (n : Node) (ws : List Bytes) → Wired n (length n.sorting_queue) → Stored n ws
place_all-store n [] wired =
    (n.sorting_queue, n.output_queue, unfold place_all in refl, Delivered-nil n _ _)
place_all-store n (w ∷ ws) wired = elim (place_one n w n.sorting_queue n.output_queue wired) [
  | inl (own, first) ↦
      let out = n.output_queue ++ w ∷ [] in
      let (qs', out', all, later) = place_all-store (after_store n n.sorting_queue out) ws wired in
      (
        qs',
        out',
        place_step place_store n _ w ws (store_kept n w own) ∙ all,
        Delivered-cons n w ws first later,
      )
  | inr (q, qs, other, chosen, put, first) ↦
      let (qs', out', all, later) =
        place_all-store (after_store n qs n.output_queue) ws
          (Wired-size n _ _ (sym first.size) wired) in
      (
        qs',
        out',
        place_step place_store n _ w ws (store_sent n w q qs other chosen put) ∙ all,
        Delivered-cons n w ws first later,
      )
]

-- A node whose connection table has, for each bucket that it does not own, a connection with a
-- sorting queue consumes a store message of words, serialized from the start, as follows: nothing is
-- read out of bounds, the items whose first character is the node's own bucket go to the output
-- queue, and each other item to the sorting queue of the connection that `find_chord_connection`
-- chooses for its bucket, all behind what the queues held and in the message's order; nothing else
-- changes, and no item is lost or repeated.
pub consume_item-store :
    (unset : ℕ) (n : Node) (items : List Bytes) (num : ℕ)
    → Wired n (length n.sorting_queue)
    → All IsWord items
    → length items < 2 ^ 64
    → num < 2 ^ 64
    → (qs : List (List Bytes)) × (out : List Bytes) × (consume_item unset n
          (serialize store items 0 num)
        ≡ some (after_store n qs out))
      × Delivered (keeps n) (sends n) (take num items) n.sorting_queue n.output_queue qs out
unfolding consume_item
consume_item-store unset n items num wired words few small =
    let (qs, out, all, placed) = place_all-store n (take num items) wired in
    (
      qs,
      out,
      rw
          (
            extract_type-serialize unset store items 0 num,
            deserialize-serialize unset store [] items num words few small,
          )
          all,
      placed,
    )
