-- ===== src/Daemon/Consume/Find.antt =====
-- `consumeItem` on a find message.
use gorn.Common.{
  ℕ, ◌^◌, ◌<◌, ◌≡◌, refl, sym, ◌∙◌, inl, inr, true, false, some, List, [], ◌∷◌, ◌++◌, length, All,
  take,
}
use gorn.Text.{Bytes}
use gorn.Text.Stream.Extract.{IsWord}
use gorn.Message.{find, serialize}
use gorn.Message.RoundTrip.{extract_type-serialize, deserialize-serialize}
use gorn.Daemon.{find_chord_connection}
use gorn.Daemon.Consume.{Node, put_at, bucket, place_find, place_all, consume_item}
use gorn.Daemon.Consume.Queues.{keeps, sends}
use gorn.Daemon.Consume.Delivered.{
  Delivered, Wired, Wired-size, place_one, Delivered-nil, Delivered-cons, place_step,
}

-- The node after the items of a find message: only the find queues move.
abbrev pub after_find : Node → List (List Bytes) → List Bytes → Node
after_find n qs out = record n { find_sorting_queue = qs; find_output_queue = out }

abbrev pub Found : Node → List Bytes → Type 0
Found n ws =
    (qs : List (List Bytes)) × (out : List Bytes) × (place_all place_find n ws
      ≡ some (after_find n qs out))
    × Delivered (keeps n) (sends n) ws n.find_sorting_queue n.find_output_queue qs out

find_kept :
    (n : Node) (w : Bytes)
    → keeps n w ≡ true
    → place_find n w ≡ some (after_find n n.find_sorting_queue (n.find_output_queue ++ w ∷ []))
unfolding place_find
find_kept n w own = rw own

find_sent :
    (n : Node) (w : Bytes) (q : ℕ) (qs : List (List Bytes))
    → keeps n w ≡ false
    → find_chord_connection n.host.port_no n.connections (bucket w) ≡ some q
    → put_at q w n.find_sorting_queue ≡ some qs
    → place_find n w ≡ some (after_find n qs n.find_output_queue)
unfolding place_find
find_sent n w q qs other chosen put = rw (other, chosen, place_find, put)

pub place_all-find :
    (n : Node) (ws : List Bytes) → Wired n (length n.find_sorting_queue) → Found n ws
place_all-find n [] wired =
    (n.find_sorting_queue, n.find_output_queue, unfold place_all in refl, Delivered-nil n _ _)
place_all-find n (w ∷ ws) wired =
    elim (place_one n w n.find_sorting_queue n.find_output_queue wired) [
      | inl (own, first) ↦
          let out = n.find_output_queue ++ w ∷ [] in
          let (qs', out', all, later) =
            place_all-find (after_find n n.find_sorting_queue out) ws wired in
          (
            qs',
            out',
            place_step place_find n _ w ws (find_kept n w own) ∙ all,
            Delivered-cons n w ws first later,
          )
      | inr (q, qs, other, chosen, put, first) ↦
          let (qs', out', all, later) =
            place_all-find (after_find n qs n.find_output_queue) ws
              (Wired-size n _ _ (sym first.size) wired) in
          (
            qs',
            out',
            place_step place_find n _ w ws (find_sent n w q qs other chosen put) ∙ all,
            Delivered-cons n w ws first later,
          )
    ]

-- A node whose connection table has, for each bucket that it does not own, a connection with a
-- find find sorting queue consumes a find message of words, serialized from the start, as follows: nothing is
-- read out of bounds, the items whose first character is the node's own bucket go to the find
-- output queue, and each other item to the find sorting queue of the connection that `find_chord_connection`
-- chooses for its bucket, all behind what the queues held and in the message's order; nothing else
-- changes, and no item is lost or repeated.
pub consume_item-find :
    (unset : ℕ) (n : Node) (items : List Bytes) (num : ℕ)
    → Wired n (length n.find_sorting_queue)
    → All IsWord items
    → length items < 2 ^ 64
    → num < 2 ^ 64
    → (qs : List (List Bytes)) × (out : List Bytes) × (consume_item unset n
          (serialize find items 0 num)
        ≡ some (after_find n qs out))
      × Delivered
          (keeps n)
          (sends n)
          (take num items)
          n.find_sorting_queue
          n.find_output_queue
          qs
          out
unfolding consume_item
consume_item-find unset n items num wired words few small =
    let (qs, out, all, placed) = place_all-find n (take num items) wired in
    (
      qs,
      out,
      rw
          (
            extract_type-serialize unset find items 0 num,
            deserialize-serialize unset find [] items num words few small,
          )
          all,
      placed,
    )
