-- ===== src/Daemon/Consume/Orderly.antt =====
-- What holds of a node's queues whatever messages it consumes.
use gorn.Common.{
  ℕ, zero, suc, ◌≡◌, refl, sym, ap, subst, ◌∙◌, Bool, true, Option, none, some, List, [], ◌∷◌, ◌++◌,
  length, All, All-append, Bool-cases, inl, inr, ◌==◌,
}
use gorn.Text.{Bytes}
use gorn.Config.{Peer}
use gorn.Message.{
  store, store_type, find_type, extract_type, deserialize, deserialize_find, Outcome,
}
use gorn.Daemon.Consume.{
  Node, start, empty_queues, place_store, place_find, place_all, handle, consume_item, consume_each,
}
use gorn.Daemon.Consume.Queues.{queue_of, select, keeps, sends}
use gorn.Daemon.Consume.Delivered.{Wired, Wired-size}
use gorn.Daemon.Consume.Store.{place_all-store, after_store}
use gorn.Daemon.Consume.Find.{place_all-find, after_find}

abbrev pub Selected : (Bytes → Bool) → List Bytes → Type 0
Selected p ws = All (λ w. p w ≡ true) ws

-- There is a queue of each class for every bucket of another node; the output queues hold items of
-- the node's own bucket, and each sorting queue items that its connection is chosen for.
pub record IsOrderly (n : Node) : Type 0 where
  pub wired : Wired n (length n.sorting_queue)
  pub find_wired : Wired n (length n.find_sorting_queue)
  pub own : Selected (keeps n) n.output_queue
  pub find_own : Selected (keeps n) n.find_output_queue
  pub sent : (q : ℕ) → Selected (sends n q) (queue_of n.sorting_queue q)
  pub find_sent : (q : ℕ) → Selected (sends n q) (queue_of n.find_sorting_queue q)

select-Selected : (p : Bytes → Bool) (ws : List Bytes) → Selected p (select p ws)
unfolding select
select-Selected p [] = tt
select-Selected p (w ∷ ws) = elim (Bool-cases (p w)) [
  | inl e ↦ rw e (e, select-Selected p ws)
  | inr e ↦ rw e (select-Selected p ws)
]

Selected-append :
    (p : Bytes → Bool) (before after ws : List Bytes)
    → after ≡ before ++ select p ws
    → Selected p before
    → Selected p after
Selected-append p before after ws e h =
    subst (Selected p) (sym e)
      (All-append (λ w. p w ≡ true) before (select p ws) h (select-Selected p ws))

Stored-IsOrderly :
    (n : Node) (ws : List Bytes)
    → IsOrderly n
    → (n' : Node) × (place_all place_store n ws ≡ some n') × IsOrderly n'
Stored-IsOrderly n ws h =
    let (qs, out, all, placed) = place_all-store n ws h.wired in
    (
      after_store n qs out,
      all,
      record {
        wired = Wired-size n _ _ (sym placed.size) h.wired;
        find_wired = h.find_wired;
        own = Selected-append (keeps n) n.output_queue out ws placed.local h.own;
        find_own = h.find_own;
        sent = λ q.
            Selected-append (sends n q) (queue_of n.sorting_queue q) (queue_of qs q) ws
              (placed.remote q) (h.sent q);
        find_sent = h.find_sent;
      },
    )

Found-IsOrderly :
    (n : Node) (ws : List Bytes)
    → IsOrderly n
    → (n' : Node) × (place_all place_find n ws ≡ some n') × IsOrderly n'
Found-IsOrderly n ws h =
    let (qs, out, all, placed) = place_all-find n ws h.find_wired in
    (
      after_find n qs out,
      all,
      record {
        wired = h.wired;
        find_wired = Wired-size n _ _ (sym placed.size) h.find_wired;
        own = h.own;
        find_own = Selected-append (keeps n) n.find_output_queue out ws placed.local h.find_own;
        sent = h.sent;
        find_sent = λ q.
            Selected-append (sends n q) (queue_of n.find_sorting_queue q) (queue_of qs q) ws
              (placed.remote q) (h.find_sent q);
      },
    )

abbrev Goes : Node → Option Node → Type 0
Goes n o = (n' : Node) × (o ≡ some n') × IsOrderly n'

handle-IsOrderly :
    (place : Node → Bytes → Option Node) (n : Node) (o : Outcome)
    → IsOrderly n
    → Goes n (place_all place n o.items)
    → Goes n (handle place n o)
unfolding handle
handle-IsOrderly place n o h all = elim (Bool-cases (o.status == 0)) [
  | inl e ↦ rw e all
  | inr e ↦ rw e (n, refl, h)
]

consume_item-IsOrderly :
    (unset : ℕ) (n : Node) (message : Bytes) → IsOrderly n → Goes n (consume_item unset n message)
unfolding consume_item
consume_item-IsOrderly unset n message h =
    let type = extract_type unset message in
    elim (Bool-cases (type == store_type)) [
      | inl e ↦ rw e (
          handle-IsOrderly place_store n (deserialize unset store [] message) h
            (Stored-IsOrderly n _ h))
      | inr e ↦ elim (Bool-cases (type == find_type)) [
        | inl f ↦
            rw (e, f)
              (handle-IsOrderly place_find n (deserialize_find unset [] message) h
                (Found-IsOrderly n _ h))
        | inr f ↦ rw (e, f) (n, refl, h)
      ]
    ]

consume_each_keeps :
    (unset : ℕ) (n : Node) (messages : List Bytes)
    → IsOrderly n
    → Goes n (consume_each unset n messages)
unfolding consume_each
consume_each_keeps unset n [] h = (n, refl, h)
consume_each_keeps unset n (message ∷ messages) h =
    let (n', ate, h') = consume_item-IsOrderly unset n message h in
    let (n'', rest, h'') = consume_each_keeps unset n' messages h' in
    let go : Option Node → Option Node =
      λ o. elim o [ none ↦ none | some m ↦ consume_each unset m messages ] in
    (n'', ap go ate ∙ rest, h'')

empty_queues-Selected :
    (p : Bytes → Bool) (cs : List Peer) (q : ℕ) → Selected p (queue_of (empty_queues cs) q)
unfolding queue_of
empty_queues-Selected p [] q = tt
empty_queues-Selected p (c ∷ cs) zero = tt
empty_queues-Selected p (c ∷ cs) (suc q) = empty_queues-Selected p cs q

-- A node starts with empty queues, with a connection for each bucket of another node. Whatever
-- messages it then consumes, any bytes at all, it reads nothing out of bounds and stays orderly: the
-- two output queues hold items of its own bucket only, and the sorting queues of each connection
-- items of other buckets only, for which `find_chord_connection` chooses that connection.
pub consume_each-IsOrderly :
    (unset : ℕ) (host : Peer) (connections : List Peer) (messages : List Bytes)
    → Wired (start host connections) (length (empty_queues connections))
    → (n : Node) × (consume_each unset (start host connections) messages ≡ some n) × IsOrderly n
consume_each-IsOrderly unset host connections messages wired =
    consume_each_keeps unset (start host connections) messages (record {
      wired = wired;
      find_wired = wired;
      own = tt;
      find_own = tt;
      sent = λ q. empty_queues-Selected _ connections q;
      find_sent = λ q. empty_queues-Selected _ connections q;
    })
