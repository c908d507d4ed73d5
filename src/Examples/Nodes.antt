-- ===== src/Examples/Nodes.antt =====
-- Runs of a node, and its theorems on the generated cluster with ports from 34000.
use gorn.Common.{◌≡◌, refl, none, some, List, [], ◌∷◌, arith, All, length}
use gorn.Text.{Bytes, codes}
use gorn.Text.Stream.Extract.{IsWord}
use gorn.Message.{store, serialize}
use gorn.Daemon.Route.{deliver}
use gorn.Daemon.Route.Delivery.{deliver_within_two, deliver_never}
use gorn.Config.{host_of, connections_of}
use gorn.Daemon.Consume.{Node, start, consume_item, consume_each}
use gorn.Daemon.Consume.Orderly.{IsOrderly, consume_each-IsOrderly}
use gorn.Daemon.Consume.Queues.{keeps, sends}
use gorn.Daemon.Consume.Delivered.{Delivered, Wired}
use gorn.Daemon.Consume.Store.{after_store, consume_item-store}
use gorn.Daemon.Consume.Cluster.{node_of, node_of-Wired}

deliver_within_two_example : deliver 2 34000 3 2 ≡ some 2
deliver_within_two_example =
    deliver_within_two 34000 3 2 refl (omega arith) (omega arith) (omega arith)

deliver_never_example : deliver 50 34010 0 1 ≡ none
deliver_never_example =
    deliver_never 50 34010 0 1 refl (omega arith) (omega arith) (omega arith) (omega arith)

-- `e` is 101, so bucket 1; `b` is 98, bucket 2.
abbrev two_urls : List Bytes
two_urls = codes "e.org/" ∷ codes "b.org/x" ∷ []

two_urls_words : All IsWord two_urls
two_urls_words = (
  record { nonempty = cc; solid = ground arith },
  (record { nonempty = cc; solid = ground arith }, tt),
)

node_of-Wired_example : Wired (node_of 34000 1) (length (node_of 34000 1).sorting_queue)
node_of-Wired_example = node_of-Wired 34000 1 refl (omega arith) (omega arith)

consume_item-store_example :
    (qs : List (List Bytes)) × (out : List Bytes) × (consume_item 7
        (node_of 34000 1)
        (serialize store two_urls 0 2)
      ≡ some (after_store (node_of 34000 1) qs out))
    × Delivered
        (keeps (node_of 34000 1))
        (sends (node_of 34000 1))
        two_urls
        (node_of 34000 1).sorting_queue
        []
        qs
        out
consume_item-store_example =
    consume_item-store 7 (node_of 34000 1) two_urls 2
      (node_of-Wired 34000 1 refl (omega arith) (omega arith)) two_urls_words (omega arith)
      (omega arith)

consume_each-IsOrderly_example :
    (n : Node) × (consume_each 7
        (start (host_of 34000 1) (connections_of 4 34000 1))
        (serialize store two_urls 0 2 ∷ codes "1234589 7 x" ∷ [])
      ≡ some n)
    × IsOrderly n
consume_each-IsOrderly_example =
    consume_each-IsOrderly 7 (host_of 34000 1) (connections_of 4 34000 1)
      (serialize store two_urls 0 2 ∷ codes "1234589 7 x" ∷ []) node_of-Wired_example
