-- ===== src/Daemon/Consume/Cluster.antt =====
-- The nodes of the generated four-node cluster meet what `consumeItem` asks of a node.
use gorn.Common.{ℕ, ◌+◌, ◌%◌, ◌^◌, ◌<◌, ◌≡◌, arith, length}
use gorn.Config.{connections_of, host_of}
use gorn.Daemon.Route.{chord_of_four, next_connection, links_of_four}
use gorn.Daemon.Consume.{Node, start, empty_queues}
use gorn.Daemon.Consume.Delivered.{Wired}

-- A node of the generated cluster, as `main` starts it.
abbrev pub node_of : ℕ → ℕ → Node
node_of root k = start (host_of root k) (connections_of 4 root k)

next_connection-lt : (k index : ℕ) → next_connection k index < 2
unfolding next_connection
next_connection-lt k index = ground arith

queues_of_four : (root k : ℕ) → length (empty_queues (connections_of 4 root k)) ≡ 2
queues_of_four root k = rw (links_of_four root k)

-- With a first port that is a multiple of 20 and leaves room for the four 64-bit ports, each node has
-- for every bucket that is not its own a connection with a queue.
pub node_of-Wired :
    (root k : ℕ)
    → root % 20 ≡ 0
    → root + 4 < 2 ^ 64
    → k < 4
    → Wired (node_of root k) (length (node_of root k).sorting_queue)
node_of-Wired root k aligned fits small index owned other =
    let port : (root + k) % 2 ^ 64 ≡ root + k = omega arith in
    (
      next_connection k index,
      rw port (chord_of_four root k (omega arith) fits small index owned (omega arith)),
      rw (queues_of_four root k) (next_connection-lt k index),
    )
