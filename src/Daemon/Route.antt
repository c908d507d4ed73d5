-- ===== src/Daemon/Route.antt =====
-- Routing on the generated four-node cluster: the connection that each node chooses for a key.
pub mod Delivery
use gorn.Common.{
  ℕ, zero, suc, ◌+◌, ◌-◌, ◌*◌, ◌%◌, ◌^◌, ◌≤◌, ◌<◌, ◌≡◌, ◌≢◌, refl, ◌⊎◌, inl, inr, Option, none,
  some, List, [], ◌∷◌, arith, ltb, ◌==◌, if◌then◌else◌, get_elem?, length,
}
use gorn.Config.{Peer, localhost, connections_of}
use gorn.Daemon.{gap, find_chord_connection, node_index}

-- A link of node `k` of a four-node cluster.
abbrev pub link : ℕ → ℕ → ℕ → Peer
link root k offset = record {
  host_name = localhost;
  port_no = (root + (k + offset) % 2 ^ 64 % 4) % 2 ^ 64;
}

pub links_of_four : (root k : ℕ) → connections_of 4 root k ≡ link root k 1 ∷ link root k 2 ∷ []
unfolding connections_of
links_of_four root k = refl

-- The node that a key of bucket `index` reaches from node `k` in at most `hops` hops: a node stores
-- the key if the bucket is its `node_index`, and else passes it to the connection that
-- `find_chord_connection` chooses. `none`: there is no such connection, or the hops are used up.
pub deliver : ℕ → ℕ → ℕ → ℕ → Option ℕ
deliver zero root k index = if index == node_index (root + k) then some k else none
deliver (suc hops) root k index =
    if index == node_index (root + k)
    then some k
    else elim (find_chord_connection (root + k) (connections_of 4 root k) index) [
      | none ↦ none
      | some q ↦ elim (get_elem? (connections_of 4 root k) q) [
        | none ↦ none
        | some c ↦ deliver hops root (c.port_no - root) index
      ]
    ]

-- Where a node sends a key that it does not own: to the next node, unless that does not halve the
-- distance, and then to the second next.
unfoldable pub next_connection : ℕ → ℕ → ℕ
next_connection k index = if ltb ((index + 4 - k) % 4) 2 then 0 else 1

pub next_node : ℕ → ℕ → ℕ
next_node k index = if ltb ((index + 4 - k) % 4) 2 then (k + 1) % 4 else (k + 2) % 4

module _ (root k : ℕ) (aligned : root % 4 ≡ 0) (fits : root + 4 < 2 ^ 64) (small : k < 4) where
  gap_index : (index : ℕ) → index < 4 → gap index (root + k) ≡ (index + 4 - k) % 4
  gap_index index h = omega arith

  gap-link : (offset : ℕ) → offset < 4 → gap (link root k offset).port_no (root + k) ≡ offset
  gap-link offset h = omega arith

  pub chord_of_four :
      (index : ℕ)
      → index < 4
      → index ≢ k
      → find_chord_connection (root + k) (connections_of 4 root k) index
        ≡ some (next_connection k index)
  unfolding find_chord_connection next_connection
  chord_of_four index owned other =
      rw links_of_four
        (ground (arith, gap_index index owned, gap-link 1 (omega arith), gap-link 2 (omega arith)))
