-- ===== src/Daemon/Route/Delivery.antt =====
-- A key reaches its owner within two hops, if the cluster's first port is a multiple of 20; with a
-- multiple of 10 alone it may be passed on for ever.
use gorn.Common.{
  ℕ, zero, suc, ◌+◌, ◌-◌, ◌%◌, ◌^◌, ◌<◌, ◌≡◌, ◌≢◌, ap, ◌∙◌, inl, inr, false, none, some, arith, ltb,
  ◌==◌, ==_iff, if◌then◌else◌, get_elem?, Bool-cases,
}
use native.Mathlib.Decide.{ℕ_discrete}
use gorn.Config.{connections_of}
use gorn.Daemon.{gap, find_chord_connection, node_index}
use gorn.Daemon.Route.{link, links_of_four, next_connection, next_node, deliver, chord_of_four}

deliver_here :
    (hops root k index : ℕ) → index ≡ node_index (root + k) → deliver hops root k index ≡ some k
unfolding deliver
deliver_here zero root k index e = ground (arith, ==_iff index (node_index (root + k)))
deliver_here (suc hops) root k index e = ground (arith, ==_iff index (node_index (root + k)))

-- One hop, along connection `q` with link `offset`.
deliver_hop :
    (hops root k index q offset : ℕ)
    → index ≢ node_index (root + k)
    → find_chord_connection (root + k) (connections_of 4 root k) index ≡ some q
    → get_elem? (connections_of 4 root k) q ≡ some (link root k offset)
    → deliver (suc hops) root k index
      ≡ deliver hops root ((link root k offset).port_no - root) index
unfolding deliver
deliver_hop hops root k index q offset other chosen there =
    let elsewhere : (index == node_index (root + k)) ≡ false = ground arith in
    rw (elsewhere, chosen, deliver, there)

-- Back from the port of a link to the number of the node.
link_node :
    (root k offset : ℕ)
    → root + 4 < 2 ^ 64
    → k < 4
    → offset < 4
    → (link root k offset).port_no - root ≡ (k + offset) % 4
link_node root k offset fits small near = omega arith

module _ (root : ℕ) (fits : root + 4 < 2 ^ 64) (hops k index : ℕ) (small : k < 4) where
  deliver_first :
      index ≢ node_index (root + k)
      → find_chord_connection (root + k) (connections_of 4 root k) index ≡ some 0
      → deliver (suc hops) root k index ≡ deliver hops root ((k + 1) % 4) index
  deliver_first other chosen =
      deliver_hop hops root k index 0 1 other chosen (rw links_of_four)
      ∙ ap (λ j. deliver hops root j index) (link_node root k 1 fits small (omega arith))

  deliver_second :
      index ≢ node_index (root + k)
      → find_chord_connection (root + k) (connections_of 4 root k) index ≡ some 1
      → deliver (suc hops) root k index ≡ deliver hops root ((k + 2) % 4) index
  deliver_second other chosen =
      deliver_hop hops root k index 1 2 other chosen (rw links_of_four)
      ∙ ap (λ j. deliver hops root j index) (link_node root k 2 fits small (omega arith))

deliver_next :
    (root hops k index : ℕ)
    → root % 20 ≡ 0
    → root + 4 < 2 ^ 64
    → k < 4
    → index < 4
    → index ≢ k
    → deliver (suc hops) root k index ≡ deliver hops root (next_node k index) index
unfolding next_node next_connection
deliver_next root hops k index aligned fits small owned other = ground (
  arith,
  chord_of_four root k (omega arith) fits small index owned other,
  deliver_first root fits hops k index small (omega arith),
  deliver_second root fits hops k index small (omega arith),
)

next_node_twice :
    (k index : ℕ)
    → k < 4
    → index < 4
    → index ≢ k
    → index ≢ next_node k index
    → next_node (next_node k index) index ≡ index
unfolding next_node
next_node_twice k index small owned other missed = ground arith

next_node-lt : (k index : ℕ) → next_node k index < 4
unfolding next_node
next_node-lt k index = ground arith

-- On the cluster of four nodes that the configuration generator describes, with a first port that is
-- a multiple of 20 and that leaves room for the four 64-bit port numbers: from every node, every key
-- reaches the node whose number is the key's bucket, in at most two hops.
pub deliver_within_two :
    (root k index : ℕ)
    → root % 20 ≡ 0
    → root + 4 < 2 ^ 64
    → k < 4
    → index < 4
    → deliver 2 root k index ≡ some index
deliver_within_two root k index aligned fits small owned = elim (ℕ_discrete index k) [
  | yes e ↦ rw e (deliver_here 2 root k k (omega arith))
  | no other ↦
      deliver_next root 1 k index aligned fits small owned other
      ∙ elim (ℕ_discrete index (next_node k index)) [
        | yes e ↦
            deliver_here 1 root (next_node k index) index (omega (arith, next_node-lt k index))
            ∙ rw (← e)
        | no missed ↦
            deliver_next root 0 (next_node k index) index aligned fits (next_node-lt k index) owned
              missed
            ∙ (rw (next_node_twice k index small owned other missed)
                (deliver_here 0 root index index (omega arith)))
      ]
]

module _ (root k index : ℕ) (half : root % 20 ≡ 10) (fits : root + 4 < 2 ^ 64) (small : k < 4)
    (owned : index < 4) where
  gap_shifted : gap index (root + k) ≡ (index + 6 - k) % 4
  gap_shifted = omega arith

  gap_first : gap (link root k 1).port_no (root + k) ≡ 1
  gap_first = omega arith

  gap_second : gap (link root k 2).port_no (root + k) ≡ 2
  gap_second = omega arith

  chord_shifted :
      find_chord_connection (root + k) (connections_of 4 root k) index
      ≡ (if ltb ((index + 6 - k) % 4) 2 then some 0 else some 1)
  unfolding find_chord_connection
  chord_shifted = rw links_of_four (ground (arith, gap_shifted, gap_first, gap_second))

-- With a first port that is 10 modulo 20 no key that starts at a node other than its owner reaches
-- it, however many hops it makes: the nodes' numbers are the ports modulo 10, and the distances are
-- those of the ports modulo 4.
pub deliver_never :
    (hops root k index : ℕ)
    → root % 20 ≡ 10
    → root + 4 < 2 ^ 64
    → k < 4
    → index < 4
    → index ≢ k
    → deliver hops root k index ≡ none
deliver_never zero root k index half fits small owned other = unfold deliver in ground arith
deliver_never (suc hops) root k index half fits small owned other =
    elim (Bool-cases (ltb ((index + 6 - k) % 4) 2)) [
      | inl near ↦
          deliver_first root fits hops k index small (omega arith)
            (chord_shifted root k index half fits small owned ∙ rw near)
          ∙ deliver_never hops root ((k + 1) % 4) index half fits (omega arith) owned (ground arith)
      | inr far ↦
          deliver_second root fits hops k index small (omega arith)
            (chord_shifted root k index half fits small owned ∙ rw far)
          ∙ deliver_never hops root ((k + 2) % 4) index half fits (omega arith) owned (ground arith)
    ]
