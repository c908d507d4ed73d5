-- ===== src/Crawler/Connections.antt =====
-- Crawler/DistributedCrawler.cpp: `connections_thread`, which visits the nodes that it gets from `Q`.
pub mod Visited
use gorn.Common.{
  ℕ, ◌≡◌, Bool, true, false, ◌&&◌, ◌||◌, ◌⊎◌, Option, none, some, List, [], ◌∷◌, ◌++◌, ltb,
  if◌then◌else◌, length,
}
use gorn.Text.{Bytes}
use gorn.Text.Order.{lt_text}
use gorn.Hash.{HashMap, validate}
use gorn.Crawler.{Node, check_black_list, Put, Scan, get_connections}

-- `NodeComparator`
unfoldable pub node_comparator : Node → Node → Bool
node_comparator a b = lt_text a.host b.host || lt_text a.dir b.dir

-- What `find` and `insert` of a set do when it holds these nodes, the last one first: whether the node
-- is found, and whether it is refused. `std::set` with a comparator gives them, and promises nothing
-- where the comparator is no strict weak order, as `NodeComparator` is not.
pub record NodeSet : Type 0 where
  pub find : List Node → Node → Bool
  pub refuses : List Node → Node → Bool

-- A node from `Q`, the page that its host returns, and the sizes of `Q` meanwhile.
pub record Visit : Type 0 where
  pub node : Node
  pub page : Bytes
  pub sizes : ℕ → ℕ

-- The set `M`, the last node first, and the calls of `put` on `Q` and `Z`, and on `map_queue`.
pub record Crawl : Type 0 where
  pub visited : List Node
  pub puts : List Put
  pub saved : List Node

unfoldable pub may_visit : HashMap → List Bytes → Node → Bool
may_visit m black_list n =
    ltb 0 (length n.host) && (check_black_list black_list n.host && validate m (n.host ++ n.dir))

-- What a scan leaves: a node whose scan threw is not saved.
unfoldable pub after_scan : Node → Crawl → Option Scan → Option Crawl
after_scan n c none = none
after_scan n c (some r) = some (record {
  visited = n ∷ c.visited;
  puts = c.puts ++ r.puts;
  saved = if r.thrown then c.saved else c.saved ++ n ∷ [];
})

module _ (std_set : (Node → Node → Bool) → NodeSet) (m : HashMap) (black_list : List Bytes)
    (worker_node : Bool) where
  -- A round of the loop; `none` when the scan's fuel runs out.
  unfoldable pub visit : Visit → Crawl → Option Crawl
  visit v c =
      let n = v.node in
      let scan = get_connections v.page m black_list worker_node v.sizes in
      if may_visit m black_list n
      then (if (std_set node_comparator).find c.visited n
          then some c
          else if (std_set node_comparator).refuses c.visited n
          then some c
          else after_scan n c scan)
      else some c

  unfoldable pub visit_each : List Visit → Crawl → Option Crawl
  visit_each [] c = some c
  visit_each (v ∷ visits) c = elim (visit v c) [ none ↦ none | some c' ↦ visit_each visits c' ]
