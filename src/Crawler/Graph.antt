-- ===== src/Crawler/Graph.antt =====
-- Crawler/Crawler.cpp: the crawler with graphics, less its drawing: the nodes that it allocates, the
-- deque `Q` and the set `M` of pointers to them, and `connections_thread`.
pub mod Forest
pub mod Rounds
use gorn.Common.{
  ℕ, zero, suc, ◌+◌, ◌%◌, ◌^◌, ◌≡◌, Bool, true, false, Option, none, some, List, [], ◌∷◌, ◌++◌,
  ◌==◌, if◌then◌else◌, length, get_elem?,
}
use gorn.Text.{Bytes, codes}
use gorn.Text.Find.{npos, find_text}
use gorn.Crawler.{Node, Target, not_found, target, link_text, target_of}

-- A node less its position: `parent` is a pointer, the number of an allocated node.
pub record Linked : Type 0 where
  pub address : Node
  pub parent : Option ℕ

-- The nodes that were allocated, `Q`, and `M`.
pub record Graph : Type 0 where
  pub nodes : List Linked
  pub queue : List ℕ
  pub visited : List ℕ

-- `Q . push_back ( new node ( host , dir , parent ) )`
unfoldable pub push_node : Node → Option ℕ → Graph → Graph
push_node n parent g = record g {
  nodes = g.nodes ++ record { address = n; parent = parent } ∷ [];
  queue = g.queue ++ length g.nodes ∷ [];
}

unfoldable pub push_target : ℕ → Target → Graph → Graph
push_target parent not_found g = g
push_target parent (target n key) g = push_node n (some parent) g

-- The `while` of `get_connections`, with fuel: the graph, and whether it threw.
unfoldable pub links_loop : Bytes → ℕ → ℕ → ℕ → Graph → Option (Graph × Bool)
links_loop output parent zero pos g = none
links_loop output parent (suc fuel) pos g =
    let next = find_text output (codes "<a ") ((pos + 1) % 2 ^ 64) in
    if next == npos then some (g, false) else elim (link_text output next) [
      | none ↦ some (g, true)
      | some str ↦ elim (target_of str) [
        | none ↦ some (g, true)
        | some t ↦ links_loop output parent fuel next (push_target parent t g)
      ]
    ]

-- `get_connections` on the page that `send_complete` returned.
unfoldable pub get_connections : Bytes → ℕ → Graph → Option (Graph × Bool)
get_connections output parent g = links_loop output parent (length output + 2) 0 g

-- What `M . find` and `M . insert` do with a pointer, given the nodes and the pointers in `M`: whether
-- it is found, and whether it is refused.
pub record PointerSet : Type 0 where
  pub find : List Linked → List ℕ → ℕ → Bool
  pub refuses : List Linked → List ℕ → ℕ → Bool

unfoldable pub insert : PointerSet → ℕ → Graph → Graph
insert s n g = if s.refuses g.nodes g.visited n then g else record g { visited = n ∷ g.visited }

-- The first node of `Q` is visited; `page` is what its host returns.
unfoldable pub visit_front : PointerSet → Bytes → List ℕ → Graph → Option Graph
visit_front s page [] g = some g
visit_front s page (n ∷ queue) g =
    let g' : Graph = record g { queue = queue } in
    if s.find g.nodes g.visited n
    then some g'
    else elim (get_connections page n (insert s n g')) [ none ↦ none | some r ↦ some r.0 ]

-- A round of `connections_thread`, which prints an exception and goes on.
unfoldable pub round : PointerSet → Bytes → Graph → Option Graph
round s page g = visit_front s page g.queue g

unfoldable pub rounds : PointerSet → List Bytes → Graph → Option Graph
rounds s [] g = some g
rounds s (page ∷ pages) g = elim (round s page g) [ none ↦ none | some g' ↦ rounds s pages g' ]

-- The node that `main` puts into `Q`.
abbrev pub start : Graph
start = record {
  nodes =
      record { address = record { host = codes "www.bing.com"; dir = codes "/" }; parent = none }
      ∷ [];
  queue = 0 ∷ [];
  visited = [];
}
