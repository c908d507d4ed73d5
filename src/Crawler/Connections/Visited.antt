-- ===== src/Crawler/Connections/Visited.antt =====
-- What `connections_thread` visits, puts and saves.
use gorn.Common.{◌<◌, ◌≡◌, Bool, true, false, List, [], ◌∷◌, ◌++◌, if◌then◌else◌, length, All}
use gorn.Text.{Bytes}
use gorn.Hash.{HashMap, validate}
use gorn.Crawler.{Node}
use gorn.Crawler.Allowed.{Clear, Allowed}
use gorn.Crawler.Connections.{NodeSet, Crawl, node_comparator}

-- When a node was visited, the set did not find it and took it; the last one first.
abbrev pub Unknown : NodeSet → List Node → Type 0
Unknown s [] = Unit
Unknown s (n ∷ held) = (s.find held n ≡ false) × (s.refuses held n ≡ false) × Unknown s held

-- The nodes with a `true`, the last one last.
abbrev pub chosen : List Bool → List Node → List Node
chosen [] visited = []
chosen (b ∷ flags) [] = []
chosen (b ∷ flags) (n ∷ visited) =
    if b then chosen flags visited ++ n ∷ [] else chosen flags visited

pub record Checked (m : HashMap) (black_list : List Bytes) (n : Node) : Type 0 where
  pub named : 0 < length n.host
  pub listed : Clear black_list n.host
  pub tested : validate m (n.host ++ n.dir) ≡ true

module _ (std_set : (Node → Node → Bool) → NodeSet) (m : HashMap) (black_list : List Bytes)
    (worker_node : Bool) where
  -- Each node was visited after its tests, each call of `put` passed those of a link, and the saved
  -- nodes are visited ones, in their order.
  pub record IsCrawl (c : Crawl) : Type 0 where
    pub checked : All (Checked m black_list) c.visited
    pub unknown : Unknown (std_set node_comparator) c.visited
    pub allowed : All (Allowed m black_list worker_node) c.puts
    pub saved :
        (flags : List Bool) × (length flags ≡ length c.visited) × (c.saved ≡ chosen flags c.visited)
