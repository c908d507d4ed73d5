-- ===== src/Examples/Crawls.antt =====
-- A page with two links is scanned, and queue entries bring back nodes.
use gorn.Common.{
  ℕ, ◌+◌, ◌≤◌, ◌==◌, ◌⊎◌, length, not, ◌≡◌, refl, Bool, true, false, ◌&&◌, ◌||◌, some, List, [],
  ◌∷◌, ◌++◌, arith, map,
}
use gorn.Text.{Bytes, codes}
use gorn.Text.Find.{find_text, find_at, starts_with, substr}
use gorn.Hash.{find, init, validate}
use gorn.Server.{c_string}
use gorn.Crawler.{
  Node, target, to_z, target_of, with_dir, without_dir, get_connections, scan_loop, link_text,
  after_link, put_target, put_node, check_black_list, fetch_each,
}
use gorn.Crawler.Connections.{NodeSet, node_comparator, Visit, Crawl}
use gorn.Crawler.Graph.{Graph, PointerSet, rounds, start}
use gorn.Crawler.Graph.Forest.{Grows}
use gorn.Crawler.Graph.Rounds.{IsCrawled, rounds-IsCrawled}
use gorn.Crawler.Fetch.{address, fetch_each-addresses}

-- The second link's host is on the black list below.
abbrev page : Bytes
page = codes ". <a href=\"http://a.org/x\"> <a href=\"http://bad.org\"> <a href=\"b\">"

abbrev black_list : List Bytes
black_list = codes "bad" ∷ []

get_connections_runs :
    get_connections page init black_list true (λ k. 0)
    ≡ some (record {
      puts = to_z (record { host = codes "a.org"; dir = codes "/x" }) ∷ [];
      n_links = 3;
      thrown = false;
    })
unfolding get_connections scan_loop link_text target_of with_dir without_dir after_link put_target
    put_node check_black_list find_text find_at starts_with substr validate init find c_string
get_connections_runs = refl

-- Without a slash the text from its second byte on is the host.
no_slash :
    target_of (codes "about")
    ≡ some (target (record { host = codes "bout"; dir = codes "/" }) (codes "bout"))
unfolding target_of without_dir find_text find_at starts_with substr
no_slash = refl

abbrev a_node : Node
a_node = record { host = codes "a.b"; dir = codes "/c/" }

fetch_each-addresses_example :
    fetch_each (map address (a_node ∷ []) ++ codes "d" ∷ [])
    ≡ (a_node ∷ []) ++ record { host = codes "d"; dir = codes "/" } ∷ []
fetch_each-addresses_example =
    fetch_each-addresses (a_node ∷ []) (codes "d")
      (((refl, (refl, (refl, tt))), (codes "c/", refl), omega arith), tt) (refl, tt) (omega arith)

-- The two nodes are each less than the other.
comparator_runs :
    (node_comparator
        (record { host = codes "a"; dir = codes "y" })
        (record { host = codes "b"; dir = codes "x" })
      ≡ true)
    × (node_comparator
          (record { host = codes "b"; dir = codes "x" })
          (record { host = codes "a"; dir = codes "y" })
        ≡ true)
unfolding node_comparator
comparator_runs = (refl, refl)

-- A set that goes through its nodes for one of which neither is less.
abbrev neither : (Node → Node → Bool) → List Node → Node → Bool
neither less [] n = false
neither less (x ∷ xs) n = (not (less n x) && not (less x n)) || neither less xs n

abbrev node_set : (Node → Node → Bool) → NodeSet
node_set less = record { find = neither less; refuses = neither less }

abbrev no_crawl : Crawl
no_crawl = record { visited = []; puts = []; saved = [] }

abbrev visits : List Visit
visits =
    record { node = a_node; page = page; sizes = λ k. 0 }
    ∷ record { node = a_node; page = page; sizes = λ k. 0 }
    ∷ []

-- A set that has each pointer once.
abbrev has_pointer : List ℕ → ℕ → Bool
has_pointer [] p = false
has_pointer (q ∷ held) p = q == p || has_pointer held p

abbrev pointer_set : PointerSet
pointer_set = record {
  find = λ nodes held p. has_pointer held p;
  refuses = λ nodes held p. has_pointer held p;
}

start-IsCrawled : IsCrawled pointer_set 0 start
start-IsCrawled = record {
  forest = record { ordered = (tt, tt); queued = (omega arith, tt); visited = tt };
  left = 1;
  whole = refl;
  queue = refl;
  history = [];
  turns = refl;
  past = tt;
  met = refl;
}

rounds-IsCrawled_example :
    (h : Graph) × (taken' : ℕ) × (rounds pointer_set (page ∷ page ∷ []) start ≡ some h)
    × IsCrawled pointer_set taken' h
    × Grows start h
    × ((taken' ≡ 0 + length (page ∷ page ∷ []))
        ⊎ ((h.queue ≡ []) × (taken' ≤ 0 + length (page ∷ page ∷ []))))
rounds-IsCrawled_example =
    rounds-IsCrawled pointer_set (page ∷ page ∷ []) 0 start (omega arith, (omega arith, tt))
      start-IsCrawled
