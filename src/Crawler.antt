-- ===== src/Crawler.antt =====
-- Crawler/DistributedCrawler.cpp: the links that `get_connections` takes out of a page, and the nodes
-- that the queue files bring back.
pub mod Allowed
pub mod Fetch
pub mod Scanned
pub mod Connections
pub mod Graph
use gorn.Common.{
  ℕ, zero, suc, ◌+◌, ◌-◌, ◌%◌, ◌^◌, Bool, true, false, not, ◌&&◌, Option, none, some, List, [], ◌∷◌,
  ◌++◌, ltb, ◌==◌, if◌then◌else◌, length,
}
use gorn.Text.{Bytes, codes}
use gorn.Text.Find.{npos, find_text, contains, substr}
use gorn.Files.{Disk, read_file}
use gorn.Hash.{HashMap, validate}
use gorn.Server.{c_string}

pub record Node : Type 0 where
  pub host : Bytes
  pub dir : Bytes

unfoldable pub check_black_list : List Bytes → Bytes → Bool
check_black_list [] p_host = true
check_black_list (b ∷ black_list) p_host =
    if contains p_host (c_string b) then false else check_black_list black_list p_host

-- The text in the quotes behind the next `href=`; `none` where `substr` throws.
unfoldable pub link_text : Bytes → ℕ → Option Bytes
link_text output pos =
    let href_pos = find_text output (codes "href=") pos in
    let quote = find_text output (34 ∷ []) ((href_pos + 8) % 2 ^ 64) in
    substr output ((href_pos + 6) % 2 ^ 64) ((quote + 2 ^ 64 - 6 + 2 ^ 64 - href_pos) % 2 ^ 64)

-- A node, and the text of it that `hash . validate` tests.
pub data Target : Type 0 where
  not_found : Target
  target : Node → Bytes → Target

unfoldable pub with_dir : Bytes → ℕ → ℕ → Option Target
with_dir str host_start host_end =
    elim (substr str host_start ((host_end + 2 ^ 64 - host_start) % 2 ^ 64)) [
      | none ↦ none
      | some host ↦ elim (substr str ((host_end + 1) % 2 ^ 64) npos) [
        | none ↦ none
        | some dir ↦ some (target (record { host = host; dir = 47 ∷ dir }) (host ++ 47 ∷ dir))
      ]
    ]

unfoldable pub without_dir : Bytes → ℕ → ℕ → Option Target
without_dir str host_start host_end =
    elim (substr str host_start ((host_end + 2 ^ 64 - host_start) % 2 ^ 64)) [
      | none ↦ none
      | some host ↦ some (target (record { host = host; dir = 47 ∷ [] }) host)
    ]

-- `none` where `substr` throws.
unfoldable pub target_of : Bytes → Option Target
target_of str =
    let host_start = (find_text str (47 ∷ []) 0 + 2) % 2 ^ 64 in
    let host_end = find_text str (47 ∷ []) host_start in
    if host_start == npos
    then some not_found
    else if host_end == npos
    then without_dir str host_start host_end
    else with_dir str host_start host_end

-- A call of `put` on one of the two queues.
pub data Put : Type 0 where
  to_q : Node → Put
  to_z : Node → Put

-- `size` is what `Q -> size ()` returns.
unfoldable pub put_node : Bool → ℕ → Node → Put
put_node worker_node size n = if ltb size 1000 && not worker_node then to_q n else to_z n

-- The tests of a link, and the call of `put` if it passes them.
unfoldable pub put_target : HashMap → List Bytes → Bool → ℕ → Target → List Put
put_target m black_list worker_node size not_found = []
put_target m black_list worker_node size (target n key) =
    if ltb 0 (length n.host) && (check_black_list black_list n.host && validate m key)
    then put_node worker_node size n ∷ []
    else []

-- What `get_connections` did: the calls of `put` in order, `n_links`, and whether it threw.
pub record Scan : Type 0 where
  pub puts : List Put
  pub n_links : ℕ
  pub thrown : Bool

unfoldable pub after_link : List Put → Option Scan → Option Scan
after_link puts none = none
after_link puts (some r) = some (record r { puts = puts ++ r.puts })

-- The page, the table of the hash, the black list, whether this is a worker, and what `Q -> size ()`
-- returns at each link; other threads take from the queue meanwhile.
module _ (output : Bytes) (m : HashMap) (black_list : List Bytes) (worker_node : Bool)
    (sizes : ℕ → ℕ) where
  -- The `while`, with fuel: `none` when it runs out.
  unfoldable pub scan_loop : ℕ → ℕ → ℕ → Option Scan
  scan_loop zero pos n_links = none
  scan_loop (suc fuel) pos n_links =
      let next = find_text output (codes "<a ") ((pos + 1) % 2 ^ 64) in
      let rest = scan_loop fuel next (n_links + 1) in
      let puts = put_target m black_list worker_node (sizes n_links) in
      if next == npos
      then some (record { puts = []; n_links = n_links; thrown = false })
      else elim (link_text output next) [
        | none ↦ some (record { puts = []; n_links = n_links + 1; thrown = true })
        | some str ↦ elim (target_of str) [
          | none ↦ some (record { puts = []; n_links = n_links + 1; thrown = true })
          | some t ↦ after_link (puts t) rest
        ]
      ]

  -- `get_connections` on the page that `send_complete` returned. Each round goes on by a byte at
  -- least, so the fuel is enough.
  unfoldable pub get_connections : Option Scan
  get_connections = scan_loop (length output + 2) 0 0

-- What `fetch_data_from_queue_thread` makes of the value of a queue entry.
unfoldable pub fetch_node : Bytes → Option Node
fetch_node str =
    let host_end = find_text str (47 ∷ []) 0 in
    if host_end == npos
    then elim (substr str 0 host_end) [
      | none ↦ none
      | some host ↦ some (record { host = host; dir = 47 ∷ [] })
    ]
    else elim (substr str 0 host_end) [
      | none ↦ none
      | some host ↦ elim (substr str ((host_end + 1) % 2 ^ 64) npos) [
        | none ↦ none
        | some dir ↦ some (record { host = host; dir = 47 ∷ dir })
      ]
    ]

-- `load_black_list`
unfoldable pub load_black_list : Disk → List Bytes
load_black_list d = read_file d (codes "blacklist/blacklist") []

-- The values of the entries that `Pop` gave, each put into `Q` until `substr` throws.
unfoldable pub fetch_each : List Bytes → List Node
fetch_each [] = []
fetch_each (str ∷ values) = elim (fetch_node str) [ none ↦ [] | some n ↦ n ∷ fetch_each values ]
