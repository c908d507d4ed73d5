-- ===== src/Writers.antt =====
-- HashTableDaemon/HashTableDaemon.cpp: the threads that collect the items of a queue,
-- `consumer_redirection_thread`, `find_consumer_redirection_thread`, `write_output_thread` and
-- `find_write_output_thread`: what one round does with the item that it takes.
pub mod Redirect
pub mod Batch
pub mod FindBatch
use gorn.Common.{
  ℕ, ◌+◌, Bool, true, false, not, Option, none, some, List, [], ◌∷◌, ◌++◌, ltb, ◌==◌, if◌then◌else◌,
  length,
}
use gorn.Text.{Bytes, codes}
use gorn.Text.Stream.Decimal.{print}
use gorn.Files.{Disk, sort_data, write_file}
use gorn.Mutex.{Mutex, lock, unlock}
use gorn.Search.{search_new, space}

abbrev pub threshold : ℕ
threshold = 1000

-- A round of a thread that collects items: the vector that is sent on when `Q` has more items than
-- `limit`, and `Q` behind it. The redirection threads have the limit 1000.
unfoldable pub redirect : ℕ → List Bytes → Bytes → Option (List Bytes) × List Bytes
redirect limit q item =
    let q' = q ++ item ∷ [] in if ltb limit (length q') then (some q', []) else (none, q')

push_sent : Option (List Bytes) → List (List Bytes) → List (List Bytes)
push_sent none sent = sent
push_sent (some q) sent = q ∷ sent

-- The rounds over the items that its queue gives: the vectors that are sent on, and `Q` at the end.
unfoldable pub redirect_all : ℕ → List Bytes → List Bytes → List (List Bytes) × List Bytes
unfolding redirect push_sent
redirect_all limit q [] = ([], q)
redirect_all limit q (item ∷ items) =
    let (sent, q') = redirect limit q item in
    let rest = redirect_all limit q' items in (push_sent sent rest.0, rest.1)

-- Crawler/DistributedCrawler.cpp: `save_map` and `save_list` collect the nodes of their queues.
abbrev pub addresses : List (Bytes × Bytes) → List Bytes
addresses [] = []
addresses ((host, dir) ∷ nodes) = (host ++ dir) ∷ addresses nodes

unfoldable pub save_map : List (Bytes × Bytes) → List (List Bytes) × List Bytes
save_map nodes = redirect_all 100 [] (addresses nodes)

unfoldable pub save_list : List (Bytes × Bytes) → List (List Bytes) × List Bytes
save_list nodes = redirect_all 1000 [] (addresses nodes)

-- The variables of a writing thread.
pub record Writer : Type 0 where
  pub q : List Bytes
  pub batch_num : ℕ

unfoldable pub batch_name : ℕ → ℕ → Bytes
batch_name port batch_num =
    codes "batch_output/batch_" ++ (print port ++ (codes "_" ++ (print batch_num ++ codes ".bat")))

unfoldable pub queue_name : ℕ → ℕ → Bytes
queue_name port batch_num =
    codes "queue_data_non_unique/queue_"
    ++ (print port ++ (codes "_" ++ (print batch_num ++ codes ".que")))

abbrev pub map_name : Bytes
map_name = codes "sorted_output/comprehensive.out"

-- A round of `write_output_thread` on the node with the port `port`.
unfoldable pub write_round : ℕ → Disk → Writer → Bytes → Writer × Disk
unfolding batch_name
write_round port d w item =
    let q' = w.q ++ item ∷ [] in
    if ltb threshold (length q')
    then (
      record { q = []; batch_num = w.batch_num + 1 },
      write_file d (batch_name port w.batch_num) (sort_data q') space,
    )
    else (record w { q = q' }, d)

-- The part of `find_write_output_thread` behind `Lock`, with one round of `Unlock`.
pub write_found : Mutex → Writer → Option Disk → Option (Writer × ℕ × Disk)
write_found m w none = none
write_found m w (some d) =
    let (code, d') = unlock m d in some (record { q = []; batch_num = w.batch_num + 1 }, code, d')

-- A round of `find_write_output_thread`: the variables, what the mutex's last call returned, and the
-- disk. A held mutex leaves `Q` to the next item.
unfoldable pub find_write_round : Mutex → ℕ → Disk → Writer → Bytes → Option (Writer × ℕ × Disk)
unfolding queue_name write_found
find_write_round m port d w item =
    let q' = w.q ++ item ∷ [] in
    let (code, d') = lock m d in
    if not (ltb threshold (length q'))
    then some (record w { q = q' }, 0, d)
    else if code == 1
    then some (record w { q = q' }, 1, d')
    else write_found m w (search_new d' map_name (sort_data q') (queue_name port w.batch_num))
