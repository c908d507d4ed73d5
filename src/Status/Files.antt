-- ===== src/Status/Files.antt =====
-- HashTableDaemon/HashTableDaemon.cpp and Crawler/DistributedCrawler.cpp: the files in which a node and
-- a crawler leave the sizes of their queues, and `construct_status_message`, which reads them.
pub mod Lines
pub mod Recovered
pub mod Construct
pub mod Reported
use gorn.Common.{
  ℕ, zero, suc, ◌+◌, Bool, Option, none, some, List, [], ◌∷◌, ◌++◌, length, if◌then◌else◌,
}
use gorn.Text.{Bytes, codes}
use gorn.Text.Stream.{Stream, open_text, get_string}
use gorn.Text.Stream.Lines.{get_line}
use gorn.Text.Stream.Decimal.{print}
use gorn.Config.{Peer}
use gorn.Files.{Disk, lookup, store_at}
use gorn.Status.{Floats, HashTableInfo, CrawlerInfo}

-- `output_file << label << ": " << size << std::endl`
abbrev pub size_line : Bytes → ℕ → Bytes
size_line label size = label ++ 58 ∷ 32 ∷ (print size ++ 10 ∷ [])

-- The loop over the queues of the connections, from number `k`.
unfoldable pub size_lines : Bytes → ℕ → List ℕ → Bytes
size_lines label k [] = []
size_lines label k (size ∷ sizes) =
    size_line (label ++ print k) size ++ size_lines label (k + 1) sizes

-- The sizes of a node's queues, one sorting and one find sorting queue for each connection.
pub record NodeSizes : Type 0 where
  pub queue : ℕ
  pub sorting : List ℕ
  pub find_sorting : List ℕ
  pub output : ℕ
  pub find_output : ℕ

unfoldable pub hash_table_text : NodeSizes → Bytes
unfolding size_lines
hash_table_text n =
    size_line (codes "queue_size") n.queue
    ++ (size_lines (codes "sorting_queue_size") 0 n.sorting
        ++ (size_lines (codes "find_sorting_queue_size") 0 n.find_sorting
            ++ (size_line (codes "output_queue_size") n.output
                ++ size_line (codes "find_output_queue_size") n.find_output)))

unfoldable pub crawler_text : CrawlerInfo → Bytes
crawler_text c =
    size_line (codes "Q_size") c.q_size
    ++ (size_line (codes "Z_size") c.z_size
        ++ (size_line (codes "map_queue_size") c.map_queue_size
            ++ size_line (codes "M_size") c.m_size))

unfoldable pub hash_table_name : Peer → Bytes
hash_table_name host =
    codes "system_status/hash_table/hash_table_info____"
    ++ (host.host_name ++ (codes "_" ++ print host.port_no))

unfoldable pub crawler_name : Peer → Bytes
crawler_name host =
    codes "system_status/crawler/crawler_info____"
    ++ (host.host_name ++ (codes "_" ++ print host.port_no))

-- A round of `set_status_thread`: the file is replaced, or nothing happens if it cannot be opened.
abbrev write_text : Disk → Bytes → Bytes → Disk
write_text d p s = if d.can_open p then record d { files = store_at p s d.files } else d

unfoldable pub set_hash_table_status : Disk → Peer → NodeSizes → Disk
unfolding hash_table_text
set_hash_table_status d host sizes = write_text d (hash_table_name host) (hash_table_text sizes)

unfoldable pub set_crawler_status : Disk → Peer → CrawlerInfo → Disk
unfolding crawler_text
set_crawler_status d host sizes = write_text d (crawler_name host) (crawler_text sizes)

-- The loops over the files of a directory: a file that cannot be opened is left out.
unfoldable pub read_status_files {ℓ} : {A : Type ℓ} → (Bytes → A) → Disk → List Bytes → List A
unfolding lookup
read_status_files read d [] = []
read_status_files read d (p ∷ ps) =
    let rest = read_status_files read d ps in
    elim (lookup p d.files) [ none ↦ rest | some s ↦ read s ∷ rest ]

module _ {Float Double : Type 0} (o : Floats Float Double) (unset : Float) where
  -- The `queue_size` of a line: a label, and a number that a failed extraction leaves at `unset`.
  unfoldable pub size_of_line : Bytes → ℕ
  size_of_line line =
      let (label, ss) = get_string [] (open_text line) in o.size_of_float (o.get_float unset ss).0

  -- `getline ( file , line )` and what is read from the line.
  unfoldable pub read_size_line : Bytes × Stream → ℕ × Bytes × Stream
  unfolding size_of_line
  read_size_line (line, file) =
      let (line', file') = get_line line file in (size_of_line line', line', file')

  unfoldable pub read_size_lines : ℕ → Bytes × Stream → List ℕ × Bytes × Stream
  read_size_lines zero r = ([], r.0, r.1)
  read_size_lines (suc n) r =
      let (size, line, file) = read_size_line r in
      let (sizes, line', file') = read_size_lines n (line, file) in (size ∷ sizes, line', file')

  unfoldable pub read_crawler : Bytes → CrawlerInfo
  read_crawler s =
      let (q_size, l₁, f₁) = read_size_line ([], open_text s) in
      let (z_size, l₂, f₂) = read_size_line (l₁, f₁) in
      let (map_queue_size, l₃, f₃) = read_size_line (l₂, f₂) in
      let (m_size, l₄, f₄) = read_size_line (l₃, f₃) in
      record { q_size = q_size; z_size = z_size; map_queue_size = map_queue_size; m_size = m_size }

  -- Always four sorting and four find sorting queues.
  unfoldable pub read_hash_table : Bytes → HashTableInfo
  read_hash_table s =
      let (queue_size, l₁, f₁) = read_size_line ([], open_text s) in
      let (sorting, l₂, f₂) = read_size_lines 4 (l₁, f₁) in
      let (find_sorting, l₃, f₃) = read_size_lines 4 (l₂, f₂) in
      let (output, l₄, f₄) = read_size_line (l₃, f₃) in
      let (find_output, l₅, f₅) = read_size_line (l₄, f₄) in
      record {
        queue_size = queue_size;
        sorting_queue_size = sorting;
        find_sorting_queue_size = find_sorting;
        output_queue_size = output ∷ [];
        find_output_queue_size = find_output ∷ [];
      }
