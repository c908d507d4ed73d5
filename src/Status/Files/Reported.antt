-- ===== src/Status/Files/Reported.antt =====
-- HashTableDaemon/HashTableDaemon.cpp: what `construct_status_message` reports of a node.
use gorn.Common.{
  ℕ, ◌+◌, ◌-◌, ◌%◌, ◌^◌, ◌≡◌, refl, ap, ◌∙◌, true, false, Option, none, some, List, [], ◌∷◌, arith,
  map, take, drop, length, All,
}
use mathlib.Core.Path.{ap₂}
use gorn.Text.{Bytes}
use gorn.Text.Order.{eq_text, eq_text_iff}
use gorn.Text.Stream.Lines.{NotFeed}
use gorn.Config.{Peer}
use gorn.Files.{Disk, lookup, get_files}
use gorn.QueueFile.Loops.{lines_text, identity}
use gorn.System.Memory.{MemoryInfo, meminfo, get_memory_info}
use gorn.System.Memory.Read.{Field, field_line, IsField, get_memory_info-fields}
use gorn.System.Cpu.{Percent, Cpus, get_current_value, cpu_names}
use gorn.System.Cpu.Stat.{Row, IsRow, stat_text, counters_of}
use gorn.System.Cpu.Load.{Loads, get_current_value-Loads}
use gorn.Status.{Floats, CrawlerInfo, InfoPackage}
use gorn.Status.Files.{
  NodeSizes, hash_table_text, crawler_text, hash_table_name, crawler_name, read_crawler,
  read_hash_table,
}
use gorn.Status.Files.Recovered.{
  table_of, names_differ, read_status_files-one, both_left, lookup-both_left, NodeReads,
  CrawlerReads, read_crawler-crawler_text, read_hash_table-hash_table_text,
}
use gorn.Status.Files.Construct.{
  Arithmetic, Sources, stat_file, memory_percent, package_of, with_memory, construct_status_message,
}

-- What the two processes leave changes no file of /proc.
lookup-proc :
    (d : Disk) (node crawler : Peer) (n : NodeSizes) (c : CrawlerInfo) (q : Bytes)
    → d.can_open (hash_table_name node) ≡ true
    → d.can_open (crawler_name crawler) ≡ true
    → eq_text q (crawler_name crawler) ≡ false
    → eq_text q (hash_table_name node) ≡ false
    → lookup q (both_left d node crawler n c).files ≡ lookup q d.files
lookup-proc d node crawler n c q can can' e f =
    lookup-both_left d node crawler n c q can can' ∙ rw (e, f) refl

meminfo_apart :
    (node crawler : Peer)
    → (eq_text meminfo (crawler_name crawler) ≡ false)
      × (eq_text meminfo (hash_table_name node) ≡ false)
unfolding eq_text hash_table_name crawler_name
meminfo_apart node crawler = (refl, refl)

stat_apart :
    (node crawler : Peer)
    → (eq_text stat_file (crawler_name crawler) ≡ false)
      × (eq_text stat_file (hash_table_name node) ≡ false)
unfolding eq_text hash_table_name crawler_name
stat_apart node crawler = (refl, refl)

module _ {Float Double : Type 0} (o : Floats Float Double) (unset : Float)
    (m : Arithmetic Float Double) where
  construct_status_message-read :
      (n : Sources) (stat : Bytes) (mem : MemoryInfo) (percent : List Percent) (cpus : Cpus)
      → lookup stat_file n.disk.files ≡ some stat
      → get_memory_info n.unset_number n.disk n.memory ≡ some mem
      → get_current_value stat n.cpus ≡ (percent, cpus)
      → construct_status_message o unset m n ≡ some (package_of o unset m n mem percent, cpus)
  unfolding construct_status_message with_memory
  construct_status_message-read n stat mem percent cpus there read now =
      let found : Option Bytes → Option (InfoPackage Float × Cpus) = λ z. elim z [
        | none ↦ none
        | some stat' ↦
            with_memory o unset m n stat' (get_memory_info n.unset_number n.disk n.memory)
      ] in
      ap found there
      ∙ (ap (with_memory o unset m n stat) read
          ∙ ap (λ (z : List Percent × Cpus). some (package_of o unset m n mem z.0, z.1)) now)

  -- The disk of a node with its queues' sizes and a crawler's, and what the directories list.
  abbrev pub node_of :
      Disk → Peer → Peer → NodeSizes → CrawlerInfo → ℕ → MemoryInfo → Cpus → Sources
  node_of d node crawler sizes c unset_number memory cpus = record {
    disk = both_left d node crawler sizes c;
    crawler_files = (crawler_name crawler, true) ∷ [];
    hash_table_files = (hash_table_name node, true) ∷ [];
    unset_number = unset_number;
    memory = memory;
    cpus = cpus;
  }

  package_of-recovers :
      (d : Disk) (node crawler : Peer) (n : NodeSizes) (c : CrawlerInfo) (unset_number : ℕ)
      (memory : MemoryInfo) (cpus : Cpus) (mem : MemoryInfo) (percent : List Percent)
      → d.can_open (hash_table_name node) ≡ true
      → d.can_open (crawler_name crawler) ≡ true
      → length n.sorting ≡ 4
      → length n.find_sorting ≡ 4
      → NodeReads o unset n
      → CrawlerReads o unset c
      → package_of o unset m (node_of d node crawler n c unset_number memory cpus) mem percent
        ≡ record {
          m_system_info = record {
            p_cpu_percent = map (λ p. o.float_of_double (m.percent p)) (take 4 (drop 1 percent));
            p_memory_percent = memory_percent o unset m mem;
          };
          m_hash_table_info = table_of n ∷ [];
          m_crawler_info = c ∷ [];
        }
  unfolding package_of get_files
  package_of-recovers d node crawler n c unset_number memory cpus mem percent can can' four four' e
        e' =
      let left = both_left d node crawler n c in
      let node_left : lookup (hash_table_name node) left.files ≡ some (hash_table_text n) =
        lookup-both_left d node crawler n c (hash_table_name node) can can'
        ∙ ground (
          arith,
          names_differ node crawler,
          eq_text_iff (hash_table_name node) (hash_table_name node),
        ) in
      let crawler_left : lookup (crawler_name crawler) left.files ≡ some (crawler_text c) =
        lookup-both_left d node crawler n c (crawler_name crawler) can can'
        ∙ ground (arith, eq_text_iff (crawler_name crawler) (crawler_name crawler)) in
      ap₂
        (λ tables crawlers. record {
          m_system_info = record {
            p_cpu_percent = map (λ p. o.float_of_double (m.percent p)) (take 4 (drop 1 percent));
            p_memory_percent = memory_percent o unset m mem;
          };
          m_hash_table_info = tables;
          m_crawler_info = crawlers;
        })
        (read_status_files-one (read_hash_table o unset) left (hash_table_name node)
            (hash_table_text n) node_left
          ∙ ap (λ t. t ∷ []) (read_hash_table-hash_table_text o unset n e four four'))
        (read_status_files-one (read_crawler o unset) left (crawler_name crawler) (crawler_text c)
            crawler_left
          ∙ ap (λ t. t ∷ []) (read_crawler-crawler_text o unset c e'))

  -- Let a node with four connections and a crawler leave their sizes, in files that can be opened,
  -- let these be the regular files of the two directories, and let each size come back through text
  -- and `float`. Let /proc/meminfo have as its first five lines a label, a 64-bit number and `kB`, and
  -- let /proc/stat begin with five lines of ten 64-bit numbers, the first four of each adding up to
  -- less than 2 ^ 64. Then `construct_status_message` gives these sizes; of the last four processors
  -- -1 if a counter fell, and else the quotient of what the first three and all four counters grew
  -- by; as the memory's percentage 100 times the fifth number less the fourth, modulo 2 ^ 64, divided
  -- by the first, in `float`; and keeps the counters for the next call.
  pub construct_status_message-recovers :
      (d : Disk) (node crawler : Peer) (n : NodeSizes) (c : CrawlerInfo) (unset_number : ℕ)
      (memory : MemoryInfo) (cpus : Cpus) (total free available buffers cached : Field)
      (lines : List Bytes) (rows : List Row) (s : Bytes)
      → d.can_open (hash_table_name node) ≡ true
      → d.can_open (crawler_name crawler) ≡ true
      → length n.sorting ≡ 4
      → length n.find_sorting ≡ 4
      → NodeReads o unset n
      → CrawlerReads o unset c
      → lookup meminfo d.files
        ≡ some (
            lines_text identity (
              field_line total
              ∷ field_line free
              ∷ field_line available
              ∷ field_line buffers
              ∷ field_line cached
              ∷ lines))
      → All IsField (total ∷ free ∷ available ∷ buffers ∷ cached ∷ [])
      → All (All NotFeed) lines
      → lookup stat_file d.files ≡ some (stat_text cpu_names rows s)
      → All IsRow rows
      → length rows ≡ 5
      → length cpus.last ≡ 5
      → length cpus.now ≡ 5
      → (percent : List Percent) × Loads cpus.last rows percent
        × (construct_status_message o unset m (node_of d node crawler n c unset_number memory cpus)
            ≡ some (
              record {
                m_system_info = record {
                  p_cpu_percent =
                      map (λ p. o.float_of_double (m.percent p)) (take 4 (drop 1 percent));
                  p_memory_percent =
                      m.over
                        (m.times
                          (o.float_of_size 100)
                          (o.float_of_size ((cached.value + 2 ^ 64 - buffers.value) % 2 ^ 64)))
                        (o.float_of_size total.value);
                };
                m_hash_table_info = table_of n ∷ [];
                m_crawler_info = c ∷ [];
              },
              record { last = counters_of rows; now = counters_of rows },
            ))
  unfolding memory_percent
  construct_status_message-recovers d node crawler n c unset_number memory cpus total free available
        buffers cached lines rows s can can' four four' e e' meminfo_there fields clean stat_there
        good five last now =
      let source = node_of d node crawler n c unset_number memory cpus in
      let stat = stat_text cpu_names rows s in
      let read =
        get_memory_info-fields unset_number source.disk memory total free available buffers cached
          lines
          (lookup-proc d node crawler n c meminfo can can' (meminfo_apart node crawler).0
              (meminfo_apart node crawler).1
            ∙ meminfo_there)
          fields clean in
      let (loads, after) = get_current_value-Loads rows s cpus good five last now in
      let percent = (get_current_value stat cpus).0 in
      let mem : MemoryInfo = record {
        mem_total = total.value;
        mem_used = (cached.value + 2 ^ 64 - buffers.value) % 2 ^ 64;
        mem_cache = (total.value + 2 ^ 64 - free.value) % 2 ^ 64;
        mem_buffers = buffers.value;
      } in
      let kept : Cpus = record { last = counters_of rows; now = counters_of rows } in
      (
        percent,
        loads,
        construct_status_message-read source stat mem percent kept
              (lookup-proc d node crawler n c stat_file can can' (stat_apart node crawler).0
                  (stat_apart node crawler).1
                ∙ stat_there)
              read (ap (λ z. (percent, z)) after)
            ∙ ap (λ z. some (z, kept))
                (package_of-recovers d node crawler n c unset_number memory cpus mem percent can
                  can' four four' e e'),
      )
