-- ===== src/Status/Files/Construct.antt =====
-- HashTableDaemon/HashTableDaemon.cpp: `construct_status_message`.
use gorn.Common.{ℕ, Bool, Option, none, some, List, [], map, take, drop}
use gorn.Text.{Bytes, codes}
use gorn.Files.{Disk, lookup, get_files}
use gorn.System.Memory.{MemoryInfo, get_memory_info}
use gorn.System.Cpu.{Percent, Cpus, get_current_value}
use gorn.Status.{Floats, InfoPackage}
use gorn.Status.Files.{read_status_files, read_crawler, read_hash_table}

-- What the program computes with `double` and `float`: a processor's percentage, `*` and `/`.
pub record Arithmetic (Float Double : Type 0) : Type 0 where
  pub percent : Percent → Double
  pub times : Float → Float → Float
  pub over : Float → Float → Float

-- What a node has when it is asked: its disk and what two directories list, what the variables hold
-- that the readers of /proc fill, and the counters of `getCurrentValue`.
pub record Sources : Type 0 where
  pub disk : Disk
  pub crawler_files : List (Bytes × Bool)
  pub hash_table_files : List (Bytes × Bool)
  pub unset_number : ℕ
  pub memory : MemoryInfo
  pub cpus : Cpus

abbrev pub stat_file : Bytes
stat_file = codes "/proc/stat"

module _ {Float Double : Type 0} (o : Floats Float Double) (unset : Float)
    (m : Arithmetic Float Double) where
  -- `100 * (float)mem_used / (float)mem_total`
  unfoldable pub memory_percent : MemoryInfo → Float
  memory_percent mem =
      m.over (m.times (o.float_of_size 100) (o.float_of_size mem.mem_used))
        (o.float_of_size mem.mem_total)

  -- The package, when the memory and the processors were read; the first percentage is left out.
  unfoldable pub package_of : Sources → MemoryInfo → List Percent → InfoPackage Float
  package_of n mem percent = record {
    m_system_info = record {
      p_cpu_percent = map (λ p. o.float_of_double (m.percent p)) (take 4 (drop 1 percent));
      p_memory_percent = memory_percent mem;
    };
    m_hash_table_info =
        read_status_files (read_hash_table o unset) n.disk (get_files n.hash_table_files []);
    m_crawler_info = read_status_files (read_crawler o unset) n.disk (get_files n.crawler_files []);
  }

  -- The package, if the memory was read, and the counters for the next call.
  unfoldable pub with_memory :
      Sources → Bytes → Option MemoryInfo → Option (InfoPackage Float × Cpus)
  with_memory n stat none = none
  with_memory n stat (some mem) =
      let (percent, cpus) = get_current_value stat n.cpus in some (package_of n mem percent, cpus)

  -- `construct_status_message`; without a /proc/stat the program reads from a null pointer, which is
  -- `none`.
  unfoldable pub construct_status_message : Sources → Option (InfoPackage Float × Cpus)
  construct_status_message n = elim (lookup stat_file n.disk.files) [
    | none ↦ none
    | some stat ↦ with_memory n stat (get_memory_info n.unset_number n.disk n.memory)
  ]
