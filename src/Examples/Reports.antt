-- ===== src/Examples/Reports.antt =====
-- A node reads its status and answers the viewer, with whole numbers for the floating point types.
use gorn.Common.{
  ℕ, ◌+◌, ◌-◌, ◌*◌, ◌/◌, ◌%◌, ◌^◌, ◌≤◌, ◌≡◌, refl, true, some, List, [], ◌∷◌, map, take, drop, All,
  arith,
}
use gorn.Text.{Bytes}
use gorn.Text.Order.{eq_text}
use gorn.Text.Stream.{max_u64}
use gorn.Text.Stream.Extract.{IsWord}
use gorn.Message.RoundTrip.{read_number}
use gorn.Config.{Peer, localhost}
use gorn.Files.{Disk, lookup, get_files}
use gorn.QueueFile.Loops.{lines_text, identity}
use gorn.System.Memory.{meminfo, get_memory_info}
use gorn.System.Memory.Read.{field_line}
use gorn.System.Cpu.{
  Percent, skipped, share, get_current_value, cpu_names, percents, percent_of, scan_each, scan_cpu,
  scan_literal, scan_numbers, scan_number,
}
use gorn.System.Cpu.Stat.{stat_text, counters_of}
use gorn.System.Cpu.Load.{Loads}
use gorn.Status.Files.{read_status_files}
use gorn.Status.Files.Lines.{is_solid-All}
use gorn.Status.Files.Recovered.{table_of}
use gorn.Status.Files.Construct.{
  Arithmetic, Sources, stat_file, memory_percent, package_of, with_memory, construct_status_message,
}
use gorn.Status.Files.Reported.{node_of, construct_status_message-recovers}
use gorn.Viewer.{status_report, requests, consume_each}
use gorn.Viewer.Polls.{text_of, Reports, answer_of, AnswersTo, consume_each-replies}
use gorn.Examples.Systems.{
  total, free, available, buffers, cached, fields-IsField, no_info, rows, rows-IsRow, cpus,
}
use gorn.Examples.Status.{
  whole_numbers, idle, number-Exact, node_sizes, node_host, crawler_sizes, node_sizes-NodeReads,
  crawler_sizes-CrawlerReads,
}

abbrev whole_percent : Percent → ℕ
whole_percent skipped = 0
whole_percent (share part whole) = part

abbrev whole_arithmetic : Arithmetic ℕ ℕ
whole_arithmetic = record { percent = whole_percent; times = λ a b. a * b; over = λ a b. a / b }

abbrev proc : Disk
proc = record {
  files =
      (
        meminfo,
        lines_text identity (
            field_line total
            ∷ field_line free
            ∷ field_line available
            ∷ field_line buffers
            ∷ field_line cached
            ∷ []),
      )
      ∷ (stat_file, stat_text cpu_names rows [])
      ∷ [];
  can_open = λ p. true;
}

meminfo_there :
    lookup meminfo proc.files
    ≡ some (
        lines_text identity (
          field_line total
          ∷ field_line free
          ∷ field_line available
          ∷ field_line buffers
          ∷ field_line cached
          ∷ []))
unfolding lookup eq_text
meminfo_there = refl

stat_there : lookup stat_file proc.files ≡ some (stat_text cpu_names rows [])
unfolding lookup eq_text
stat_there = refl

construct_status_message-recovers_example :
    (percent : List Percent) × Loads cpus.last rows percent
    × (construct_status_message whole_numbers 0 whole_arithmetic (
          node_of whole_numbers 0 whole_arithmetic proc node_host node_host node_sizes crawler_sizes
            7 no_info cpus)
        ≡ some (
          record {
            m_system_info = record {
              p_cpu_percent = map whole_percent (take 4 (drop 1 percent));
              p_memory_percent = 100 * ((300 + 2 ^ 64 - 500) % 2 ^ 64) / 8000;
            };
            m_hash_table_info = table_of node_sizes ∷ [];
            m_crawler_info = crawler_sizes ∷ [];
          },
          record { last = counters_of rows; now = counters_of rows },
        ))
construct_status_message-recovers_example =
    construct_status_message-recovers whole_numbers 0 whole_arithmetic proc node_host node_host
      node_sizes crawler_sizes 7 no_info cpus total free available buffers cached [] rows [] refl
      refl refl refl node_sizes-NodeReads crawler_sizes-CrawlerReads meminfo_there fields-IsField tt
      stat_there rows-IsRow refl refl refl

localhost-IsWord : IsWord localhost
localhost-IsWord = record { nonempty = λ e. cc; solid = is_solid-All localhost refl }

-- A node with no status files and, since it has no /proc/meminfo, the memory that it was told.
abbrev quiet_node : Sources
quiet_node = record {
  disk = record { files = (stat_file, []) ∷ []; can_open = λ p. true };
  crawler_files = [];
  hash_table_files = [];
  unset_number = 7;
  memory = record { mem_total = 8000; mem_used = 2000; mem_cache = 0; mem_buffers = 0 };
  cpus = cpus;
}

quiet_node-Reports : Reports whole_numbers whole_arithmetic 5 0 0 idle quiet_node
unfolding construct_status_message with_memory package_of memory_percent get_files lookup eq_text
    get_memory_info get_current_value percents percent_of scan_each scan_cpu scan_literal
    scan_numbers scan_number read_status_files
quiet_node-Reports =
    let e = λ (n : ℕ) (h : n ≤ max_u64). number-Exact n h in
    (
      record {
        m_system_info = record { p_cpu_percent = 0 ∷ 0 ∷ 0 ∷ 0 ∷ []; p_memory_percent = 25 };
        m_hash_table_info = [];
        m_crawler_info = [];
      },
      record { last = cpus.now; now = cpus.now },
      refl,
      record {
        system = record {
          count = e 4 (omega arith);
          cpu = (
            e 0 (omega arith),
            (e 0 (omega arith), (e 0 (omega arith), (e 0 (omega arith), tt))),
          );
          memory = λ rest. read_number 0 25 rest (omega arith);
        };
        table_count = e 0 (omega arith);
        tables = tt;
        crawler_count = e 0 (omega arith);
        crawlers = tt;
      },
    )

abbrev asked : List (Peer × Bytes)
asked = requests node_host (node_host ∷ [])

consume_each-replies_example :
    All (AnswersTo whole_numbers whole_arithmetic 5 0 0 idle (λ c. quiet_node) node_host) asked
    × (consume_each whole_numbers 5 0 idle (
          map
            (λ r.
              some
                (text_of (answer_of whole_numbers whole_arithmetic 5 0 0 idle (λ c. quiet_node) r)))
            asked)
        ≡ map
            (λ r.
              status_report
                (text_of (answer_of whole_numbers whole_arithmetic 5 0 0 idle (λ c. quiet_node) r)))
            asked)
consume_each-replies_example =
    consume_each-replies whole_numbers whole_arithmetic 5 0 0 idle (λ c. quiet_node) node_host
      (node_host ∷ []) localhost-IsWord (quiet_node-Reports, tt)
