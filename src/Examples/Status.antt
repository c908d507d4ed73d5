-- ===== src/Examples/Status.antt =====
-- utils/serializers/system_status_serialize.h with whole numbers for the floating point types.
use gorn.Common.{ℕ, ◌≤◌, ◌≡◌, refl, true, false, [], ◌∷◌, arith}
use gorn.Text.Stream.{get_number, max_u64}
use gorn.Text.Stream.Decimal.{print}
use gorn.Message.RoundTrip.{read_number}
use gorn.Status.{Floats, CrawlerInfo, InfoPackage}
use gorn.Config.{Peer, localhost}
use gorn.Files.{Disk}
use gorn.Text.Stream.{get_string}
use gorn.Text.Stream.Lines.{get_line}
use gorn.Status.Files.{NodeSizes, hash_table_text, read_hash_table, read_size_line, read_size_lines}
use gorn.Status.Files.Recovered.{NodeReads, CrawlerReads}
use gorn.Status.Message.{serialize_status, deserialize_status}
use gorn.Status.RoundTrip.{Exact}
use gorn.Status.RoundTrip.Members.{ExactPackage}
use gorn.Status.RoundTrip.Whole.{deserialize_status-serialize_status}

abbrev pub whole_numbers : Floats ℕ ℕ
whole_numbers = record {
  print_float = print;
  print_double = print;
  get_float = get_number;
  get_double = get_number;
  float_of_size = λ n. n;
  float_of_double = λ n. n;
  size_of_double = λ n. n;
  size_of_float = λ n. n;
}

abbrev pub ExactNumber : ℕ → Type 0
ExactNumber = Exact whole_numbers 0 {A = ℕ} (λ n. n) (λ n. n)

pub number-Exact : (n : ℕ) → n ≤ max_u64 → ExactNumber n
number-Exact n h = record {
  number = n;
  reads = record { got = λ rest. read_number 0 n rest h; same_print = refl };
  back = refl;
}

abbrev busy : InfoPackage ℕ
busy = record {
  m_system_info = record { p_cpu_percent = 12 ∷ 7 ∷ []; p_memory_percent = 43 };
  m_hash_table_info =
      record {
        queue_size = 9;
        sorting_queue_size = 1 ∷ 2 ∷ [];
        find_sorting_queue_size = [];
        output_queue_size = 5 ∷ [];
        find_output_queue_size = 0 ∷ [];
      }
      ∷ [];
  m_crawler_info = record { q_size = 4; z_size = 8; map_queue_size = 3; m_size = 100 } ∷ [];
}

abbrev pub idle : InfoPackage ℕ
idle = record {
  m_system_info = record { p_cpu_percent = []; p_memory_percent = 0 };
  m_hash_table_info = [];
  m_crawler_info = [];
}

busy-ExactPackage : ExactPackage whole_numbers 0 0 busy
busy-ExactPackage =
    let e = λ (n : ℕ) (h : n ≤ max_u64). number-Exact n h in
    record {
      system = record {
        count = e 2 (omega arith);
        cpu = (e 12 (omega arith), (e 7 (omega arith), tt));
        memory = λ rest. read_number 0 43 rest (omega arith);
      };
      table_count = e 1 (omega arith);
      tables = (
        record {
          queue = e 9 (omega arith);
          sorting = (e 2 (omega arith), (e 1 (omega arith), (e 2 (omega arith), tt)));
          find_sorting = (e 0 (omega arith), tt);
          output = (e 1 (omega arith), (e 5 (omega arith), tt));
          find_output = (e 1 (omega arith), (e 0 (omega arith), tt));
        },
        tt,
      );
      crawler_count = e 1 (omega arith);
      crawlers = (
        record {
          q = e 4 (omega arith);
          z = e 8 (omega arith);
          map_queue = e 3 (omega arith);
          m = e 100 (omega arith);
        },
        tt,
      );
    }

deserialize_status-serialize_status_example :
    deserialize_status whole_numbers 0 0 idle (serialize_status whole_numbers busy)
    ≡ (0, busy, false)
deserialize_status-serialize_status_example =
    deserialize_status-serialize_status whole_numbers 0 0 idle busy busy-ExactPackage

abbrev pub node_sizes : NodeSizes
node_sizes = record {
  queue = 9;
  sorting = 1 ∷ 2 ∷ 3 ∷ 4 ∷ [];
  find_sorting = 0 ∷ 0 ∷ 12 ∷ 0 ∷ [];
  output = 7;
  find_output = 0;
}

abbrev pub node_host : Peer
node_host = record { host_name = localhost; port_no = 3001 }

abbrev empty_disk : Disk
empty_disk = record { files = []; can_open = λ p. true }

abbrev pub crawler_sizes : CrawlerInfo
crawler_sizes = record { q_size = 4; z_size = 8; map_queue_size = 3; m_size = 100 }

pub node_sizes-NodeReads : NodeReads whole_numbers 0 node_sizes
unfolding get_number print
node_sizes-NodeReads = record {
  queue = refl;
  sorting = (refl, (refl, (refl, (refl, tt))));
  find_sorting = (refl, (refl, (refl, (refl, tt))));
  output = refl;
  find_output = refl;
}

pub crawler_sizes-CrawlerReads : CrawlerReads whole_numbers 0 crawler_sizes
unfolding get_number print
crawler_sizes-CrawlerReads = record { q = refl; z = refl; map_queue = refl; m = refl }

-- With two connections the reader takes the sizes of the wrong queues.
two_connections :
    read_hash_table whole_numbers 0 (
      hash_table_text (record {
        queue = 9;
        sorting = 1 ∷ 2 ∷ [];
        find_sorting = 3 ∷ 4 ∷ [];
        output = 5;
        find_output = 6;
      }))
    ≡ record {
      queue_size = 9;
      sorting_queue_size = 1 ∷ 2 ∷ 3 ∷ 4 ∷ [];
      find_sorting_queue_size = 5 ∷ 6 ∷ 0 ∷ 0 ∷ [];
      output_queue_size = 0 ∷ [];
      find_output_queue_size = 0 ∷ [];
    }
unfolding read_hash_table hash_table_text read_size_lines read_size_line get_line get_string
    get_number print
two_connections = refl
