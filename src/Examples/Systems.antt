-- ===== src/Examples/Systems.antt =====
-- The texts of /proc/meminfo and /proc/stat.
use gorn.Common.{All, ◌+◌, ◌-◌, ◌%◌, ◌^◌, ◌≤◌, ◌≡◌, ◌≢◌, refl, true, some, List, [], ◌∷◌, arith}
use gorn.Text.{codes}
use gorn.Text.Order.{eq_text}
use gorn.Text.Stream.{max_u64}
use gorn.Files.{Disk, lookup}
use gorn.QueueFile.Loops.{lines_text, identity}
use gorn.Status.Files.Lines.{is_solid, is_solid-All}
use gorn.System.Memory.{MemoryInfo, meminfo, get_memory_info}
use gorn.System.Memory.Read.{Field, field_line, IsField, get_memory_info-fields}
use gorn.System.Cpu.{Counters, Cpus, skipped, share, percent_of, get_current_value, cpu_names}
use gorn.System.Cpu.Stat.{Row, IsRow, stat_text, counters_of}
use gorn.System.Cpu.Load.{Loads, get_current_value-Loads}

abbrev pub total : Field
total = record { label = codes "MemTotal:"; blanks = 6; value = 8000 }

abbrev pub free : Field
free = record { label = codes "MemFree:"; blanks = 7; value = 1000 }

abbrev pub available : Field
available = record { label = codes "MemAvailable:"; blanks = 2; value = 4000 }

abbrev pub buffers : Field
buffers = record { label = codes "Buffers:"; blanks = 7; value = 500 }

abbrev pub cached : Field
cached = record { label = codes "Cached:"; blanks = 8; value = 300 }

abbrev pub fields : List Field
fields = total ∷ free ∷ available ∷ buffers ∷ cached ∷ []

field-IsField : (f : Field) → f.label ≢ [] → is_solid f.label ≡ true → f.value ≤ max_u64 → IsField f
field-IsField f n s h = record {
  word = record { nonempty = n; solid = is_solid-All f.label s };
  fits = h;
}

pub fields-IsField : All IsField fields
fields-IsField = (
  field-IsField total (λ e. cc) refl (omega arith),
  (
    field-IsField free (λ e. cc) refl (omega arith),
    (
      field-IsField available (λ e. cc) refl (omega arith),
      (
        field-IsField buffers (λ e. cc) refl (omega arith),
        (field-IsField cached (λ e. cc) refl (omega arith), tt),
      ),
    ),
  ),
)

abbrev proc : Disk
proc = record {
  files =
      (
        meminfo,
        lines_text identity (
            field_line total
            ∷ field_line free
            ∷ field_line available
            ∷ field_line buffers
            ∷ field_line cached
            ∷ []),
      )
      ∷ [];
  can_open = λ p. true;
}

meminfo_there :
    lookup meminfo proc.files
    ≡ some (
        lines_text identity (
          field_line total
          ∷ field_line free
          ∷ field_line available
          ∷ field_line buffers
          ∷ field_line cached
          ∷ []))
unfolding lookup eq_text
meminfo_there = refl

abbrev pub no_info : MemoryInfo
no_info = record { mem_total = 0; mem_used = 0; mem_cache = 0; mem_buffers = 0 }

-- With fewer kB cached than in buffers what is used wraps around.
get_memory_info-fields_example :
    get_memory_info 7 proc no_info
    ≡ some (record {
      mem_total = 8000;
      mem_used = (300 + 2 ^ 64 - 500) % 2 ^ 64;
      mem_cache = (8000 + 2 ^ 64 - 1000) % 2 ^ 64;
      mem_buffers = 500;
    })
get_memory_info-fields_example =
    get_memory_info-fields 7 proc no_info total free available buffers cached [] meminfo_there
      fields-IsField tt

abbrev row : Row
row = record {
  blanks = 1;
  counters = record { user = 50; user_low = 2; sys = 20; idle = 128 };
  others = 1 ∷ 2 ∷ 3 ∷ 4 ∷ 5 ∷ 6 ∷ [];
}

row-IsRow : IsRow row
row-IsRow = record { ten = refl; fits = omega arith; bounded = omega arith }

abbrev before : Counters
before = record { user = 10; user_low = 2; sys = 10; idle = 28 }

abbrev after : Counters
after = record { user = 60; user_low = 2; sys = 10; idle = 28 }

half_loaded : percent_of before row.counters ≡ share 50 150
unfolding percent_of
half_loaded = refl

fallen : percent_of after row.counters ≡ skipped
unfolding percent_of
fallen = refl

abbrev pub rows : List Row
rows = row ∷ row ∷ row ∷ row ∷ row ∷ []

pub rows-IsRow : All IsRow rows
rows-IsRow = (row-IsRow, (row-IsRow, (row-IsRow, (row-IsRow, (row-IsRow, tt)))))

abbrev pub cpus : Cpus
cpus = record {
  last = before ∷ before ∷ before ∷ before ∷ after ∷ [];
  now = before ∷ before ∷ before ∷ before ∷ before ∷ [];
}

get_current_value-Loads_example :
    Loads cpus.last rows (get_current_value (stat_text cpu_names rows []) cpus).0
    × ((get_current_value (stat_text cpu_names rows []) cpus).1
        ≡ record { last = counters_of rows; now = counters_of rows })
get_current_value-Loads_example = get_current_value-Loads rows [] cpus rows-IsRow refl refl refl
