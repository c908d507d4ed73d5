-- ===== src/System/Memory.antt =====
-- utils/system/memory.h: `get_memory_info` over the text of /proc/meminfo.
pub mod Read
use gorn.Common.{
  ℕ, zero, suc, ◌+◌, ◌-◌, ◌*◌, ◌%◌, ◌^◌, Option, none, some, List, [], ◌∷◌, ◌==◌, if◌then◌else◌,
}
use gorn.Text.{Bytes, codes}
use gorn.Text.Stream.{open_text, get_string, get_number}
use gorn.Files.{Disk, lookup}
use gorn.QueueFile.{entries_of_file}

-- What `sysinfo` returns, and the members that the constructor computes, as the bits of a `long long`.
pub record SysInfo : Type 0 where
  pub totalram : ℕ
  pub totalswap : ℕ
  pub freeram : ℕ
  pub freeswap : ℕ
  pub mem_unit : ℕ

pub record Members : Type 0 where
  pub total_virtual_mem : ℕ
  pub virtual_mem_used : ℕ
  pub total_phys_mem : ℕ
  pub phys_mem_used : ℕ

-- The constructor.
unfoldable pub memory_info : SysInfo → Members
memory_info s = record {
  total_virtual_mem = (s.totalram + s.totalswap) * s.mem_unit % 2 ^ 64;
  virtual_mem_used =
      (s.totalram + 2 ^ 64 - s.freeram + (s.totalswap + 2 ^ 64 - s.freeswap)) * s.mem_unit % 2 ^ 64;
  total_phys_mem = s.totalram * s.mem_unit % 2 ^ 64;
  phys_mem_used = (s.totalram + 2 ^ 64 - s.freeram) * s.mem_unit % 2 ^ 64;
}

-- The four numbers that the caller hands in by reference, in kB.
pub record MemoryInfo : Type 0 where
  pub mem_total : ℕ
  pub mem_used : ℕ
  pub mem_cache : ℕ
  pub mem_buffers : ℕ

-- The number behind the label of a line; `unset` is what `mem` holds before.
unfoldable pub read_mem : ℕ → Bytes → ℕ
read_mem unset line = let (label, ss) = get_string [] (open_text line) in (get_number unset ss).0

-- The four tests on the number of the line.
unfoldable pub read_line : ℕ → ℕ → Bytes → MemoryInfo → MemoryInfo
read_line unset line_no line s =
    let mem = read_mem unset line in
    if line_no == 0
    then record s { mem_total = mem }
    else if line_no == 1
    then record s { mem_cache = (s.mem_total + 2 ^ 64 - mem) % 2 ^ 64 }
    else if line_no == 3
    then record s { mem_buffers = mem }
    else if line_no == 4
    then record s { mem_used = (mem + 2 ^ 64 - s.mem_buffers) % 2 ^ 64 }
    else s

unfoldable pub read_lines : ℕ → ℕ → List Bytes → MemoryInfo → MemoryInfo
read_lines unset line_no [] s = s
read_lines unset line_no (line ∷ lines) s =
    read_lines unset (line_no + 1) lines (read_line unset line_no line s)

abbrev pub meminfo : Bytes
meminfo = codes "/proc/meminfo"

-- `get_memory_info`: a file that is not there changes nothing; `none` when the fuel runs out.
unfoldable pub get_memory_info : ℕ → Disk → MemoryInfo → Option MemoryInfo
unfolding lookup
get_memory_info unset d s = elim (lookup meminfo d.files) [
  | none ↦ some s
  | some text ↦ elim (entries_of_file (λ line. line) text) [
    | none ↦ none
    | some lines ↦ some (read_lines unset 0 lines s)
  ]
]
