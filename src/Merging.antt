-- ===== src/Merging.antt =====
-- utils/data/data.h: `sort_write_file`, `sort_directory` and `sort_files`.
pub mod Ends
pub mod Directory
pub mod Picked
pub mod Merged
pub mod Lines
pub mod Written
use gorn.Common.{
  ℕ, zero, suc, ◌+◌, Bool, true, false, Option, none, some, List, [], ◌∷◌, ◌++◌, map, if◌then◌else◌,
  length, not,
}
use gorn.Text.{Bytes}
use gorn.Text.Order.{lt_text, text_order}
use gorn.Text.Stream.{Stream, open_text, get_string, is_nil}
use gorn.Sorting.{merge}
use gorn.Files.{Disk, lookup, read_file, sort_data, write_file, remove_file, get_files}
use gorn.Search.{pick, advance, write_bytes, write_lines, space}

-- The variables of the loop.
pub record Merging : Type 0 where
  pub input : Stream
  pub file_line : Bytes
  pub line : Bytes
  pub it_vec : List (List Bytes)

-- The branches that take an entry of a vector, or end the loop: `none`.
pub merge_vector : Merging → Bytes → Option ℕ → Option Merging
merge_vector s line none = none
merge_vector s line (some k) = some (record s { line = line; it_vec = advance k s.it_vec })

-- The branch that takes a line of the file.
pub merge_file : Merging → Merging
merge_file s =
    let (file_line, input) = get_string s.file_line s.input in
    record s { input = input; file_line = file_line; line = s.file_line }

-- A round: `none` ends the loop, and otherwise `line` is put out.
pub merge_round : Merging → Option Merging
unfolding merge_vector merge_file
merge_round s =
    let (line, max_k) = pick 0 s.it_vec s.line none in
    if s.input.eof
    then merge_vector s line max_k
    else if lt_text s.file_line line
    then some (merge_file s)
    else merge_vector s line max_k

push_line : Bytes → Option (List Bytes) → Option (List Bytes)
push_line line none = none
push_line line (some lines) = some (line ∷ lines)

-- The loop with fuel.
pub merge_loop : ℕ → Merging → Option (List Bytes)
unfolding merge_round push_line
merge_loop zero s = none
merge_loop (suc fuel) s = elim (merge_round s) [
  | none ↦ some []
  | some s' ↦ push_line s'.line (merge_loop fuel s')
]

pub merge_start : Bytes → List (List Bytes) → Merging
merge_start text sorted_data =
    let (file_line, input) = get_string [] (open_text text) in
    record { input = input; file_line = file_line; line = []; it_vec = sorted_data }

-- The entries of all the vectors.
pub total : List (List Bytes) → ℕ
total [] = 0
total (xs ∷ vecs) = length xs + total vecs

-- A round takes an entry of a vector, or a byte of the file, or sees its end.
unfoldable pub merge_lines : Bytes → List (List Bytes) → Option (List Bytes)
unfolding merge_loop merge_start total
merge_lines text sorted_data =
    merge_loop (suc (suc (length text + total sorted_data))) (merge_start text sorted_data)

-- What is done with the text of the initial file, if it is there.
pub merge_text : Disk → Option Bytes → List (List Bytes) → Bytes → Option Disk
unfolding merge_lines
merge_text d none sorted_data comprehensive_name = some d
merge_text d (some text) sorted_data comprehensive_name =
    let lines = merge_lines text sorted_data in
    if d.can_open comprehensive_name then write_lines d comprehensive_name lines else some d

-- `sort_write_file`; both files are opened before anything is read.
unfoldable pub sort_write_file : Disk → Bytes → List (List Bytes) → Bytes → Option Disk
unfolding merge_text
sort_write_file d initial_name sorted_data comprehensive_name =
    let d' = write_bytes d comprehensive_name [] in
    merge_text d' (lookup initial_name d'.files) sorted_data comprehensive_name

-- The loop of `sort_files`: each file's words, sorted, and the disk; `remove` removes the files.
pub sort_each : Bool → Disk → List Bytes → List (List Bytes) × Disk
sort_each remove d [] = ([], d)
sort_each remove d (p ∷ files) =
    let (vecs, d') = sort_each remove (if remove then remove_file d p else d) files in
    (sort_data (read_file d p []) ∷ vecs, d')

-- `sort_files`, on the entries of the directory: whether it found files, and the disk.
unfoldable pub sort_files : Disk → List (Bytes × Bool) → Bytes → Bytes → Bool → Bool × Option Disk
unfolding sort_each
sort_files d entries initial_file comprehensive_file remove =
    let files = get_files entries [] in
    let (sorted_data, d') = sort_each remove d files in
    if not (is_nil files)
    then (true, sort_write_file d' initial_file sorted_data comprehensive_file)
    else (false, some d)

-- The loop of `sort_directory`: each further file is sorted and merged with `+`.
pub merge_each : Disk → List Bytes → List Bytes → List Bytes
merge_each d sorted_data [] = sorted_data
merge_each d sorted_data (p ∷ files) =
    merge_each d (merge sorted_data (sort_data (read_file d p []))) files

sort_listed : Disk → List Bytes → Bytes → Disk
unfolding merge_each
sort_listed d [] output_file = d
sort_listed d (p ∷ files) output_file =
    write_file d output_file (merge_each d (sort_data (read_file d p [])) files) space

-- `sort_directory`, on the entries of the directory.
unfoldable pub sort_directory : Disk → List (Bytes × Bool) → Bytes → Disk
unfolding sort_listed
sort_directory d entries output_file = sort_listed d (get_files entries []) output_file
