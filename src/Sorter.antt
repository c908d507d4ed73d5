-- ===== src/Sorter.antt =====
-- DataSorterDaemon/DataSorterDaemon.cpp. What a directory lists is an argument: entries with
-- whether each is a regular file.
pub mod Files
pub mod Publish
pub mod Round
pub mod Correct
use gorn.Common.{ℕ, Bool, true, false, not, List, [], ◌∷◌, if◌then◌else◌, ◌==◌}
use gorn.Text.{Bytes}
use gorn.Text.Order.{text_order}
use gorn.Text.Stream.{is_nil}
use gorn.Sorting.{insert_all}
use gorn.Files.{Disk, read_file, write_file, remove_file, rename_file, get_files}
use gorn.Mutex.{Mutex, lock, unlock}

-- The first loop: each file is read behind what was read, and removed.
pub read_each : Disk → List Bytes → List Bytes → List Bytes × Disk
read_each d [] data_vec = (data_vec, d)
read_each d (p ∷ file_names) data_vec =
    read_each (remove_file d p) file_names (read_file d p data_vec)

abbrev pub space : ℕ
space = 32

-- `sort_files_map`, on the entries of the input directory.
unfoldable pub sort_files_map : Disk → List (Bytes × Bool) → Bytes → Bytes → Bool × Disk
unfolding read_each
sort_files_map d entries initial_file comprehensive_file =
    let file_names = get_files entries [] in
    let (data_vec, d') = read_each d file_names (read_file d initial_file []) in
    if not (is_nil file_names)
    then (true, write_file d' comprehensive_file (insert_all data_vec []) space)
    else (false, d)

-- One round of `main` behind its `sleep`, with one round of `Unlock`: with what `unlock` returned.
unfoldable pub round : Mutex → Disk → List (Bytes × Bool) → Bytes → Bytes → ℕ × Disk
unfolding sort_files_map
round m d entries initial_file comprehensive_file =
    let (code, d₁) = lock m d in
    let (sorted, d₂) = sort_files_map d₁ entries initial_file comprehensive_file in
    let d₃ = rename_file (remove_file d₂ initial_file) comprehensive_file initial_file in
    if code == 1 then (code, d₁) else if sorted then unlock m d₃ else unlock m d₂
