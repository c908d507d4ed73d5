-- ===== src/Fresh/Round.antt =====
-- DistributedQueue/DistributedQueue.cpp: reading and writing the data, and one round of `main`. What
-- a directory of a disk lists and what `rand` gives are arguments.
pub mod Written
use gorn.Common.{
  ℕ, suc, ◌+◌, Bool, true, false, Option, none, some, List, [], ◌∷◌, ◌++◌, ◌==◌, if◌then◌else◌,
}
use gorn.Text.{Bytes, codes}
use gorn.Text.Stream.{is_nil}
use gorn.Text.Stream.Decimal.{print}
use gorn.Files.{Disk, read_file, write_file, remove_file, get_files}
use gorn.Mutex.{Mutex, lock, unlock}
use gorn.Fresh.{remove_non_unique}
use gorn.Fresh.Enforce.{Enforced, ended, undefined, and_then, enforce_uniqueness}

abbrev pub non_unique_file_directory : Bytes
non_unique_file_directory = codes "queue_data_non_unique/"

abbrev pub unique_file_directory : Bytes
unique_file_directory = codes "sorted_output/"

abbrev pub output_directory : Bytes
output_directory = codes "queue_data/"

-- The loops over the files: each is read into a vector of its own, and the first loop removes it.
pub take_files : Disk → List Bytes → List (List Bytes) × Disk
take_files d [] = ([], d)
take_files d (p ∷ files) =
    let (vecs, d') = take_files (remove_file d p) files in (read_file d p [] ∷ vecs, d')

pub read_files : Disk → List Bytes → List (List Bytes)
read_files d [] = []
read_files d (p ∷ files) = read_file d p [] ∷ read_files d files

unfoldable pub obtain_non_unique_data :
    Disk → List (Bytes × Bool) → List (List Bytes) → List (List Bytes) × Disk
unfolding take_files
obtain_non_unique_data d entries non_unique_data =
    let (vecs, d') = take_files d (get_files entries []) in (non_unique_data ++ vecs, d')

unfoldable pub obtain_unique_data :
    Disk → List (Bytes × Bool) → List (List Bytes) → Enforced (List (List Bytes))
unfolding read_files
obtain_unique_data d entries unique_data =
    enforce_uniqueness (unique_data ++ read_files d (get_files entries []))

pub output_name : ℕ → Bytes
output_name number = output_directory ++ (codes "/unique_data_" ++ (print number ++ codes ".que"))

abbrev pub newline : ℕ
newline = 10

-- The loop that writes the vectors; `k` numbers the calls of `rand`.
pub write_all : (ℕ → ℕ) → ℕ → Disk → List (List Bytes) → Disk
unfolding output_name
write_all rand k d [] = d
write_all rand k d (vec ∷ output_data) =
    write_all rand (suc k) (write_file d (output_name (rand k)) vec newline) output_data

abbrev pub file_size : ℕ
file_size = 1000

-- `filter_out_non_unique_values`, which reads the last vector of `output_data`.
unfoldable pub filter_out_non_unique_values :
    (ℕ → ℕ) → Disk → List (List Bytes) → List (List Bytes) → Enforced Disk
unfolding write_all
filter_out_non_unique_values rand d unique_data non_unique_data =
    let output_data = remove_non_unique unique_data non_unique_data [] file_size in
    if is_nil output_data then undefined else ended (write_all rand 0 d output_data)

-- What `main` does with the mutex held.
unfoldable pub refresh : (ℕ → ℕ) → (Disk → Bytes → List (Bytes × Bool)) → Disk → Enforced Disk
unfolding and_then
refresh rand entries d =
    let (non_unique_data, d') = obtain_non_unique_data d (entries d non_unique_file_directory) [] in
    and_then (obtain_unique_data d' (entries d' unique_file_directory) []) (λ known.
      and_then (obtain_unique_data d' (entries d' non_unique_file_directory) known)
        (λ unique_data. filter_out_non_unique_values rand d' unique_data non_unique_data))

-- One round of `main`, with one round of `Unlock`.
unfoldable pub queue_round :
    (ℕ → ℕ) → (Disk → Bytes → List (Bytes × Bool)) → Mutex → Disk → Enforced (ℕ × Disk)
unfolding and_then
queue_round rand entries m d =
    let (code, d') = lock m d in
    if code == 1
    then ended (1, d')
    else and_then (refresh rand entries d') (λ d''. ended (unlock m d''))
