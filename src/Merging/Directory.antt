-- ===== src/Merging/Directory.antt =====
-- utils/data/data.h: what `sort_directory` writes.
use mathlib.Core.List.Perm
use gorn.Common.{
  ◌≡◌, sym, ap, subst, ◌∙◌, Bool, true, some, List, [], ◌∷◌, ◌++◌, append_assoc, append-nil, Perm,
  map, if◌then◌else◌, concat, IsSorted,
}
use gorn.Text.{Bytes}
use gorn.Text.Order.{text_order, eq_text}
use gorn.Sorting.{merge}
use gorn.Sorting.Merge.{merge_correct}
use gorn.Sorting.Sort.{std_sort-perm, std_sort-IsSorted}
use gorn.Files.{Disk, lookup, read_file, sort_data, write_file, get_files, delimited}
use gorn.Files.ReadWrite.{lookup-store_at}
use gorn.Files.Words.{words_of}
use gorn.Search.{space}
use gorn.Merging.{merge_each, sort_listed, sort_directory}

-- The words of the files, one file behind the other.
pub all_words : Disk → List Bytes → List Bytes
all_words d files = concat (map (words_of d) files)

-- Ascending, and a rearrangement.
abbrev pub IsSortOf : List Bytes → List Bytes → Type 0
IsSortOf out input = IsSorted out × Perm out input

sort_data-IsSortOf : (d : Disk) (p : Bytes) → IsSortOf (sort_data (read_file d p [])) (words_of d p)
unfolding sort_data words_of
sort_data-IsSortOf d p = (std_sort-IsSorted (read_file d p []), std_sort-perm (read_file d p []))

merge_each-IsSortOf :
    (d : Disk) (acc input files : List Bytes)
    → IsSortOf acc input
    → IsSortOf (merge_each d acc files) (input ++ all_words d files)
unfolding merge_each all_words
merge_each-IsSortOf d acc input [] (a, b) = (a, subst (Perm acc) (sym (append-nil input)) b)
merge_each-IsSortOf d acc input (p ∷ files) (a, b) =
    let (c, e) = sort_data-IsSortOf d p in
    let (f, g) = merge_correct acc (sort_data (read_file d p [])) a c in
    let step : IsSortOf (merge acc (sort_data (read_file d p []))) (input ++ words_of d p) =
      (f, Perm.trans g (Perm.append b e)) in
    let (x, y) =
      merge_each-IsSortOf d (merge acc (sort_data (read_file d p []))) (input ++ words_of d p) files
        step in
    (
      x,
      subst (Perm (merge_each d (merge acc (sort_data (read_file d p []))) files))
          (append_assoc input (words_of d p) (all_words d files)) y,
    )

-- What `sort_listed` writes of a list of files that is not empty.
sort_listed-IsSortOf :
    (d : Disk) (p : Bytes) (files : List Bytes) (output_file : Bytes)
    → d.can_open output_file ≡ true
    → (out : List Bytes) × ((q : Bytes)
        → lookup q (sort_listed d (p ∷ files) output_file).files
          ≡ (if eq_text q output_file then some (delimited space out) else lookup q d.files))
      × IsSortOf out (all_words d (p ∷ files))
unfolding sort_listed write_file all_words
sort_listed-IsSortOf d p files output_file can =
    let out = merge_each d (sort_data (read_file d p [])) files in
    (
      out,
      λ q. rw can (lookup-store_at output_file q (delimited space out) d.files),
      merge_each-IsSortOf d (sort_data (read_file d p [])) (words_of d p) files
          (sort_data-IsSortOf d p),
    )

-- If the directory lists a file and the output can be opened, `sort_directory` writes the words of
-- all the listed files in ascending order, each with a blank behind it, and changes no other file.
pub sort_directory-IsSortOf :
    (d : Disk) (entries : List (Bytes × Bool)) (p : Bytes) (files : List Bytes)
    (output_file : Bytes)
    → get_files entries [] ≡ p ∷ files
    → d.can_open output_file ≡ true
    → (out : List Bytes) × ((q : Bytes)
        → lookup q (sort_directory d entries output_file).files
          ≡ (if eq_text q output_file then some (delimited space out) else lookup q d.files))
      × IsSortOf out (all_words d (p ∷ files))
unfolding sort_directory
sort_directory-IsSortOf d entries p files output_file listed can =
    let (out, written, sorted) = sort_listed-IsSortOf d p files output_file can in
    (out, λ q. ap (λ z. lookup q (sort_listed d z output_file).files) listed ∙ written q, sorted)
