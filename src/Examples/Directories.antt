-- ===== src/Examples/Directories.antt =====
-- The sorting of a directory and the merge with a file at concrete inputs.
use gorn.Common.{
  ◌≡◌, refl, Bool, true, false, ◌&&◌, none, some, List, [], ◌∷◌, ◌++◌, concat, if◌then◌else◌, All,
  arith, ◌≢◌,
}
use gorn.Text.{Bytes, codes}
use gorn.Text.Order.{text_order, eq_text, eq_text-differ, distinct, member}
use gorn.Text.Stream.Extract.{IsWord}
use gorn.Text.Stream.{get_string}
use gorn.Files.{Disk, lookup, get_files, delimited}
use gorn.Search.{space, pick, advance}
use gorn.Merging.{merge_lines, sort_directory, sort_files}
use gorn.Merging.Merged.{kept}
use gorn.Merging.Written.{sorted_words, sort_files-merged}
use gorn.Merging.Directory.{all_words, IsSortOf, sort_directory-IsSortOf}

-- Two vectors and a file are merged up to the last entry of the vectors; `x` of the file is lost.
merge_runs :
    merge_lines (codes "b x ") ((codes "a" ∷ codes "d" ∷ []) ∷ (codes "c" ∷ []) ∷ [])
    ≡ some (codes "a" ∷ codes "b" ∷ codes "c" ∷ codes "d" ∷ [])
unfolding merge_lines get_string pick advance
merge_runs = refl

abbrev directory_disk : Disk
directory_disk = record {
  files = (codes "d/x", codes "b a ") ∷ (codes "d/y", codes "c ") ∷ [];
  can_open = λ p. true;
}

abbrev directory_entries : List (Bytes × Bool)
directory_entries = (codes "d/x", true) ∷ (codes "d/y", true) ∷ []

directory_listed : get_files directory_entries [] ≡ codes "d/x" ∷ codes "d/y" ∷ []
unfolding get_files
directory_listed = refl

sort_directory-IsSortOf_example :
    (out : List Bytes) × ((q : Bytes)
      → lookup q (sort_directory directory_disk directory_entries (codes "o")).files ≡ (
          if eq_text q (codes "o")
          then some (delimited space out)
          else lookup q directory_disk.files))
    × IsSortOf out (all_words directory_disk (codes "d/x" ∷ codes "d/y" ∷ []))
sort_directory-IsSortOf_example =
    sort_directory-IsSortOf directory_disk directory_entries (codes "d/x") (codes "d/y" ∷ [])
      (codes "o") directory_listed refl

-- The same directory and a file `c` with two words, of which `x` is below no word of the directory.
abbrev merged_disk : Disk
merged_disk = record {
  files = (codes "d/x", codes "b a ") ∷ (codes "d/y", codes "e ") ∷ (codes "c", codes "d x ") ∷ [];
  can_open = λ p. true;
}

abbrev old_words : List Bytes
old_words = codes "d" ∷ codes "x" ∷ []

old_words-IsWord : All IsWord old_words
old_words-IsWord = (
  record { nonempty = cc; solid = ground arith },
  (record { nonempty = cc; solid = ground arith }, tt),
)

listed_once : distinct (codes "d/x" ∷ codes "d/y" ∷ []) ≡ true
unfolding distinct eq_text
listed_once = refl

not_listed : member (codes "c") (codes "d/x" ∷ codes "d/y" ∷ []) ≡ false
unfolding member eq_text
not_listed = refl

other_file : codes "c" ≢ codes "t"
unfolding eq_text
other_file = eq_text-differ (codes "c") (codes "t") refl

old_there : lookup (codes "c") merged_disk.files ≡ some (delimited space old_words)
unfolding lookup delimited eq_text
old_there = refl

sort_files-merged_example :
    (out : List Bytes) × (e : Disk) × (sort_files merged_disk directory_entries
        (codes "c")
        (codes "t")
        true
      ≡ (true, some e))
    × ((q : Bytes)
        → lookup q e.files ≡ (
            if eq_text q (codes "t")
            then some (delimited space out)
            else if true && member q (codes "d/x" ∷ codes "d/y" ∷ [])
            then none
            else lookup q merged_disk.files))
    × IsSortOf out (
        kept (concat (sorted_words merged_disk (codes "d/x" ∷ codes "d/y" ∷ []))) old_words
        ++ concat (sorted_words merged_disk (codes "d/x" ∷ codes "d/y" ∷ [])))
sort_files-merged_example =
    sort_files-merged merged_disk directory_entries (codes "d/x") (codes "d/y" ∷ []) (codes "c")
      (codes "t") true old_words directory_listed listed_once other_file not_listed refl old_there
      old_words-IsWord ((refl, tt), (tt, tt))
