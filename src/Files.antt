-- ===== src/Files.antt =====
-- utils/data/data.h, the part that reads and writes files. A disk is the files that are there, each
-- a path with its bytes, and the paths that an `std::ofstream` can open.
pub mod ReadWrite
pub mod Rename
pub mod Words
pub mod Split
use gorn.Common.{
  ℕ, zero, suc, ◌+◌, Bool, true, false, Option, none, some, List, [], ◌∷◌, ◌++◌, if◌then◌else◌,
  length,
}
use gorn.Text.{Bytes}
use gorn.Text.Order.{text_order, eq_text}
use gorn.Text.Stream.{Stream, open_text, get_string}
use gorn.Sorting.{std_sort}

pub record Disk : Type 0 where
  pub files : List (Bytes × Bytes)
  pub can_open : Bytes → Bool

unfoldable pub lookup : Bytes → List (Bytes × Bytes) → Option Bytes
lookup p [] = none
lookup p ((q, s) ∷ fs) = if eq_text p q then some s else lookup p fs

unfoldable pub store_at : Bytes → Bytes → List (Bytes × Bytes) → List (Bytes × Bytes)
store_at p s [] = (p, s) ∷ []
store_at p s ((q, t) ∷ fs) = if eq_text p q then (p, s) ∷ fs else (q, t) ∷ store_at p s fs

unfoldable pub erase_at : Bytes → List (Bytes × Bytes) → List (Bytes × Bytes)
erase_at p [] = []
erase_at p ((q, t) ∷ fs) = let rest = erase_at p fs in if eq_text p q then rest else (q, t) ∷ rest

-- `while ( myfile >> line ) output . push_back ( line )`, with fuel.
unfoldable pub read_loop : ℕ → Bytes → Stream → List Bytes
read_loop zero line s = []
read_loop (suc fuel) line s =
    let (word, s') = get_string line s in
    let rest = read_loop fuel word s' in if s'.fail then [] else word ∷ rest

-- The words of a text. Each round reads a byte at least, so the fuel is enough.
unfoldable pub words : Bytes → List Bytes
unfolding read_loop
words s = read_loop (suc (length s)) [] (open_text s)

append_words : List Bytes → Option Bytes → List Bytes
append_words output none = output
append_words output (some s) = output ++ words s

-- `read_file`: the words of a file behind those that `output` holds; a missing file adds none.
unfoldable pub read_file : Disk → Bytes → List Bytes → List Bytes
unfolding append_words lookup
read_file d p output = append_words output (lookup p d.files)

-- `sort_data`
unfoldable pub sort_data : List Bytes → List Bytes
sort_data input = std_sort input

-- Each entry with the delimiter behind it.
unfoldable pub delimited : ℕ → List Bytes → Bytes
delimited delimiter [] = []
delimited delimiter (w ∷ ws) = w ++ delimiter ∷ delimited delimiter ws

-- `write_file`: the file is replaced, or nothing happens if it cannot be opened.
unfoldable pub write_file : Disk → Bytes → List Bytes → ℕ → Disk
unfolding store_at delimited
write_file d p input delimiter =
    if d.can_open p then record d { files = store_at p (delimited delimiter input) d.files } else d

-- `remove_file`; an error is printed and changes nothing.
unfoldable pub remove_file : Disk → Bytes → Disk
unfolding erase_at
remove_file d p = record d { files = erase_at p d.files }

-- `boost::filesystem::exists` and `rename`, on plain files: `dest` is replaced, and without `src`
-- the call throws, `none`.
unfoldable pub exists : Disk → Bytes → Bool
unfolding lookup
exists d p = elim (lookup p d.files) [ none ↦ false | some s ↦ true ]

unfoldable pub rename : Disk → Bytes → Bytes → Option Disk
unfolding lookup erase_at store_at
rename d src dest = elim (lookup src d.files) [
  | none ↦ none
  | some s ↦
      some (
        if eq_text src dest then d else record d { files = store_at dest s (erase_at src d.files) })
]

abbrev pub unless_error : Disk → Option Disk → Disk
unless_error d none = d
unless_error d (some e) = e

-- `rename_file`: an error is printed and changes nothing.
unfoldable pub rename_file : Disk → Bytes → Bytes → Disk
unfolding rename
rename_file d src dest = unless_error d (rename d src dest)

-- `get_files`: of the entries of a directory, each with whether it is a regular file, the paths of
-- the regular files behind those that `files` holds.
unfoldable pub get_files : List (Bytes × Bool) → List Bytes → List Bytes
get_files [] files = files
get_files ((p, regular) ∷ entries) files =
    get_files entries (if regular then files ++ p ∷ [] else files)
