-- ===== src/Examples/Searches.antt =====
-- The search for new entries at concrete inputs.
use gorn.Common.{◌≡◌, ◌≢◌, refl, true, false, some, List, [], ◌∷◌, arith, All, if◌then◌else◌}
use gorn.Text.{Bytes, codes}
use gorn.Text.Order.{text_order, eq_text, eq_text-differ, member}
use gorn.Text.Stream.{get_string}
use gorn.Text.Stream.Extract.{IsWord}
use gorn.Files.{Disk, lookup, delimited}
use gorn.Search.{search_lines, search_new, space}
use gorn.Search.Total.{found, search_new-found}
use gorn.Search.Sound.{search_new-new}

-- New entries around the known `b`: `a` and `c` are put out.
search_runs :
    search_lines (codes "b ") (codes "a" ∷ codes "b" ∷ codes "c" ∷ [])
    ≡ some (codes "a" ∷ codes "c" ∷ [])
unfolding search_lines get_string
search_runs = refl

-- Between known entries on both sides new ones are lost, and so is the first on an empty file.
search_loses : search_lines (codes "b d ") (codes "a" ∷ codes "c" ∷ []) ≡ some []
unfolding search_lines get_string
search_loses = refl

search_loses_first : search_lines [] (codes "a" ∷ codes "c" ∷ []) ≡ some (codes "c" ∷ [])
unfolding search_lines get_string
search_loses_first = refl

abbrev known_words : List Bytes
known_words = codes "b" ∷ []

abbrev entries : List Bytes
entries = codes "a" ∷ codes "b" ∷ codes "c" ∷ []

abbrev map_disk : Disk
map_disk = record { files = (codes "m", codes "b ") ∷ []; can_open = λ p. true }

map_there : lookup (codes "m") map_disk.files ≡ some (delimited space known_words)
unfolding lookup eq_text delimited
map_there = refl

known_words-IsWord : All IsWord known_words
known_words-IsWord = (record { nonempty = cc; solid = ground arith }, tt)

names_differ_here : codes "m" ≢ codes "o"
unfolding eq_text
names_differ_here = eq_text-differ (codes "m") (codes "o") refl

search_new-found_example :
    (e : Disk) × (search_new map_disk (codes "m") entries (codes "o") ≡ some e)
    × ((q : Bytes)
        → lookup q e.files ≡ (
            if eq_text q (codes "o")
            then some (delimited space (found known_words entries))
            else lookup q map_disk.files))
search_new-found_example =
    search_new-found map_disk (codes "m") (codes "o") known_words entries names_differ_here refl
      map_there known_words-IsWord (tt, tt) (ground arith) (omega arith)

search_new-new_example :
    (e : Disk) × (out : List Bytes) × (search_new map_disk (codes "m") entries (codes "o") ≡ some e)
    × (lookup (codes "o") e.files ≡ some (delimited space out))
    × ((a : Bytes)
        → member a out ≡ true
        → (member a entries ≡ true) × (member a known_words ≡ false))
search_new-new_example =
    search_new-new map_disk (codes "m") (codes "o") known_words entries names_differ_here refl
      map_there known_words-IsWord (tt, tt) (ground arith) (omega arith)
