-- ===== src/Merging/Written.antt =====
-- utils/data/data.h: the whole of `sort_write_file` and `sort_files`, on a file of ascending words.
use gorn.Common.{
  ◌≡◌, ◌≢◌, refl, ap, ◌∙◌, Bool, true, false, not, ◌&&◌, Option, none, some, List, [], ◌∷◌, ◌++◌,
  arith, map, All, IsSorted, concat, if◌then◌else◌,
}
use gorn.Text.{Bytes}
use gorn.Text.Order.{text_order, eq_text, eq_text_iff, member, distinct}
use gorn.Text.Stream.{is_nil}
use gorn.Text.Stream.Extract.{IsWord}
use gorn.Sorting.Sort.{std_sort-IsSorted}
use gorn.Files.{Disk, lookup, delimited, read_file, sort_data, remove_file, get_files}
use gorn.Files.ReadWrite.{lookup-erase_at}
use gorn.Files.Words.{words_of, words_of-remove_file}
use gorn.Search.{space, write_bytes, write_lines}
use gorn.Search.Total.{lookup-write_bytes, can_open-write_bytes}
use gorn.Merging.{merge_lines, merge_text, sort_write_file, sort_each, sort_files}
use gorn.Merging.Merged.{kept}
use gorn.Merging.Lines.{merge_lines-IsSortOf}
use gorn.Merging.Directory.{IsSortOf}

merge_text-open :
    (d : Disk) (text : Bytes) (sorted_data : List (List Bytes)) (name : Bytes)
    → d.can_open name ≡ true
    → merge_text d (some text) sorted_data name ≡ write_lines d name (merge_lines text sorted_data)
unfolding merge_text
merge_text-open d text sorted_data name can = rw can refl

-- The entries of the vectors and the words of the file that are below some entry are written, in
-- ascending order, and no other file changes.
pub sort_write_file-merged :
    (d : Disk) (initial_name comprehensive_name : Bytes) (ws : List Bytes)
    (sorted_data : List (List Bytes))
    → initial_name ≢ comprehensive_name
    → d.can_open comprehensive_name ≡ true
    → lookup initial_name d.files ≡ some (delimited space ws)
    → All IsWord ws
    → IsSorted ws
    → All IsSorted sorted_data
    → (out : List Bytes) × (e : Disk) × (sort_write_file d initial_name sorted_data
          comprehensive_name
        ≡ some e)
      × ((q : Bytes)
          → lookup q e.files ≡ (
              if eq_text q comprehensive_name
              then some (delimited space out)
              else lookup q d.files))
      × IsSortOf out (kept (concat sorted_data) ws ++ concat sorted_data)
unfolding sort_write_file write_lines
sort_write_file-merged d initial_name comprehensive_name ws sorted_data different can there words sw
      sv =
    let (out, runs, sort_of) = merge_lines-IsSortOf ws sorted_data words sw sv in
    let d' = write_bytes d comprehensive_name [] in
    let can' : d'.can_open comprehensive_name ≡ true =
      ap (λ (f : Bytes → Bool). f comprehensive_name) (can_open-write_bytes d comprehensive_name [])
      ∙ can in
    let text : lookup initial_name d'.files ≡ some (delimited space ws) =
      lookup-write_bytes d comprehensive_name initial_name [] can
      ∙ ground (arith, eq_text_iff initial_name comprehensive_name) in
    (
      out,
      write_bytes d' comprehensive_name (delimited space out),
      ap (λ o. merge_text d' o sorted_data comprehensive_name) text
          ∙ (merge_text-open d' (delimited space ws) sorted_data comprehensive_name can'
              ∙ ap (write_lines d' comprehensive_name) runs),
      λ q.
          lookup-write_bytes d' comprehensive_name q (delimited space out) can'
          ∙ ground (arith, lookup-write_bytes d comprehensive_name q [] can),
      sort_of,
    )

-- The words of each file, in ascending order.
abbrev pub sorted_words : Disk → List Bytes → List (List Bytes)
sorted_words d files = map (λ p. sort_data (read_file d p [])) files

sorted_words-IsSorted : (d : Disk) (files : List Bytes) → All IsSorted (sorted_words d files)
unfolding sort_data
sorted_words-IsSorted d [] = tt
sorted_words-IsSorted d (p ∷ files) =
    (std_sort-IsSorted (read_file d p []), sorted_words-IsSorted d files)

-- The disk behind the loop of `sort_files` for one file.
abbrev behind : Bool → Disk → Bytes → Disk
behind remove d p = if remove then remove_file d p else d

words_of-behind :
    (remove : Bool) (d : Disk) (p q : Bytes)
    → eq_text q p ≡ false
    → words_of (behind remove d p) q ≡ words_of d q
words_of-behind true d p q e = words_of-remove_file d p q ∙ rw e refl
words_of-behind false d p q e = refl

lookup-behind :
    (remove : Bool) (d : Disk) (p q : Bytes)
    → lookup q (behind remove d p).files
      ≡ (if remove && eq_text q p then none else lookup q d.files)
unfolding remove_file
lookup-behind true d p q = lookup-erase_at p q d.files
lookup-behind false d p q = refl

can_open-behind : (remove : Bool) (d : Disk) (p : Bytes) → (behind remove d p).can_open ≡ d.can_open
unfolding remove_file
can_open-behind true d p = refl
can_open-behind false d p = refl

-- A file that is read does not change the words of the others.
sorted_words-behind :
    (remove : Bool) (d : Disk) (p : Bytes) (files : List Bytes)
    → member p files ≡ false
    → sorted_words (behind remove d p) files ≡ sorted_words d files
unfolding member words_of sort_data
sorted_words-behind remove d p [] h = refl
sorted_words-behind remove d p (q ∷ files) h =
    let differ : eq_text q p ≡ false = ground (arith, eq_text_iff p q, eq_text_iff q p) in
    let same : sort_data (read_file (behind remove d p) q []) ≡ sort_data (read_file d q []) =
      ap sort_data (words_of-behind remove d p q differ) in
    let rest = sorted_words-behind remove d p files (ground arith) in (λ i. same i ∷ rest i)

sort_each-words :
    (remove : Bool) (d : Disk) (files : List Bytes)
    → distinct files ≡ true
    → (sort_each remove d files).0 ≡ sorted_words d files
unfolding sort_each distinct
sort_each-words remove d [] h = refl
sort_each-words remove d (p ∷ files) h = ap (◌∷◌ (sort_data (read_file d p []))) (
    sort_each-words remove (behind remove d p) files (ground arith)
    ∙ sorted_words-behind remove d p files (ground arith))

lookup-sort_each :
    (remove : Bool) (d : Disk) (files : List Bytes) (q : Bytes)
    → lookup q (sort_each remove d files).1.files
      ≡ (if remove && member q files then none else lookup q d.files)
unfolding sort_each member
lookup-sort_each remove d [] q = ground arith
lookup-sort_each remove d (p ∷ files) q =
    lookup-sort_each remove (behind remove d p) files q ∙ ground (arith, lookup-behind remove d p q)

can_open-sort_each :
    (remove : Bool) (d : Disk) (files : List Bytes)
    → (sort_each remove d files).1.can_open ≡ d.can_open
unfolding sort_each
can_open-sort_each remove d [] = refl
can_open-sort_each remove d (p ∷ files) =
    can_open-sort_each remove (behind remove d p) files ∙ can_open-behind remove d p

-- With a file of ascending words, each with a blank behind it, that is neither listed nor the output
-- file, and a directory that lists some files, each once, `sort_files` ends and answers true if the
-- output can be opened: the output has the words of all listed files and those words of the file
-- that are below some of them, in ascending order and each as often as it occurs; with `remove` the
-- listed files are gone, and no other file changes.
pub sort_files-merged :
    (d : Disk) (entries : List (Bytes × Bool)) (p : Bytes) (files : List Bytes)
    (initial_file comprehensive_file : Bytes) (remove : Bool) (ws : List Bytes)
    → get_files entries [] ≡ p ∷ files
    → distinct (p ∷ files) ≡ true
    → initial_file ≢ comprehensive_file
    → member initial_file (p ∷ files) ≡ false
    → d.can_open comprehensive_file ≡ true
    → lookup initial_file d.files ≡ some (delimited space ws)
    → All IsWord ws
    → IsSorted ws
    → (out : List Bytes) × (e : Disk) × (sort_files d entries initial_file comprehensive_file remove
        ≡ (true, some e))
      × ((q : Bytes)
          → lookup q e.files ≡ (
              if eq_text q comprehensive_file
              then some (delimited space out)
              else if remove && member q (p ∷ files)
              then none
              else lookup q d.files))
      × IsSortOf out
          (kept (concat (sorted_words d (p ∷ files))) ws ++ concat (sorted_words d (p ∷ files)))
unfolding sort_files
sort_files-merged d entries p files initial_file comprehensive_file remove ws listed once different
      apart can there words sw =
    let vecs = sorted_words d (p ∷ files) in
    let d' = (sort_each remove d (p ∷ files)).1 in
    let can' : d'.can_open comprehensive_file ≡ true =
      ap (λ (f : Bytes → Bool). f comprehensive_file) (can_open-sort_each remove d (p ∷ files))
      ∙ can in
    let there' : lookup initial_file d'.files ≡ some (delimited space ws) =
      lookup-sort_each remove d (p ∷ files) initial_file ∙ ground (arith) in
    let (out, e, runs, written, sort_of) =
      sort_write_file-merged d' initial_file comprehensive_file ws vecs different can' there' words
        sw (sorted_words-IsSorted d (p ∷ files)) in
    let go : List Bytes → Bool × Option Disk = λ z.
      let r = sort_each remove d z in
      if not (is_nil z)
      then (true, sort_write_file r.1 initial_file r.0 comprehensive_file)
      else (false, some d) in
    (
      out,
      e,
      ap go listed
          ∙ (ap (λ z. (true, sort_write_file d' initial_file z comprehensive_file))
                (sort_each-words remove d (p ∷ files) once)
              ∙ ap (λ z. (true, z)) runs),
      λ q.
          written q
          ∙ ap (λ z. if eq_text q comprehensive_file then some (delimited space out) else z)
              (lookup-sort_each remove d (p ∷ files) q),
      sort_of,
    )
