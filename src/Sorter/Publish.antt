-- ===== src/Sorter/Publish.antt =====
-- DataSorterDaemon/DataSorterDaemon.cpp: the new file in the place of the old one.
use gorn.Common.{◌≡◌, ◌≢◌, refl, sym, ◌∙◌, true, none, some, List, arith, if◌then◌else◌, All}
use gorn.Text.{Bytes}
use gorn.Text.Order.{text_order, eq_text, eq_text_iff}
use gorn.Text.Stream.Extract.{IsWord}
use gorn.Files.{Disk, lookup, write_file, remove_file, rename_file, delimited}
use gorn.Files.ReadWrite.{lookup-store_at, lookup-erase_at, words-delimited}
use gorn.Files.Rename.{lookup-rename_file}
use gorn.Files.Words.{words_of, words_of-there}
use gorn.Sorter.{space}

-- `write_file` of the new file, `remove_file` of the old one, `rename_file` of new to old.
abbrev pub publish : Disk → Bytes → Bytes → List Bytes → Disk
publish d initial comprehensive ws =
    rename_file (remove_file (write_file d comprehensive ws space) initial) comprehensive initial

module _ (d : Disk) (initial comprehensive : Bytes) (ws : List Bytes) where
  -- The disk before the rename.
  removed : Disk
  removed = remove_file (write_file d comprehensive ws space) initial

  lookup-removed :
      (p : Bytes)
      → d.can_open comprehensive ≡ true
      → lookup p removed.files ≡ (
          if eq_text p initial
          then none
          else if eq_text p comprehensive
          then some (delimited space ws)
          else lookup p d.files)
  unfolding removed remove_file write_file
  lookup-removed p can =
      lookup-erase_at initial p (write_file d comprehensive ws space).files
      ∙ rw can (rw (lookup-store_at comprehensive p (delimited space ws) d.files) refl)

  pub lookup-publish :
      (q : Bytes)
      → initial ≢ comprehensive
      → d.can_open comprehensive ≡ true
      → lookup q (publish d initial comprehensive ws).files ≡ (
          if eq_text q initial
          then some (delimited space ws)
          else if eq_text q comprehensive
          then none
          else lookup q d.files)
  unfolding removed
  lookup-publish q different can =
      lookup-rename_file removed comprehensive initial q (delimited space ws)
        (λ e. different (sym e))
        (lookup-removed comprehensive can
          ∙ ground
              (arith, eq_text_iff comprehensive initial, eq_text_iff comprehensive comprehensive))
      ∙ ground (arith, lookup-removed q can)

  -- The old file's path reads back what was written to the new one.
  pub words_of-publish :
      initial ≢ comprehensive
      → d.can_open comprehensive ≡ true
      → All IsWord ws
      → words_of (publish d initial comprehensive ws) initial ≡ ws
  words_of-publish different can h =
      words_of-there (publish d initial comprehensive ws) initial (delimited space ws)
        (lookup-publish initial different can ∙ ground (arith, eq_text_iff initial initial))
      ∙ words-delimited space refl ws h
