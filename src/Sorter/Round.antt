-- ===== src/Sorter/Round.antt =====
-- DataSorterDaemon/DataSorterDaemon.cpp: one round of `main`.
use gorn.Common.{
  ℕ, ◌≡◌, ◌≢◌, refl, ap, ◌∙◌, Bool, true, false, ◌||◌, none, List, [], arith, ◌==◌, if◌then◌else◌,
  All, IsStrict, elem,
}
use gorn.Text.{Bytes}
use gorn.Text.Order.{text_order, eq_text_iff, member}
use gorn.Text.Stream.{is_nil}
use gorn.Text.Stream.Extract.{IsWord}
use gorn.Sorting.{insert_all}
use gorn.Sorting.Unique.{insert_all-IsStrict, elem-insert_all, insert_all-All}
use gorn.Files.{Disk, lookup, read_file, remove_file, rename_file, get_files}
use gorn.Files.Words.{words_of, read_file_lem, read_file-IsWord}
use gorn.Mutex.{Mutex, lock, unlock}
use gorn.Mutex.Calls.{SameElse}
use gorn.Sorter.{read_each, sort_files_map, round}
use gorn.Sorter.Files.{
  known, known_cong, elem-read_each, read_each-IsWord, lookup-read_each, can_open-read_each,
}
use gorn.Sorter.Publish.{publish, lookup-publish, words_of-publish}

-- What a disk has after a round that found files.
pub record Sorted (m : Mutex) (d : Disk) (files : List Bytes) (initial comprehensive : Bytes)
    (e : Disk) : Type 0 where
  pub ascending : IsStrict (words_of e initial)
  pub same_words :
      (a : Bytes) → elem a (words_of e initial) ≡ (elem a (words_of d initial) || known d files a)
  pub consumed :
      (q : Bytes)
      → member q files ≡ true
      → q ≢ initial
      → q ≢ comprehensive
      → lookup q e.files ≡ none
  pub untouched :
      (q : Bytes)
      → member q files ≡ false
      → q ≢ initial
      → q ≢ comprehensive
      → q ≢ m.unlock_name
      → q ≢ m.lock_name
      → lookup q e.files ≡ lookup q d.files

-- The names of a round are four different files, and the directory lists none of the mutex's.
pub record Names (m : Mutex) (files : List Bytes) (initial comprehensive : Bytes) : Type 0 where
  pub mutex : m.unlock_name ≢ m.lock_name
  pub outputs : initial ≢ comprehensive
  pub initial_unlock : initial ≢ m.unlock_name
  pub initial_lock : initial ≢ m.lock_name
  pub comprehensive_unlock : comprehensive ≢ m.unlock_name
  pub comprehensive_lock : comprehensive ≢ m.lock_name
  pub unlock_unlisted : member m.unlock_name files ≡ false
  pub lock_unlisted : member m.lock_name files ≡ false

module _ (d : Disk) (files : List Bytes) (initial comprehensive : Bytes) where
  -- The words that are sorted, and the disk that `main` leaves before `Unlock`.
  pub sorted_words : List Bytes
  sorted_words = insert_all (read_each d files (read_file d initial [])).0 []

  pub after : Disk
  after = publish (read_each d files (read_file d initial [])).1 initial comprehensive sorted_words

  pub elem-sorted_words :
      (a : Bytes) → elem a sorted_words ≡ (elem a (words_of d initial) || known d files a)
  unfolding sorted_words
  elem-sorted_words a =
      elem-insert_all a (read_each d files (read_file d initial [])).0 []
      ∙ rw (elem-read_each d files (read_file d initial []) a, read_file_lem d initial [])
          (ground arith)

  sorted_words-IsWord : All IsWord sorted_words
  unfolding sorted_words
  sorted_words-IsWord =
      insert_all-All IsWord (read_each d files (read_file d initial [])).0 []
        (read_each-IsWord d files (read_file d initial []) (read_file-IsWord d initial [] tt)) tt

  pub lookup-after :
      (q : Bytes)
      → initial ≢ comprehensive
      → d.can_open comprehensive ≡ true
      → q ≢ initial
      → q ≢ comprehensive
      → lookup q after.files ≡ (if member q files then none else lookup q d.files)
  unfolding after
  lookup-after q different can qi qc =
      lookup-publish (read_each d files (read_file d initial [])).1 initial comprehensive
        sorted_words q different
        (ap (λ f. f comprehensive) (can_open-read_each d files (read_file d initial [])) ∙ can)
      ∙ ground (
        arith,
        eq_text_iff q initial,
        eq_text_iff q comprehensive,
        lookup-read_each d files (read_file d initial []) q,
      )

  pub words_of-after :
      initial ≢ comprehensive
      → d.can_open comprehensive ≡ true
      → words_of after initial ≡ sorted_words
  unfolding after
  words_of-after different can =
      words_of-publish (read_each d files (read_file d initial [])).1 initial comprehensive
        sorted_words different
        (ap (λ f. f comprehensive) (can_open-read_each d files (read_file d initial [])) ∙ can)
        sorted_words-IsWord

  pub sorted_words-IsStrict : IsStrict sorted_words
  unfolding sorted_words
  sorted_words-IsStrict = insert_all-IsStrict (read_each d files (read_file d initial [])).0 [] tt

-- A round that takes the mutex and finds files.
pub round-taken :
    (m : Mutex) (d e : Disk) (entries : List (Bytes × Bool)) (initial comprehensive : Bytes)
    → lock m d ≡ (0, e)
    → is_nil (get_files entries []) ≡ false
    → round m d entries initial comprehensive
      ≡ unlock m (after e (get_files entries []) initial comprehensive)
unfolding round sort_files_map after sorted_words
round-taken m d e entries initial comprehensive took listed =
    ap
      (λ (z : ℕ × Disk).
        let r = sort_files_map z.1 entries initial comprehensive in
        if z.0 == 1
        then z
        else if r.0
        then unlock m (rename_file (remove_file r.1 initial) comprehensive initial)
        else unlock m r.1)
      took
    ∙ rw listed refl

-- What the mutex does not name is as it was before the lock.
module _ (m : Mutex) (d e : Disk) (same : SameElse m d e) (files : List Bytes) where
  pub known-locked :
      (a : Bytes)
      → member m.unlock_name files ≡ false
      → member m.lock_name files ≡ false
      → known e files a ≡ known d files a
  known-locked a u l =
      known_cong d e files a (λ q i.
        same q (λ p. cc (ap (λ z. member z files) p)) (λ p. cc (ap (λ z. member z files) p)))
