-- ===== src/Sorter/Files.antt =====
-- DataSorterDaemon/DataSorterDaemon.cpp: the loop that reads and removes the files.
use gorn.Common.{
  ◌≡◌, refl, ap, ◌∙◌, inl, inr, Bool, true, false, ◌||◌, none, List, [], ◌∷◌, arith, if◌then◌else◌,
  All, elem, elem-append, Bool-cases,
}
use gorn.Text.{Bytes}
use gorn.Text.Order.{text_order, eq_text, eq_text_iff, member}
use gorn.Text.Stream.Extract.{IsWord}
use gorn.Files.{Disk, lookup, read_file, remove_file}
use gorn.Files.ReadWrite.{lookup-erase_at}
use gorn.Files.Words.{
  words_of, words_of-lookup, words_of-remove_file, read_file_lem, read_file-IsWord,
}
use gorn.Sorter.{read_each}

-- A word of one of the files.
unfoldable pub known : Disk → List Bytes → Bytes → Bool
known d [] a = false
known d (p ∷ ps) a = elem a (words_of d p) || known d ps a

known-remove_file :
    (d : Disk) (p : Bytes) (ps : List Bytes) (a : Bytes)
    → (elem a (words_of d p) || known (remove_file d p) ps a)
      ≡ (elem a (words_of d p) || known d ps a)
unfolding known
known-remove_file d p [] a = refl
known-remove_file d p (q ∷ ps) a = elim (Bool-cases (eq_text q p)) [
  | inl e ↦
      let same : words_of d q ≡ words_of d p = ap (words_of d) ((eq_text_iff q p).0 e) in
      rw (words_of-remove_file d p q, e, same) (ground (arith, known-remove_file d p ps a))
  | inr e ↦ rw (words_of-remove_file d p q, e) (ground (arith, known-remove_file d p ps a))
]

-- The words read are those that were there, those of the files, and no others.
pub elem-read_each :
    (d : Disk) (ps input : List Bytes) (a : Bytes)
    → elem a (read_each d ps input).0 ≡ (elem a input || known d ps a)
unfolding read_each known
elem-read_each d [] input a = ground arith
elem-read_each d (p ∷ ps) input a =
    elem-read_each (remove_file d p) ps (read_file d p input) a
    ∙ rw (read_file_lem d p input, elem-append a input (words_of d p))
        (ground (arith, known-remove_file d p ps a))

pub read_each-IsWord :
    (d : Disk) (ps input : List Bytes) → All IsWord input → All IsWord (read_each d ps input).0
unfolding read_each
read_each-IsWord d [] input h = h
read_each-IsWord d (p ∷ ps) input h =
    read_each-IsWord (remove_file d p) ps (read_file d p input) (read_file-IsWord d p input h)

-- The files read are gone, and no other.
pub lookup-read_each :
    (d : Disk) (ps input : List Bytes) (q : Bytes)
    → lookup q (read_each d ps input).1.files ≡ (if member q ps then none else lookup q d.files)
unfolding read_each member
lookup-read_each d [] input q = refl
lookup-read_each d (p ∷ ps) input q =
    lookup-read_each (remove_file d p) ps (read_file d p input) q
    ∙ unfold remove_file in ground (arith, lookup-erase_at p q d.files)

pub can_open-read_each :
    (d : Disk) (ps input : List Bytes) → (read_each d ps input).1.can_open ≡ d.can_open
unfolding read_each remove_file
can_open-read_each d [] input = refl
can_open-read_each d (p ∷ ps) input = can_open-read_each (remove_file d p) ps (read_file d p input)

-- What a file has is the same on a disk with the same bytes at the paths.
pub known_cong :
    (d e : Disk) (ps : List Bytes) (a : Bytes)
    → ((q : Bytes) → member q ps ≡ true → lookup q e.files ≡ lookup q d.files)
    → known e ps a ≡ known d ps a
unfolding known member
known_cong d e [] a h = refl
known_cong d e (p ∷ ps) a h = rw (
  words_of-lookup e d p p (h p (ground (arith, eq_text_iff p p))),
  known_cong d e ps a (λ q i. h q (ground arith)),
)
