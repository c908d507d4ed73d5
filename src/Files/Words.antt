-- ===== src/Files/Words.antt =====
-- What `read_file` reads are words, whatever the file holds.
use gorn.Common.{
  ℕ, zero, suc, ◌≡◌, refl, sym, ap, ◌∙◌, inl, inr, Option, none, some, List, [], ◌++◌, append-nil,
  if◌then◌else◌, All, All-append, length, Bool-cases,
}
use gorn.Text.{Bytes}
use gorn.Text.Stream.{Stream, open_text, get_string}
use gorn.Text.Stream.Extract.{IsWord}
use gorn.Text.Stream.Words.{get_string-IsWord}
use gorn.Text.Order.{eq_text}
use gorn.Files.{Disk, lookup, read_loop, words, read_file, append_words, remove_file}
use gorn.Files.ReadWrite.{lookup-erase_at}

read_loop-IsWord : (fuel : ℕ) (old : Bytes) (s : Stream) → All IsWord (read_loop fuel old s)
unfolding read_loop
read_loop-IsWord zero old s = tt
read_loop-IsWord (suc fuel) old s = elim (Bool-cases (get_string old s).1.fail) [
  | inl f ↦ rw f tt
  | inr f ↦
      rw f
        (get_string-IsWord old s f, read_loop-IsWord fuel (get_string old s).0 (get_string old s).1)
]

append_words-IsWord :
    (output : List Bytes) (o : Option Bytes)
    → All IsWord output
    → All IsWord (append_words output o)
unfolding append_words words
append_words-IsWord output none h = h
append_words-IsWord output (some s) h =
    All-append IsWord output (words s) h (read_loop-IsWord (suc (length s)) [] (open_text s))

pub read_file-IsWord :
    (d : Disk) (p : Bytes) (output : List Bytes)
    → All IsWord output
    → All IsWord (read_file d p output)
unfolding read_file
read_file-IsWord d p output h = append_words-IsWord output (lookup p d.files) h

-- The words of a file, and that they are put behind what the vector holds.
unfoldable pub words_of : Disk → Bytes → List Bytes
words_of d p = read_file d p []

append_words_lem :
    (output : List Bytes) (o : Option Bytes) → append_words output o ≡ output ++ append_words [] o
unfolding append_words
append_words_lem output none = sym (append-nil output)
append_words_lem output (some s) = refl

pub read_file_lem :
    (d : Disk) (p : Bytes) (output : List Bytes) → read_file d p output ≡ output ++ words_of d p
unfolding words_of read_file
read_file_lem d p output = append_words_lem output (lookup p d.files)

-- The same bytes are the same words, on any disk and at any path.
pub words_of-lookup :
    (d e : Disk) (p q : Bytes) → lookup p d.files ≡ lookup q e.files → words_of d p ≡ words_of e q
unfolding words_of read_file
words_of-lookup d e p q same = ap (append_words []) same

pub words_of-gone : (d : Disk) (p : Bytes) → lookup p d.files ≡ none → words_of d p ≡ []
unfolding words_of read_file append_words
words_of-gone d p gone = ap (append_words []) gone

pub words_of-remove_file :
    (d : Disk) (p q : Bytes)
    → words_of (remove_file d p) q ≡ (if eq_text q p then [] else words_of d q)
unfolding remove_file
words_of-remove_file d p q = elim (Bool-cases (eq_text q p)) [
  | inl e ↦ rw e (words_of-gone (remove_file d p) q (lookup-erase_at p q d.files ∙ rw e refl))
  | inr e ↦ rw e (words_of-lookup (remove_file d p) d q q (lookup-erase_at p q d.files ∙ rw e refl))
]

pub words_of-there : (d : Disk) (p s : Bytes) → lookup p d.files ≡ some s → words_of d p ≡ words s
unfolding words_of read_file append_words
words_of-there d p s there = ap (append_words []) there

pub words_of-IsWord : (d : Disk) (p : Bytes) → All IsWord (words_of d p)
unfolding words_of
words_of-IsWord d p = read_file-IsWord d p [] tt
