-- ===== src/Files/ReadWrite.antt =====
-- What is written with `write_file` is what `read_file` reads.
use gorn.Common.{
  ℕ, zero, suc, ◌≤◌, ◌<◌, ◌≡◌, refl, sym, ap, ◌∙◌, inl, inr, true, none, some, List, [], ◌∷◌, ◌++◌,
  arith, if◌then◌else◌, length, length-append, All, Bool-cases,
}
use gorn.Text.{Bytes}
use gorn.Text.Order.{text_order, eq_text, eq_text_iff}
use gorn.Text.Stream.{open_text, is_space}
use gorn.Text.Stream.Extract.{IsWord, get_string-word_at, get_string-space_at, get_string-empty}
use gorn.Files.{
  Disk, lookup, store_at, erase_at, read_loop, words, read_file, delimited, write_file,
}

pub lookup-store_at :
    (p q : Bytes) (s : Bytes) (fs : List (Bytes × Bytes))
    → lookup q (store_at p s fs) ≡ (if eq_text q p then some s else lookup q fs)
unfolding lookup store_at
lookup-store_at p q s [] = refl
lookup-store_at p q s ((r, t) ∷ fs) =
    ground (arith, eq_text_iff q p, eq_text_iff p r, eq_text_iff q r, lookup-store_at p q s fs)

pub lookup-erase_at :
    (p q : Bytes) (fs : List (Bytes × Bytes))
    → lookup q (erase_at p fs) ≡ (if eq_text q p then none else lookup q fs)
unfolding lookup erase_at
lookup-erase_at p q [] = ground arith
lookup-erase_at p q ((r, t) ∷ fs) =
    ground (arith, eq_text_iff q p, eq_text_iff p r, eq_text_iff q r, lookup-erase_at p q fs)

-- A delimiter that ends a word: white space.
abbrev pub IsDelimiter : ℕ → Type 0
IsDelimiter d = is_space d ≡ true

module _ (d : ℕ) (blank : IsDelimiter d) where
  read_loop-delimited :
      (ws : List Bytes) (fuel : ℕ) (old : Bytes)
      → All IsWord ws
      → length ws < fuel
      → read_loop fuel old (open_text (d ∷ delimited d ws)) ≡ ws
  unfolding read_loop delimited
  read_loop-delimited ws zero old h e = absurd (omega arith)
  read_loop-delimited [] (suc fuel) old h e =
      rw (get_string-space_at d old [] blank, get_string-empty old)
  read_loop-delimited (w ∷ ws) (suc fuel) old (p, h) e =
      rw
        (
          get_string-space_at d old (w ++ d ∷ delimited d ws) blank,
          get_string-word_at d old w (delimited d ws) blank p,
        )
        (ap (◌∷◌ w) (read_loop-delimited ws fuel w h (omega arith)))

  read_loop-start :
      (ws : List Bytes) (fuel : ℕ) (old : Bytes)
      → read_loop fuel old (open_text (d ∷ delimited d ws))
        ≡ read_loop fuel old (open_text (delimited d ws))
  unfolding read_loop
  read_loop-start ws zero old = refl
  read_loop-start ws (suc fuel) old = rw (get_string-space_at d old (delimited d ws) blank)

  pub length-delimited : (ws : List Bytes) → length ws ≤ length (delimited d ws)
  unfolding delimited
  length-delimited [] = omega arith
  length-delimited (w ∷ ws) =
      omega (arith, length-delimited ws, length-append w (d ∷ delimited d ws))

  -- The words of a list of words with white space behind each are that list.
  pub words-delimited : (ws : List Bytes) → All IsWord ws → words (delimited d ws) ≡ ws
  unfolding words
  words-delimited ws h =
      sym (read_loop-start ws (suc (length (delimited d ws))) [])
      ∙ read_loop-delimited ws (suc (length (delimited d ws))) [] h
          (omega (arith, length-delimited ws))

  -- A file that can be opened reads back the words that were written to it, behind those that the
  -- vector holds; any other file reads as before.
  pub read_file-write_file :
      (disk : Disk) (p q : Bytes) (ws output : List Bytes)
      → All IsWord ws
      → disk.can_open p ≡ true
      → read_file (write_file disk p ws d) q output
        ≡ (if eq_text q p then output ++ ws else read_file disk q output)
  unfolding read_file write_file
  read_file-write_file disk p q ws output h can =
      rw (can, write_file, lookup-store_at p q (delimited d ws) disk.files)
        (elim (Bool-cases (eq_text q p)) [
          | inl same ↦ rw same (ap (λ t. output ++ t) (words-delimited ws h))
          | inr other ↦ rw other
        ])
