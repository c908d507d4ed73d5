-- ===== src/QueueFile/Loops.antt =====
-- utils/data/queue_file.h: the loop over the lines of a file ends.
use gorn.Common.{
  if◌then◌else◌, Option, none, ◌≤◌, ◌++◌, ap, ◌∙◌, ℕ, zero, suc, ◌<◌, ◌≡◌, refl, some, List, [],
  ◌∷◌, arith, length, length-append, map, All, Bool-cases, inl, inr,
}
use gorn.Text.{Bytes}
use gorn.Text.Stream.{Stream, open_text}
use gorn.Text.Stream.Lines.{get_line, NotFeed, get_line-line, get_line-end, get_line-shorter}
use gorn.QueueFile.{entries_loop, entries_of_file}

module _ {ℓ} {A : Type ℓ} (of_line : Bytes → A) where
  entries_loop-total :
      (fuel : ℕ) (line : Bytes) (s : Stream)
      → length s.rest < fuel
      → (es : List A) × (entries_loop of_line fuel line s ≡ some es)
  unfolding entries_loop
  entries_loop-total zero line s h = absurd (omega arith)
  entries_loop-total (suc fuel) line s h = elim (Bool-cases (get_line line s).1.fail) [
    | inl e ↦ ([], rw e refl)
    | inr e ↦
        let (es, got) =
          entries_loop-total fuel (get_line line s).0 (get_line line s).1
            (omega (arith, get_line-shorter line s e)) in
        (of_line (get_line line s).0 ∷ es, rw (e, got) refl)
  ]

  -- Every file is read to its end.
  pub entries_of_file-total : (s : Bytes) → (es : List A) × (entries_of_file of_line s ≡ some es)
  unfolding entries_of_file
  entries_of_file-total s = entries_loop-total (suc (length s)) [] (open_text s) (omega arith)

  -- A line feed behind each line.
  abbrev pub lines_text : List Bytes → Bytes
  lines_text [] = []
  lines_text (l ∷ ls) = l ++ 10 ∷ lines_text ls

  entries_loop-lines_text :
      (fuel : ℕ) (old : Bytes) (ls : List Bytes)
      → All (All NotFeed) ls
      → length ls < fuel
      → entries_loop of_line fuel old (open_text (lines_text ls)) ≡ some (map of_line ls)
  unfolding entries_loop
  entries_loop-lines_text zero old ls h k = absurd (omega arith)
  entries_loop-lines_text (suc fuel) old [] h k = rw (get_line-end old) refl
  entries_loop-lines_text (suc fuel) old (l ∷ ls) (p, h) k =
      let go : Bytes × Stream → Option (List A) = λ r.
        if r.1.fail then some [] else elim (entries_loop of_line fuel r.0 r.1) [
          | none ↦ none
          | some es ↦ some (of_line r.0 ∷ es)
        ] in
      ap go (get_line-line old l (lines_text ls) p)
      ∙ rw (entries_loop-lines_text fuel l ls h (omega arith)) refl

  length-lines_text : (ls : List Bytes) → length ls ≤ length (lines_text ls)
  length-lines_text [] = omega arith
  length-lines_text (l ∷ ls) =
      omega (arith, length-lines_text ls, length-append l (10 ∷ lines_text ls))

  -- Lines with no line feed in them are read one by one.
  pub entries_of_file-lines_text :
      (ls : List Bytes)
      → All (All NotFeed) ls
      → entries_of_file of_line (lines_text ls) ≡ some (map of_line ls)
  unfolding entries_of_file
  entries_of_file-lines_text ls h =
      entries_loop-lines_text (suc (length (lines_text ls))) [] ls h
        (omega (arith, length-lines_text ls))

abbrev pub identity : Bytes → Bytes
identity line = line

map-identity : (ls : List Bytes) → map identity ls ≡ ls
map-identity [] = refl
map-identity (l ∷ ls) = ap (◌∷◌ l) (map-identity ls)

-- The lines themselves.
pub entries_of_file-identity :
    (ls : List Bytes)
    → All (All NotFeed) ls
    → entries_of_file identity (lines_text identity ls) ≡ some ls
entries_of_file-identity ls h = entries_of_file-lines_text identity ls h ∙ ap some (map-identity ls)
