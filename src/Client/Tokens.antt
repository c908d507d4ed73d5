-- ===== src/Client/Tokens.antt =====
-- ClientInterface/ClientInterface.cpp: reading a file line by line gives the words of the file.
use gorn.Common.{
  ℕ, zero, suc, ◌≤◌, ◌<◌, ◌≡◌, refl, sym, ap, ◌∙◌, true, false, Option, none, some, List, [], ◌∷◌,
  ◌++◌, append-nil, arith, if◌then◌else◌, length, length-append, concat,
}
use gorn.Text.{Bytes}
use gorn.Text.Stream.{Stream, open_text, get_string}
use gorn.Text.Stream.Lines.{get_line, take_line, span_line, Rejoins, span_line-Rejoins}
use gorn.Files.{read_loop, words}
use gorn.Files.Split.{words-line}
use gorn.QueueFile.{entries_loop, entries_of_file}

abbrev Rows : Bytes → Option (List (List Bytes)) → Type 0
Rows s o = (rows : List (List Bytes)) × (o ≡ some rows) × (concat rows ≡ words s)

words-nil : words [] ≡ []
unfolding words read_loop get_string
words-nil = refl

abbrev row_round : ℕ → Bytes × Stream → Option (List (List Bytes))
row_round fuel r =
    if r.1.fail
    then some []
    else elim (entries_loop words fuel r.0 r.1) [ none ↦ none | some es ↦ some (words r.0 ∷ es) ]

entries_loop-round :
    (fuel : ℕ) (line : Bytes) (s : Stream)
    → entries_loop words (suc fuel) line s ≡ row_round fuel (get_line line s)
unfolding entries_loop
entries_loop-round fuel line s = refl

entries_loop-ended :
    (fuel : ℕ) (line : Bytes)
    → entries_loop words (suc fuel) line (record { rest = []; eof = true; fail = false }) ≡ some []
unfolding entries_loop get_line
entries_loop-ended fuel line = refl

row_round-Rows :
    (fuel : ℕ) (s : Bytes) (r : Bytes × Option Bytes)
    → ((line t : Bytes) → length t < fuel → Rows t (entries_loop words fuel line (open_text t)))
    → Rejoins s r
    → length s ≤ fuel
    → Rows s (row_round fuel (take_line r))
unfolding take_line
row_round-Rows fuel s ([], none) shorter e h = ([], refl, sym (ap words e ∙ words-nil))
row_round-Rows zero s (c ∷ l, none) shorter e h = absurd (omega (arith, ap length e))
row_round-Rows (suc fuel) s (c ∷ l, none) shorter e h = (
  words (c ∷ l) ∷ [],
  rw (entries_loop-ended fuel (c ∷ l)) refl,
  append-nil (words (c ∷ l)) ∙ sym (ap words e),
)
row_round-Rows fuel s (l, some t) shorter e h =
    let size : length t < fuel = omega (arith, ap length e, length-append l (10 ∷ t)) in
    let (rows, got, same) = shorter l t size in
    (words l ∷ rows, rw got refl, ap (λ z. words l ++ z) same ∙ sym (ap words e ∙ words-line l t))

entries_loop-Rows :
    (fuel : ℕ) (line s : Bytes)
    → length s < fuel
    → Rows s (entries_loop words fuel line (open_text s))
unfolding get_line
entries_loop-Rows zero line s h = absurd (omega arith)
entries_loop-Rows (suc fuel) line s h =
    let (rows, got, same) =
      row_round-Rows fuel s (span_line s) (entries_loop-Rows fuel) (span_line-Rejoins s)
        (omega arith) in
    (rows, entries_loop-round fuel line (open_text s) ∙ got, same)

-- The rows of words that a line by line reader gets are the words of the file, in order.
pub entries_of_file-words :
    (s : Bytes)
    → (rows : List (List Bytes)) × (entries_of_file words s ≡ some rows) × (concat rows ≡ words s)
unfolding entries_of_file
entries_of_file-words s = entries_loop-Rows (suc (length s)) [] s (omega arith)
