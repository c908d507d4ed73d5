-- ===== src/QueueFile/Entries.antt =====
-- utils/data/queue_entry.h and the loops of utils/data/queue_file.h: entries come back from their
-- lines.
use gorn.Common.{
  ℕ, zero, suc, ◌≤◌, ◌<◌, ◌≡◌, refl, ap, ◌∙◌, Option, none, some, List, [], ◌∷◌, ◌++◌, append_assoc,
  arith, if◌then◌else◌, length, length-append, All, All-append,
}
use gorn.Text.{Bytes}
use gorn.Text.Stream.{Stream, open_text, get_string, max_u64}
use gorn.Text.Stream.Lines.{get_line, NotFeed, get_line-line, get_line-end, solid-NotFeed}
use gorn.Text.Stream.Decimal.{print}
use gorn.Text.Stream.Extract.{
  IsWord, print-IsWord, get_number-print, get_string-space, get_string-whole,
}
use gorn.QueueFile.{QueueEntryKeyValue, set, get, entry_lines, entries_loop, entries_of_file}

-- An entry with a 64-bit key and a value that is one word.
pub record IsEntry (e : QueueEntryKeyValue) : Type 0 where
  pub small : e.key ≤ max_u64
  pub word : IsWord e.value

-- The line of an entry, without its line feed.
line_of : QueueEntryKeyValue → Bytes
line_of e = print e.key ++ 32 ∷ e.value

line_of-NotFeed : (e : QueueEntryKeyValue) → IsEntry e → All NotFeed (line_of e)
unfolding line_of
line_of-NotFeed e h =
    All-append NotFeed (print e.key) (32 ∷ e.value)
      (solid-NotFeed (print e.key) (print-IsWord e.key).solid)
      (refl, solid-NotFeed e.value h.word.solid)

get-line_of : (unset : ℕ) (e : QueueEntryKeyValue) → IsEntry e → get unset (line_of e) ≡ e
unfolding get line_of
get-line_of unset e h =
    let of_number : ℕ × Stream → QueueEntryKeyValue =
      λ r. record { key = r.0; value = (get_string [] r.1).0 } in
    let of_value : Bytes → QueueEntryKeyValue = λ v. record { key = e.key; value = v } in
    ap of_number (get_number-print unset e.key e.value h.small)
    ∙ ap of_value (
        ap (λ (r : Bytes × Stream). r.0) (get_string-space [] e.value)
        ∙ get_string-whole [] e.value h.word)

set-line_of : (e : QueueEntryKeyValue) (s : Bytes) → set e ++ s ≡ line_of e ++ 10 ∷ s
unfolding set line_of
set-line_of e s = simp append_assoc

-- The loop over the lines of entries, with fuel above their number.
entries_loop-entry_lines :
    (unset fuel : ℕ) (old : Bytes) (es : List QueueEntryKeyValue)
    → All IsEntry es
    → length es < fuel
    → entries_loop (get unset) fuel old (open_text (entry_lines es)) ≡ some es
unfolding entries_loop entry_lines
entries_loop-entry_lines unset zero old es h k = absurd (omega arith)
entries_loop-entry_lines unset (suc fuel) old [] h k = rw (get_line-end old) refl
entries_loop-entry_lines unset (suc fuel) old (e ∷ es) (p, h) k =
    let go : Bytes × Stream → Option (List QueueEntryKeyValue) = λ r.
      if r.1.fail then some [] else elim (entries_loop (get unset) fuel r.0 r.1) [
        | none ↦ none
        | some es' ↦ some (get unset r.0 ∷ es')
      ] in
    ap (λ z. go (get_line old (open_text z))) (set-line_of e (entry_lines es))
    ∙ (ap go (get_line-line old (line_of e) (entry_lines es) (line_of-NotFeed e p))
        ∙ rw
            (
              entries_loop-entry_lines unset fuel (line_of e) es h (omega arith),
              get-line_of unset e p,
            )
            refl)

length-entry_lines : (es : List QueueEntryKeyValue) → length es ≤ length (entry_lines es)
unfolding entry_lines
length-entry_lines [] = omega arith
length-entry_lines (e ∷ es) = omega (
  arith,
  length-entry_lines es,
  ap length (set-line_of e (entry_lines es)),
  length-append (line_of e) (10 ∷ entry_lines es),
)

pub entries_of_file-entry_lines :
    (unset : ℕ) (es : List QueueEntryKeyValue)
    → All IsEntry es
    → entries_of_file (get unset) (entry_lines es) ≡ some es
unfolding entries_of_file
entries_of_file-entry_lines unset es h =
    entries_loop-entry_lines unset (suc (length (entry_lines es))) [] es h
      (omega (arith, length-entry_lines es))
