-- ===== src/System/Memory/Read.antt =====
-- `get_memory_info` on the lines that the kernel writes.
use gorn.Common.{
  ℕ, zero, suc, ◌+◌, ◌-◌, ◌%◌, ◌^◌, ◌≤◌, ◌≡◌, refl, ap, ◌∙◌, Option, none, some, List, [], ◌∷◌,
  ◌++◌, arith, All, All-append,
}
use gorn.Text.{Bytes, codes}
use gorn.Text.Stream.{Stream, open_text, get_number, max_u64}
use gorn.Text.Stream.Decimal.{print}
use gorn.Text.Stream.Extract.{
  IsWord, get_string-word, get_number-space, get_number-print, print-IsWord,
}
use gorn.Text.Stream.Lines.{NotFeed, solid-NotFeed}
use gorn.Files.{Disk, lookup}
use gorn.QueueFile.{entries_of_file}
use gorn.QueueFile.Loops.{lines_text, identity, entries_of_file-identity}
use gorn.System.Memory.{MemoryInfo, read_mem, read_line, read_lines, meminfo, get_memory_info}

-- A line of the kernel: a label, blanks, the number and its unit.
pub record Field : Type 0 where
  pub label : Bytes
  pub blanks : ℕ
  pub value : ℕ

abbrev pub blanked : ℕ → Bytes → Bytes
blanked zero s = s
blanked (suc n) s = 32 ∷ blanked n s

abbrev pub field_line : Field → Bytes
field_line f = f.label ++ 32 ∷ blanked f.blanks (print f.value ++ codes " kB")

pub record IsField (f : Field) : Type 0 where
  pub word : IsWord f.label
  pub fits : f.value ≤ max_u64

get_number-blanked :
    (unset k n : ℕ) (s : Bytes)
    → n ≤ max_u64
    → (get_number unset (open_text (blanked k (print n ++ 32 ∷ s)))).0 ≡ n
get_number-blanked unset zero n s h = ap (λ (r : ℕ × Stream). r.0) (get_number-print unset n s h)
get_number-blanked unset (suc k) n s h =
    ap (λ (r : ℕ × Stream). r.0) (get_number-space unset (blanked k (print n ++ 32 ∷ s)))
    ∙ get_number-blanked unset k n s h

read_mem-field_line : (unset : ℕ) (f : Field) → IsField f → read_mem unset (field_line f) ≡ f.value
unfolding read_mem
read_mem-field_line unset f h =
    let go : Bytes × Stream → ℕ = λ r. (get_number unset r.1).0 in
    let rest = blanked f.blanks (print f.value ++ codes " kB") in
    ap go (get_string-word [] f.label rest h.word)
    ∙ (ap (λ (r : ℕ × Stream). r.0) (get_number-space unset rest)
        ∙ get_number-blanked unset f.blanks f.value (codes "kB") h.fits)

blanked-NotFeed : (k : ℕ) (s : Bytes) → All NotFeed s → All NotFeed (blanked k s)
blanked-NotFeed zero s h = h
blanked-NotFeed (suc k) s h = (refl, blanked-NotFeed k s h)

field_line-NotFeed : (f : Field) → IsField f → All NotFeed (field_line f)
field_line-NotFeed f h = All-append NotFeed f.label _ (solid-NotFeed f.label h.word.solid) (
  refl,
  blanked-NotFeed f.blanks (print f.value ++ codes " kB") (
      All-append NotFeed (print f.value) (codes " kB")
        (solid-NotFeed (print f.value) (print-IsWord f.value).solid) (refl, (refl, (refl, tt)))),
)

-- Lines past the fifth change nothing.
read_lines-rest :
    (unset k : ℕ) (lines : List Bytes) (s : MemoryInfo) → 5 ≤ k → read_lines unset k lines s ≡ s
unfolding read_lines read_line
read_lines-rest unset k [] s h = refl
read_lines-rest unset k (line ∷ lines) s h = ground (arith, read_lines-rest unset (k + 1) lines s)

-- The first five lines, on the numbers that they give.
read_lines-five :
    (unset a b d e : ℕ) (la lb lc ld le : Bytes) (lines : List Bytes) (s : MemoryInfo)
    → read_mem unset la ≡ a
    → read_mem unset lb ≡ b
    → read_mem unset ld ≡ d
    → read_mem unset le ≡ e
    → read_lines unset 0 (la ∷ lb ∷ lc ∷ ld ∷ le ∷ lines) s ≡ record {
      mem_total = a;
      mem_used = (e + 2 ^ 64 - d) % 2 ^ 64;
      mem_cache = (a + 2 ^ 64 - b) % 2 ^ 64;
      mem_buffers = d;
    }
unfolding read_lines read_line
read_lines-five unset a b d e la lb lc ld le lines s ha hb hd he =
    let first : MemoryInfo = record {
      mem_total = a;
      mem_used = (e + 2 ^ 64 - d) % 2 ^ 64;
      mem_cache = (a + 2 ^ 64 - b) % 2 ^ 64;
      mem_buffers = d;
    } in
    rw (ha, hb, hd, he) (read_lines-rest unset 5 lines first (omega arith))

-- On a /proc/meminfo whose first five lines are a label, a number of at most 64 bits and `kB`, and
-- whose further lines are any, `get_memory_info` ends with the first number as the total, the first
-- less the second as the cache, the fourth as the buffers, and the fifth less the fourth as what is
-- used, both differences modulo 2 ^ 64, whatever the caller's variables held.
pub get_memory_info-fields :
    (unset : ℕ) (d : Disk) (old : MemoryInfo) (total free available buffers cached : Field)
    (lines : List Bytes)
    → lookup meminfo d.files
      ≡ some (
          lines_text identity (
            field_line total
            ∷ field_line free
            ∷ field_line available
            ∷ field_line buffers
            ∷ field_line cached
            ∷ lines))
    → All IsField (total ∷ free ∷ available ∷ buffers ∷ cached ∷ [])
    → All (All NotFeed) lines
    → get_memory_info unset d old
      ≡ some (record {
        mem_total = total.value;
        mem_used = (cached.value + 2 ^ 64 - buffers.value) % 2 ^ 64;
        mem_cache = (total.value + 2 ^ 64 - free.value) % 2 ^ 64;
        mem_buffers = buffers.value;
      })
unfolding get_memory_info
get_memory_info-fields unset d old a b c e f lines there (ha, (hb, (hc, (he, (hf, _))))) clean =
    let rows = field_line a ∷ field_line b ∷ field_line c ∷ field_line e ∷ field_line f ∷ lines in
    let all : All (All NotFeed) rows = (
      field_line-NotFeed a ha,
      (
        field_line-NotFeed b hb,
        (field_line-NotFeed c hc, (field_line-NotFeed e he, (field_line-NotFeed f hf, clean))),
      ),
    ) in
    let of_lines : Option (List Bytes) → Option MemoryInfo =
      λ o. elim o [ none ↦ none | some ls ↦ some (read_lines unset 0 ls old) ] in
    let of_file : Option Bytes → Option MemoryInfo =
      λ o. elim o [ none ↦ some old | some text ↦ of_lines (entries_of_file identity text) ] in
    ap of_file there
    ∙ (ap of_lines (entries_of_file-identity rows all)
        ∙ ap some (
            read_lines-five unset a.value b.value e.value f.value (field_line a) (field_line b)
              (field_line c) (field_line e) (field_line f) lines old
              (read_mem-field_line unset a ha) (read_mem-field_line unset b hb)
              (read_mem-field_line unset e he) (read_mem-field_line unset f hf)))
