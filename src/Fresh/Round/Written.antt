-- ===== src/Fresh/Round/Written.antt =====
-- DistributedQueue/DistributedQueue.cpp: what `filter_out_non_unique_values` writes.
use gorn.Common.{
  ℕ, zero, suc, ◌+◌, ◌<◌, ◌≡◌, refl, sym, ap, ◌∙◌, true, false, some, List, [], ◌∷◌, ◌++◌, arith,
  if◌then◌else◌, get_elem?, drop, length, ◌≤◌, ◌≢◌, subst, All, All-append, All-imp,
}
use gorn.Text.{Bytes, codes}
use gorn.Text.Order.{eq_text, eq_text_iff}
use gorn.Text.Stream.{is_nil, span_digits}
use gorn.Text.Stream.Extract.{span_digits-print_dot}
use gorn.Files.{Disk, lookup, write_file, delimited}
use gorn.Files.ReadWrite.{lookup-store_at}
use gorn.Fresh.{verify_uniqueness, remove_non_unique}
use gorn.Fresh.Counts.{verify_uniqueness-distinct}
use gorn.Fresh.Output.{remove_non_unique-fresh}
use gorn.Fresh.Enforce.{ended}
use gorn.Fresh.Round.{output_name, newline, write_all, file_size, filter_out_non_unique_values}

-- The number can be read off the name.
output_name-injective : (a b : ℕ) → output_name a ≡ output_name b → a ≡ b
unfolding output_name
output_name-injective a b same =
    sym (span_digits-print_dot a (codes "que"))
    ∙ (ap (λ (z : Bytes). (span_digits (drop 24 z) 0).0) same
        ∙ span_digits-print_dot b (codes "que"))

-- The names that the calls of `rand` give can be opened.
abbrev pub Opens : (ℕ → ℕ) → Disk → Type 0
Opens rand d = (i : ℕ) → d.can_open (output_name (rand i)) ≡ true

All-get_elem? {ℓ κ} :
    {A : Type ℓ} (P : A → Type κ) (xs : List A) (i : ℕ) (x : A)
    → All P xs
    → get_elem? xs i ≡ some x
    → P x
All-get_elem? P [] i x h e = absurd cc
All-get_elem? P (y ∷ xs) zero x (p, h) e = let same : y ≡ x = cc e in subst P same p
All-get_elem? P (y ∷ xs) (suc i) x (p, h) e = All-get_elem? P xs i x h e

is_nil-last : (full : List (List Bytes)) (rest : List Bytes) → is_nil (full ++ rest ∷ []) ≡ false
is_nil-last [] rest = refl
is_nil-last (r ∷ full) rest = refl

module _ (rand : ℕ → ℕ) where
  write_one : ℕ → Disk → List Bytes → Disk
  write_one k d vec = write_file d (output_name (rand k)) vec newline

  write_one-Opens :
      (k : ℕ) (d : Disk) (vec : List Bytes) → Opens rand d → Opens rand (write_one k d vec)
  unfolding write_one write_file
  write_one-Opens k d vec h i = rw (h k) (h i)

  lookup-write_one :
      (k : ℕ) (d : Disk) (vec : List Bytes) (q : Bytes)
      → Opens rand d
      → lookup q (write_one k d vec).files ≡ (
          if eq_text q (output_name (rand k))
          then some (delimited newline vec)
          else lookup q d.files)
  unfolding write_one write_file
  lookup-write_one k d vec q h =
      rw (h k) (lookup-store_at (output_name (rand k)) q (delimited newline vec) d.files)

  -- A file whose name no call gives stays.
  write_all-kept :
      (k : ℕ) (d : Disk) (rows : List (List Bytes)) (q : Bytes)
      → Opens rand d
      → ((j : ℕ) → j < length rows → q ≢ output_name (rand (k + j)))
      → lookup q (write_all rand k d rows).files ≡ lookup q d.files
  unfolding write_all write_one
  write_all-kept k d [] q h other = refl
  write_all-kept k d (row ∷ rows) q h other =
      let here : k + 0 ≡ k = omega arith in
      let apart : eq_text q (output_name (rand k)) ≡ false = ground (
        arith,
        eq_text_iff q (output_name (rand k)),
        λ (p : q ≡ output_name (rand k)).
            other 0 (omega arith) (p ∙ sym (ap (λ z. output_name (rand z)) here)),
      ) in
      write_all-kept (suc k) (write_one k d row) rows q (write_one-Opens k d row h) (λ j below e.
        let later : suc k + j ≡ k + suc j = omega arith in
        other (suc j) (omega arith) (e ∙ ap (λ z. output_name (rand z)) later))
      ∙ (lookup-write_one k d row q h ∙ rw apart refl)

  -- The last of the rows that are written to a file is what it holds.
  write_all-at :
      (k : ℕ) (d : Disk) (rows : List (List Bytes)) (i n : ℕ) (row : List Bytes)
      → Opens rand d
      → n ≡ k + i
      → get_elem? rows i ≡ some row
      → ((j : ℕ) → i < j → j < length rows → rand n ≢ rand (k + j))
      → lookup (output_name (rand n)) (write_all rand k d rows).files ≡ some (delimited newline row)
  unfolding write_all write_one
  write_all-at k d [] i n row h at e later = absurd cc
  write_all-at k d (r ∷ rows) zero n row h at e later =
      let name = output_name (rand n) in
      let here : n ≡ k = omega (arith, at) in
      let same : eq_text name (output_name (rand k)) ≡ true =
        (eq_text_iff name (output_name (rand k))).1 (ap (λ z. output_name (rand z)) here) in
      let found : r ≡ row = cc e in
      write_all-kept (suc k) (write_one k d r) rows name (write_one-Opens k d r h) (λ j below p.
        let next : suc k + j ≡ k + suc j = omega arith in
        later (suc j) (omega arith) (omega arith)
          (output_name-injective (rand n) (rand (suc k + j)) p ∙ ap rand next))
      ∙ (lookup-write_one k d r name h
          ∙ (rw same refl ∙ ap (λ z. some (delimited newline z)) found))
  write_all-at k d (r ∷ rows) (suc i) n row h at e later =
      write_all-at (suc k) (write_one k d r) rows i n row (write_one-Opens k d r h)
        (omega (arith, at)) e
        (λ j above below p.
          let next : suc k + j ≡ k + suc j = omega arith in
          later (suc j) (omega arith) (omega arith) (p ∙ ap rand next))

-- What `remove_non_unique` puts out, in vectors of at most `file_size` texts.
abbrev pub rows_of : List (List Bytes) → List (List Bytes) → List (List Bytes)
rows_of unique_data non_unique_data = remove_non_unique unique_data non_unique_data [] file_size

-- With no text twice in the known data and names that can be opened, `filter_out_non_unique_values`
-- ends. Of the vectors that `remove_non_unique` puts out each has at most 1000 texts, and is what
-- the file with its number holds if no later call of `rand` gives that number again; a file whose
-- name no call gives stays as it was.
pub filter_out-files :
    (rand : ℕ → ℕ) (d : Disk) (unique_data non_unique_data : List (List Bytes))
    → Opens rand d
    → verify_uniqueness unique_data ≡ true
    → (e : Disk) × (filter_out_non_unique_values rand d unique_data non_unique_data ≡ ended e)
      × ((i : ℕ) (row : List Bytes)
          → get_elem? (rows_of unique_data non_unique_data) i ≡ some row
          → (length row ≤ 1000)
            × (((j : ℕ)
                  → i < j
                  → j < length (rows_of unique_data non_unique_data)
                  → rand i ≢ rand j)
                → lookup (output_name (rand i)) e.files ≡ some (delimited newline row)))
      × ((q : Bytes)
          → ((j : ℕ) → j < length (rows_of unique_data non_unique_data) → q ≢ output_name (rand j))
          → lookup q e.files ≡ lookup q d.files)
unfolding filter_out_non_unique_values
filter_out-files rand d unique_data non_unique_data h v =
    let out = rows_of unique_data non_unique_data in
    let (full, rest, shape, a, b, c) =
      remove_non_unique-fresh unique_data non_unique_data [] file_size (omega arith)
        (sym (verify_uniqueness-distinct unique_data) ∙ v) in
    let some_row : is_nil out ≡ false = ap is_nil shape ∙ is_nil-last full rest in
    let small : All (λ r. length r ≤ 1000) out = subst (All (λ r. length r ≤ 1000)) (sym shape) (
      All-append (λ r. length r ≤ 1000) full (rest ∷ [])
        (All-imp (λ r. length r ≡ 1000) (λ r. length r ≤ 1000) (λ r n. omega (arith, n)) full a)
        (omega arith, tt)) in
    let index : (j : ℕ) → 0 + j ≡ j = λ j. omega arith in
    (
      write_all rand 0 d out,
      rw some_row refl,
      λ i row e. (
        All-get_elem? (λ r. length r ≤ 1000) out i row small e,
        λ later.
            write_all-at rand 0 d out i i row h (omega arith) e
              (λ j above below p. later j above below (p ∙ ap rand (index j))),
      ),
      λ q other.
          write_all-kept rand 0 d out q h
            (λ j below p. other j below (p ∙ ap (λ z. output_name (rand z)) (index j))),
    )
