-- ===== src/Examples/Threads.antt =====
-- The rounds of the daemon's writing threads and of the queue at concrete inputs.
use gorn.Common.{
  ◌%◌, ◌≤◌, ◌<◌, ◌≢◌, ℕ, zero, suc, ◌+◌, ◌≡◌, refl, ap, ◌∙◌, true, some, List, [], ◌∷◌, ◌++◌, arith,
  All, All-append, length, get_elem?,
}
use gorn.Text.{Bytes, codes}
use gorn.Text.Order.{text_order, eq_text, eq_text-differ, distinct, member}
use gorn.Text.Stream.Decimal.{print}
use gorn.Text.Stream.Extract.{IsWord}
use gorn.Sorting.{std_sort}
use gorn.Files.{Disk, lookup, delimited}
use gorn.Mutex.{Mutex}
use gorn.Mutex.Calls.{IsFree}
use gorn.Search.{space}
use gorn.Search.Total.{found}
use gorn.Fresh.{verify_uniqueness}
use gorn.Fresh.Counts.{verify_uniqueness-distinct}
use gorn.Fresh.Enforce.{enforce_uniqueness, atoi_next, ended}
use gorn.Fresh.Round.{filter_out_non_unique_values, output_name, newline}
use gorn.Fresh.Round.Written.{Opens, rows_of, filter_out-files}
use gorn.Fresh.Enforce.Fuel.{Post}
use gorn.Fresh.Enforce.Unique.{Verified, enforce_uniqueness-Verified}
use gorn.Writers.{Writer, write_round, find_write_round, queue_name, map_name}
use gorn.Writers.Batch.{Written, write_round-Written}
use gorn.Writers.FindBatch.{Apart, find_write_round-found}

-- A word, `n` times.
many : ℕ → List Bytes
many zero = []
many (suc n) = codes "w" ∷ many n

length-many : (n : ℕ) → length (many n) ≡ n
unfolding many
length-many zero = refl
length-many (suc n) = ap suc (length-many n)

many-IsWord : (n : ℕ) → All IsWord (many n)
unfolding many
many-IsWord zero = tt
many-IsWord (suc n) = (record { nonempty = cc; solid = ground arith }, many-IsWord n)

single-IsWord : All IsWord (codes "v" ∷ [])
single-IsWord = (record { nonempty = cc; solid = ground arith }, tt)

abbrev full_writer : Writer
full_writer = record { q = many 1000; batch_num = 3 }

abbrev no_files : Disk
no_files = record { files = []; can_open = λ p. true }

write_round-Written_example :
    Written 10023 no_files full_writer
      (many 1000 ++ codes "v" ∷ [])
      (write_round 10023 no_files full_writer (codes "v")).0
      (write_round 10023 no_files full_writer (codes "v")).1
write_round-Written_example =
    write_round-Written 10023 no_files full_writer (codes "v") (length-many 1000)
      (All-append IsWord (many 1000) (codes "v" ∷ []) (many-IsWord 1000) single-IsWord) refl

abbrev daemon_mutex : Mutex
daemon_mutex = record { unlock_name = codes "unlocked"; lock_name = codes "locked" }

abbrev daemon_disk : Disk
daemon_disk = record {
  files = (codes "unlocked", []) ∷ (map_name, codes "a x ") ∷ [];
  can_open = λ p. true;
}

daemon_files : Apart daemon_mutex (queue_name 10023 3)
unfolding eq_text queue_name print
daemon_files = record {
  mutex = eq_text-differ (codes "unlocked") (codes "locked") refl;
  map_output = eq_text-differ map_name (queue_name 10023 3) refl;
  map_unlock = eq_text-differ map_name (codes "unlocked") refl;
  map_lock = eq_text-differ map_name (codes "locked") refl;
  output_unlock = eq_text-differ (queue_name 10023 3) (codes "unlocked") refl;
  output_lock = eq_text-differ (queue_name 10023 3) (codes "locked") refl;
}

daemon_disk-IsFree : IsFree daemon_mutex [] daemon_disk
unfolding lookup eq_text
daemon_disk-IsFree = record { there = refl; gone = refl }

abbrev map_words : List Bytes
map_words = codes "a" ∷ codes "x" ∷ []

map_there : lookup map_name daemon_disk.files ≡ some (delimited space map_words)
unfolding lookup eq_text delimited
map_there = refl

map_words-IsWord : All IsWord map_words
map_words-IsWord = (
  record { nonempty = cc; solid = ground arith },
  (record { nonempty = cc; solid = ground arith }, tt),
)

find_write_round-found_example :
    (g : Disk) × (find_write_round daemon_mutex 10023 daemon_disk full_writer (codes "v")
      ≡ some (record { q = []; batch_num = 3 + 1 }, 0, g))
    × IsFree daemon_mutex [] g
    × (lookup (queue_name 10023 3) g.files
        ≡ some (delimited space (found map_words (std_sort (many 1000 ++ codes "v" ∷ [])))))
find_write_round-found_example =
    find_write_round-found daemon_mutex [] 10023 daemon_disk full_writer (codes "v") map_words
      daemon_files daemon_disk-IsFree refl map_there map_words-IsWord (ground arith)
      (length-many 1000)

-- The second `7` becomes `8`, and then the `8` becomes `9`.
enforce_runs :
    enforce_uniqueness ((codes "7" ∷ codes "7" ∷ []) ∷ (codes "8" ∷ []) ∷ [])
    ≡ ended ((codes "7" ∷ codes "8" ∷ []) ∷ (codes "9" ∷ []) ∷ [])
unfolding enforce_uniqueness atoi_next print eq_text
enforce_runs = refl

abbrev two_rows : List (List Bytes)
two_rows = (codes "a" ∷ codes "b" ∷ []) ∷ (codes "a" ∷ []) ∷ []

enforce_uniqueness-Verified_example : Post (Verified two_rows) (enforce_uniqueness two_rows)
enforce_uniqueness-Verified_example = enforce_uniqueness-Verified two_rows

known_rows : verify_uniqueness ((codes "a" ∷ []) ∷ []) ≡ true
unfolding distinct member
known_rows = verify_uniqueness-distinct ((codes "a" ∷ []) ∷ []) ∙ refl

-- Every other call gives the same number.
abbrev parity : ℕ → ℕ
parity i = i % 2

parity-Opens : Opens parity no_files
parity-Opens i = refl

filter_out-files_example :
    (e : Disk) × (filter_out_non_unique_values parity no_files ((codes "a" ∷ []) ∷ []) two_rows
      ≡ ended e)
    × ((i : ℕ) (row : List Bytes)
        → get_elem? (rows_of ((codes "a" ∷ []) ∷ []) two_rows) i ≡ some row
        → (length row ≤ 1000)
          × (((j : ℕ)
                → i < j
                → j < length (rows_of ((codes "a" ∷ []) ∷ []) two_rows)
                → parity i ≢ parity j)
              → lookup (output_name (parity i)) e.files ≡ some (delimited newline row)))
    × ((q : Bytes)
        → ((j : ℕ)
            → j < length (rows_of ((codes "a" ∷ []) ∷ []) two_rows)
            → q ≢ output_name (parity j))
        → lookup q e.files ≡ lookup q no_files.files)
filter_out-files_example =
    filter_out-files parity no_files ((codes "a" ∷ []) ∷ []) two_rows parity-Opens known_rows
