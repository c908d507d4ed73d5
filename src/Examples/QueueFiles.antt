-- ===== src/Examples/QueueFiles.antt =====
-- A queue of files at concrete inputs.
use gorn.Common.{◌≡◌, Bool, refl, true, none, some, inl, inr, List, [], ◌∷◌, ◌++◌, arith, All}
use gorn.Text.{Bytes, codes}
use gorn.Text.Order.{eq_text, eq_text-differ}
use gorn.Text.Stream.Decimal.{print}
use gorn.Files.{Disk, lookup, get_files}
use gorn.Mutex.Calls.{IsFree, IsHeld}
use gorn.QueueFile.{QueueEntryKeyValue, get, queue_mutex, entry_lines, push, pop, peek, pop_retry}
use gorn.QueueFile.Entries.{IsEntry}
use gorn.QueueFile.Calls.{Apart, through, SameBut, push-peek-pop}
use gorn.QueueFile.Retry.{Plain, pop_retry-through}

abbrev queue_dir : Bytes
queue_dir = codes "q"

abbrev entry_file : Bytes
entry_file = queue_dir ++ 47 ∷ codes "f"

abbrev two_entries : List QueueEntryKeyValue
two_entries = record { key = 3; value = codes "a.b" } ∷ record { key = 70; value = codes "b" } ∷ []

two_entries-IsEntry : All IsEntry two_entries
two_entries-IsEntry = (
  record {
    small = omega arith;
    word = record { nonempty = λ e. cc; solid = (refl, (refl, (refl, tt))) };
  },
  (record { small = omega arith; word = record { nonempty = λ e. cc; solid = (refl, tt) } }, tt),
)

abbrev unlocked_file : Bytes
unlocked_file = queue_dir ++ codes "/../unlocked"

abbrev locked_file : Bytes
locked_file = queue_dir ++ codes "/../locked"

abbrev free_disk : Disk
free_disk = record { files = (unlocked_file, []) ∷ []; can_open = λ p. true }

abbrev busy_disk : Disk
busy_disk = record { files = (locked_file, []) ∷ []; can_open = λ p. true }

abbrev full_disk : Disk
full_disk = record {
  files = (unlocked_file, []) ∷ (entry_file, codes "3 a.b\n70 b\n") ∷ [];
  can_open = λ p. true;
}

abbrev listing : List (Bytes × Bool)
listing = (entry_file, true) ∷ []

free_disk-IsFree : IsFree (queue_mutex queue_dir) [] free_disk
unfolding lookup eq_text queue_mutex
free_disk-IsFree = record { there = refl; gone = refl }

busy_disk-IsHeld : IsHeld (queue_mutex queue_dir) [] busy_disk
unfolding lookup eq_text queue_mutex
busy_disk-IsHeld = record { there = refl; gone = refl }

full_disk-IsFree : IsFree (queue_mutex queue_dir) [] full_disk
unfolding lookup eq_text queue_mutex
full_disk-IsFree = record { there = refl; gone = refl }

queue_files-Apart : Apart (queue_mutex queue_dir) entry_file
unfolding queue_mutex eq_text
queue_files-Apart = record {
  mutex = eq_text-differ unlocked_file locked_file refl;
  unlocked = eq_text-differ entry_file unlocked_file refl;
  locked = eq_text-differ entry_file locked_file refl;
}

f-Plain : Plain (codes "f")
f-Plain = (λ e. cc, λ e. cc)

full_disk_lines : lookup entry_file full_disk.files ≡ some (entry_lines two_entries)
unfolding lookup eq_text entry_lines print
full_disk_lines = refl

listing_lem : get_files listing [] ≡ entry_file ∷ []
unfolding get_files
listing_lem = refl

no_files : get_files [] [] ≡ []
unfolding get_files
no_files = refl

push-peek-pop_example :
    (pushed : Disk) × (peeked : Disk) × (popped : Disk) × (push
        (queue_mutex queue_dir)
        free_disk
        entry_file
        two_entries
      ≡ through pushed two_entries)
    × (peek (get 9) (queue_mutex queue_dir) pushed entry_file []
        ≡ some (through peeked two_entries))
    × (pop (get 9) (queue_mutex queue_dir) peeked entry_file [] ≡ some (through popped two_entries))
    × (lookup entry_file popped.files ≡ none)
    × IsFree (queue_mutex queue_dir) [] popped
    × SameBut (queue_mutex queue_dir) entry_file free_disk popped
push-peek-pop_example =
    push-peek-pop (queue_mutex queue_dir) [] entry_file 9 free_disk two_entries [] queue_files-Apart
      refl free_disk-IsFree two_entries-IsEntry

-- The first attempt finds no file, the second a held mutex.
pop_retry-through_example :
    (e : Disk) × (pop_retry
        (get 9)
        queue_dir
        ((free_disk, []) ∷ (busy_disk, listing) ∷ (full_disk, listing) ∷ [])
        []
      ≡ some (through e two_entries))
    × IsFree (queue_mutex queue_dir) [] e
    × (lookup entry_file e.files ≡ none)
    × SameBut (queue_mutex queue_dir) entry_file full_disk e
pop_retry-through_example =
    pop_retry-through 9 queue_dir (codes "f") two_entries []
      (([], free_disk, []) ∷ ([], busy_disk, listing) ∷ []) [] full_disk listing [] [] f-Plain
      two_entries-IsEntry (inl no_files, (inr busy_disk-IsHeld, tt)) full_disk-IsFree listing_lem
      full_disk_lines
