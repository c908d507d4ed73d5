-- ===== src/QueueFile.antt =====
-- utils/data/queue_entry.h and utils/data/queue_file.h: a queue of files in a directory, under the
-- distributed mutex that stands beside the directory. `usleep` is left out.
pub mod Entries
pub mod Loops
pub mod Calls
pub mod Retry
use gorn.Common.{
  ℕ, zero, suc, ◌+◌, Bool, Option, none, some, List, [], ◌∷◌, ◌++◌, ◌==◌, if◌then◌else◌, length,
}
use gorn.Text.{Bytes, codes}
use gorn.Text.Stream.{Stream, open_text, get_string, get_number}
use gorn.Text.Stream.Lines.{get_line}
use gorn.Text.Stream.Decimal.{print}
use gorn.Files.{Disk, lookup, store_at, remove_file, get_files}
use gorn.Mutex.{Mutex, lock, unlock}

pub record QueueEntryKeyValue : Type 0 where
  pub key : ℕ
  pub value : Bytes

-- `QueueEntryKeyValue::set`, and the lines of `push`: `key << " " << value << std::endl`.
unfoldable pub set : QueueEntryKeyValue → Bytes
set e = print e.key ++ 32 ∷ (e.value ++ 10 ∷ [])

-- `QueueEntryKeyValue::get`, into a key with the arbitrary value `unset` and an empty value.
unfoldable pub get : ℕ → Bytes → QueueEntryKeyValue
get unset line =
    let (key, ss) = get_number unset (open_text line) in
    let (value, ss') = get_string [] ss in record { key = key; value = value }

-- `QueueEntryValue::set` and `QueueEntryValue::get`; such an entry is its value.
unfoldable pub set_value : Bytes → Bytes
set_value value = value ++ 10 ∷ []

unfoldable pub get_value : Bytes → Bytes
get_value line = (get_string [] (open_text line)).0

-- The mutex of a queue in the directory `m_directory_name`.
unfoldable pub queue_mutex : Bytes → Mutex
queue_mutex m_directory_name = record {
  unlock_name = m_directory_name ++ codes "/../unlocked";
  lock_name = m_directory_name ++ codes "/../locked";
}

-- The loop of `push`: a line for each entry.
unfoldable pub entry_lines : List QueueEntryKeyValue → Bytes
unfolding set
entry_lines [] = []
entry_lines (e ∷ input) = set e ++ entry_lines input

-- `while ( getline ( myfile , line ) ) output . push_back ( QueueEntry ( line ) )`, with fuel; `none`
-- means that the fuel ran out.
unfoldable pub entries_loop {ℓ} : {A : Type ℓ} → (Bytes → A) → ℕ → Bytes → Stream → Option (List A)
entries_loop of_line zero line s = none
entries_loop of_line (suc fuel) line s =
    let (line', s') = get_line line s in
    let rest = entries_loop of_line fuel line' s' in
    if s'.fail then some [] else elim rest [ none ↦ none | some es ↦ some (of_line line' ∷ es) ]

-- Each round but the last reads a byte at least, so the fuel is enough.
unfoldable pub entries_of_file {ℓ} : {A : Type ℓ} → (Bytes → A) → Bytes → Option (List A)
entries_of_file of_line s = entries_loop of_line (suc (length s)) [] (open_text s)

-- What a file adds to `output`; a file that is not there adds nothing.
unfoldable pub append_entries {ℓ} :
    {A : Type ℓ} → (Bytes → A) → List A → Option Bytes → Option (List A)
append_entries of_line output none = some output
append_entries of_line output (some s) = elim (entries_of_file of_line s) [
  | none ↦ none
  | some es ↦ some (output ++ es)
]

-- The result of `push`, `pop` and `peek`, what the last call of the mutex returned (`Unlock` repeats
-- a call that returns 1), and the disk.
pub record Done {ℓ} (A : Type ℓ) : Type ℓ where
  pub status : ℕ
  pub code : ℕ
  pub disk : Disk
  pub output : A

-- `m_distributed_mutex . Unlock () ; return 0`
unfoldable pub release {ℓ} : {A : Type ℓ} → Mutex → Disk → A → Done A
release m d output =
    let (code, d') = unlock m d in record { status = 0; code = code; disk = d'; output = output }

abbrev pub busy {ℓ} : {A : Type ℓ} → Disk → A → Done A
busy d output = record { status = 1; code = 1; disk = d; output = output }

unfoldable pub push :
    Mutex → Disk → Bytes → List QueueEntryKeyValue → Done (List QueueEntryKeyValue)
push m d file_name input =
    let (code, d') = lock m d in
    let written =
      if d'.can_open file_name
      then record d' { files = store_at file_name (entry_lines input) d'.files }
      else d' in
    if code == 1 then busy d' input else release m written input

module _ {ℓ} {A : Type ℓ} (of_line : Bytes → A) where
  unfoldable pub pop : Mutex → Disk → Bytes → List A → Option (Done (List A))
  pop m d file_name output =
      let (code, d') = lock m d in
      if code == 1
      then some (busy d' output)
      else elim (append_entries of_line output (lookup file_name d'.files)) [
        | none ↦ none
        | some output' ↦ some (release m (remove_file d' file_name) output')
      ]

  unfoldable pub peek : Mutex → Disk → Bytes → List A → Option (Done (List A))
  peek m d file_name output =
      let (code, d') = lock m d in
      if code == 1
      then some (busy d' output)
      else elim (append_entries of_line output (lookup file_name d'.files)) [
        | none ↦ none
        | some output' ↦ some (release m d' output')
      ]

-- `Push`, `Pop` and `Peek` try again until a call returns 0. Each attempt finds the disk, and `Pop`
-- and `Peek` the entries of the directory, as the other processes left them: a list of these, and
-- `none` where no attempt came through.
unfoldable pub push_retry :
    Bytes → Bytes → List QueueEntryKeyValue → List Disk → Option (Done (List QueueEntryKeyValue))
push_retry m_directory_name filename input [] = none
push_retry m_directory_name filename input (d ∷ ds) =
    let rest = push_retry m_directory_name filename input ds in
    let tried = push (queue_mutex m_directory_name) d (m_directory_name ++ 47 ∷ filename) input in
    if tried.status == 0 then some tried else rest

module _ {ℓ} {A : Type ℓ} where
  -- One round on the files of the directory: `none` is a round that came to nothing.
  unfoldable pub first_file :
      (Disk → Bytes → List A → Option (Done (List A)))
      → Disk
      → List Bytes
      → List A
      → Option (Done (List A))
  first_file call d [] output = none
  first_file call d (p ∷ files) output = call d p output

  abbrev pub came_through : Option (Done (List A)) → Option (Done (List A))
  came_through none = none
  came_through (some tried) = if tried.status == 0 then some tried else none

  unfoldable pub retry :
      (Disk → Bytes → List A → Option (Done (List A)))
      → List (Disk × List (Bytes × Bool))
      → List A
      → Option (Done (List A))
  unfolding first_file
  retry call [] output = none
  retry call ((d, entries) ∷ ds) output =
      let rest = retry call ds output in
      elim (came_through (first_file call d (get_files entries []) output)) [
        | none ↦ rest
        | some done ↦ some done
      ]

  unfoldable pub pop_retry :
      (Bytes → A) → Bytes → List (Disk × List (Bytes × Bool)) → List A → Option (Done (List A))
  unfolding retry
  pop_retry of_line m_directory_name ds output =
      retry (pop of_line (queue_mutex m_directory_name)) ds output

  unfoldable pub peek_retry :
      (Bytes → A) → Bytes → List (Disk × List (Bytes × Bool)) → List A → Option (Done (List A))
  unfolding retry
  peek_retry of_line m_directory_name ds output =
      retry (peek of_line (queue_mutex m_directory_name)) ds output
