-- ===== src/Client.antt =====
-- ClientInterface/ClientInterface.cpp: `read_file` and what the threads of the commands hand to their
-- client.
pub mod Tokens
pub mod Push
pub mod Prompt
use gorn.Common.{
  ℕ, zero, suc, ◌+◌, Bool, true, false, Option, none, some, List, [], ◌∷◌, ◌++◌, if◌then◌else◌,
  length, map, concat,
}
use gorn.Text.{Bytes, codes}
use gorn.Text.Stream.{Stream, open_text, get_string}
use gorn.Text.Stream.Decimal.{print}
use gorn.Config.{Peer}
use gorn.Message.{store, find, get_system_status_type}
use gorn.Batches.{batch_count, batch_text}
use gorn.Files.{Disk, lookup, words, delimited}
use gorn.QueueFile.{entries_of_file}

-- `read_file`: the words of each line of the file, with a blank behind each, on `output_ss`.
unfoldable pub read_tokens : Disk → Bytes → Option Bytes
unfolding lookup entries_of_file
read_tokens d file_name = elim (lookup file_name d.files) [
  | none ↦ some []
  | some s ↦ elim (entries_of_file words s) [
    | none ↦ none
    | some rows ↦ some (delimited 32 (concat rows))
  ]
]

-- The inner `while` of `push_data_thread`, with room for `room` more items: `cpy`, the stream behind
-- it, and `done`.
unfoldable pub take_batch : ℕ → Bytes → Stream → List Bytes × Stream × Bool
take_batch zero line s = ([], s, false)
take_batch (suc room) line s =
    let (line', s') = get_string line s in
    let rest = take_batch room line' s' in
    if s'.fail then ([], s', true) else (line' ∷ rest.0, rest.1, rest.2)

-- The outer loop, with fuel; `none` means that the fuel ran out. The last batch is sent also when it
-- is empty.
unfoldable pub push_loop : ℕ → Stream → Option (List (List Bytes))
push_loop zero s = none
push_loop (suc fuel) s =
    let (cpy, s', done) = take_batch batch_count [] s in
    let rest = push_loop fuel s' in
    if done
    then some (cpy ∷ [])
    else elim rest [ none ↦ none | some batches ↦ some (cpy ∷ batches) ]

-- `push_data_thread` on the text of `ss`: the texts that it sends. A round takes a byte at least.
unfoldable pub push_data_thread : Bytes → Option (List Bytes)
unfolding push_loop
push_data_thread ss = elim (push_loop (suc (length ss)) (open_text ss)) [
  | none ↦ none
  | some batches ↦ some (map (batch_text store) batches)
]

-- `find_data_thread`: the bare text, and a find message of it.
unfoldable pub find_data_thread : Bytes → List Bytes
find_data_thread what = what ∷ batch_text find (what ∷ []) ∷ []

unfoldable pub request_status_thread : Peer → Bytes
request_status_thread host =
    print get_system_status_type ++ 32 ∷ (host.host_name ++ 32 ∷ print host.port_no)

unfoldable pub ping_thread : Bytes
ping_thread = codes "Requesting Ping ... \n"
