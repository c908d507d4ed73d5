-- ===== src/Client/Prompt.antt =====
-- ClientInterface/ClientInterface.cpp: the prompt of `main`.
pub mod Commands
pub mod AtEnd
use gorn.Common.{
  ℕ, zero, suc, Bool, true, false, Option, none, some, List, [], ◌∷◌, ◌++◌, if◌then◌else◌, ◌⊎◌, inl,
  inr,
}
use gorn.Text.{Bytes, codes}
use gorn.Text.Order.{eq_text}
use gorn.Text.Stream.{Stream, open_text, get_string}
use gorn.Text.Stream.Lines.{get_line}
use gorn.Config.{Peer, unset_peer}
use gorn.Config.Files.{parse_config_file}
use gorn.Files.{Disk}
use gorn.Client.{
  read_tokens, push_data_thread, find_data_thread, request_status_thread, ping_thread,
}

-- A file that was loaded, or the texts that a thread hands to its client.
pub data Action : Type 0 where
  loaded : Bytes → Action
  send : List Bytes → Action

unfoldable pub load : Disk → Bytes → Option (List Action)
load d file_name = elim (read_tokens d file_name) [ none ↦ none | some ss ↦ some (loaded ss ∷ []) ]

unfoldable pub push : Disk → Bytes → Option (List Action)
push d file_name = elim (read_tokens d file_name) [
  | none ↦ none
  | some ss ↦ elim (push_data_thread ss) [ none ↦ none | some texts ↦ some (send texts ∷ []) ]
]

-- `if ( command == word ) ...`, and the tests behind it.
unfoldable pub on_command :
    Bytes → Bytes → Option (List Action) → Option (List Action) → Option (List Action)
on_command command word actions others =
    if eq_text command word
    then elim actions [
      | none ↦ none
      | some first ↦ elim others [ none ↦ none | some others_done ↦ some (first ++ others_done) ]
    ]
    else others

-- The tests on the command; `none` when a loop's fuel runs out.
unfoldable pub obey : Disk → Peer → Bytes → Bytes → Option (List Action)
obey d host command argument = on_command command (codes "load") (load d argument) (
    on_command command (codes "ping") (some (send (ping_thread ∷ []) ∷ [])) (
      on_command command (codes "push") (push d argument) (
        on_command command (codes "test") (push d (codes "data/synthetic_test_data")) (
          on_command command (codes "find") (some (send (find_data_thread argument) ∷ [])) (
            on_command command (codes "status") (some (send (request_status_thread host ∷ []) ∷ []))
              (some []))))))

-- What is done with a line.
unfoldable pub do_line : Disk → Peer → Bytes → Option (List Action)
do_line d host line =
    let (command, ss) = get_string [] (open_text line) in obey d host command (get_string [] ss).0

-- So many rounds of the loop over the lines of `std::cin`; it tests no end of the input.
unfoldable pub prompt : Disk → Peer → ℕ → Bytes → Stream → Option (List (List Action))
prompt d host zero line s = some []
prompt d host (suc rounds) line s =
    let (line', s') = get_line line s in
    elim (do_line d host line') [
      | none ↦ none
      | some actions ↦ elim (prompt d host rounds line' s') [
        | none ↦ none
        | some more ↦ some (actions ∷ more)
      ]
    ]

-- `main` after so many rounds: what it returns, or what was done with the lines of `std::cin`.
unfoldable pub main : Disk → List Bytes → ℕ → Bytes → Option (ℕ ⊎ List (List Action))
main d (program ∷ config_file ∷ []) rounds cin =
    elim (parse_config_file d config_file unset_peer []) [
      | none ↦ none
      | some (host, connections) ↦ elim (prompt d host rounds [] (open_text cin)) [
        | none ↦ none
        | some done ↦ some (inr done)
      ]
    ]
main d argv rounds cin = some (inl 1)
