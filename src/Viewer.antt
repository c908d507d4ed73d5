-- ===== src/Viewer.antt =====
-- StatusViewer/StatusViewer.cpp, less its drawing: the requests that it sends and what it does with
-- the messages that come back.
pub mod Polls
use gorn.Common.{
  ℕ, zero, suc, Bool, Option, none, some, List, [], ◌∷◌, ◌++◌, ◌==◌, if◌then◌else◌, ◌⊎◌, inl, inr,
}
use gorn.Text.{Bytes, codes}
use gorn.Text.Stream.Decimal.{print}
use gorn.Files.{Disk}
use gorn.Config.{Peer, unset_peer}
use gorn.Config.Files.{parse_config_file}
use gorn.Message.{extract_type, system_status_type, get_system_status_type}
use gorn.Status.{Floats, InfoPackage}
use gorn.Status.Message.{deserialize_status}

-- What `consumeItem` prints of a message.
pub data Shown : Type 0 where
  failed : Shown
  status_report : Bytes → Shown
  status_request : Shown
  unrecognized : Bytes → Shown

-- `request_status_thread`: the text that is sent, where `host` is the viewer's own.
unfoldable pub request_text : Peer → Bytes
request_text host = print get_system_status_type ++ 32 ∷ (host.host_name ++ 32 ∷ print host.port_no)

-- The request that each round of `request_status_loop` sends to a node.
unfoldable pub requests : Peer → List Peer → List (Peer × Bytes)
requests host [] = []
requests host (c ∷ connections) = (c, request_text host) ∷ requests host connections

-- `main`: what it returns, or the requests of its threads.
unfoldable pub main : Disk → List Bytes → Option (ℕ ⊎ List (Peer × Bytes))
main d (program ∷ hosts_file ∷ []) = elim (parse_config_file d hosts_file unset_peer []) [
  | none ↦ none
  | some (host, connections) ↦ some (inr (requests host connections))
]
main d argv = some (inl 1)

module _ {Float Double : Type 0} (o : Floats Float Double) (unset : ℕ) (unset_double : Double)
    (fresh : InfoPackage Float) where
  -- `consumeItem`; `fresh` is the package of a message object that was just made.
  unfoldable pub consume_message : Bytes → Shown
  consume_message message =
      let type = extract_type unset message in
      let report = deserialize_status o unset unset_double fresh message in
      if type == system_status_type
      then (if report.0 == 0 then status_report message else failed)
      else if type == get_system_status_type
      then status_request
      else unrecognized message

  unfoldable pub consume_item : Option Bytes → Option Shown
  consume_item none = none
  consume_item (some message) = some (consume_message message)

  -- `consumer_thread` on what `get` returns, NULL or an item.
  unfoldable pub consume_each : List (Option Bytes) → List Shown
  consume_each [] = []
  consume_each (item ∷ items) = elim (consume_item item) [
    | none ↦ consume_each items
    | some shown ↦ shown ∷ consume_each items
  ]
