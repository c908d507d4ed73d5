-- ===== src/Status/Request.antt =====
-- HashTableDaemon/HashTableDaemon.cpp: what `consumeItem` does with a request for the system status.
pub mod Answered
use gorn.Common.{ℕ, Bool, Option, none, some, List, [], ◌==◌, if◌then◌else◌}
use gorn.Text.{Bytes}
use gorn.Text.Stream.{open_text, get_string}
use gorn.Message.{extract_type, get_system_status_type}
use gorn.System.Cpu.{Cpus}
use gorn.Status.{Floats, InfoPackage}
use gorn.Status.Message.{serialize_status}
use gorn.Status.Files.Construct.{Arithmetic, Sources, construct_status_message}

-- The host and the port behind the type number of a request.
unfoldable pub requested_by : Bytes → Bytes × Bytes
requested_by message =
    let (type, s₁) = get_string [] (open_text message) in
    let (host, s₂) = get_string [] s₁ in let (port_s, s₃) = get_string [] s₂ in (host, port_s)

-- What `consumeItem` does with a message, as far as requests for the status go: it is none, or the
-- status could not be read, or a text is sent to a host and a port, and the counters are kept.
pub data Answer : Type 0 where
  no_request no_status : Answer
  answered : Bytes → Bytes → Bytes → Cpus → Answer

module _ {Float Double : Type 0} (o : Floats Float Double) (unset : Float)
    (m : Arithmetic Float Double) where
  -- The case of GET_SYSTEM_STATUS_TYPE, when the status was read.
  unfoldable pub send_status : Bytes → Option (InfoPackage Float × Cpus) → Answer
  send_status message none = no_status
  send_status message (some (status, cpus)) =
      let (host, port_s) = requested_by message in
      answered host port_s (serialize_status o status) cpus

  -- The `switch` on the type of a message; `unset_type` is what a failed extraction leaves.
  unfoldable pub answer : ℕ → Sources → Bytes → Answer
  answer unset_type n message =
      let status = construct_status_message o unset m n in
      if extract_type unset_type message == get_system_status_type
      then send_status message status
      else no_request
