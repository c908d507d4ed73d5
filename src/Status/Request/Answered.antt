-- ===== src/Status/Request/Answered.antt =====
-- The client's request and the node's answer.
use gorn.Common.{ℕ, ◌≡◌, ap, ◌∙◌, some, [], ◌∷◌, ◌++◌, arith}
use gorn.Text.{Bytes}
use gorn.Text.Stream.{Stream, get_string}
use gorn.Text.Stream.Decimal.{print}
use gorn.Text.Stream.Extract.{
  IsWord, print-IsWord, get_string-word, get_string-space, get_string-whole, get_number-print,
}
use gorn.Config.{Peer}
use gorn.Message.{extract_type, get_system_status_type}
use gorn.Client.{request_status_thread}
use gorn.Status.{Floats, InfoPackage}
use gorn.Status.Message.{serialize_status}
use gorn.Status.Files.Construct.{Arithmetic, Sources, construct_status_message}
use gorn.System.Cpu.{Cpus}
use gorn.Status.Request.{requested_by, Answer, answered, send_status, answer}

pub request_type :
    (unset : ℕ) (host : Peer)
    → extract_type unset (request_status_thread host) ≡ get_system_status_type
unfolding extract_type request_status_thread
request_type unset host =
    ap (λ (r : ℕ × Stream). r.0)
      (get_number-print unset get_system_status_type (host.host_name ++ 32 ∷ print host.port_no)
        (omega arith))

pub requested_by-request :
    (host : Peer)
    → IsWord host.host_name
    → requested_by (request_status_thread host) ≡ (host.host_name, print host.port_no)
unfolding requested_by request_status_thread
requested_by-request host named =
    let name = host.host_name in
    let port = print host.port_no in
    let words : Bytes × Stream → Bytes × Bytes = λ r.
      let (host, s₂) = get_string [] r.1 in let (port_s, s₃) = get_string [] s₂ in (host, port_s) in
    let last : Bytes × Stream → Bytes × Bytes =
      λ r. let (port_s, s₃) = get_string [] r.1 in (r.0, port_s) in
    let pair : Bytes → Bytes × Bytes = λ p. (name, p) in
    ap words (
      get_string-word [] (print get_system_status_type) (name ++ 32 ∷ port)
        (print-IsWord get_system_status_type))
    ∙ (ap last (get_string-space [] (name ++ 32 ∷ port) ∙ get_string-word [] name port named)
        ∙ ap pair (
            ap (λ (r : Bytes × Stream). r.0) (get_string-space [] port)
            ∙ get_string-whole [] port (print-IsWord host.port_no)))

-- The node takes the client's message for a request, and sends its package to the client's host and
-- port, if the host is one word and the package could be read.
pub answer-request :
    {Float Double : Type 0} (o : Floats Float Double) (unset : Float) (m : Arithmetic Float Double)
    (unset_type : ℕ) (n : Sources) (host : Peer) (info : InfoPackage Float) (cpus : Cpus)
    → IsWord host.host_name
    → construct_status_message o unset m n ≡ some (info, cpus)
    → answer o unset m unset_type n (request_status_thread host)
      ≡ answered host.host_name (print host.port_no) (serialize_status o info) cpus
unfolding answer send_status
answer-request o unset m unset_type n host info cpus named read =
    let request = request_status_thread host in
    let send : Bytes × Bytes → Answer =
      λ (r : Bytes × Bytes). answered r.0 r.1 (serialize_status o info) cpus in
    rw (request_type unset_type host)
      (ap (send_status o unset m request) read ∙ ap send (requested_by-request host named))
