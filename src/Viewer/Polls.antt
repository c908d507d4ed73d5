-- ===== src/Viewer/Polls.antt =====
-- The viewer asks each node for its status and takes each answer.
use gorn.Common.{ℕ, ◌≡◌, refl, sym, ap, subst, ◌∙◌, Bool, some, List, [], ◌∷◌, map, All, arith}
use gorn.Text.{Bytes}
use gorn.Text.Stream.{Stream, open_text, get_number}
use gorn.Text.Stream.Decimal.{print}
use gorn.Text.Stream.Extract.{IsWord, get_number-print}
use gorn.Config.{Peer}
use gorn.System.Cpu.{Cpus}
use gorn.Message.{extract_type, system_status_type}
use gorn.Client.{request_status_thread}
use gorn.Status.{Floats, InfoPackage}
use gorn.Status.Message.{serialize_status, deserialize_status}
use gorn.Status.Files.Construct.{Arithmetic, Sources, construct_status_message}
use gorn.Status.Request.{Answer, no_request, no_status, answered, answer}
use gorn.Status.Request.Answered.{answer-request}
use gorn.Status.RoundTrip.Members.{ExactPackage}
use gorn.Status.RoundTrip.Whole.{serialize_status-parts, deserialize_status-serialize_status}
use gorn.Viewer.{status_report, request_text, requests, consume_message, consume_item, consume_each}

request_text-client : (host : Peer) → request_text host ≡ request_status_thread host
unfolding request_text request_status_thread
request_text-client host = refl

-- The text that is sent.
abbrev pub text_of : Answer → Bytes
text_of no_request = []
text_of no_status = []
text_of (answered host port_s text cpus) = text

module _ {Float Double : Type 0} (o : Floats Float Double) (m : Arithmetic Float Double) (unset : ℕ)
    (unset_float : Float) (unset_double : Double) (fresh : InfoPackage Float) where
  extract_type-serialize_status :
      (info : InfoPackage Float) → extract_type unset (serialize_status o info) ≡ system_status_type
  unfolding extract_type
  extract_type-serialize_status info =
      ap (λ t. (get_number unset (open_text t)).0) (serialize_status-parts o info)
      ∙ ap (λ (r : ℕ × Stream). r.0) (get_number-print unset system_status_type _ (omega arith))

  -- The node's status can be read, and every number of it comes back through text.
  abbrev pub Reports : Sources → Type 0
  Reports n =
      (info : InfoPackage Float) × (cpus : Cpus) × (construct_status_message o unset_float m n
        ≡ some (info, cpus))
      × ExactPackage o unset_double fresh.m_system_info.p_memory_percent info

  consume_message-status :
      (info : InfoPackage Float)
      → ExactPackage o unset_double fresh.m_system_info.p_memory_percent info
      → consume_message o unset unset_double fresh (serialize_status o info)
        ≡ status_report (serialize_status o info)
  unfolding consume_message
  consume_message-status info exact =
      let type = extract_type-serialize_status info in
      let status : (deserialize_status o unset unset_double fresh (serialize_status o info)).0 ≡ 0 =
        ap (λ (r : ℕ × InfoPackage Float × Bool). r.0)
          (deserialize_status-serialize_status o unset unset_double fresh info exact) in
      rw (type, status) refl

  module _ (state_of : Peer → Sources) where
    -- What the asked node does with a request.
    abbrev pub answer_of : Peer × Bytes → Answer
    answer_of r = answer o unset_float m unset (state_of r.0) r.1

    -- The node takes a request and sends a text to the host and the port.
    abbrev pub AnswersTo : Peer → Peer × Bytes → Type 0
    AnswersTo host r =
        (cpus : Cpus) × (answer_of r
          ≡ answered host.host_name (print host.port_no) (text_of (answer_of r)) cpus)

    answer_of-request :
        (host c : Peer)
        → IsWord host.host_name
        → Reports (state_of c)
        → (info : InfoPackage Float) × (cpus : Cpus) × (answer_of (c, request_text host)
            ≡ answered host.host_name (print host.port_no) (serialize_status o info) cpus)
          × ExactPackage o unset_double fresh.m_system_info.p_memory_percent info
    answer_of-request host c named (info, cpus, read, exact) = (
      info,
      cpus,
      ap (λ z. answer_of (c, z)) (request_text-client host)
          ∙ answer-request o unset_float m unset (state_of c) host info cpus named read,
      exact,
    )

    answer_of-text :
        (host : Peer) (r : Peer × Bytes) (text : Bytes) (cpus : Cpus)
        → answer_of r ≡ answered host.host_name (print host.port_no) text cpus
        → AnswersTo host r
    answer_of-text host r text cpus e = (
      cpus,
      e ∙ sym (ap (λ z. answered host.host_name (print host.port_no) z cpus) (ap text_of e)),
    )

    consume_message-answer :
        (r : Peer × Bytes) (host port text : Bytes) (cpus : Cpus)
        → answer_of r ≡ answered host port text cpus
        → consume_message o unset unset_double fresh text ≡ status_report text
        → consume_message o unset unset_double fresh (text_of (answer_of r))
          ≡ status_report (text_of (answer_of r))
    consume_message-answer r host port text cpus e h =
        let same : text ≡ text_of (answer_of r) = sym (ap text_of e) in
        subst (λ z. consume_message o unset unset_double fresh z ≡ status_report z) same h

    -- Each node that the viewer asks takes the text for a request and sends its answer to the viewer's
    -- host and port, and the viewer takes each answer, in the order of the requests, for a status
    -- report, if its host is one word, each node can read its status, and every number of it comes back
    -- through `float`, text and `double`.
    pub consume_each-replies :
        (host : Peer) (connections : List Peer)
        → IsWord host.host_name
        → All (λ c. Reports (state_of c)) connections
        → All (AnswersTo host) (requests host connections)
          × (consume_each o unset unset_double fresh
                (map (λ r. some (text_of (answer_of r))) (requests host connections))
              ≡ map (λ r. status_report (text_of (answer_of r))) (requests host connections))
    unfolding requests consume_each consume_item
    consume_each-replies host [] named exact = (tt, refl)
    consume_each-replies host (c ∷ connections) named (p, exact) =
        let r : Peer × Bytes = (c, request_text host) in
        let (info, cpus, sent, good) = answer_of-request host c named p in
        let (rest, more) = consume_each-replies host connections named exact in
        let others =
          consume_each o unset unset_double fresh
            (map (λ q. some (text_of (answer_of q))) (requests host connections)) in
        (
          (answer_of-text host r (serialize_status o info) cpus sent, rest),
          ap (λ z. z ∷ others)
                (consume_message-answer r host.host_name (print host.port_no)
                  (serialize_status o info) cpus sent (consume_message-status info good))
              ∙ ap (λ z. status_report (text_of (answer_of r)) ∷ z) more,
        )
