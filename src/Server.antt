-- ===== src/Server.antt =====
-- utils/asio/server.h and `Client::send` of utils/asio/client.h: how the pieces that a socket reads
-- become the messages of a queue. Boost.Asio is not modelled: it calls the handlers with its error
-- codes and the bytes that it read, which are the events of a session here.
pub mod Pieces
pub mod Session
use gorn.Common.{
  ℕ, zero, suc, ◌+◌, Bool, true, false, List, [], ◌∷◌, ◌++◌, ltb, ◌==◌, if◌then◌else◌, length, map,
  concat,
}
use gorn.Text.{Bytes}

-- `max_length` of a session.
abbrev pub piece_length : ℕ
piece_length = 4096

pub record Packet : Type 0 where
  pub packet_bytes : Bytes
  pub index : ℕ

abbrev pub packet_comparator : Packet → Packet → Bool
packet_comparator a b = ltb a.index b.index

-- `std::sort` by the comparator; packets of equal index keep their order.
pub insert_packet : Packet → List Packet → List Packet
insert_packet p [] = p ∷ []
insert_packet p (q ∷ qs) =
    let rest = insert_packet p qs in if packet_comparator q p then q ∷ rest else p ∷ q ∷ qs

pub sort_packets : List Packet → List Packet
unfolding insert_packet
sort_packets [] = []
sort_packets (p ∷ ps) = insert_packet p (sort_packets ps)

-- `ss << vec[k] . data` for each packet.
pub write_packets : List Packet → Bytes
write_packets [] = []
write_packets (p ∷ vec) = p.packet_bytes ++ write_packets vec

-- `collect_packets` on the packets that its queue gives, with those of `vec` already collected: the
-- texts that go to `_queue`, and what `vec` holds in the end.
unfoldable pub collect_packets : ℕ → List Packet → List Packet → List Bytes × List Packet
unfolding write_packets sort_packets
collect_packets max_length vec [] = ([], vec)
collect_packets max_length vec (item ∷ items) =
    let vec' = vec ++ item ∷ [] in
    let full = ltb (length item.packet_bytes) max_length in
    let rest = collect_packets max_length (if full then [] else vec') items in
    if full then (write_packets (sort_packets vec') ∷ rest.0, rest.1) else rest

-- `std::string ( p )` of a buffer with a 0 behind it: the bytes before the first 0.
unfoldable pub c_string : Bytes → Bytes
c_string [] = []
c_string (c ∷ s) = if c == 0 then [] else c ∷ c_string s

-- What a session waits for: the end of a read, the end of a write, or nothing any more.
pub data Pending : Type 0 where
  reading : ℕ → Pending
  writing : Bytes → ℕ → Pending
  deleted : Pending

-- A session, with the packets that it put and the bytes that it wrote back so far.
pub record SessionState : Type 0 where
  pub pending : Pending
  pub packets : List Packet
  pub echoed : List Bytes

-- What Boost.Asio reports: a read with its error and its bytes, a write with its error.
pub data Completion : Type 0 where
  read_done : Bool → Bytes → Completion
  write_done : Bool → Completion

-- `start`, which asks for the first read.
abbrev pub started : SessionState
started = record { pending = reading 1; packets = []; echoed = [] }

unfoldable pub handle_read : SessionState → Bool → Bytes → ℕ → SessionState
handle_read s error bytes index =
    if error
    then record s { pending = deleted }
    else record s { pending = writing bytes (index + 1); echoed = s.echoed ++ bytes ∷ [] }

unfoldable pub handle_write : SessionState → Bool → Bytes → ℕ → SessionState
unfolding c_string
handle_write s error bytes index = if error then record s { pending = deleted } else record s {
  pending = reading (index + 1);
  packets = s.packets ++ record { packet_bytes = c_string bytes; index = index } ∷ [];
}

-- A completion of what the session does not wait for does not come.
abbrev pub complete_as : SessionState → Pending → Completion → SessionState
complete_as s (reading index) (read_done error bytes) = handle_read s error bytes index
complete_as s (reading index) (write_done error) = s
complete_as s (writing bytes index) (read_done error bytes') = s
complete_as s (writing bytes index) (write_done error) = handle_write s error bytes index
complete_as s deleted c = s

unfoldable pub session_run : SessionState → List Completion → SessionState
unfolding handle_read handle_write
session_run s [] = s
session_run s (c ∷ cs) = session_run (complete_as s s.pending c) cs

-- `Client::send`: the request is the message up to its first 0.
unfoldable pub client_send : Bytes → Bytes
unfolding c_string
client_send message = c_string message
