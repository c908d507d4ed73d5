-- ===== src/Server/Pieces.antt =====
-- utils/asio/server.h: `collect_packets` puts the pieces of each message together.
use gorn.Common.{
  ℕ, ◌+◌, ◌<◌, ◌≡◌, refl, ap, ◌∙◌, true, false, List, [], ◌∷◌, ◌++◌, append_assoc, arith, ltb,
  length, map, concat, All,
}
use gorn.Text.{Bytes}
use gorn.Server.{Packet, insert_packet, sort_packets, write_packets, collect_packets, piece_length}

-- What a peer sends up to the next piece that does not fill the buffer.
pub record Sent : Type 0 where
  pub full : List Bytes
  pub last : Bytes

pub record IsCut (m : Sent) : Type 0 where
  pub all_full : All (λ w. length w ≡ piece_length) m.full
  pub last_short : length m.last < piece_length

abbrev pub pieces : Sent → List Bytes
pieces m = m.full ++ m.last ∷ []

abbrev pub all_pieces : List Sent → List Bytes
all_pieces [] = []
all_pieces (m ∷ ms) = pieces m ++ all_pieces ms

-- The packets of pieces, numbered by twos from `index`.
abbrev pub packets_of : ℕ → List Bytes → List Packet
packets_of index [] = []
packets_of index (w ∷ ws) = record { packet_bytes = w; index = index } ∷ packets_of (index + 2) ws

abbrev pub index_after : ℕ → List Bytes → ℕ
index_after index [] = index
index_after index (w ∷ ws) = index_after (index + 2) ws

packets_of-append :
    (index : ℕ) (xs ys : List Bytes)
    → packets_of index (xs ++ ys) ≡ packets_of index xs ++ packets_of (index_after index xs) ys
packets_of-append index [] ys = refl
packets_of-append index (x ∷ xs) ys =
    ap (λ z. record { packet_bytes = x; index = index } ∷ z) (packets_of-append (index + 2) xs ys)

-- They stand in order already.
insert_packet-first :
    (index : ℕ) (w : Bytes) (ws : List Bytes)
    → insert_packet (record { packet_bytes = w; index = index }) (packets_of (index + 2) ws)
      ≡ packets_of index (w ∷ ws)
unfolding insert_packet
insert_packet-first index w [] = refl
insert_packet-first index w (v ∷ ws) = ground arith

sort_packets-packets_of :
    (index : ℕ) (ws : List Bytes) → sort_packets (packets_of index ws) ≡ packets_of index ws
unfolding sort_packets
sort_packets-packets_of index [] = refl
sort_packets-packets_of index (w ∷ ws) =
    ap (λ z. insert_packet (record { packet_bytes = w; index = index }) z)
      (sort_packets-packets_of (index + 2) ws)
    ∙ insert_packet-first index w ws

write_packets-packets_of :
    (index : ℕ) (ws : List Bytes) → write_packets (packets_of index ws) ≡ concat ws
unfolding write_packets
write_packets-packets_of index [] = refl
write_packets-packets_of index (w ∷ ws) = ap (λ z. w ++ z) (write_packets-packets_of (index + 2) ws)

-- What `collect_packets` does at the packets of one message, with `vec` collected before.
collect_packets-pieces :
    (vec more : List Packet) (index : ℕ) (full : List Bytes) (last : Bytes)
    → All (λ w. length w ≡ piece_length) full
    → length last < piece_length
    → collect_packets piece_length vec (packets_of index (full ++ last ∷ []) ++ more) ≡ (
      write_packets (sort_packets (vec ++ packets_of index (full ++ last ∷ [])))
          ∷ (collect_packets piece_length [] more).0,
      (collect_packets piece_length [] more).1,
    )
unfolding collect_packets
collect_packets-pieces vec more index [] last all short =
    let test : ltb (length last) piece_length ≡ true = ground arith in rw test refl
collect_packets-pieces vec more index (w ∷ full) last (p, all) short =
    let test : ltb (length w) piece_length ≡ false = ground arith in
    let first : Packet = record { packet_bytes = w; index = index } in
    rw test (
      collect_packets-pieces (vec ++ first ∷ []) more (index + 2) full last all short
      ∙ ap done (append_assoc vec (first ∷ []) (packets_of (index + 2) (full ++ last ∷ []))))
  where
    done : List Packet → List Bytes × List Packet
    done packets = (
      write_packets (sort_packets packets) ∷ (collect_packets piece_length [] more).0,
      (collect_packets piece_length [] more).1,
    )

-- From pieces in order, each message comes out whole.
pub collect_packets-all_pieces :
    (index : ℕ) (ms : List Sent)
    → All IsCut ms
    → collect_packets piece_length [] (packets_of index (all_pieces ms))
      ≡ (map (λ m. concat (pieces m)) ms, [])
unfolding collect_packets
collect_packets-all_pieces index [] all = refl
collect_packets-all_pieces index (m ∷ ms) (cut, all) =
    let next = packets_of (index_after index (pieces m)) (all_pieces ms) in
    let cons : List Bytes × List Packet → List Bytes × List Packet =
      λ r. (concat (pieces m) ∷ r.0, r.1) in
    ap (collect_packets piece_length []) (packets_of-append index (pieces m) (all_pieces ms))
    ∙ (collect_packets-pieces [] next index m.full m.last cut.all_full cut.last_short
        ∙ (ap head (
              ap write_packets (sort_packets-packets_of index (pieces m))
              ∙ write_packets-packets_of index (pieces m))
            ∙ ap cons (collect_packets-all_pieces (index_after index (pieces m)) ms all)))
  where
    head : Bytes → List Bytes × List Packet
    head w = (
      w
          ∷ (collect_packets piece_length []
              (packets_of (index_after index (m.full ++ m.last ∷ [])) (all_pieces ms))).0,
      (collect_packets piece_length []
          (packets_of (index_after index (m.full ++ m.last ∷ [])) (all_pieces ms))).1,
    )
