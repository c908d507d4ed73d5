-- ===== src/Server/Session.antt =====
-- utils/asio/server.h: from the reads of a session to the messages of the queue.
use gorn.Common.{
  ℕ, ◌+◌, ◌≡◌, refl, sym, ap, ◌∙◌, false, List, [], ◌∷◌, ◌++◌, append_assoc, append-nil, arith,
  ◌==◌, map, concat, All,
}
use mathlib.Core.Path.{ap₂}
use gorn.Text.{Bytes}
use gorn.Server.{
  Packet, reading, SessionState, Completion, read_done, write_done, started, c_string, session_run,
  collect_packets, piece_length,
}
use gorn.Server.Pieces.{Sent, IsCut, pieces, all_pieces, packets_of, collect_packets-all_pieces}

-- No byte is 0.
abbrev pub NoZero : Bytes → Type 0
NoZero w = All (λ c. (c == 0) ≡ false) w

c_string-NoZero : (w : Bytes) → NoZero w → c_string w ≡ w
unfolding c_string
c_string-NoZero [] h = refl
c_string-NoZero (c ∷ w) (p, h) = ground (arith, c_string-NoZero w h)

-- The reads of the pieces, each written back, with no errors.
abbrev pub reads_of : List Bytes → List Completion
reads_of [] = []
reads_of (w ∷ ws) = read_done false w ∷ write_done false ∷ reads_of ws

session_run-reads_of :
    (index : ℕ) (packets : List Packet) (echoed ws : List Bytes)
    → All NoZero ws
    → (s : SessionState) × (session_run
          (record { pending = reading index; packets = packets; echoed = echoed })
          (reads_of ws)
        ≡ s)
      × (s.packets ≡ packets ++ packets_of (index + 1) ws)
      × (s.echoed ≡ echoed ++ ws)
unfolding session_run
session_run-reads_of index packets echoed [] all =
    (_, refl, sym (append-nil packets), sym (append-nil echoed))
session_run-reads_of index packets echoed (w ∷ ws) (h, all) =
    let put : Packet = record { packet_bytes = w; index = index + 1 } in
    let (s, ran, held, back) =
      session_run-reads_of (index + 2) (packets ++ put ∷ []) (echoed ++ w ∷ []) ws all in
    (
      s,
      ap₂
            (λ w' i.
              session_run
                (record {
                  pending = reading i;
                  packets = packets ++ record { packet_bytes = w'; index = index + 1 } ∷ [];
                  echoed = echoed ++ w ∷ [];
                })
                (reads_of ws))
            (c_string-NoZero w h) (twice index)
          ∙ ran,
      held
          ∙ (append_assoc packets (put ∷ []) (packets_of (index + 2 + 1) ws)
              ∙ ap (λ i. packets ++ put ∷ packets_of i ws) (later index)),
      back ∙ append_assoc echoed (w ∷ []) ws,
    )
  where
    twice : (i : ℕ) → i + 1 + 1 ≡ i + 2
    twice i = omega arith

    later : (i : ℕ) → i + 2 + 1 ≡ i + 1 + 2
    later i = omega arith

-- Let a session read pieces with no 0 in them and no error, where each message ends with a piece
-- that does not fill the buffer, and all its pieces before do. Then its queue gets each message
-- whole and in order, nothing is left over, and the session wrote every piece back.
pub session_messages :
    (ms : List Sent)
    → All IsCut ms
    → All NoZero (all_pieces ms)
    → let s = session_run started (reads_of (all_pieces ms)) in
      (collect_packets piece_length [] s.packets ≡ (map (λ m. concat (pieces m)) ms, []))
      × (s.echoed ≡ all_pieces ms)
session_messages ms cut clean =
    let (s, ran, held, back) = session_run-reads_of 1 [] [] (all_pieces ms) clean in
    (
      ap (λ (z : SessionState). collect_packets piece_length [] z.packets) ran
          ∙ (ap (collect_packets piece_length []) held ∙ collect_packets-all_pieces 2 ms cut),
      ap (λ (z : SessionState). z.echoed) ran ∙ back,
    )
