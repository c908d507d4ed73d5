-- ===== src/Examples/Sessions.antt =====
-- A session that reads two messages, the first longer than its buffer.
use gorn.Common.{ℕ, zero, suc, ◌≡◌, refl, List, [], ◌∷◌, ◌++◌, arith, length, All}
use gorn.Text.{Bytes, codes}
use gorn.Server.{started, session_run, collect_packets, piece_length}
use gorn.Server.Pieces.{Sent, IsCut, all_pieces}
use gorn.Server.Session.{NoZero, reads_of, session_messages}

letters : ℕ → Bytes
letters zero = []
letters (suc n) = b'a' ∷ letters n

length-letters : (n : ℕ) → length (letters n) ≡ n
unfolding letters
length-letters zero = refl
length-letters (suc n) = omega (arith, length-letters n)

letters-NoZero : (n : ℕ) → NoZero (letters n)
unfolding letters
letters-NoZero zero = tt
letters-NoZero (suc n) = (refl, letters-NoZero n)

abbrev long_message : Sent
long_message = record { full = letters 4096 ∷ []; last = codes "bc" }

abbrev short_message : Sent
short_message = record { full = []; last = codes "d" }

abbrev both_messages : List Sent
both_messages = long_message ∷ short_message ∷ []

both_messages-IsCut : All IsCut both_messages
both_messages-IsCut = (
  record { all_full = (length-letters 4096, tt); last_short = omega arith },
  (record { all_full = tt; last_short = omega arith }, tt),
)

session_messages_example :
    (collect_packets piece_length []
        (session_run started (reads_of (all_pieces both_messages))).packets
      ≡ ((letters 4096 ++ codes "bc") ∷ codes "d" ∷ [], []))
    × ((session_run started (reads_of (all_pieces both_messages))).echoed
        ≡ all_pieces both_messages)
session_messages_example =
    session_messages both_messages both_messages-IsCut
      (letters-NoZero 4096, ((refl, (refl, tt)), ((refl, tt), tt)))
