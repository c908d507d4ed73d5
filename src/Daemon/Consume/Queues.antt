-- ===== src/Daemon/Consume/Queues.antt =====
-- The queues that `consumeItem` feeds, and the tests that say where an item goes.
use gorn.Common.{
  ℕ, zero, suc, ◌<◌, ◌≡◌, refl, ap, ◌∙◌, Bool, false, not, ◌&&◌, Option, none, some, List, [], ◌∷◌,
  ◌++◌, arith, ◌==◌, if◌then◌else◌, length,
}
use gorn.Text.{Bytes}
use gorn.Daemon.{find_chord_connection}
use gorn.Daemon.Consume.{Node, put_at, bucket}

-- The queue behind a number, empty where there is none.
unfoldable pub queue_of : List (List Bytes) → ℕ → List Bytes
queue_of [] k = []
queue_of (q ∷ qs) zero = q
queue_of (q ∷ qs) (suc k) = queue_of qs k

-- The items that a test selects, in order.
unfoldable pub select : (Bytes → Bool) → List Bytes → List Bytes
select p [] = []
select p (w ∷ ws) = if p w then w ∷ select p ws else select p ws

abbrev pub keeps : Node → Bytes → Bool
keeps n w = bucket w == n.node_index

abbrev pub is_some : Option ℕ → ℕ → Bool
is_some none q = false
is_some (some p) q = p == q

-- The item goes out through connection `q`.
abbrev pub sends : Node → ℕ → Bytes → Bool
sends n q w =
    not (keeps n w) && is_some (find_chord_connection n.host.port_no n.connections (bucket w)) q

pub bucket-lt : (w : Bytes) → bucket w < 4
bucket-lt [] = omega arith
bucket-lt (c ∷ s) = omega arith

pub put_at_lem :
    (k : ℕ) (w : Bytes) (qs : List (List Bytes))
    → k < length qs
    → (qs' : List (List Bytes)) × (put_at k w qs ≡ some qs')
      × (length qs' ≡ length qs)
      × ((j : ℕ) → queue_of qs' j ≡ (if k == j then queue_of qs j ++ w ∷ [] else queue_of qs j))
unfolding put_at queue_of
put_at_lem k w [] h = absurd (omega arith)
put_at_lem zero w (q ∷ qs) h = ((q ++ w ∷ []) ∷ qs, refl, refl, at)
  where
    at :
        (j : ℕ)
        → queue_of ((q ++ w ∷ []) ∷ qs) j
          ≡ (if 0 == j then queue_of (q ∷ qs) j ++ w ∷ [] else queue_of (q ∷ qs) j)
    at zero = refl
    at (suc j) = ground arith
put_at_lem (suc k) w (q ∷ qs) h =
    let (qs', put, len, each) = put_at_lem k w qs (omega arith) in
    (q ∷ qs', rw (put, put_at), ap suc len, at qs' each)
  where
    at :
        (qs' : List (List Bytes))
        → ((j : ℕ) → queue_of qs' j ≡ (if k == j then queue_of qs j ++ w ∷ [] else queue_of qs j))
        → (j : ℕ)
        → queue_of (q ∷ qs') j
          ≡ (if suc k == j then queue_of (q ∷ qs) j ++ w ∷ [] else queue_of (q ∷ qs) j)
    at qs' each zero = ground arith
    at qs' each (suc j) = each j ∙ ground arith
