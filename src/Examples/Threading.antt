-- ===== src/Examples/Threading.antt =====
-- Two producers and a consumer on a queue of two places.
use gorn.Common.{ℕ, ◌%◌, ◌^◌, ◌≤◌, ◌≡◌, refl, none, some, List, [], ◌∷◌, ◌++◌, length}
use gorn.Threading.{
  Queue, Event, put_wait, put_push, put_signal, get_wait, get_pop, start, run, step,
}
use gorn.Threading.Fifo.{fifo_run, calls, run-Fifo}
use gorn.Threading.Order.{queue_order}
use gorn.Threading.Progress.{IsFree, run-IsFree}

abbrev events : List (Event ℕ)
events = put_wait ∷ put_wait ∷ put_push 5 ∷ put_push 7 ∷ put_signal ∷ get_wait ∷ get_pop ∷ []

abbrev ended_queue : Queue ℕ
ended_queue = record {
  empty_count = 0;
  fill_count = 0;
  items = 7 ∷ [];
  putting = 0;
  put_done = 1;
  getting = 0;
  get_done = 1;
  sent = 5 ∷ 7 ∷ [];
  received = 5 ∷ [];
  nulls = 0;
}

events-run : run (start 2) events ≡ some ended_queue
unfolding run
events-run = refl

-- A third `put` waits.
full_waits : step ended_queue put_wait ≡ none
unfolding step
full_waits = refl

queue_order_example :
    (length ended_queue.items ≤ 2 % 2 ^ 32)
    × (ended_queue.sent ≡ ended_queue.received ++ ended_queue.items)
    × (ended_queue.nulls ≡ 0)
queue_order_example = queue_order 2 events ended_queue events-run

run-Fifo_example :
    fifo_run (2 % 2 ^ 32) (record { held = []; taken = [] }) (calls events)
    ≡ some (record { held = 7 ∷ []; taken = 5 ∷ [] })
run-Fifo_example = run-Fifo 2 events ended_queue events-run

run-IsFree_example :
    (more : List (Event ℕ)) × (r : Queue ℕ) × (run ended_queue more ≡ some r)
    × IsFree (2 % 2 ^ 32) r
run-IsFree_example = run-IsFree 2 9 events ended_queue events-run
