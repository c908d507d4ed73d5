-- ===== src/Threading.antt =====
-- utils/multithreading/semaphore.h and utils/multithreading/producer_consumer_queue.h. Each call of a
-- semaphore and each section under the queue's mutex is one event, and threads are told apart only by
-- where in `put` or `get` they stand.
pub mod Order
pub mod Fifo
pub mod Progress
use gorn.Common.{ℕ, zero, suc, ◌+◌, ◌%◌, ◌^◌, Option, none, some, List, [], ◌∷◌, ◌++◌}

-- `signal`, on the `unsigned int` count.
unfoldable pub signal : ℕ → ℕ
signal count = (count + 1) % 2 ^ 32

-- `wait` goes on only with a count above 0.
unfoldable pub wait : ℕ → Option ℕ
wait zero = none
wait (suc count) = some count

module _ {ℓ} (A : Type ℓ) where
  -- The queue, with how many threads stand behind the `wait` and behind the mutex of `put` and of
  -- `get`, and what was put and got so far; `nulls` counts the calls of `get` that return NULL.
  pub record Queue : Type ℓ where
    pub empty_count : ℕ
    pub fill_count : ℕ
    pub items : List A
    pub putting : ℕ
    pub put_done : ℕ
    pub getting : ℕ
    pub get_done : ℕ
    pub sent : List A
    pub received : List A
    pub nulls : ℕ

  pub data Event : Type ℓ where
    put_wait : Event
    put_push : A → Event
    put_signal : Event
    get_wait : Event
    get_pop : Event
    get_signal : Event

module _ {ℓ} {A : Type ℓ} where
  -- The constructor; the semaphore takes its `std::size_t` as an `unsigned int`.
  abbrev pub start : ℕ → Queue A
  start buffer_size = record {
    empty_count = buffer_size % 2 ^ 32;
    fill_count = 0;
    items = [];
    putting = 0;
    put_done = 0;
    getting = 0;
    get_done = 0;
    sent = [];
    received = [];
    nulls = 0;
  }

  wait_empty : Queue A → Option ℕ → Option (Queue A)
  wait_empty q none = none
  wait_empty q (some n) = some (record q { empty_count = n; putting = q.putting + 1 })

  push_item : Queue A → ℕ → A → Option (Queue A)
  push_item q zero item = none
  push_item q (suc n) item = some (record q {
    items = q.items ++ item ∷ [];
    putting = n;
    put_done = q.put_done + 1;
    sent = q.sent ++ item ∷ [];
  })

  signal_fill : Queue A → ℕ → Option (Queue A)
  signal_fill q zero = none
  signal_fill q (suc n) = some (record q { fill_count = signal q.fill_count; put_done = n })

  wait_fill : Queue A → Option ℕ → Option (Queue A)
  wait_fill q none = none
  wait_fill q (some n) = some (record q { fill_count = n; getting = q.getting + 1 })

  pop_item : Queue A → ℕ → List A → Option (Queue A)
  pop_item q zero items = none
  pop_item q (suc n) [] =
      some (record q { getting = n; get_done = q.get_done + 1; nulls = q.nulls + 1 })
  pop_item q (suc n) (item ∷ items) = some (record q {
    items = items;
    getting = n;
    get_done = q.get_done + 1;
    received = q.received ++ item ∷ [];
  })

  signal_empty : Queue A → ℕ → Option (Queue A)
  signal_empty q zero = none
  signal_empty q (suc n) = some (record q { empty_count = signal q.empty_count; get_done = n })

  -- One event; `none` if no thread can do it now.
  unfoldable pub step : Queue A → Event A → Option (Queue A)
  unfolding wait_empty push_item signal_fill wait_fill pop_item signal_empty signal wait
  step q put_wait = wait_empty q (wait q.empty_count)
  step q (put_push item) = push_item q q.putting item
  step q put_signal = signal_fill q q.put_done
  step q get_wait = wait_fill q (wait q.fill_count)
  step q get_pop = pop_item q q.getting q.items
  step q get_signal = signal_empty q q.get_done

  unfoldable pub run : Queue A → List (Event A) → Option (Queue A)
  unfolding step
  run q [] = some q
  run q (e ∷ es) = elim (step q e) [ none ↦ none | some q' ↦ run q' es ]
