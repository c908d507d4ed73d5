-- ===== src/Threading/Fifo.antt =====
-- utils/multithreading/producer_consumer_queue.h against its specification, a bounded queue: an
-- item is added behind the others if there is room, and the first item is taken if there is one.
use gorn.Common.{
  ℕ, zero, suc, ◌%◌, ◌^◌, ◌<◌, ◌≡◌, refl, ap, subst, ◌∙◌, true, Option, none, some, List, [], ◌∷◌,
  ◌++◌, arith, ltb, length, if◌then◌else◌,
}
use gorn.Threading.{
  Queue, Event, put_wait, put_push, put_signal, get_wait, get_pop, get_signal, start, step, run,
  push_item, pop_item, signal_fill, signal_empty, wait_empty, wait_fill, wait,
}
use gorn.Threading.Order.{Inv, Keeps, step-Keeps, start-Inv}

-- What a caller sees: an item is added, or the first one is taken.
pub data Call {ℓ} (A : Type ℓ) : Type ℓ where
  add : A → Call A
  take_first : Call A

-- The items that the queue holds, and those that were taken.
pub record Fifo {ℓ} (A : Type ℓ) : Type ℓ where
  pub held : List A
  pub taken : List A

module _ {ℓ} {A : Type ℓ} where
  abbrev take_head : List A → List A → Option (Fifo A)
  take_head [] taken = none
  take_head (x ∷ xs) taken = some (record { held = xs; taken = taken ++ x ∷ [] })

  pub fifo_step : ℕ → Fifo A → Call A → Option (Fifo A)
  fifo_step c s (add x) =
      if ltb (length s.held) c
      then some (record { held = s.held ++ x ∷ []; taken = s.taken })
      else none
  fifo_step c s take_first = take_head s.held s.taken

  pub fifo_run : ℕ → Fifo A → List (Call A) → Option (Fifo A)
  fifo_run c s [] = some s
  fifo_run c s (call ∷ calls) = elim (fifo_step c s call) [
    | none ↦ none
    | some s' ↦ fifo_run c s' calls
  ]

  -- The calls among the events: what happens under the queue's mutex.
  abbrev pub calls : List (Event A) → List (Call A)
  calls [] = []
  calls (put_wait ∷ es) = calls es
  calls (put_push x ∷ es) = add x ∷ calls es
  calls (put_signal ∷ es) = calls es
  calls (get_wait ∷ es) = calls es
  calls (get_pop ∷ es) = take_first ∷ calls es
  calls (get_signal ∷ es) = calls es

  abbrev pub view : Queue A → Fifo A
  view q = record { held = q.items; taken = q.received }

  fifo_run-step :
      (c : ℕ) (s s' : Fifo A) (call : Call A) (rest : List (Call A))
      → fifo_step c s call ≡ some s'
      → fifo_run c s (call ∷ rest) ≡ fifo_run c s' rest
  unfolding fifo_run
  fifo_run-step c s s' call rest e =
      let go : Option (Fifo A) → Option (Fifo A) =
        λ z. elim z [ none ↦ none | some t ↦ fifo_run c t rest ] in
      ap go e

  fifo_step-add :
      (c : ℕ) (s : Fifo A) (x : A)
      → ltb (length s.held) c ≡ true
      → fifo_step c s (add x) ≡ some (record { held = s.held ++ x ∷ []; taken = s.taken })
  unfolding fifo_step
  fifo_step-add c s x e = rw e refl

  fifo_step-take_first :
      (c : ℕ) (s : Fifo A) (x : A) (xs : List A)
      → s.held ≡ x ∷ xs
      → fifo_step c s take_first ≡ some (record { held = xs; taken = s.taken ++ x ∷ [] })
  unfolding fifo_step
  fifo_step-take_first c s x xs e = ap (λ z. take_head z s.taken) e

  module _ (c : ℕ) where
    -- The event does to the specification what it does to the queue.
    abbrev Simulates : Queue A → Event A → Option (Queue A) → Type ℓ
    Simulates q e none = Unit
    Simulates q e (some q') =
        (es : List (Event A))
        → fifo_run c (view q) (calls (e ∷ es)) ≡ fifo_run c (view q') (calls es)

    push_item-Simulates :
        (q : Queue A) (n : ℕ) (x : A)
        → Inv c q
        → q.putting ≡ n
        → Simulates q (put_push x) (push_item q n x)
    unfolding push_item
    push_item-Simulates q zero x h e = tt
    push_item-Simulates q (suc n) x h e = λ es.
        fifo_run-step c (view q) _ (add x) (calls es)
          (fifo_step-add c (view q) x (ground (arith, h.places, h.counted, e)))

    pop_item-Simulates :
        (q : Queue A) (n : ℕ) (items : List A)
        → Inv c q
        → q.getting ≡ n
        → q.items ≡ items
        → Simulates q get_pop (pop_item q n items)
    unfolding pop_item
    pop_item-Simulates q zero items h e f = tt
    pop_item-Simulates q (suc n) [] h e f = absurd (omega (arith, h.counted, e, ap length f))
    pop_item-Simulates q (suc n) (x ∷ items) h e f = λ es.
        fifo_run-step c (view q) _ take_first (calls es) (fifo_step-take_first c (view q) x items f)

    wait_empty-Simulates : (q : Queue A) (n : ℕ) → Simulates q put_wait (wait_empty q (wait n))
    unfolding wait_empty wait
    wait_empty-Simulates q zero = tt
    wait_empty-Simulates q (suc n) = λ es. refl

    wait_fill-Simulates : (q : Queue A) (n : ℕ) → Simulates q get_wait (wait_fill q (wait n))
    unfolding wait_fill wait
    wait_fill-Simulates q zero = tt
    wait_fill-Simulates q (suc n) = λ es. refl

    signal_fill-Simulates : (q : Queue A) (n : ℕ) → Simulates q put_signal (signal_fill q n)
    unfolding signal_fill
    signal_fill-Simulates q zero = tt
    signal_fill-Simulates q (suc n) = λ es. refl

    signal_empty-Simulates : (q : Queue A) (n : ℕ) → Simulates q get_signal (signal_empty q n)
    unfolding signal_empty
    signal_empty-Simulates q zero = tt
    signal_empty-Simulates q (suc n) = λ es. refl

    step-Simulates : (q : Queue A) (e : Event A) → Inv c q → Simulates q e (step q e)
    unfolding step
    step-Simulates q put_wait h = wait_empty-Simulates q q.empty_count
    step-Simulates q (put_push x) h = push_item-Simulates q q.putting x h refl
    step-Simulates q put_signal h = signal_fill-Simulates q q.put_done
    step-Simulates q get_wait h = wait_fill-Simulates q q.fill_count
    step-Simulates q get_pop h = pop_item-Simulates q q.getting q.items h refl refl
    step-Simulates q get_signal h = signal_empty-Simulates q q.get_done

    -- What the specification makes of the calls is what the queue is in the end.
    abbrev Refines : Queue A → List (Event A) → Option (Queue A) → Type ℓ
    Refines q es none = Unit
    Refines q es (some q') = fifo_run c (view q) (calls es) ≡ some (view q')

    run-Refines :
        (q : Queue A) (es : List (Event A)) → Inv c q → c < 2 ^ 32 → Refines q es (run q es)
    unfolding run fifo_run
    run-Refines q [] h small = refl
    run-Refines q (e ∷ es) h small =
        after (step q e) (step-Keeps c q h small e) (step-Simulates q e h)
          (λ q' h'. run-Refines q' es h' small)
      where
        joined :
            (q' : Queue A) (o : Option (Queue A))
            → Simulates q e (some q')
            → Refines q' es o
            → Refines q (e ∷ es) o
        joined q' none sim r = tt
        joined q' (some q'') sim r = sim es ∙ r

        after :
            (o : Option (Queue A))
            → Keeps c o
            → Simulates q e o
            → ((q' : Queue A) → Inv c q' → Refines q' es (run q' es))
            → Refines q
                (e ∷ es)
                (elim o as (λ _. Option (Queue A)) [ none ↦ none | some q' ↦ run q' es ])
        after none k sim next = tt
        after (some q') k sim next = joined q' (run q' es) sim (next q' k)

-- However the threads interleave on a new queue, it does what a bounded queue does on the calls in
-- the order of their sections under the mutex: each `put` has room and each `get` an item, and the
-- items that the queue holds and that were got are the bounded queue's. The bound is the
-- `std::size_t` of the constructor modulo 2 ^ 32.
pub run-Fifo {ℓ} :
    {A : Type ℓ} (buffer_size : ℕ) (es : List (Event A)) (q : Queue A)
    → run (start buffer_size) es ≡ some q
    → fifo_run (buffer_size % 2 ^ 32) (record { held = []; taken = [] }) (calls es)
      ≡ some (record { held = q.items; taken = q.received })
run-Fifo buffer_size es q ran =
    let c = buffer_size % 2 ^ 32 in
    subst (Refines c (start buffer_size) es) ran
      (run-Refines c (start buffer_size) es (start-Inv buffer_size) (omega arith))
