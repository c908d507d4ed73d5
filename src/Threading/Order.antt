-- ===== src/Threading/Order.antt =====
-- utils/multithreading/producer_consumer_queue.h: the queue keeps its capacity and its order.
use gorn.Common.{
  ℕ, zero, suc, ◌+◌, ◌%◌, ◌^◌, ◌≤◌, ◌<◌, ◌≡◌, refl, sym, ap, subst, ◌∙◌, Option, none, some, List,
  [], ◌∷◌, ◌++◌, append_assoc, arith, length, length-append,
}
use gorn.Threading.{
  Queue, Event, put_wait, put_push, put_signal, get_wait, get_pop, get_signal, start, step, run,
  signal, wait, wait_empty, push_item, signal_fill, wait_fill, pop_item, signal_empty,
}

-- Below 2 ^ 32 a signal adds 1.
signal_lem : (c n : ℕ) → n < c → c < 2 ^ 32 → signal n ≡ n + 1
unfolding signal
signal_lem c n h k = omega arith

module _ {ℓ} {A : Type ℓ} (c : ℕ) where
  -- Each of the `c` places is free, taken by a thread, or counted; the items are those that were
  -- pushed and are not yet popped, in order.
  pub record Inv (q : Queue A) : Type ℓ where
    pub places : q.empty_count + q.putting + q.put_done + q.fill_count + q.getting + q.get_done ≡ c
    pub counted : length q.items ≡ q.put_done + q.fill_count + q.getting
    pub order : q.sent ≡ q.received ++ q.items
    pub never_null : q.nulls ≡ 0

  abbrev pub Keeps : Option (Queue A) → Type ℓ
  Keeps none = Unit
  Keeps (some q) = Inv q

  module _ (q : Queue A) (h : Inv q) (small : c < 2 ^ 32) where
    wait_empty-Keeps : (n : ℕ) → q.empty_count ≡ n → Keeps (wait_empty q (wait n))
    unfolding wait_empty wait
    wait_empty-Keeps zero e = tt
    wait_empty-Keeps (suc n) e = record {
      places = omega (arith, h.places, e);
      counted = h.counted;
      order = h.order;
      never_null = h.never_null;
    }

    push_item-Keeps : (n : ℕ) (item : A) → q.putting ≡ n → Keeps (push_item q n item)
    unfolding push_item
    push_item-Keeps zero item e = tt
    push_item-Keeps (suc n) item e = record {
      places = omega (arith, h.places, e);
      counted = omega (arith, h.counted, length-append q.items (item ∷ []));
      order = ap (λ z. z ++ item ∷ []) h.order ∙ append_assoc q.received q.items (item ∷ []);
      never_null = h.never_null;
    }

    signal_fill-Keeps : (n : ℕ) → q.put_done ≡ n → Keeps (signal_fill q n)
    unfolding signal_fill
    signal_fill-Keeps zero e = tt
    signal_fill-Keeps (suc n) e =
        let up = signal_lem c q.fill_count (omega (arith, h.places, e)) small in
        record {
          places = omega (arith, h.places, e, up);
          counted = omega (arith, h.counted, e, up);
          order = h.order;
          never_null = h.never_null;
        }

    wait_fill-Keeps : (n : ℕ) → q.fill_count ≡ n → Keeps (wait_fill q (wait n))
    unfolding wait_fill wait
    wait_fill-Keeps zero e = tt
    wait_fill-Keeps (suc n) e = record {
      places = omega (arith, h.places, e);
      counted = omega (arith, h.counted, e);
      order = h.order;
      never_null = h.never_null;
    }

    pop_item-Keeps :
        (n : ℕ) (items : List A) → q.getting ≡ n → q.items ≡ items → Keeps (pop_item q n items)
    unfolding pop_item
    pop_item-Keeps zero items e f = tt
    pop_item-Keeps (suc n) [] e f = absurd (omega (arith, h.counted, e, ap length f))
    pop_item-Keeps (suc n) (item ∷ items) e f = record {
      places = omega (arith, h.places, e);
      counted = omega (arith, h.counted, e, ap length f);
      order =
          h.order ∙ (ap (λ z. q.received ++ z) f ∙ sym (append_assoc q.received (item ∷ []) items));
      never_null = h.never_null;
    }

    signal_empty-Keeps : (n : ℕ) → q.get_done ≡ n → Keeps (signal_empty q n)
    unfolding signal_empty
    signal_empty-Keeps zero e = tt
    signal_empty-Keeps (suc n) e =
        let up = signal_lem c q.empty_count (omega (arith, h.places, e)) small in
        record {
          places = omega (arith, h.places, e, up);
          counted = h.counted;
          order = h.order;
          never_null = h.never_null;
        }

    pub step-Keeps : (e : Event A) → Keeps (step q e)
    unfolding step
    step-Keeps put_wait = wait_empty-Keeps q.empty_count refl
    step-Keeps (put_push item) = push_item-Keeps q.putting item refl
    step-Keeps put_signal = signal_fill-Keeps q.put_done refl
    step-Keeps get_wait = wait_fill-Keeps q.fill_count refl
    step-Keeps get_pop = pop_item-Keeps q.getting q.items refl refl
    step-Keeps get_signal = signal_empty-Keeps q.get_done refl

  pub run-Keeps : (q : Queue A) (es : List (Event A)) → Inv q → c < 2 ^ 32 → Keeps (run q es)
  unfolding run
  run-Keeps q [] h small = h
  run-Keeps q (e ∷ es) h small =
      after (step q e) (step-Keeps q h small e) (λ q' h'. run-Keeps q' es h' small)
    where
      after :
          (o : Option (Queue A))
          → Keeps o
          → ((q' : Queue A) → Inv q' → Keeps (run q' es))
          → Keeps (elim o as (λ _. Option (Queue A)) [ none ↦ none | some q' ↦ run q' es ])
      after none k next = tt
      after (some q') k next = next q' k

pub start-Inv {ℓ} :
    {A : Type ℓ} (buffer_size : ℕ) → Inv {A = A} (buffer_size % 2 ^ 32) (start buffer_size)
start-Inv buffer_size = record {
  places = omega arith;
  counted = refl;
  order = refl;
  never_null = refl;
}

-- However the threads interleave on a new queue, it never holds more than its capacity, the
-- `std::size_t` of the constructor modulo 2 ^ 32; what was put is what was got and then what it
-- holds, in order; and no `get` returns NULL.
pub queue_order {ℓ} :
    {A : Type ℓ} (buffer_size : ℕ) (es : List (Event A)) (q : Queue A)
    → run (start buffer_size) es ≡ some q
    → (length q.items ≤ buffer_size % 2 ^ 32) × (q.sent ≡ q.received ++ q.items) × (q.nulls ≡ 0)
queue_order buffer_size es q ran =
    let c = buffer_size % 2 ^ 32 in
    let kept : Inv c q =
      subst (Keeps c) ran
        (run-Keeps c (start buffer_size) es (start-Inv buffer_size) (omega arith)) in
    (omega (arith, kept.places, kept.counted), kept.order, kept.never_null)
