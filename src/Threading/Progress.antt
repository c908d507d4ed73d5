-- ===== src/Threading/Progress.antt =====
-- utils/multithreading/producer_consumer_queue.h: no thread is stuck behind its `wait`.
use gorn.Common.{
  ℕ, zero, suc, ◌+◌, ◌-◌, ◌%◌, ◌^◌, ◌<◌, ◌≡◌, refl, ap, subst, ◌∙◌, Option, none, some, List, [],
  ◌∷◌, ◌++◌, arith, length,
}
use gorn.Threading.{
  Queue, Event, put_wait, put_push, put_signal, get_wait, get_pop, get_signal, start, step, run,
  signal, wait, wait_empty, push_item, signal_fill, wait_fill, pop_item, signal_empty,
}
use gorn.Threading.Order.{Inv, Keeps, step-Keeps, run-Keeps, start-Inv}

module _ {ℓ} {A : Type ℓ} where
  -- How many events the threads behind a `wait` have before them.
  abbrev pub pending : Queue A → ℕ
  pending q = q.putting + q.putting + q.put_done + q.getting + q.getting + q.get_done

  -- One of these threads can go on.
  abbrev GoesOn : Queue A → Type ℓ
  GoesOn q = (e : Event A) × (q' : Queue A) × (step q e ≡ some q') × (suc (pending q') ≡ pending q)

  module _ (q : Queue A) where
    push_goes : (n : ℕ) (item : A) → q.putting ≡ suc n → GoesOn q
    unfolding step push_item
    push_goes n item e =
        let q' : Queue A = record q {
          items = q.items ++ item ∷ [];
          putting = n;
          put_done = q.put_done + 1;
          sent = q.sent ++ item ∷ [];
        } in
        (put_push item, q', ap (λ k. push_item q k item) e, omega arith)

    signal_fill_goes : (n : ℕ) → q.put_done ≡ suc n → GoesOn q
    unfolding step signal_fill
    signal_fill_goes n e =
        let q' : Queue A = record q { fill_count = signal q.fill_count; put_done = n } in
        (put_signal, q', ap (λ k. signal_fill q k) e, omega arith)

    signal_empty_goes : (n : ℕ) → q.get_done ≡ suc n → GoesOn q
    unfolding step signal_empty
    signal_empty_goes n e =
        let q' : Queue A = record q { empty_count = signal q.empty_count; get_done = n } in
        (get_signal, q', ap (λ k. signal_empty q k) e, omega arith)

    pop_goes : (n : ℕ) → q.getting ≡ suc n → GoesOn q
    unfolding step pop_item
    pop_goes n e = by_items q.items refl
      where
        by_items : (items : List A) → q.items ≡ items → GoesOn q
        by_items [] f =
            let q' : Queue A = record q {
              getting = n;
              get_done = q.get_done + 1;
              nulls = q.nulls + 1;
            } in
            (get_pop, q', (λ i. pop_item q (e i) (f i)), omega arith)
        by_items (item ∷ items) f =
            let q' : Queue A = record q {
              items = items;
              getting = n;
              get_done = q.get_done + 1;
              received = q.received ++ item ∷ [];
            } in
            (get_pop, q', (λ i. pop_item q (e i) (f i)), omega arith)

    -- As long as a thread is behind its `wait`, one of them can go on.
    goes_on : (item : A) (n : ℕ) → pending q ≡ suc n → GoesOn q
    goes_on item n h = first q.putting q.put_done q.getting q.get_done refl refl refl refl
      where
        first :
            (a b c d : ℕ)
            → q.putting ≡ a
            → q.put_done ≡ b
            → q.getting ≡ c
            → q.get_done ≡ d
            → GoesOn q
        first (suc a) b c d ea eb ec ed = push_goes a item ea
        first zero (suc b) c d ea eb ec ed = signal_fill_goes b eb
        first zero zero (suc c) d ea eb ec ed = pop_goes c ec
        first zero zero zero (suc d) ea eb ec ed = signal_empty_goes d ed
        first zero zero zero zero ea eb ec ed = absurd (omega arith)

  -- A queue with no thread behind a `wait`, and what the next `get` and the next `put` do.
  pub record IsFree (c : ℕ) (q : Queue A) : Type ℓ where
    pub all_done : pending q ≡ 0
    pub filled : q.fill_count ≡ length q.items
    pub places : q.empty_count + length q.items ≡ c
    pub get_ends :
        (x : A) (xs : List A)
        → q.items ≡ x ∷ xs
        → (r : Queue A) × (run q (get_wait ∷ get_pop ∷ get_signal ∷ []) ≡ some r)
          × (r.items ≡ xs)
          × (r.received ≡ q.received ++ x ∷ [])
    pub put_ends :
        (x : A)
        → length q.items < c
        → (r : Queue A) × (run q (put_wait ∷ put_push x ∷ put_signal ∷ []) ≡ some r)
          × (r.items ≡ q.items ++ x ∷ [])
          × (r.sent ≡ q.sent ++ x ∷ [])

  module _ (c : ℕ) (small : c < 2 ^ 32) where
    -- The threads behind a `wait` come to the end of their calls.
    settle :
        (item : A) (n : ℕ) (q : Queue A)
        → pending q ≡ n
        → Inv c q
        → (es : List (Event A)) × (r : Queue A) × (run q es ≡ some r) × (pending r ≡ 0) × Inv c r
    unfolding run
    settle item zero q e h = ([], q, refl, e, h)
    settle item (suc n) q e h =
        let (ev, q', stepped, fewer) = goes_on q item n e in
        let kept : Inv c q' = subst (Keeps c) stepped (step-Keeps c q h small ev) in
        let (es, r, ran, done, held) = settle item n q' (omega arith) kept in
        let go : Option (Queue A) → Option (Queue A) =
          λ o. elim o [ none ↦ none | some s ↦ run s es ] in
        (ev ∷ es, r, ap go stepped ∙ ran, done, held)

    run-step :
        (q q' : Queue A) (e : Event A) (es : List (Event A))
        → step q e ≡ some q'
        → run q (e ∷ es) ≡ run q' es
    unfolding run
    run-step q q' e es stepped =
        let go : Option (Queue A) → Option (Queue A) =
          λ o. elim o [ none ↦ none | some s ↦ run s es ] in
        ap go stepped

    run-nothing : (q : Queue A) → run q [] ≡ some q
    unfolding run
    run-nothing q = refl

    -- A call of `get` on a queue that has counted an item.
    get_call :
        (q : Queue A) (x : A) (xs : List A)
        → q.fill_count ≡ suc (length xs)
        → q.items ≡ x ∷ xs
        → (r : Queue A) × (run q (get_wait ∷ get_pop ∷ get_signal ∷ []) ≡ some r)
          × (r.items ≡ xs)
          × (r.received ≡ q.received ++ x ∷ [])
    unfolding step wait_fill wait pop_item signal_empty
    get_call q x xs e f =
        let s₁ : Queue A = record q { fill_count = length xs; getting = q.getting + 1 } in
        let s₂ : Queue A = record s₁ {
          items = xs;
          getting = q.getting;
          get_done = q.get_done + 1;
          received = q.received ++ x ∷ [];
        } in
        let s₃ : Queue A = record s₂ {
          empty_count = signal q.empty_count;
          get_done = q.get_done;
        } in
        let getting : q.getting + 1 ≡ suc q.getting = omega arith in
        let done : q.get_done + 1 ≡ suc q.get_done = omega arith in
        (
          s₃,
          run-step q s₁ get_wait (get_pop ∷ get_signal ∷ []) (ap (λ k. wait_fill q (wait k)) e)
              ∙ (run-step s₁ s₂ get_pop (get_signal ∷ []) (λ i. pop_item s₁ (getting i) (f i))
                  ∙ (run-step s₂ s₃ get_signal [] (ap (λ k. signal_empty s₂ k) done)
                      ∙ run-nothing s₃)),
          refl,
          refl,
        )

    -- A call of `put` on a queue that has counted a place.
    put_call :
        (q : Queue A) (x : A) (n : ℕ)
        → q.empty_count ≡ suc n
        → (r : Queue A) × (run q (put_wait ∷ put_push x ∷ put_signal ∷ []) ≡ some r)
          × (r.items ≡ q.items ++ x ∷ [])
          × (r.sent ≡ q.sent ++ x ∷ [])
    unfolding step wait_empty wait push_item signal_fill
    put_call q x n e =
        let s₁ : Queue A = record q { empty_count = n; putting = q.putting + 1 } in
        let s₂ : Queue A = record s₁ {
          items = q.items ++ x ∷ [];
          putting = q.putting;
          put_done = q.put_done + 1;
          sent = q.sent ++ x ∷ [];
        } in
        let s₃ : Queue A = record s₂ { fill_count = signal q.fill_count; put_done = q.put_done } in
        let putting : q.putting + 1 ≡ suc q.putting = omega arith in
        let done : q.put_done + 1 ≡ suc q.put_done = omega arith in
        (
          s₃,
          run-step q s₁ put_wait (put_push x ∷ put_signal ∷ []) (ap (λ k. wait_empty q (wait k)) e)
              ∙ (run-step s₁ s₂ (put_push x) (put_signal ∷ []) (ap (λ k. push_item s₁ k x) putting)
                  ∙ (run-step s₂ s₃ put_signal [] (ap (λ k. signal_fill s₂ k) done)
                      ∙ run-nothing s₃)),
          refl,
          refl,
        )

    settled-IsFree : (q : Queue A) → pending q ≡ 0 → Inv c q → IsFree c q
    settled-IsFree q e h =
        let filled : q.fill_count ≡ length q.items = omega (arith, h.counted) in
        let places : q.empty_count + length q.items ≡ c = omega (arith, h.places, h.counted) in
        record {
          all_done = e;
          filled = filled;
          places = places;
          get_ends = λ x xs f. get_call q x xs (filled ∙ ap length f) f;
          put_ends = λ x room. put_call q x (q.empty_count - 1) (omega arith);
        }

-- Wherever an interleaving of threads on a new queue stands, the threads that are behind a `wait`
-- can all end their calls, by some further events. Then the counts are those of the items and of the
-- free places, a `get` ends with the oldest item if there is one, and a `put` ends if a place of
-- the capacity is free.
pub run-IsFree {ℓ} :
    {A : Type ℓ} (buffer_size : ℕ) (item : A) (es : List (Event A)) (q : Queue A)
    → run (start buffer_size) es ≡ some q
    → (more : List (Event A)) × (r : Queue A) × (run q more ≡ some r)
      × IsFree (buffer_size % 2 ^ 32) r
run-IsFree buffer_size item es q ran =
    let c = buffer_size % 2 ^ 32 in
    let kept : Inv c q =
      subst (Keeps c) ran
        (run-Keeps c (start buffer_size) es (start-Inv buffer_size) (omega arith)) in
    let small : c < 2 ^ 32 = omega arith in
    let (more, r, ran', done, held) = settle c small item (pending q) q refl kept in
    (more, r, ran', settled-IsFree c small r done held)
