-- ===== src/Crawler/Graph/Rounds.antt =====
-- Crawler/Crawler.cpp: the rounds of `connections_thread` take the nodes in the order in which they
-- were allocated.
use gorn.Common.{
  ℕ, zero, suc, ◌+◌, ◌^◌, ◌<◌, ◌≤◌, ◌≡◌, refl, sym, ap, ◌∙◌, subst, inl, inr, ◌⊎◌, Bool, true,
  false, Option, none, some, List, [], ◌∷◌, ◌++◌, append-nil, append_assoc, arith, length,
  length-append, All, Bool-cases, if◌then◌else◌,
}
use gorn.Text.{Bytes}
use gorn.Crawler.Graph.{
  Linked, Graph, get_connections, PointerSet, insert, visit_front, round, rounds,
}
use gorn.Crawler.Graph.Forest.{IsForest, Grows, range, range-append, Extends, links_loop-Ends}

-- The set, when these nodes were there as each pointer was taken from `Q`, the last one first: a
-- pointer goes in if the set neither finds nor refuses it.
abbrev pub replay : PointerSet → List (List Linked) → List ℕ
replay s [] = []
replay s (nodes ∷ history) =
    let held = replay s history in
    let p = length history in
    if s.find nodes held p then held else if s.refuses nodes held p then held else p ∷ held

-- The nodes that a turn added have the pointer that was taken for their parent.
abbrev pub Parents : List Linked → List (List Linked) → Type 0
Parents nodes [] = Unit
Parents nodes (before ∷ history) =
    (more : List Linked) × (nodes ≡ before ++ more)
    × All (λ (n : Linked). n.parent ≡ some (length history)) more
    × Parents before history

-- Of the nodes, the first `taken` were taken from `Q`, one after the other, and pointers to the others
-- are in `Q` in their order; and `M` is what the set made of those that were taken.
pub record IsCrawled (s : PointerSet) (taken : ℕ) (g : Graph) : Type 0 where
  pub forest : IsForest g
  pub left : ℕ
  pub whole : taken + left ≡ length g.nodes
  pub queue : g.queue ≡ range taken left
  pub history : List (List Linked)
  pub turns : length history ≡ taken
  pub past : Parents g.nodes history
  pub met : g.visited ≡ replay s history

-- A number of rounds came to such a graph, and each round took a pointer unless `Q` is empty.
abbrev Took : PointerSet → ℕ → ℕ → Graph → Option Graph → Type 0
Took s count taken g o =
    (h : Graph) × (taken' : ℕ) × (o ≡ some h)
    × IsCrawled s taken' h
    × Grows g h
    × ((taken' ≡ taken + count) ⊎ ((h.queue ≡ []) × (taken' ≤ taken + count)))

range-below : (k n bound : ℕ) → k + n ≤ bound → All (λ p. p < bound) (range k n)
range-below k zero bound h = tt
range-below k (suc n) bound h = (omega arith, range-below (suc k) n bound (omega arith))

module _ (s : PointerSet) where
  -- What a turn does with the set.
  abbrev turn : List Linked → List ℕ → ℕ → List ℕ
  turn nodes held p =
      if s.find nodes held p then held else if s.refuses nodes held p then held else p ∷ held

  replay-turn :
      (taken : ℕ) (g : Graph) (c : IsCrawled s taken g)
      → turn g.nodes g.visited taken ≡ replay s (g.nodes ∷ c.history)
  replay-turn taken g c = (λ i. turn g.nodes (c.met i) (sym c.turns i))

  -- The graph with the first pointer taken and the set as the turn leaves it.
  abbrev popped : ℕ → ℕ → Graph → Graph
  popped taken left g = record {
    nodes = g.nodes;
    queue = range (suc taken) left;
    visited = turn g.nodes g.visited taken;
  }

  turn-below :
      (nodes : List Linked) (held : List ℕ) (p : ℕ)
      → p < length nodes
      → All (λ q. q < length nodes) held
      → All (λ q. q < length nodes) (turn nodes held p)
  turn-below nodes held p b h = elim (Bool-cases (s.find nodes held p)) [
    | inl e ↦ rw e h
    | inr e ↦ elim (Bool-cases (s.refuses nodes held p)) [
      | inl f ↦ rw (e, f) h
      | inr f ↦ rw (e, f) (b, h)
    ]
  ]

  popped-IsForest :
      (taken left : ℕ) (g : Graph)
      → suc taken + left ≡ length g.nodes
      → IsForest g
      → IsForest (popped taken left g)
  popped-IsForest taken left g e h = record {
    ordered = h.ordered;
    queued = range-below (suc taken) left (length g.nodes) (omega (arith, e));
    visited = turn-below g.nodes g.visited taken (omega (arith, e)) h.visited;
  }

  -- What a scan leaves of the popped graph.
  Extends-IsCrawled :
      (taken left : ℕ) (g h : Graph) (c : IsCrawled s taken g)
      → suc taken + left ≡ length g.nodes
      → IsForest h
      → Extends taken (popped taken left g) h
      → IsCrawled s (suc taken) h
  Extends-IsCrawled taken left g h c e forest (more, p, q, r, u) = record {
    forest = forest;
    left = left + length more;
    whole = omega (arith, e, ap length p, length-append g.nodes more);
    queue =
        q
        ∙ (ap (λ z. range (suc taken) left ++ range z (length more)) (sym e)
            ∙ range-append (suc taken) left (length more));
    history = g.nodes ∷ c.history;
    turns = ap suc c.turns;
    past = (
      more,
      p,
      subst (λ z. All (λ (n : Linked). n.parent ≡ some z) more) (sym c.turns) u,
      c.past,
    );
    met = r ∙ replay-turn taken g c;
  }

  insert-popped :
      (taken left : ℕ) (g : Graph)
      → s.find g.nodes g.visited taken ≡ false
      → insert s taken (record g { queue = range (suc taken) left }) ≡ popped taken left g
  unfolding insert
  insert-popped taken left g e = elim (Bool-cases (s.refuses g.nodes g.visited taken)) [
    | inl f ↦ rw (e, f) refl
    | inr f ↦ rw (e, f) refl
  ]

  stay-popped :
      (taken left : ℕ) (g : Graph)
      → s.find g.nodes g.visited taken ≡ true
      → record g { queue = range (suc taken) left } ≡ popped taken left g
  stay-popped taken left g e = rw e refl

  visit_front-Took :
      (page : Bytes) (taken left : ℕ) (g : Graph) (c : IsCrawled s taken g)
      → length page < 2 ^ 63
      → taken + left ≡ length g.nodes
      → g.queue ≡ range taken left
      → Took s 1 taken g (visit_front s page (range taken left) g)
  unfolding visit_front get_connections
  visit_front-Took page taken zero g c small whole queue =
      (g, taken, refl, c, ([], sym (append-nil g.nodes)), inr (queue, omega arith))
  visit_front-Took page taken (suc left) g c small whole queue =
      let whole' : suc taken + left ≡ length g.nodes = omega (arith, whole) in
      let forest = popped-IsForest taken left g whole' c.forest in
      let (r, e, scanned) =
        links_loop-Ends page taken (length page + 2) 0 (popped taken left g) small (omega arith)
          (omega arith) forest (omega (arith, whole)) in
      let (more, grown, _, _, _) = scanned.extends in
      let next : suc taken ≡ taken + 1 = omega arith in
      elim (Bool-cases (s.find g.nodes g.visited taken)) [
        | inl f ↦ rw f (
          record g { queue = range (suc taken) left },
          suc taken,
          refl,
          subst (IsCrawled s (suc taken)) (sym (stay-popped taken left g f)) (
              Extends-IsCrawled taken left g (popped taken left g) c whole' forest (
                [],
                sym (append-nil g.nodes),
                sym (append-nil (range (suc taken) left)),
                refl,
                tt,
              )),
          ([], sym (append-nil g.nodes)),
          inl next,
        )
        | inr f ↦
            let go : Option (Graph × Bool) → Option Graph =
              λ o. elim o [ none ↦ none | some q' ↦ some q'.0 ] in
            rw f (
              r.0,
              suc taken,
              ap go (ap (get_connections page taken) (insert-popped taken left g f) ∙ e),
              Extends-IsCrawled taken left g r.0 c whole' scanned.forest scanned.extends,
              (more, grown),
              inl next,
            )
      ]

  round-Took :
      (page : Bytes) (taken : ℕ) (g : Graph)
      → length page < 2 ^ 63
      → IsCrawled s taken g
      → Took s 1 taken g (round s page g)
  unfolding round
  round-Took page taken g small c =
      subst (λ q. Took s 1 taken g (visit_front s page q g)) (sym c.queue)
        (visit_front-Took page taken c.left g c small c.whole c.queue)

  -- With no pointer in `Q` a round does nothing.
  rounds-empty : (pages : List Bytes) (g : Graph) → g.queue ≡ [] → rounds s pages g ≡ some g
  unfolding rounds round visit_front
  rounds-empty [] g e = refl
  rounds-empty (page ∷ pages) g e =
      let go : List ℕ → Option Graph =
        λ q. elim (visit_front s page q g) [ none ↦ none | some a ↦ rounds s pages a ] in
      ap go e ∙ rounds-empty pages g e

  Took-next :
      (page : Bytes) (pages : List Bytes) (taken t₁ : ℕ) (g g₁ : Graph)
      → round s page g ≡ some g₁
      → IsCrawled s t₁ g₁
      → Grows g g₁
      → (t₁ ≡ taken + 1) ⊎ ((g₁.queue ≡ []) × (t₁ ≤ taken + 1))
      → Took s (length pages) t₁ g₁ (rounds s pages g₁)
      → Took s (length (page ∷ pages)) taken g (rounds s (page ∷ pages) g)
  unfolding rounds
  Took-next page pages taken t₁ g g₁ e₁ c₁ (more₁, q₁) (inr (empty, few)) rest =
      let go : Option Graph → Option Graph =
        λ o. elim o [ none ↦ none | some a ↦ rounds s pages a ] in
      (
        g₁,
        t₁,
        ap go e₁ ∙ rounds-empty pages g₁ empty,
        c₁,
        (more₁, q₁),
        inr (empty, omega (arith, few)),
      )
  Took-next page pages taken t₁ g g₁ e₁ c₁ (more₁, q₁) (inl one)
        (g₂, t₂, e₂, c₂, (more₂, q₂), rest) =
      let go : Option Graph → Option Graph =
        λ o. elim o [ none ↦ none | some a ↦ rounds s pages a ] in
      (
        g₂,
        t₂,
        ap go e₁ ∙ e₂,
        c₂,
        (more₁ ++ more₂, q₂ ∙ (ap (λ z. z ++ more₂) q₁ ∙ append_assoc g.nodes more₁ more₂)),
        counted rest,
      )
    where
      counted :
          (t₂ ≡ t₁ + length pages) ⊎ ((g₂.queue ≡ []) × (t₂ ≤ t₁ + length pages))
          → (t₂ ≡ taken + length (page ∷ pages))
            ⊎ ((g₂.queue ≡ []) × (t₂ ≤ taken + length (page ∷ pages)))
      counted (inl e) = inl (omega (arith, one, e))
      counted (inr (q, e)) = inr (q, omega (arith, one, e))

  -- Rounds on pages shorter than 2 ^ 63 bytes come to an end, whatever the set finds and refuses, and
  -- keep this: the first `taken` nodes were taken from `Q`, one after the other, and `Q` has pointers
  -- to all others, in the order in which they were allocated; `M` has, of the pointers that were taken,
  -- those that the set, as it was then, neither found nor refused; the nodes that a round allocated have
  -- the pointer that it took for their parent, and no node is lost. Each round takes one pointer,
  -- unless `Q` is empty in the end.
  pub rounds-IsCrawled :
      (pages : List Bytes) (taken : ℕ) (g : Graph)
      → All (λ page. length page < 2 ^ 63) pages
      → IsCrawled s taken g
      → (h : Graph) × (taken' : ℕ) × (rounds s pages g ≡ some h)
        × IsCrawled s taken' h
        × Grows g h
        × ((taken' ≡ taken + length pages) ⊎ ((h.queue ≡ []) × (taken' ≤ taken + length pages)))
  unfolding rounds
  rounds-IsCrawled [] taken g small c =
      (g, taken, refl, c, ([], sym (append-nil g.nodes)), inl (omega arith))
  rounds-IsCrawled (page ∷ pages) taken g (p, small) c =
      let (g₁, t₁, e₁, c₁, grown, one) = round-Took page taken g p c in
      Took-next page pages taken t₁ g g₁ e₁ c₁ grown one (rounds-IsCrawled pages t₁ g₁ small c₁)
