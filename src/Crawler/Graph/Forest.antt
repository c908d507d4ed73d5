-- ===== src/Crawler/Graph/Forest.antt =====
-- The crawled nodes form a tree: each was allocated behind its parent. What a scan of a page does.
use gorn.Common.{
  ℕ, zero, suc, ◌+◌, ◌%◌, ◌^◌, ◌≤◌, ◌<◌, ◌≡◌, refl, sym, ap, ◌∙◌, subst, inl, inr, Bool, true,
  false, Option, none, some, List, [], ◌∷◌, ◌++◌, append-nil, append_assoc, arith, ◌==◌, length,
  length-append, All, All-append, All-imp, Bool-cases,
}
use gorn.Text.{Bytes, codes}
use gorn.Text.Find.{npos, find_text}
use gorn.Crawler.{Node, Target, not_found, target, link_text, target_of}
use gorn.Crawler.Allowed.{find_text-behind}
use gorn.Crawler.Graph.{Linked, Graph, push_node, push_target, links_loop}

-- The parent of the node with the number `k` is a node with a smaller number.
abbrev pub Behind : ℕ → Option ℕ → Type 0
Behind k none = Unit
Behind k (some parent) = parent < k

-- The nodes from the number `k` on stand behind their parents.
abbrev pub Ordered : ℕ → List Linked → Type 0
Ordered k [] = Unit
Ordered k (n ∷ nodes) = Behind k n.parent × Ordered (suc k) nodes

-- Parents were allocated before, and each pointer points to a node.
pub record IsForest (g : Graph) : Type 0 where
  pub ordered : Ordered 0 g.nodes
  pub queued : All (λ p. p < length g.nodes) g.queue
  pub visited : All (λ p. p < length g.nodes) g.visited

-- No node is lost.
abbrev pub Grows : Graph → Graph → Type 0
Grows g h = (more : List Linked) × (h.nodes ≡ g.nodes ++ more)

-- So many numbers from `k` on.
abbrev pub range : ℕ → ℕ → List ℕ
range k zero = []
range k (suc n) = k ∷ range (suc k) n

pub range-append : (k a b : ℕ) → range k a ++ range (k + a) b ≡ range k (a + b)
range-append k zero b =
    let none : k + 0 ≡ k = omega arith in
    let all : 0 + b ≡ b = omega arith in ap (λ z. range z b) none ∙ sym (ap (λ z. range k z) all)
range-append k (suc a) b =
    let shift : k + suc a ≡ suc k + a = omega arith in
    let count : suc a + b ≡ suc (a + b) = omega arith in
    ap (λ z. k ∷ (range (suc k) a ++ range z b)) shift
    ∙ (ap (λ z. k ∷ z) (range-append (suc k) a b) ∙ sym (ap (λ z. range k z) count))

-- Nodes with this parent were added and the pointers to them put behind the queue, and nothing else.
abbrev pub Extends : ℕ → Graph → Graph → Type 0
Extends parent g h =
    (more : List Linked) × (h.nodes ≡ g.nodes ++ more)
    × (h.queue ≡ g.queue ++ range (length g.nodes) (length more))
    × (h.visited ≡ g.visited)
    × All (λ (n : Linked). n.parent ≡ some parent) more

Extends-refl : (parent : ℕ) (g : Graph) → Extends parent g g
Extends-refl parent g = ([], sym (append-nil g.nodes), sym (append-nil g.queue), refl, tt)

Extends-trans :
    (parent : ℕ) (g h k : Graph) → Extends parent g h → Extends parent h k → Extends parent g k
Extends-trans parent g h k (xs, p, q, r, u) (ys, p', q', r', u') =
    let behind : length h.nodes ≡ length g.nodes + length xs =
      ap length p ∙ length-append g.nodes xs in
    let pushed : range (length g.nodes) (length xs) ++ range (length h.nodes) (length ys)
        ≡ range (length g.nodes) (length (xs ++ ys)) =
      ap (λ z. range (length g.nodes) (length xs) ++ range z (length ys)) behind
      ∙ (range-append (length g.nodes) (length xs) (length ys)
          ∙ sym (ap (λ z. range (length g.nodes) z) (length-append xs ys))) in
    (
      xs ++ ys,
      p' ∙ (ap (λ z. z ++ ys) p ∙ append_assoc g.nodes xs ys),
      q'
          ∙ (ap (λ z. z ++ range (length h.nodes) (length ys)) q
              ∙ (append_assoc g.queue (range (length g.nodes) (length xs))
                    (range (length h.nodes) (length ys))
                  ∙ ap (λ z. g.queue ++ z) pushed)),
      r' ∙ r,
      All-append (λ (n : Linked). n.parent ≡ some parent) xs ys u u',
    )

Ordered-append :
    (k : ℕ) (nodes : List Linked) (n : Linked)
    → Ordered k nodes
    → Behind (k + length nodes) n.parent
    → Ordered k (nodes ++ n ∷ [])
Ordered-append k [] n h b = (subst (λ z. Behind z n.parent) (omega arith) b, tt)
Ordered-append k (m ∷ nodes) n (p, h) b =
    (p, Ordered-append (suc k) nodes n h (subst (λ z. Behind z n.parent) (omega arith) b))

longer : (nodes : List Linked) (n : Linked) → length (nodes ++ n ∷ []) ≡ suc (length nodes)
longer nodes n = omega (arith, length-append nodes (n ∷ []))

push_node-IsForest :
    (n : Node) (parent : ℕ) (g : Graph)
    → parent < length g.nodes
    → IsForest g
    → IsForest (push_node n (some parent) g)
unfolding push_node
push_node-IsForest n parent g b h =
    let node : Linked = record { address = n; parent = some parent } in
    let more = longer g.nodes node in
    let keep : (p : ℕ) → p < length g.nodes → p < length (g.nodes ++ node ∷ []) =
      λ p q. omega arith in
    record {
      ordered = Ordered-append 0 g.nodes node h.ordered (omega arith);
      queued =
          All-append (λ p. p < length (g.nodes ++ node ∷ [])) g.queue (length g.nodes ∷ [])
            (All-imp (λ p. p < length g.nodes) (λ p. p < length (g.nodes ++ node ∷ [])) keep g.queue
              h.queued)
            (omega arith, tt);
      visited =
          All-imp (λ p. p < length g.nodes) (λ p. p < length (g.nodes ++ node ∷ [])) keep g.visited
            h.visited;
    }

-- A scan that started at `g` came to `h`.
pub record Scanned (parent : ℕ) (g h : Graph) : Type 0 where
  pub forest : IsForest h
  pub parent_there : parent < length h.nodes
  pub extends : Extends parent g h

push_target-Scanned :
    (parent : ℕ) (t : Target) (g : Graph)
    → parent < length g.nodes
    → IsForest g
    → Scanned parent g (push_target parent t g)
unfolding push_target push_node
push_target-Scanned parent not_found g b h = record {
  forest = h;
  parent_there = b;
  extends = Extends-refl parent g;
}
push_target-Scanned parent (target n key) g b h =
    let node : Linked = record { address = n; parent = some parent } in
    record {
      forest = push_node-IsForest n parent g b h;
      parent_there = omega (arith, longer g.nodes node);
      extends = (node ∷ [], refl, refl, refl, (refl, tt));
    }

Scanned-trans :
    (parent : ℕ) (g h k : Graph) → Scanned parent g h → Scanned parent h k → Scanned parent g k
Scanned-trans parent g h k a b = record {
  forest = b.forest;
  parent_there = b.parent_there;
  extends = Extends-trans parent g h k a.extends b.extends;
}

module _ (output : Bytes) (parent : ℕ) where
  -- The scan came to an end.
  abbrev Ends : Graph → Option (Graph × Bool) → Type 0
  Ends g o = (r : Graph × Bool) × (o ≡ some r) × Scanned parent g r.0

  stays : (g : Graph) → IsForest g → parent < length g.nodes → Scanned parent g g
  stays g h b = record { forest = h; parent_there = b; extends = Extends-refl parent g }

  -- The rest of a round, on what the link gives.
  after_target :
      (go : Graph → Option (Graph × Bool)) (g : Graph) (o : Option Target)
      → IsForest g
      → parent < length g.nodes
      → ((g' : Graph) → IsForest g' → parent < length g'.nodes → Ends g' (go g'))
      → Ends g (elim o [ none ↦ some (g, true) | some t ↦ go (push_target parent t g) ])
  after_target go g none h b ends = ((g, true), refl, stays g h b)
  after_target go g (some t) h b ends =
      let pushed = push_target-Scanned parent t g b h in
      let (r, e, scanned) = ends (push_target parent t g) pushed.forest pushed.parent_there in
      (r, e, Scanned-trans parent g (push_target parent t g) r.0 pushed scanned)

  after_text :
      (go : Graph → Option (Graph × Bool)) (g : Graph) (o : Option Bytes)
      → IsForest g
      → parent < length g.nodes
      → ((g' : Graph) → IsForest g' → parent < length g'.nodes → Ends g' (go g'))
      → Ends g (elim o [
        | none ↦ some (g, true)
        | some str ↦ elim (target_of str) [
          | none ↦ some (g, true)
          | some t ↦ go (push_target parent t g)
        ]
      ])
  after_text go g none h b ends = ((g, true), refl, stays g h b)
  after_text go g (some str) h b ends = after_target go g (target_of str) h b ends

  pub links_loop-Ends :
      (fuel pos : ℕ) (g : Graph)
      → length output < 2 ^ 63
      → pos ≤ length output
      → length output + 2 ≤ pos + fuel
      → IsForest g
      → parent < length g.nodes
      → Ends g (links_loop output parent fuel pos g)
  unfolding links_loop
  links_loop-Ends zero pos g small inside enough h b = absurd (omega arith)
  links_loop-Ends (suc fuel) pos g small inside enough h b =
      let next = find_text output (codes "<a ") ((pos + 1) % 2 ^ 64) in
      elim (Bool-cases (next == npos)) [
        | inl e ↦ rw e ((g, false), refl, stays g h b)
        | inr e ↦
            let (low, high) = find_text-behind output (codes "<a ") pos small inside e in
            rw e (
              after_text (λ g'. links_loop output parent fuel next g') g (link_text output next) h b
                (λ g' h' b'. links_loop-Ends fuel next g' small high (omega arith) h' b'))
      ]
