-- ===== src/Daemon/Consume/Delivered.antt =====
-- What it means that items were put where they belong, one item at a time and in sequence.
use gorn.Common.{
  ℕ, ◌<◌, ◌≡◌, ◌≢◌, refl, sym, ap, subst, ◌∙◌, ◌⊎◌, inl, inr, Bool, true, false, Option, some, List,
  [], ◌∷◌, ◌++◌, append_assoc, append-nil, arith, length, Bool-cases,
}
use gorn.Text.{Bytes}
use gorn.Daemon.{find_chord_connection}
use gorn.Daemon.Consume.{Node, put_at, bucket, place_all}
use gorn.Daemon.Consume.Queues.{queue_of, select, keeps, sends, bucket-lt, put_at_lem}

-- The queues `qs` and `out` are those that held `before` and `kept`, with the items of `ws` that
-- belong there behind them, in order.
pub record Delivered (own : Bytes → Bool) (via : ℕ → Bytes → Bool) (ws : List Bytes)
    (before : List (List Bytes)) (kept : List Bytes) (qs : List (List Bytes)) (out : List Bytes)
    : Type 0 where
  pub size : length qs ≡ length before
  pub local : out ≡ kept ++ select own ws
  pub remote : (q : ℕ) → queue_of qs q ≡ queue_of before q ++ select (via q) ws

-- What placing one item does to the pair of queues, whichever class it is of.
pub place_one :
    (n : Node) (w : Bytes) (before : List (List Bytes)) (kept : List Bytes)
    → ((index : ℕ)
        → index < 4
        → index ≢ n.node_index
        → (q : ℕ) × (find_chord_connection n.host.port_no n.connections index ≡ some q)
          × (q < length before))
    → ((keeps n w ≡ true)
        × Delivered (keeps n) (sends n) (w ∷ []) before kept before (kept ++ w ∷ []))
      ⊎ ((q : ℕ) × (qs : List (List Bytes)) × (keeps n w ≡ false)
          × (find_chord_connection n.host.port_no n.connections (bucket w) ≡ some q)
          × (put_at q w before ≡ some qs)
          × Delivered (keeps n) (sends n) (w ∷ []) before kept qs kept)
unfolding select
place_one n w before kept wired = elim (Bool-cases (keeps n w)) [
  | inl own ↦ inl (
    own,
    record {
      size = refl;
      local = rw own;
      remote = λ q. rw (own) (sym (append-nil (queue_of before q)));
    },
  )
  | inr other ↦
      let (q, chosen, there) = wired (bucket w) (bucket-lt w) (ground arith) in
      let (qs, put, len, each) = put_at_lem q w before there in
      inr (
        q,
        qs,
        other,
        chosen,
        put,
        record {
          size = len;
          local = rw other (sym (append-nil kept));
          remote =
              λ j. each j ∙ rw (other, chosen) (ground (arith, append-nil (queue_of before j)));
        },
      )
]

pub Delivered-nil :
    (n : Node) (before : List (List Bytes)) (kept : List Bytes)
    → Delivered (keeps n) (sends n) [] before kept before kept
unfolding select
Delivered-nil n before kept = record {
  size = refl;
  local = sym (append-nil kept);
  remote = λ q. sym (append-nil (queue_of before q));
}

select-cons :
    (p : Bytes → Bool) (w : Bytes) (ws : List Bytes)
    → select p (w ∷ ws) ≡ select p (w ∷ []) ++ select p ws
unfolding select
select-cons p w ws = ground arith

pub Delivered-cons :
    (n : Node) (w : Bytes) (ws : List Bytes) {before qs qs' : List (List Bytes)}
    {kept out out' : List Bytes}
    → Delivered (keeps n) (sends n) (w ∷ []) before kept qs out
    → Delivered (keeps n) (sends n) ws qs out qs' out'
    → Delivered (keeps n) (sends n) (w ∷ ws) before kept qs' out'
Delivered-cons n w ws {before} {qs} {qs'} {kept} first later = record {
  size = later.size ∙ first.size;
  local =
      later.local
      ∙ (rw (first.local) (append_assoc kept _ _)
          ∙ ap (λ t. kept ++ t) (sym (select-cons (keeps n) w ws)));
  remote = λ q.
      later.remote q
      ∙ (rw (first.remote q) (append_assoc (queue_of before q) _ _)
          ∙ ap (λ t. queue_of before q ++ t) (sym (select-cons (sends n q) w ws)));
}

abbrev pub Wired : Node → ℕ → Type 0
Wired n size =
    (index : ℕ)
    → index < 4
    → index ≢ n.node_index
    → (q : ℕ) × (find_chord_connection n.host.port_no n.connections index ≡ some q) × (q < size)

pub Wired-size : (n : Node) (a b : ℕ) → a ≡ b → Wired n a → Wired n b
Wired-size n a b e h = subst (Wired n) e h

pub place_step :
    (place : Node → Bytes → Option Node) (n n' : Node) (w : Bytes) (ws : List Bytes)
    → place n w ≡ some n'
    → place_all place n (w ∷ ws) ≡ place_all place n' ws
unfolding place_all
place_step place n n' w ws e = rw (e, place_all)
