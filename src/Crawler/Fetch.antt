-- ===== src/Crawler/Fetch.antt =====
-- `fetch_data_from_queue_thread` takes an address apart where `save_map` and `save_list` joined it.
use gorn.Common.{
  ℕ, zero, suc, ◌+◌, ◌%◌, ◌^◌, ◌≤◌, ◌<◌, ◌≡◌, refl, sym, ap, map, All, ◌∙◌, Bool, false, Option,
  none, some, List, [], ◌∷◌, ◌++◌, arith, ltb, ◌==◌, if◌then◌else◌, length, take, drop,
  length-append,
}
use gorn.Text.{Bytes}
use gorn.Text.Find.{npos, find_text, substr}
use gorn.Text.Find.Quotes.{Without, find_at-next, find_at-none, find_text-zero, take-append}
use gorn.Crawler.{Node, fetch_node, fetch_each}

drop-append : (w s : Bytes) (c : ℕ) → drop (suc (length w)) (w ++ c ∷ s) ≡ s
drop-append [] s c = refl
drop-append (a ∷ w) s c = drop-append w s c

take-all : (n : ℕ) (s : Bytes) → length s ≤ n → take n s ≡ s
take-all zero [] h = refl
take-all (suc n) [] h = refl
take-all zero (c ∷ s) h = absurd (omega arith)
take-all (suc n) (c ∷ s) h = ap (◌∷◌ c) (take-all n s (omega arith))

substr-front : (w s : Bytes) → substr (w ++ s) 0 (length w) ≡ some w
unfolding substr
substr-front w s =
    let test : ltb (length (w ++ s)) 0 ≡ false = ground arith in rw test (ap some (take-append w s))

substr-back :
    (w s : Bytes) (c : ℕ)
    → length (w ++ c ∷ s) < 2 ^ 63
    → substr (w ++ c ∷ s) (suc (length w)) npos ≡ some s
unfolding substr
substr-back w s c h =
    let test : ltb (length (w ++ c ∷ s)) (suc (length w)) ≡ false =
      ground (arith, length-append w (c ∷ s)) in
    rw test (
      ap some (
        ap (take npos) (drop-append w s c)
        ∙ take-all npos s (omega (arith, length-append w (c ∷ s)))))

fetch_node-joined :
    (w s : Bytes)
    → Without 47 w
    → length (w ++ 47 ∷ s) < 2 ^ 63
    → fetch_node (w ++ 47 ∷ s) ≡ some (record { host = w; dir = 47 ∷ s })
unfolding fetch_node
fetch_node-joined w s h small =
    let t = w ++ 47 ∷ s in
    let found : find_text t (47 ∷ []) 0 ≡ length w =
      find_text-zero t (47 ∷ []) ∙ (find_at-next 47 w s 0 h ∙ omega arith) in
    let short : length w < 2 ^ 63 = omega (arith, length-append w (47 ∷ s)) in
    let inside : (length w == npos) ≡ false = ground arith in
    let behind : (length w + 1) % 2 ^ 64 ≡ suc (length w) = omega arith in
    let with_host : ℕ → Option Bytes → Option Node = λ e o. elim o [
      | none ↦ none
      | some host ↦ elim (substr t ((e + 1) % 2 ^ 64) npos) [
        | none ↦ none
        | some dir ↦ some (record { host = host; dir = 47 ∷ dir })
      ]
    ] in
    let at : ℕ → Option Node = λ e.
      if e == npos
      then elim (substr t 0 e) [
        | none ↦ none
        | some host ↦ some (record { host = host; dir = 47 ∷ [] })
      ]
      else with_host e (substr t 0 e) in
    let branch : Bool → Option Node = λ b.
      if b
      then elim (substr t 0 (length w)) [
        | none ↦ none
        | some host ↦ some (record { host = host; dir = 47 ∷ [] })
      ]
      else with_host (length w) (substr t 0 (length w)) in
    let last : Option Bytes → Option Node =
      λ o. elim o [ none ↦ none | some dir ↦ some (record { host = w; dir = 47 ∷ dir }) ] in
    ap at found
    ∙ (ap branch inside
        ∙ (ap (with_host (length w)) (substr-front w (47 ∷ s))
            ∙ (ap (λ k. last (substr t k npos)) behind ∙ ap last (substr-back w s 47 small))))

substr-whole : (w : Bytes) → length w < 2 ^ 63 → substr w 0 npos ≡ some w
unfolding substr
substr-whole w h =
    let test : ltb (length w) 0 ≡ false = ground arith in
    rw test (ap some (take-all npos w (omega arith)))

fetch_node-alone :
    (w : Bytes)
    → Without 47 w
    → length w < 2 ^ 63
    → fetch_node w ≡ some (record { host = w; dir = 47 ∷ [] })
unfolding fetch_node
fetch_node-alone w h small =
    let none_there : find_text w (47 ∷ []) 0 ≡ npos =
      find_text-zero w (47 ∷ []) ∙ find_at-none 47 [] w 0 h in
    let host : Option Bytes → Option Node =
      λ o. elim o [ none ↦ none | some n ↦ some (record { host = n; dir = 47 ∷ [] }) ] in
    let at : ℕ → Option Node = λ e. if e == npos then host (substr w 0 e) else elim (substr w 0 e) [
      | none ↦ none
      | some n ↦ elim (substr w ((e + 1) % 2 ^ 64) npos) [
        | none ↦ none
        | some dir ↦ some (record { host = n; dir = 47 ∷ dir })
      ]
    ] in
    ap at none_there ∙ ap host (substr-whole w small)

-- The address that `save_map` and `save_list` make of a node.
abbrev pub address : Node → Bytes
address n = n.host ++ n.dir

-- A node whose address can be taken apart: the first slash begins the directory.
abbrev pub IsSplit : Node → Type 0
IsSplit n =
    Without 47 n.host × ((s : Bytes) × (n.dir ≡ 47 ∷ s)) × (length n.host + length n.dir < 2 ^ 63)

fetch_node-address : (n : Node) → IsSplit n → fetch_node (address n) ≡ some n
fetch_node-address n (h, (s, e), small) =
    ap (λ z. fetch_node (n.host ++ z)) e
    ∙ (fetch_node-joined n.host s h
          (omega (arith, length-append n.host (47 ∷ s), ap (λ (z : Bytes). length z) e))
        ∙ ap (λ z. some (record { host = n.host; dir = z })) (sym e))

-- Entries with the addresses of nodes bring back those nodes, in order, and an entry with a host
-- alone brings the host with the directory `/`, if no host has a slash, each directory starts with
-- one and the texts are shorter than 2 ^ 63 bytes.
pub fetch_each-addresses :
    (nodes : List Node) (host : Bytes)
    → All IsSplit nodes
    → Without 47 host
    → length host < 2 ^ 63
    → fetch_each (map address nodes ++ host ∷ [])
      ≡ nodes ++ record { host = host; dir = 47 ∷ [] } ∷ []
unfolding fetch_each
fetch_each-addresses [] host all h small =
    let go : Option Node → List Node = λ o. elim o [ none ↦ [] | some a ↦ a ∷ [] ] in
    ap go (fetch_node-alone host h small)
fetch_each-addresses (n ∷ nodes) host (p, all) h small =
    let rest = fetch_each (map address nodes ++ host ∷ []) in
    let go : Option Node → List Node = λ o. elim o [ none ↦ [] | some a ↦ a ∷ rest ] in
    ap go (fetch_node-address n p) ∙ ap (λ z. n ∷ z) (fetch_each-addresses nodes host all h small)
