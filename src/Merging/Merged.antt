-- ===== src/Merging/Merged.antt =====
-- utils/data/data.h: which lines `sort_write_file` puts out.
use mathlib.Core.List.{perm_middle}
use mathlib.Core.List.Perm
use gorn.Common.{
  ℕ, suc, ◌≡◌, refl, sym, ap, subst, ◌∙◌, Bool, true, false, ◌||◌, Option, none, some, List, [],
  ◌∷◌, ◌++◌, append_assoc, Perm, arith, All, All-lt_trans, Le, IsSorted, concat, if◌then◌else◌,
  lt_asymm,
}
use gorn.Text.{Bytes}
use gorn.Text.Order.{lt_text, text_order}
use gorn.Merging.{Merging, merge_round, merge_loop, push_line}

-- Some entry is above `w`.
abbrev pub above : Bytes → List Bytes → Bool
above w [] = false
above w (x ∷ xs) = lt_text w x || above w xs

-- The words of the file that are below some entry of the vectors.
abbrev pub kept : List Bytes → List Bytes → List Bytes
kept xs [] = []
kept xs (w ∷ ws) = if above w xs then w ∷ kept xs ws else kept xs ws

above-middle :
    (w x : Bytes) (pre post : List Bytes)
    → above w (pre ++ x ∷ post) ≡ (lt_text w x || above w (pre ++ post))
above-middle w x [] post = refl
above-middle w x (y ∷ pre) post = ground (arith, above-middle w x pre post)

-- An entry that no word is below keeps none.
kept-middle :
    (x : Bytes) (pre post ws : List Bytes)
    → All (Le x) ws
    → kept (pre ++ x ∷ post) ws ≡ kept (pre ++ post) ws
kept-middle x pre post [] h = refl
kept-middle x pre post (w ∷ ws) (p, h) =
    let same : above w (pre ++ x ∷ post) ≡ above w (pre ++ post) =
      above-middle w x pre post ∙ rw p refl in
    rw (same, kept-middle x pre post ws h) refl

kept-none : (ws : List Bytes) → kept [] ws ≡ []
kept-none [] = refl
kept-none (w ∷ ws) = kept-none ws

kept-first :
    (x w : Bytes) (pre post ws : List Bytes)
    → lt_text w x ≡ true
    → kept (pre ++ x ∷ post) (w ∷ ws) ≡ w ∷ kept (pre ++ x ∷ post) ws
kept-first x w pre post ws e =
    let is_above : above w (pre ++ x ∷ post) ≡ true = above-middle w x pre post ∙ rw e refl in
    rw is_above refl

-- What a standing with the words `ws` of the file ahead puts out.
abbrev pub Merged : ℕ → Merging → List Bytes → Type 0
Merged fuel s ws =
    (out : List Bytes) × (merge_loop fuel s ≡ some out)
    × IsSorted out
    × Perm out (kept (concat s.it_vec) ws ++ concat s.it_vec)
    × ((low : Bytes) → All (Le low) ws → All (Le low) (concat s.it_vec) → All (Le low) out)

loop_end : (fuel : ℕ) (s : Merging) → merge_round s ≡ none → merge_loop (suc fuel) s ≡ some []
unfolding merge_loop
loop_end fuel s e =
    let go : Option Merging → Option (List Bytes) =
      λ r. elim r [ none ↦ some [] | some s' ↦ push_line s'.line (merge_loop fuel s') ] in
    ap go e

loop_line :
    (fuel : ℕ) (s s' : Merging) (out : List Bytes)
    → merge_round s ≡ some s'
    → merge_loop fuel s' ≡ some out
    → merge_loop (suc fuel) s ≡ some (s'.line ∷ out)
unfolding merge_loop push_line
loop_line fuel s s' out e h =
    let go : Option Merging → Option (List Bytes) =
      λ r. elim r [ none ↦ some [] | some t ↦ push_line t.line (merge_loop fuel t) ] in
    ap go e ∙ ap (push_line s'.line) h

-- A round that ends the loop has spent the vectors.
pub Merged-end :
    (fuel : ℕ) (s : Merging) (ws : List Bytes)
    → merge_round s ≡ none
    → concat s.it_vec ≡ []
    → Merged (suc fuel) s ws
Merged-end fuel s ws e spent = (
  [],
  loop_end fuel s e,
  tt,
  subst (λ z. Perm [] (kept z ws ++ z)) (sym spent)
      (subst (λ z. Perm [] (z ++ [])) (sym (kept-none ws)) Perm.rfl),
  λ low h k. tt,
)

perm_taken :
    (x : Bytes) (out ks pre post : List Bytes)
    → Perm out (ks ++ (pre ++ post))
    → Perm (x ∷ out) (ks ++ (pre ++ x ∷ post))
perm_taken x out ks pre post p = subst (Perm (x ∷ out)) (append_assoc ks pre (x ∷ post)) (
    Perm.trans (Perm.cons x (subst (Perm out) (sym (append_assoc ks pre post)) p))
      (Perm.symm (perm_middle (ks ++ pre) post)))

All-middle {κ} :
    (P : Bytes → Type κ) (x : Bytes) (pre post : List Bytes)
    → All P (pre ++ x ∷ post)
    → P x × All P (pre ++ post)
All-middle P x [] post h = h
All-middle P x (y ∷ pre) post (p, h) = let (a, b) = All-middle P x pre post h in (a, (p, b))

-- A round that takes an entry `x` of the vectors.
pub Merged-vector :
    (fuel : ℕ) (s s' : Merging) (ws : List Bytes) (x : Bytes) (pre post : List Bytes)
    → merge_round s ≡ some s'
    → s'.line ≡ x
    → concat s.it_vec ≡ pre ++ x ∷ post
    → concat s'.it_vec ≡ pre ++ post
    → All (Le x) (concat s.it_vec)
    → All (Le x) ws
    → Merged fuel s' ws
    → Merged (suc fuel) s ws
Merged-vector fuel s s' ws x pre post e same before behind least h (out, runs, sorted, perm, low) =
    let bounds : (a : Bytes)
        → All (Le a) (concat s.it_vec)
        → Le a x × All (Le a) (concat s'.it_vec) =
      λ a k.
        let (p, q) = All-middle (Le a) x pre post (subst (All (Le a)) before k) in
        (p, subst (All (Le a)) (sym behind) q) in
    let perm' : Perm out (kept (pre ++ post) ws ++ (pre ++ post)) =
      subst (λ z. Perm out (kept z ws ++ z)) behind perm in
    let perm'' : Perm (x ∷ out) (kept (pre ++ x ∷ post) ws ++ (pre ++ x ∷ post)) =
      subst (λ z. Perm (x ∷ out) (z ++ (pre ++ x ∷ post))) (sym (kept-middle x pre post ws h))
        (perm_taken x out (kept (pre ++ post) ws) pre post perm') in
    (
      x ∷ out,
      loop_line fuel s s' out e runs ∙ ap (λ z. some (z ∷ out)) same,
      (low x h (bounds x least).1, sorted),
      subst (λ z. Perm (x ∷ out) (kept z ws ++ z)) (sym before) perm'',
      λ a p q. ((bounds a q).0, low a p (bounds a q).1),
    )

-- A round that takes the word `w` of the file.
pub Merged-file :
    (fuel : ℕ) (s s' : Merging) (w : Bytes) (ws : List Bytes) (x : Bytes) (pre post : List Bytes)
    → merge_round s ≡ some s'
    → s'.line ≡ w
    → s'.it_vec ≡ s.it_vec
    → concat s.it_vec ≡ pre ++ x ∷ post
    → All (Le x) (concat s.it_vec)
    → lt_text w x ≡ true
    → All (Le w) ws
    → Merged fuel s' ws
    → Merged (suc fuel) s (w ∷ ws)
Merged-file fuel s s' w ws x pre post e same vecs before least less h
      (out, runs, sorted, perm, low) =
    let perm' : Perm out (kept (concat s.it_vec) ws ++ concat s.it_vec) =
      subst (λ z. Perm out (kept (concat z) ws ++ concat z)) vecs perm in
    let first : kept (concat s.it_vec) (w ∷ ws) ≡ w ∷ kept (concat s.it_vec) ws =
      subst (λ z. kept z (w ∷ ws) ≡ w ∷ kept z ws) (sym before) (kept-first x w pre post ws less) in
    let move : (a : Bytes) → All (Le a) (concat s.it_vec) → All (Le a) (concat s'.it_vec) =
      λ a. subst (λ z. All (Le a) (concat z)) (sym vecs) in
    (
      w ∷ out,
      loop_line fuel s s' out e runs ∙ ap (λ z. some (z ∷ out)) same,
      (low w h (move w (All-lt_trans w x (concat s.it_vec) (lt_asymm w x less) least)), sorted),
      subst (λ z. Perm (w ∷ out) (z ++ concat s.it_vec)) (sym first) (Perm.cons w perm'),
      λ a p q. (p.0, low a p.1 (move a q)),
    )
