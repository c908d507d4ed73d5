-- ===== src/Client/Prompt/AtEnd.antt =====
-- The prompt at the end of its input.
use gorn.Common.{
  ℕ, zero, suc, ◌≡◌, refl, ap, ◌∙◌, Bool, true, false, Option, none, some, List, [], ◌∷◌, ◌++◌,
  arith, All, length, not, ◌&&◌, ◌+◌, append_assoc,
}
use gorn.Text.{Bytes}
use gorn.Text.Stream.{Stream, open_text, good, is_nil}
use gorn.Text.Stream.Lines.{span_line, take_line, get_line, get_line-line, NotFeed}
use gorn.Config.{Peer}
use gorn.Files.{Disk}
use gorn.QueueFile.Loops.{lines_text, identity}
use gorn.Client.Prompt.{Action, do_line, prompt}

abbrev pub replicate {ℓ} : {A : Type ℓ} → ℕ → A → List A
replicate zero a = []
replicate (suc n) a = a ∷ replicate n a

prompt-step :
    (d : Disk) (host : Peer) (rounds : ℕ) (old line : Bytes) (s s' : Stream) (actions : List Action)
    (more : List (List Action))
    → get_line old s ≡ (line, s')
    → do_line d host line ≡ some actions
    → prompt d host rounds line s' ≡ some more
    → prompt d host (suc rounds) old s ≡ some (actions ∷ more)
unfolding prompt
prompt-step d host rounds old line s s' actions more e f g =
    let last : Option (List (List Action)) → Option (List (List Action)) =
      λ o. elim o [ none ↦ none | some m ↦ some (actions ∷ m) ] in
    let next : Option (List Action) → Option (List (List Action)) = λ o. elim o [
      | none ↦ none
      | some acts ↦ elim (prompt d host rounds line s') [ none ↦ none | some m ↦ some (acts ∷ m) ]
    ] in
    let go : Bytes × Stream → Option (List (List Action)) = λ r. elim (do_line d host r.0) [
      | none ↦ none
      | some acts ↦ elim (prompt d host rounds r.0 r.1) [ none ↦ none | some m ↦ some (acts ∷ m) ]
    ] in
    ap go e ∙ (ap next f ∙ ap last g)

-- A stream that is not good keeps the line.
prompt-stuck :
    (d : Disk) (host : Peer) (rounds : ℕ) (line : Bytes) (s : Stream) (actions : List Action)
    → good s ≡ false
    → do_line d host line ≡ some actions
    → prompt d host rounds line s ≡ some (replicate rounds actions)
unfolding get_line
prompt-stuck d host zero line s actions h e = unfold prompt in refl
prompt-stuck d host (suc rounds) line s actions h e =
    let failed : Stream = record s { fail = true } in
    let still : good failed ≡ false = not_good s.eof in
    prompt-step d host rounds line line s failed actions (replicate rounds actions) (rw h) e
      (prompt-stuck d host rounds line failed actions still e)
  where
    not_good : (b : Bool) → (not b && false) ≡ false
    not_good true = refl
    not_good false = refl

span_line-whole : (w : Bytes) → All NotFeed w → span_line w ≡ (w, none)
unfolding span_line
span_line-whole [] h = refl
span_line-whole (c ∷ w) (p, h) = ground (arith, span_line-whole w h)

-- What is done with each line.
abbrev pub Does : Disk → Peer → List Bytes → List (List Action) → Type 0
Does d host [] [] = Unit
Does d host (l ∷ ls) (a ∷ more) = (do_line d host l ≡ some a) × Does d host ls more
Does d host ls more = ⊥

-- Once each line of the input was obeyed, what stands behind its last line feed, nothing included,
-- is obeyed in every round that follows, however many there are.
pub prompt-repeats :
    (d : Disk) (host : Peer) (lines : List Bytes) (w old : Bytes) (more : List (List Action))
    (actions : List Action) (rounds : ℕ)
    → All (All NotFeed) lines
    → All NotFeed w
    → Does d host lines more
    → do_line d host w ≡ some actions
    → prompt d host (length lines + suc rounds) old (open_text (lines_text identity lines ++ w))
      ≡ some (more ++ replicate (suc rounds) actions)
unfolding get_line take_line
prompt-repeats d host [] w old [] actions rounds h p does e =
    let s : Stream = record { rest = []; eof = true; fail = is_nil w } in
    let read : get_line old (open_text w) ≡ (w, s) = ap take_line (span_line-whole w p) in
    ap (λ k. prompt d host k old (open_text w)) (omega arith)
    ∙ prompt-step d host rounds old w (open_text w) s actions (replicate rounds actions) read e
        (prompt-stuck d host rounds w s actions refl e)
prompt-repeats d host [] w old (a ∷ more) actions rounds h p does e = absurd does
prompt-repeats d host (l ∷ lines) w old [] actions rounds h p does e = absurd does
prompt-repeats d host (l ∷ lines) w old (a ∷ more) actions rounds (q, h) p (first, does) e =
    let after = lines_text identity lines ++ w in
    let text : (l ++ 10 ∷ lines_text identity lines) ++ w ≡ l ++ 10 ∷ after =
      append_assoc l (10 ∷ lines_text identity lines) w in
    let count : suc (length lines) + suc rounds ≡ suc (length lines + suc rounds) = omega arith in
    ap (λ z. prompt d host (suc (length lines) + suc rounds) old (open_text z)) text
    ∙ (ap (λ k. prompt d host k old (open_text (l ++ 10 ∷ after))) count
        ∙ prompt-step d host (length lines + suc rounds) old l (open_text (l ++ 10 ∷ after))
            (open_text after) a (more ++ replicate (suc rounds) actions)
            (get_line-line old l after q) first
            (prompt-repeats d host lines w l more actions rounds h p does e))
