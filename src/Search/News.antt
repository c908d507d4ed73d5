-- ===== src/Search/News.antt =====
-- utils/data/data.h, `search_new`: the loop puts out what `new_items` says.
use gorn.Common.{
  ℕ, zero, suc, ◌+◌, ◌%◌, ◌^◌, ◌≤◌, ◌<◌, ◌≡◌, refl, ap, ◌∙◌, inl, inr, ◌⊎◌, Bool, true, false,
  Option, none, some, List, [], ◌∷◌, ◌++◌, arith, ltb, if◌then◌else◌, length, All, Le, lt_le_trans,
  le_trans,
}
use gorn.Text.{Bytes}
use gorn.Text.Order.{lt_text, text_order}
use gorn.Text.Stream.{open_text, get_string}
use gorn.Text.Stream.Extract.{IsWord, get_string-word_at, get_string-space_at, get_string-end}
use gorn.Files.{delimited}
use gorn.Search.{
  Search, search_round, search_loop, pick, advance, search_end, search_file, search_vector,
  push_output, space,
}
use gorn.Search.Items.{all_below, none_between, none_between-ge, emit}

pub at_end :
    (fuel : ℕ) (left : Bytes) (fail : Bool) (file_line line : Bytes) (xs : List Bytes) (c : ℕ)
    → length xs < fuel
    → search_loop fuel (record {
      input = record { rest = left; eof = true; fail = fail };
      file_line = file_line;
      line = line;
      it_vec = xs ∷ [];
      consecutive_from_vector = c;
      first_from_vector = false;
    })
      ≡ some xs
unfolding search_loop search_round pick search_end advance push_output
at_end zero left fail file_line line xs c h = absurd (omega arith)
at_end (suc fuel) left fail file_line line [] c h = refl
at_end (suc fuel) left fail file_line line (x ∷ xs) c h =
    ap (push_output (some x))
      (at_end fuel left fail file_line x xs ((c + 1) % 2 ^ 64) (omega arith))

-- What is put out of an entry that waits for the next event.
unfoldable pub emit_of : List Bytes → Option Bytes → List Bytes → List Bytes
emit_of ws none xs = []
emit_of ws (some p) xs = emit ws p xs

-- The variables, of a file with the word `w` read and `ws` behind it.
unfoldable pub standing : Bytes → List Bytes → Bytes → List Bytes → ℕ → Bool → Search
standing w ws line xs c first = record {
  input = open_text (space ∷ delimited space ws);
  file_line = w;
  line = line;
  it_vec = xs ∷ [];
  consecutive_from_vector = c;
  first_from_vector = first;
}

-- An entry waits if the last event took it.
abbrev pub Waits : Option Bytes → Bytes → ℕ → Bool → Type 0
Waits none line c first = (c ≡ 0) ⊎ (first ≡ true)
Waits (some p) line c first = (line ≡ p) × (1 ≤ c) × (first ≡ false)

pub next_word :
    (w v : Bytes) (ws : List Bytes)
    → IsWord v
    → get_string w (open_text (space ∷ delimited space (v ∷ ws)))
      ≡ (v, open_text (space ∷ delimited space ws))
unfolding delimited
next_word w v ws h =
    get_string-space_at space w (v ++ space ∷ delimited space ws) refl
    ∙ get_string-word_at space w v (delimited space ws) refl h

-- What a waiting entry gives when the next entry is taken.
take_output :
    (pend : Option Bytes) (line : Bytes) (c : ℕ) (first : Bool)
    → Waits pend line c first
    → c + 1 < 2 ^ 64
    → (if first then none else if ltb 1 ((c + 1) % 2 ^ 64) then some line else none) ≡ pend
take_output none line c true w h = refl
take_output none line c false (inl z) h = rw z refl
take_output none line c false (inr z) h = absurd cc
take_output (some p) line c true (e, n, f) h = absurd cc
take_output (some p) line c false (e, n, f) h =
    let above : ltb 1 ((c + 1) % 2 ^ 64) ≡ true = ground arith in rw (above, e) refl

pub round_vector :
    (w : Bytes) (ws : List Bytes) (line x : Bytes) (xs : List Bytes) (c : ℕ) (first : Bool)
    (fuel : ℕ) (pend : Option Bytes)
    → lt_text w x ≡ false
    → Waits pend line c first
    → c + 1 < 2 ^ 64
    → search_loop (suc fuel) (standing w ws line (x ∷ xs) c first)
      ≡ push_output pend (search_loop fuel (standing w ws x xs (c + 1) false))
unfolding search_loop search_round pick search_vector advance standing
round_vector w ws line x xs c first fuel pend e h k =
    let wrap : (c + 1) % 2 ^ 64 ≡ c + 1 = ground arith in
    rw e (
      ap (λ o. push_output o (search_loop fuel (standing w ws x xs ((c + 1) % 2 ^ 64) false)))
        (take_output pend line c first h k)
      ∙ ap (λ n. push_output pend (search_loop fuel (standing w ws x xs n false))) wrap)

pub round_file :
    (w v : Bytes) (ws : List Bytes) (line x : Bytes) (xs : List Bytes) (c : ℕ) (first : Bool)
    (fuel : ℕ)
    → lt_text w x ≡ true
    → IsWord v
    → search_loop (suc fuel) (standing w (v ∷ ws) line (x ∷ xs) c first)
      ≡ push_output none (search_loop fuel (standing v ws w (x ∷ xs) 0 false))
unfolding search_loop search_round pick search_file standing
round_file w v ws line x xs c first fuel e h = rw (e, next_word w v ws h) refl

pub round_last :
    (w : Bytes) (line x : Bytes) (xs : List Bytes) (c : ℕ) (first : Bool) (fuel : ℕ)
    → lt_text w x ≡ true
    → length (x ∷ xs) < fuel
    → search_loop (suc fuel) (standing w [] line (x ∷ xs) c first) ≡ some (x ∷ xs)
unfolding search_loop search_round pick search_file standing push_output delimited
round_last w line x xs c first fuel e h =
    rw (e, get_string-end w) (ap (push_output none) (at_end fuel [] true w w (x ∷ xs) 0 h))

pub round_stop :
    (w : Bytes) (ws : List Bytes) (line : Bytes) (c : ℕ) (first : Bool) (fuel : ℕ)
    → lt_text w line ≡ false
    → search_loop (suc fuel) (standing w ws line [] c first) ≡ some []
unfolding search_loop search_round pick search_vector standing
round_stop w ws line c first fuel e = rw e refl

abbrev pub list_of : Option Bytes → List Bytes
list_of none = []
list_of (some p) = p ∷ []

pub push_output-list_of :
    (pend : Option Bytes) (l : List Bytes) → push_output pend (some l) ≡ some (list_of pend ++ l)
unfolding push_output
push_output-list_of none l = refl
push_output-list_of (some p) l = refl

-- The three fates of a waiting entry.
pub emit_of-end : (ws : List Bytes) (pend : Option Bytes) → emit_of ws pend [] ≡ []
unfolding emit_of emit
emit_of-end ws none = refl
emit_of-end ws (some p) = refl

pub emit_of-file :
    (w : Bytes) (ws : List Bytes) (pend : Option Bytes) (x line : Bytes) (xs : List Bytes) (c : ℕ)
    (first : Bool)
    → Waits pend line c first
    → Le line w
    → lt_text w x ≡ true
    → emit_of (w ∷ ws) pend (x ∷ xs) ≡ []
unfolding emit_of emit none_between
emit_of-file w ws none x line xs c first h le e = refl
emit_of-file w ws (some p) x line xs c first (same, n, f) le e =
    let low : lt_text w p ≡ false = rw⁻¹ same le in rw (low, e) refl

pub emit_of-vector :
    (w : Bytes) (ws : List Bytes) (pend : Option Bytes) (x : Bytes) (xs : List Bytes)
    → All (Le x) (w ∷ ws)
    → emit_of (w ∷ ws) pend (x ∷ xs) ≡ list_of pend
unfolding emit_of emit all_below
emit_of-vector w ws none x xs h = refl
emit_of-vector w ws (some p) x xs h = rw (none_between-ge (w ∷ ws) p x h, h.0) refl

-- The entries of the vector above a word that is below the first.
pub above-All :
    (w x : Bytes) (xs : List Bytes)
    → lt_text w x ≡ true
    → All (Le x) xs
    → All (λ y. lt_text w y ≡ true) xs
above-All w x [] e h = tt
above-All w x (y ∷ ys) e (p, h) = (lt_le_trans w x y e p, above-All w x ys e h)

pub le-All : (x w : Bytes) (ws : List Bytes) → Le x w → All (Le w) ws → All (Le x) ws
le-All x w [] e h = tt
le-All x w (v ∷ vs) e (p, h) = (le_trans x w v e p, le-All x w vs e h)
