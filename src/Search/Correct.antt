-- ===== src/Search/Correct.antt =====
-- utils/data/data.h, `search_new`: what the whole loop and the whole function put out.
use gorn.Common.{
  ℕ, zero, suc, ◌+◌, ◌^◌, ◌<◌, ◌≡◌, refl, sym, ap, ◌∙◌, inl, inr, Bool, true, false, Option, none,
  some, List, [], ◌∷◌, ◌++◌, arith, length, All, Le, IsSorted, Bool-cases,
}
use gorn.Text.{Bytes}
use gorn.Text.Order.{lt_text, text_order}
use gorn.Text.Stream.Extract.{IsWord}
use gorn.Search.{search_loop, push_output}
use gorn.Search.Items.{all_below, emit, new_items, new_items-below, new_items-empty}
use gorn.Search.News.{
  emit_of, standing, Waits, round_vector, round_file, round_last, round_stop, push_output-list_of,
  emit_of-end, emit_of-file, emit_of-vector, above-All, le-All,
}

-- What is put out from a standing on.
abbrev Outcome : ℕ → Bytes → List Bytes → Bytes → List Bytes → ℕ → Bool → Option Bytes → Type 0
Outcome fuel w ws line xs c first pend =
    search_loop fuel (standing w ws line xs c first)
    ≡ some (emit_of (w ∷ ws) pend xs ++ new_items (w ∷ ws) xs)

vector_case :
    (fuel : ℕ) (w : Bytes) (ws : List Bytes) (line x : Bytes) (xs : List Bytes) (c : ℕ)
    (first : Bool) (pend : Option Bytes)
    → All (Le x) (w ∷ ws)
    → Waits pend line c first
    → c + 1 < 2 ^ 64
    → Outcome fuel w ws x xs (c + 1) false (some x)
    → Outcome (suc fuel) w ws line (x ∷ xs) c first pend
unfolding new_items all_below emit_of
vector_case fuel w ws line x xs c first pend h waits k ih =
    round_vector w ws line x xs c first fuel pend h.0 waits k
    ∙ (ap (push_output pend) ih
        ∙ (push_output-list_of pend (emit (w ∷ ws) x xs ++ new_items (w ∷ ws) xs)
            ∙ rw (h.0, emit_of-vector w ws pend x xs h) refl))

-- An entry that waits when a word of the file comes is lost.
file_case :
    (w : Bytes) (ws : List Bytes) (line x : Bytes) (xs : List Bytes) (c : ℕ) (first : Bool)
    (pend : Option Bytes)
    → Waits pend line c first
    → Le line w
    → lt_text w x ≡ true
    → All (Le x) xs
    → new_items ws (x ∷ xs) ≡ emit_of (w ∷ ws) pend (x ∷ xs) ++ new_items (w ∷ ws) (x ∷ xs)
file_case w ws line x xs c first pend h le e sx =
    rw
      (
        emit_of-file w ws pend x line xs c first h le e,
        new_items-below w ws (x ∷ xs) (e, above-All w x xs e sx),
      )
      refl

pub in_file :
    (fuel : ℕ) (w : Bytes) (ws : List Bytes) (line : Bytes) (xs : List Bytes) (c : ℕ) (first : Bool)
    (pend : Option Bytes)
    → length ws + 1 + length xs < fuel
    → c + length xs < 2 ^ 64
    → All IsWord ws
    → IsSorted (w ∷ ws)
    → IsSorted xs
    → Le line w
    → Waits pend line c first
    → Outcome fuel w ws line xs c first pend
unfolding push_output emit_of
in_file zero w ws line xs c first pend f k words sw sx le h = absurd (omega arith)
in_file (suc fuel) w ws line [] c first pend f k words sw sx le h =
    round_stop w ws line c first fuel le
    ∙ unfold new_items in ap (λ (z : List Bytes). some (z ++ [])) (sym (emit_of-end (w ∷ ws) pend))
in_file (suc fuel) w [] line (x ∷ xs) c first pend f k words sw sx le h =
    elim (Bool-cases (lt_text w x)) [
      | inl e ↦
          round_last w line x xs c first fuel e (omega arith)
          ∙ ap some
              (sym (new_items-empty (x ∷ xs)) ∙ file_case w [] line x xs c first pend h le e sx.0)
      | inr e ↦
          vector_case fuel w [] line x xs c first pend (e, tt) h (omega arith)
            (in_file fuel w [] x xs (c + 1) false (some x) (omega arith) (omega arith) words sw sx.1
              e (refl, omega arith, refl))
    ]
in_file (suc fuel) w (v ∷ ws) line (x ∷ xs) c first pend f k words sw sx le h =
    elim (Bool-cases (lt_text w x)) [
      | inl e ↦
          round_file w v ws line x xs c first fuel e words.0
          ∙ (ap (push_output none) (
                in_file fuel v ws w (x ∷ xs) 0 false none (omega arith) (omega arith) words.1 sw.1
                  sx sw.0.0 (inl refl))
              ∙ ap some (file_case w (v ∷ ws) line x xs c first pend h le e sx.0))
      | inr e ↦
          vector_case fuel w (v ∷ ws) line x xs c first pend (e, le-All x w (v ∷ ws) e sw.0) h
            (omega arith)
            (in_file fuel w (v ∷ ws) x xs (c + 1) false (some x) (omega arith) (omega arith) words
              sw sx.1 e (refl, omega arith, refl))
    ]
