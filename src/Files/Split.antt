-- ===== src/Files/Split.antt =====
-- The words of a text by one pass over its bytes, and that white space divides them.
use gorn.Common.{
  ℕ, zero, suc, ◌≤◌, ◌<◌, ◌≡◌, refl, sym, ap, ◌∙◌, inl, inr, true, false, List, [], ◌∷◌, ◌++◌,
  append_assoc, append-nil, arith, if◌then◌else◌, length, Bool-cases,
}
use mathlib.Core.Path.{ap₂}
use gorn.Text.{Bytes}
use gorn.Text.Stream.Extract.{IsWord, span_word-append, NotSpace}
use gorn.Text.Stream.Words.{Starts, skip_space-Starts, skip_space-length, span_word-length}
use gorn.Text.Stream.{Stream, is_space, skip_space, span_word, take_word, get_string, is_nil}
use gorn.Files.{read_loop, words}

-- The words of a text, by one pass over its bytes; `acc` is the word begun.
abbrev pub flush : Bytes → List Bytes → List Bytes
flush [] ws = ws
flush (c ∷ acc) ws = (c ∷ acc) ∷ ws

unfoldable pub split : Bytes → Bytes → List Bytes
split acc [] = flush acc []
split acc (c ∷ s) = if is_space c then flush acc (split [] s) else split (acc ++ c ∷ []) s

flush-append : (acc : Bytes) (xs ys : List Bytes) → flush acc (xs ++ ys) ≡ flush acc xs ++ ys
flush-append [] xs ys = refl
flush-append (c ∷ acc) xs ys = refl

-- A line feed ends a word.
pub split-line : (acc l s : Bytes) → split acc (l ++ 10 ∷ s) ≡ split acc l ++ split [] s
unfolding split
split-line acc [] s = flush-append acc [] (split [] s)
split-line acc (c ∷ l) s = elim (Bool-cases (is_space c)) [
  | inl e ↦ rw e (ap (flush acc) (split-line [] l s) ∙ flush-append acc (split [] l) (split [] s))
  | inr e ↦ rw e (split-line (acc ++ c ∷ []) l s)
]

pub split-start : (c : ℕ) (s : Bytes) → is_space c ≡ false → split [] (c ∷ s) ≡ split (c ∷ []) s
unfolding split
split-start c s e = rw e refl

pub split-space : (c : ℕ) (s : Bytes) → is_space c ≡ true → split [] (c ∷ s) ≡ split [] s
unfolding split
split-space c s e = rw e refl

split-skip_space : (s : Bytes) → split [] s ≡ split [] (skip_space s)
unfolding skip_space
split-skip_space [] = refl
split-skip_space (c ∷ s) = elim (Bool-cases (is_space c)) [
  | inl e ↦ split-space c s e ∙ rw e (split-skip_space s)
  | inr e ↦ rw e refl
]

split-span_word :
    (b : ℕ) (acc s : Bytes)
    → split (b ∷ acc) s ≡ (b ∷ (acc ++ (span_word s).0)) ∷ split [] (span_word s).1
unfolding split span_word
split-span_word b acc [] = ap (λ z. (b ∷ z) ∷ []) (sym (append-nil acc))
split-span_word b acc (c ∷ s) = elim (Bool-cases (is_space c)) [
  | inl e ↦ rw e (ap₂ (λ x ys. (b ∷ x) ∷ ys) (sym (append-nil acc)) (sym (split-space c s e)))
  | inr e ↦ rw e (
      split-span_word b (acc ++ c ∷ []) s
      ∙ ap (λ z. (b ∷ z) ∷ split [] (span_word s).1) (append_assoc acc (c ∷ []) (span_word s).0))
]

-- A stream behind a word.
abbrev pub behind : Bytes → Stream
behind s = record { rest = s; eof = is_nil s; fail = false }

span_word-start :
    (c : ℕ) (s : Bytes) → NotSpace c → span_word (c ∷ s) ≡ (c ∷ (span_word s).0, (span_word s).1)
unfolding span_word
span_word-start c s h = rw h refl

take_word-start :
    (old : Bytes) (c : ℕ) (s : Bytes)
    → NotSpace c
    → take_word old (c ∷ s) ≡ (c ∷ (span_word s).0, behind (span_word s).1)
unfolding take_word
take_word-start old c s h = ap (λ (r : Bytes × Bytes). word r) (span_word-start c s h)
  where
    word : Bytes × Bytes → Bytes × Stream
    word r = (r.0, behind r.1)

read_loop-word :
    (fuel : ℕ) (old s : Bytes) (r : Bytes × Stream)
    → get_string old (behind s) ≡ r
    → read_loop (suc fuel) old (behind s) ≡ (if r.1.fail then [] else r.0 ∷ read_loop fuel r.0 r.1)
unfolding read_loop
read_loop-word fuel old s r e =
    let go : Bytes × Stream → List Bytes =
      λ z. if z.1.fail then [] else z.0 ∷ read_loop fuel z.0 z.1 in
    ap go e

read_loop-next :
    (fuel : ℕ) (old u : Bytes)
    → ((old' s : Bytes) → length s < fuel → read_loop fuel old' (behind s) ≡ split [] s)
    → Starts u
    → length u ≤ fuel
    → (if (take_word old u).1.fail
        then []
        else (take_word old u).0 ∷ read_loop fuel (take_word old u).0 (take_word old u).1)
      ≡ split [] u
read_loop-next fuel old [] shorter starts h = unfold take_word split in refl
read_loop-next fuel old (d ∷ v) shorter starts h =
    let go : Bytes × Stream → List Bytes =
      λ z. if z.1.fail then [] else z.0 ∷ read_loop fuel z.0 z.1 in
    let word = d ∷ (span_word v).0 in
    ap go (take_word-start old d v starts)
    ∙ (ap (λ z. word ∷ z) (shorter word (span_word v).1 (omega (arith, span_word-length v)))
        ∙ sym (split-start d v starts ∙ split-span_word d [] v))

pub read_loop-split :
    (fuel : ℕ) (old s : Bytes) → length s < fuel → read_loop fuel old (behind s) ≡ split [] s
unfolding get_string
read_loop-split zero old s h = absurd (omega arith)
read_loop-split (suc fuel) old [] h = read_loop-word fuel old [] _ refl ∙ (unfold split in refl)
read_loop-split (suc fuel) old (c ∷ s) h =
    read_loop-word fuel old (c ∷ s) _ refl
    ∙ (read_loop-next fuel old (skip_space (c ∷ s)) (read_loop-split fuel)
          (skip_space-Starts (c ∷ s)) (omega (arith, skip_space-length (c ∷ s)))
        ∙ sym (split-skip_space (c ∷ s)))

-- The words of a text by one pass.
pub words-split : (s : Bytes) → words s ≡ split [] s
unfolding words
words-split [] = unfold read_loop get_string split in refl
words-split (c ∷ s) = read_loop-split (suc (length (c ∷ s))) [] (c ∷ s) (omega arith)

-- A text's lines, one after the other, have its words.
pub words-line : (l s : Bytes) → words (l ++ 10 ∷ s) ≡ words l ++ words s
words-line l s =
    words-split (l ++ 10 ∷ s) ∙ (split-line [] l s ∙ sym (ap₂ ◌++◌ (words-split l) (words-split s)))

-- A word and the white space behind it.
pub split-word : (w s : Bytes) → IsWord w → split [] (w ++ 32 ∷ s) ≡ w ∷ split [] s
split-word [] s h = absurd (h.nonempty refl)
split-word (b ∷ acc) s h =
    let spanned = span_word-append 32 acc s refl h.solid.1 in
    split-start b (acc ++ 32 ∷ s) h.solid.0
    ∙ (split-span_word b [] (acc ++ 32 ∷ s)
        ∙ (ap (λ (r : Bytes × Bytes). (b ∷ r.0) ∷ split [] r.1) spanned
            ∙ ap (λ z. (b ∷ acc) ∷ z) (split-space 32 s refl)))
