-- ===== src/Text/Stream/Words.antt =====
-- Whatever a stream holds, an extraction into a string that does not fail reads a word.
use mathlib.Core.List.{cons-ne-nil}
use gorn.Common.{
  ℕ, suc, length, ◌⊎◌, ◌≤◌, ◌<◌, ◌≡◌, refl, inl, inr, true, false, [], ◌∷◌, arith, All, Bool-cases,
  if◌then◌else◌,
}
use gorn.Text.{Bytes}
use gorn.Text.Stream.{Stream, get_string, take_word, is_space, skip_space, span_word, good}
use gorn.Text.Stream.Extract.{IsWord, NotSpace}

span_word-solid : (s : Bytes) → All NotSpace (span_word s).0
unfolding span_word
span_word-solid [] = tt
span_word-solid (c ∷ s) = ground (arith, span_word-solid s)

-- What white space is skipped to: the end or a byte that is none.
abbrev pub Starts : Bytes → Type 0
Starts [] = Unit
Starts (c ∷ s) = NotSpace c

pub skip_space-Starts : (s : Bytes) → Starts (skip_space s)
unfolding skip_space
skip_space-Starts [] = tt
skip_space-Starts (c ∷ s) = elim (Bool-cases (is_space c)) [
  | inl e ↦ rw e (skip_space-Starts s)
  | inr e ↦ rw e e
]

take_word-IsWord :
    (old s : Bytes) → Starts s → (take_word old s).1.fail ≡ false → IsWord (take_word old s).0
unfolding take_word
take_word-IsWord old [] h e = absurd cc
take_word-IsWord old (c ∷ s) h e = record {
  nonempty = unfold span_word in rw h (cons-ne-nil c (span_word s).0);
  solid = span_word-solid (c ∷ s);
}

pub get_string-IsWord :
    (old : Bytes) (s : Stream) → (get_string old s).1.fail ≡ false → IsWord (get_string old s).0
unfolding get_string
get_string-IsWord old s e = elim (Bool-cases (good s)) [
  | inl g ↦
      let e' : (take_word old (skip_space s.rest)).1.fail ≡ false = ground arith in
      rw g (take_word-IsWord old (skip_space s.rest) (skip_space-Starts s.rest) e')
  | inr g ↦ absurd (ground arith)
]

-- A stream that has not failed or is at its end.
abbrev pub IsSane : Stream → Type 0
IsSane s = (s.eof ≡ true) ⊎ (s.fail ≡ false)

-- What is left to read, and whether the end was seen.
unfoldable pub left : Stream → ℕ
left s = if s.eof then 0 else suc (length s.rest)

pub skip_space-length : (s : Bytes) → length (skip_space s) ≤ length s
unfolding skip_space
skip_space-length [] = omega arith
skip_space-length (c ∷ s) = ground (arith, skip_space-length s)

pub span_word-length : (s : Bytes) → length (span_word s).1 ≤ length s
unfolding span_word
span_word-length [] = omega arith
span_word-length (c ∷ s) = ground (arith, span_word-length s)

take_word-left :
    (old s : Bytes)
    → Starts s
    → (left (take_word old s).1 < suc (length s)) × IsSane (take_word old s).1
unfolding take_word left span_word
take_word-left old [] h = (omega arith, inl refl)
take_word-left old (c ∷ s) h = (rw h (ground (arith, span_word-length s)), inr refl)

lt_weaken : (a b c : ℕ) → a < suc b → b ≤ c → a < suc c
lt_weaken a b c h k = omega arith

-- An extraction of a stream that is not at its end takes a byte or sees the end.
pub get_string-left :
    (old : Bytes) (s : Stream)
    → s.eof ≡ false
    → IsSane s
    → (left (get_string old s).1 < left s) × IsSane (get_string old s).1
unfolding get_string left
get_string-left old s e (inl f) = absurd cc
get_string-left old s e (inr f) =
    let (a, b) = take_word-left old (skip_space s.rest) (skip_space-Starts s.rest) in
    rw (e, f)
      (
        lt_weaken (left (take_word old (skip_space s.rest)).1) (length (skip_space s.rest))
            (length s.rest) a (skip_space-length s.rest),
        b,
      )
