-- ===== src/Text/Stream/Extract.antt =====
-- Extraction of words and numbers that a space follows, the form in which the program writes them.
use gorn.Common.{
  ℕ, ◌≤◌, ◌≡◌, ◌≢◌, refl, ap, sym, append-nil, ◌∙◌, true, false, [], ◌∷◌, ◌++◌, arith, All, All-imp,
}
use mathlib.Core.List.{cons-ne-nil}
use gorn.Text.{Bytes}
use gorn.Text.Stream.{
  open_text, ended, is_space, skip_space, span_word, span_digits, take_word, take_number,
  get_string, get_number, max_u64,
}
use gorn.Text.Stream.Decimal.{print, IsDigit, print-cons, print-All, span_digits-print}

abbrev pub NotSpace : ℕ → Type 0
NotSpace c = is_space c ≡ false

-- A text that `operator >>` reads as one word.
pub record IsWord (w : Bytes) : Type 0 where
  pub nonempty : w ≢ []
  pub solid : All NotSpace w

skip_solid : (c : ℕ) (s : Bytes) → NotSpace c → skip_space (c ∷ s) ≡ c ∷ s
unfolding skip_space
skip_solid c s h = ground arith

pub span_word-append :
    (d : ℕ) (w s : Bytes) → is_space d ≡ true → All NotSpace w → span_word (w ++ d ∷ s) ≡ (w, d ∷ s)
unfolding span_word
span_word-append d [] s e h = ground arith
span_word-append d (c ∷ w) s e (p, h) = ground (arith, span_word-append d w s e h)

-- A word with white space behind it is read whole, and the white space is left.
pub get_string-word_at :
    (d : ℕ) (old w s : Bytes)
    → is_space d ≡ true
    → IsWord w
    → get_string old (open_text (w ++ d ∷ s)) ≡ (w, open_text (d ∷ s))
unfolding get_string take_word
get_string-word_at d old [] s e h = absurd (h.nonempty refl)
get_string-word_at d old (c ∷ w) s e h =
    rw (skip_solid c (w ++ d ∷ s) h.solid.0, take_word, span_word-append d (c ∷ w) s e h.solid)

span_word-whole : (w : Bytes) → All NotSpace w → span_word w ≡ (w, [])
unfolding span_word
span_word-whole [] h = refl
span_word-whole (c ∷ w) (p, h) = ground (arith, span_word-whole w h)

-- A word with nothing behind it is read whole.
pub get_string-whole : (old w : Bytes) → IsWord w → (get_string old (open_text w)).0 ≡ w
unfolding get_string take_word
get_string-whole old [] h = absurd (h.nonempty refl)
get_string-whole old (c ∷ w) h =
    rw (skip_solid c w h.solid.0, take_word)
      (ap (λ (r : Bytes × Bytes). r.0) (span_word-whole (c ∷ w) h.solid))

pub get_string-word :
    (old w s : Bytes)
    → IsWord w
    → get_string old (open_text (w ++ 32 ∷ s)) ≡ (w, open_text (32 ∷ s))
get_string-word old w s h = get_string-word_at 32 old w s refl h

-- White space in front changes nothing.
pub get_string-space_at :
    (d : ℕ) (old s : Bytes)
    → is_space d ≡ true
    → get_string old (open_text (d ∷ s)) ≡ get_string old (open_text s)
unfolding get_string skip_space
get_string-space_at d old s e = rw (e, skip_space)

pub get_string-space :
    (old s : Bytes) → get_string old (open_text (32 ∷ s)) ≡ get_string old (open_text s)
get_string-space old s = get_string-space_at 32 old s refl

pub get_string-empty : (old : Bytes) → get_string old (open_text []) ≡ (old, ended)
unfolding get_string
get_string-empty old = refl

pub get_string-end : (old : Bytes) → get_string old (open_text (32 ∷ [])) ≡ (old, ended)
unfolding get_string
get_string-end old = refl

pub get_number-space :
    (old : ℕ) (s : Bytes) → get_number old (open_text (32 ∷ s)) ≡ get_number old (open_text s)
unfolding get_number skip_space
get_number-space old s = refl

digit_solid : (c : ℕ) → IsDigit c → NotSpace c
digit_solid c h = ground arith

take_number-digits :
    (old c n : ℕ) (t s : Bytes)
    → IsDigit c
    → span_digits (c ∷ t) 0 ≡ (n, 32 ∷ s)
    → n ≤ max_u64
    → take_number old (c ∷ t) ≡ (n, open_text (32 ∷ s))
unfolding take_number
take_number-digits old c n t s d e h = ground arith

span_digits-stop : (n : ℕ) (s : Bytes) → span_digits (32 ∷ s) n ≡ (n, 32 ∷ s)
unfolding span_digits
span_digits-stop n s = refl

-- A printed 64-bit number with a space behind it is read as that number, and the space is left.
pub get_number-print :
    (old n : ℕ) (s : Bytes)
    → n ≤ max_u64
    → get_number old (open_text (print n ++ 32 ∷ s)) ≡ (n, open_text (32 ∷ s))
unfolding get_number
get_number-print old n s h =
    let (c, t, e, d) = print-cons n in
    let digits = span_digits-print n (32 ∷ s) ∙ span_digits-stop n s in
    rw (e, skip_solid c (t ++ 32 ∷ s) (digit_solid c d))
      (take_number-digits old c n (t ++ 32 ∷ s) s d (rw e at digits) h)

-- A printed number is one word.
pub print-IsWord : (n : ℕ) → IsWord (print n)
print-IsWord n =
    let (c, t, e, _) = print-cons n in
    record {
      nonempty = rw e (cons-ne-nil c t);
      solid = All-imp IsDigit NotSpace digit_solid (print n) (print-All n);
    }

-- A print has no white space in front, and is the digits of its number.
pub skip_space-print : (n : ℕ) → skip_space (print n) ≡ print n
skip_space-print n =
    let (c, t, e, digit) = print-cons n in rw e (skip_solid c t (digit_solid c digit))

pub span_digits-print_whole : (n : ℕ) → (span_digits (print n) 0).0 ≡ n
unfolding span_digits
span_digits-print_whole n =
    ap (λ z. (span_digits z 0).0) (sym (append-nil (print n)))
    ∙ ap (λ (r : ℕ × Bytes). r.0) (span_digits-print n [])

-- A print that does not go on with a digit is read whole.
pub span_digits-print_dot : (n : ℕ) (s : Bytes) → (span_digits (print n ++ 46 ∷ s) 0).0 ≡ n
unfolding span_digits
span_digits-print_dot n s = ap (λ (r : ℕ × Bytes). r.0) (span_digits-print n (46 ∷ s))
