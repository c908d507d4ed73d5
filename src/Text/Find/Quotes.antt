-- ===== src/Text/Find/Quotes.antt =====
-- Places in a text: the next quote, and a text whose first byte does not occur.
use gorn.Common.{
  ℕ, ◌+◌, ◌^◌, ◌<◌, ◌≡◌, refl, sym, ap, ◌∙◌, true, false, some, [], ◌∷◌, ◌++◌, arith, ltb, ◌==◌,
  not, length, take, drop, All,
}
use gorn.Text.{Bytes}
use gorn.Text.Stream.{span_digits}
use gorn.Text.Stream.Decimal.{print, print-cons}
use gorn.Text.Stream.Extract.{skip_space-print, span_digits-print_whole}
use gorn.Text.Find.{npos, contains, find_at, find_text, substr, atoi, signed_number, positive}

abbrev pub Without : ℕ → Bytes → Type 0
Without q s = All (λ c. (c == q) ≡ false) s

pub find_at-next :
    (q : ℕ) (w s : Bytes) (pos : ℕ)
    → Without q w
    → find_at (q ∷ []) (w ++ q ∷ s) pos ≡ pos + length w
unfolding find_at
find_at-next q [] s pos h = ground arith
find_at-next q (c ∷ w) s pos (p, h) = ground (arith, find_at-next q w s (pos + 1) h)

pub find_at-none : (q : ℕ) (t s : Bytes) (pos : ℕ) → Without q s → find_at (q ∷ t) s pos ≡ npos
unfolding find_at
find_at-none q t [] pos h = refl
find_at-none q t (c ∷ s) pos (p, h) = ground (arith, find_at-none q t s (pos + 1) h)

pub take-append : (w s : Bytes) → take (length w) (w ++ s) ≡ w
take-append [] s = refl
take-append (c ∷ w) s = ap (◌∷◌ c) (take-append w s)

-- The part of a text behind its first `n` bytes, up to the byte `q`.
pub substr-part :
    (q n len : ℕ) (token w : Bytes)
    → drop n token ≡ w ++ q ∷ []
    → length token ≡ n + length (w ++ q ∷ [])
    → len ≡ length w
    → substr token n len ≡ some w
unfolding substr
substr-part q n len token w cut size e =
    let test : ltb (length token) n ≡ false = ground (arith, size) in
    rw test (
      ap some
        (ap (λ k. take k (drop n token)) e ∙ (ap (take (length w)) cut ∙ take-append w (q ∷ []))))

-- From the start on.
pub find_text-zero : (s t : Bytes) → find_text s t 0 ≡ find_at t s 0
unfolding find_text
find_text-zero s t = let test : ltb (length s) 0 ≡ false = ground arith in rw test refl

pub contains-at : (s t : Bytes) (n : ℕ) → find_at t s 0 ≡ n → contains s t ≡ not (n == npos)
contains-at s t n e = ap (λ z. not (z == npos)) (find_text-zero s t ∙ e)

pub find_text-next :
    (q n : ℕ) (token w : Bytes)
    → drop n token ≡ w ++ q ∷ []
    → length token ≡ n + length (w ++ q ∷ [])
    → Without q w
    → find_text token (q ∷ []) n ≡ n + length w
unfolding find_text
find_text-next q n token w cut size h =
    let test : ltb (length token) n ≡ false = ground (arith, size) in
    rw test (ap (λ z. find_at (q ∷ []) z n) cut ∙ find_at-next q w [] n h)

-- `atoi` reads back the print of an `int`.
pub atoi-print : (n : ℕ) → n < 2 ^ 31 → atoi (print n) ≡ some n
unfolding atoi
atoi-print n h =
    let (c, t, e, digit) = print-cons n in
    let minus : (c == b'-') ≡ false = ground arith in
    let plus : (c == b'+') ≡ false = ground arith in
    let value : (span_digits (c ∷ t) 0).0 ≡ n =
      ap (λ z. (span_digits z 0).0) (sym e) ∙ span_digits-print_whole n in
    let test : ltb n (2 ^ 31) ≡ true = ground arith in
    ap signed_number (skip_space-print n ∙ e) ∙ rw (minus, plus) (ap positive value ∙ rw test refl)
