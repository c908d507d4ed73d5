-- ===== src/Text/Stream.antt =====
-- What the program uses of `std::stringstream` and `std::ifstream`: the bytes not yet read with the
-- stream's `eof` and `fail` bits, and `operator >>` into a string and into a `std::size_t`.
pub mod Decimal
pub mod Extract
pub mod Lines
pub mod Words
use gorn.Common.{
  ℕ, zero, suc, ◌+◌, ◌-◌, ◌*◌, ◌/◌, ◌%◌, ◌^◌, ◌<◌, Bool, true, false, not, ◌&&◌, ◌||◌, List, [],
  ◌∷◌, ◌++◌, arith, ltb, leb, ◌==◌, if◌then◌else◌,
}
use gorn.Text.{Bytes}

-- `isspace` in the "C" locale.
abbrev pub is_space : ℕ → Bool
is_space c = c == 32 || (leb 9 c && leb c 13)

abbrev pub is_digit : ℕ → Bool
is_digit c = leb b'0' c && leb c b'9'

pub record Stream : Type 0 where
  pub rest : Bytes
  pub eof : Bool
  pub fail : Bool

-- A stream over a text that was just opened or written.
abbrev pub open_text : Bytes → Stream
open_text s = record { rest = s; eof = false; fail = false }

abbrev pub good : Stream → Bool
good s = not s.eof && not s.fail

unfoldable pub skip_space : Bytes → Bytes
skip_space [] = []
skip_space (c ∷ s) = if is_space c then skip_space s else c ∷ s

-- The longest prefix with no white space, and what follows it.
unfoldable pub span_word : Bytes → Bytes × Bytes
span_word [] = ([], [])
span_word (c ∷ s) = if is_space c then ([], c ∷ s) else (c ∷ (span_word s).0, (span_word s).1)

abbrev pub is_nil {ℓ} : {A : Type ℓ} → List A → Bool
is_nil [] = true
is_nil (x ∷ xs) = false

-- The sentry of a formatted extraction that skipped to `s`: at the end it sets both bits.
abbrev pub ended : Stream
ended = record { rest = []; eof = true; fail = true }

unfoldable pub take_word : Bytes → Bytes → Bytes × Stream
unfolding span_word
take_word old [] = (old, ended)
take_word old (c ∷ s) =
    let (word, after) = span_word (c ∷ s) in
    (word, record { rest = after; eof = is_nil after; fail = false })

-- `ss >> str`, where `old` is the string's value before: an extraction that fails keeps it.
unfoldable pub get_string : Bytes → Stream → Bytes × Stream
unfolding take_word skip_space
get_string old s =
    if good s then take_word old (skip_space s.rest) else (old, record s { fail = true })

-- The longest prefix of digits, as the number that it spells behind `n`, and what follows it.
unfoldable pub span_digits : Bytes → ℕ → ℕ × Bytes
span_digits [] n = (n, [])
span_digits (c ∷ s) n = if is_digit c then span_digits s (n * 10 + (c - b'0')) else (n, c ∷ s)

abbrev pub max_u64 : ℕ
max_u64 = 2 ^ 64 - 1

-- `strtoull` on the digits at the head: no digit gives 0 and fails, and what exceeds 64 bits gives
-- the largest number and fails. `negative` is the sign that stood in front.
take_digits : Bool → Bytes → ℕ × Stream
unfolding span_digits
take_digits negative [] = (0, ended)
take_digits negative (c ∷ s) =
    let (n, after) = span_digits (c ∷ s) 0 in
    if not (is_digit c)
    then (0, record { rest = c ∷ s; eof = false; fail = true })
    else if ltb max_u64 n
    then (max_u64, record { rest = after; eof = is_nil after; fail = true })
    else (
      (if negative then (2 ^ 64 - n) % 2 ^ 64 else n),
      record { rest = after; eof = is_nil after; fail = false },
    )

take_number : ℕ → Bytes → ℕ × Stream
unfolding take_digits
take_number old [] = (old, ended)
take_number old (c ∷ s) =
    if c == b'-'
    then take_digits true s
    else if c == b'+'
    then take_digits false s
    else take_digits false (c ∷ s)

-- `ss >> n` for a `std::size_t n` whose value before is `old`. A stream that is not good, or that
-- has only white space left, fails and keeps it.
unfoldable pub get_number : ℕ → Stream → ℕ × Stream
unfolding take_number skip_space
get_number old s =
    if good s then take_number old (skip_space s.rest) else (old, record s { fail = true })
