-- ===== src/Text/Find.antt =====
-- What the program uses of `std::string`: `find` and `substr`; and `atoi`.
pub mod Quotes
use gorn.Common.{
  ℕ, zero, suc, ◌+◌, ◌-◌, ◌%◌, ◌^◌, Bool, true, false, not, ◌&&◌, Option, none, some, List, [], ◌∷◌,
  ◌++◌, arith, ltb, leb, ◌==◌, if◌then◌else◌, length, take, drop,
}
use gorn.Text.{Bytes}
use gorn.Text.Stream.{skip_space, span_digits}

-- `std::string::npos`
abbrev pub npos : ℕ
npos = 2 ^ 64 - 1

unfoldable pub starts_with : Bytes → Bytes → Bool
starts_with [] s = true
starts_with (c ∷ t) [] = false
starts_with (c ∷ t) (d ∷ s) = c == d && starts_with t s

-- The first place of `t` in `s`, counted from `pos` on.
unfoldable pub find_at : Bytes → Bytes → ℕ → ℕ
unfolding starts_with
find_at t [] pos = if starts_with t [] then pos else npos
find_at t (c ∷ s) pos = if starts_with t (c ∷ s) then pos else find_at t s (pos + 1)

-- `s . find ( t , pos )`
unfoldable pub find_text : Bytes → Bytes → ℕ → ℕ
unfolding find_at
find_text s t pos = if ltb (length s) pos then npos else find_at t (drop pos s) pos

abbrev pub contains : Bytes → Bytes → Bool
contains s t = not (find_text s t 0 == npos)

-- `s . substr ( pos , len )`, which throws `out_of_range` past the end, `none`.
unfoldable pub substr : Bytes → ℕ → ℕ → Option Bytes
substr s pos len = if ltb (length s) pos then none else some (take len (drop pos s))

-- `(std::size_t)atoi ( s )`; the call is undefined past an `int`, `none`.
abbrev pub positive : ℕ → Option ℕ
positive n = if ltb n (2 ^ 31) then some n else none

abbrev pub negative : ℕ → Option ℕ
negative n = if leb n (2 ^ 31) then some ((2 ^ 64 - n) % 2 ^ 64) else none

abbrev pub signed_number : Bytes → Option ℕ
signed_number [] = some 0
signed_number (c ∷ s) =
    if c == b'-'
    then negative (span_digits s 0).0
    else if c == b'+'
    then positive (span_digits s 0).0
    else positive (span_digits (c ∷ s) 0).0

unfoldable pub atoi : Bytes → Option ℕ
atoi s = signed_number (skip_space s)
