-- ===== src/Text/Stream/Lines.antt =====
-- `std::getline` into a string, as the readers of the status files and of the queue files use it.
use gorn.Common.{
  ℕ, ◌≡◌, refl, ap, true, false, Option, none, some, [], ◌∷◌, ◌++◌, arith, ◌==◌, if◌then◌else◌, All,
  All-imp, length, ◌≤◌, ◌<◌, Bool-cases, inl, inr,
}
use gorn.Text.{Bytes}
use gorn.Text.Stream.Extract.{NotSpace}
use gorn.Text.Stream.{Stream, open_text, good, is_nil, ended}

-- The bytes before the next line feed, and what follows it if there is one.
unfoldable pub span_line : Bytes → Bytes × Option Bytes
span_line [] = ([], none)
span_line (c ∷ s) = if c == 10 then ([], some s) else (c ∷ (span_line s).0, (span_line s).1)

unfoldable pub take_line : Bytes × Option Bytes → Bytes × Stream
take_line (line, some s) = (line, open_text s)
take_line (line, none) = (line, record { rest = []; eof = true; fail = is_nil line })

-- `getline ( s , line )`, where `old` is the line before: only a stream that is not good keeps it.
unfoldable pub get_line : Bytes → Stream → Bytes × Stream
unfolding span_line take_line
get_line old s = if good s then take_line (span_line s.rest) else (old, record s { fail = true })

abbrev pub NotFeed : ℕ → Type 0
NotFeed c = (c == 10) ≡ false

span_line-append : (w s : Bytes) → All NotFeed w → span_line (w ++ 10 ∷ s) ≡ (w, some s)
unfolding span_line
span_line-append [] s h = refl
span_line-append (c ∷ w) s (p, h) = ground (arith, span_line-append w s h)

-- A line with its line feed is read whole, the line feed with it.
pub get_line-line :
    (old w s : Bytes) → All NotFeed w → get_line old (open_text (w ++ 10 ∷ s)) ≡ (w, open_text s)
unfolding get_line take_line
get_line-line old w s h = ap take_line (span_line-append w s h)

-- At the end the line is empty and the stream has failed.
pub get_line-end : (old : Bytes) → get_line old (open_text []) ≡ ([], ended)
unfolding get_line
get_line-end old = refl

pub get_line-ended : (old : Bytes) → get_line old ended ≡ (old, ended)
unfolding get_line
get_line-ended old = refl

pub NotSpace-feed : (c : ℕ) → NotSpace c → NotFeed c
NotSpace-feed c h = ground arith

pub solid-NotFeed : (w : Bytes) → All NotSpace w → All NotFeed w
solid-NotFeed w h = All-imp NotSpace NotFeed NotSpace-feed w h

abbrev Fits : Bytes → Bytes × Option Bytes → Type 0
Fits s (line, none) = length line ≤ length s
Fits s (line, some t) = length t < length s

span_line-Fits : (s : Bytes) → Fits s (span_line s)
unfolding span_line
span_line-Fits [] = omega arith
span_line-Fits (c ∷ s) = elim (Bool-cases (c == 10)) [
  | inl e ↦ rw e (omega arith)
  | inr e ↦ rw e (longer (span_line s) (span_line-Fits s))
]
  where
    longer : (r : Bytes × Option Bytes) → Fits s r → Fits (c ∷ s) (c ∷ r.0, r.1)
    longer (line, none) h = omega arith
    longer (line, some t) h = omega arith

take_line-shorter :
    (s : Bytes) (r : Bytes × Option Bytes)
    → Fits s r
    → (take_line r).1.fail ≡ false
    → length (take_line r).1.rest < length s
unfolding take_line
take_line-shorter s ([], none) h e = cc
take_line-shorter s (c ∷ line, none) h e = omega arith
take_line-shorter s (line, some t) h e = h

-- A line that is read makes the rest shorter.
pub get_line-shorter :
    (old : Bytes) (s : Stream)
    → (get_line old s).1.fail ≡ false
    → length (get_line old s).1.rest < length s.rest
unfolding get_line
get_line-shorter old s = elim (Bool-cases (good s)) [
  | inl e ↦ rw e (take_line-shorter s.rest (span_line s.rest) (span_line-Fits s.rest))
  | inr e ↦ rw e (λ h. cc)
]

-- The line and what follows it are the text.
abbrev pub Rejoins : Bytes → Bytes × Option Bytes → Type 0
Rejoins s (line, none) = s ≡ line
Rejoins s (line, some t) = s ≡ line ++ 10 ∷ t

pub span_line-Rejoins : (s : Bytes) → Rejoins s (span_line s)
unfolding span_line
span_line-Rejoins [] = refl
span_line-Rejoins (c ∷ s) = elim (Bool-cases (c == 10)) [
  | inl e ↦ rw e (ap (λ z. z ∷ s) (ground arith))
  | inr e ↦ rw e (longer (span_line s) (span_line-Rejoins s))
]
  where
    longer : (r : Bytes × Option Bytes) → Rejoins s r → Rejoins (c ∷ s) (c ∷ r.0, r.1)
    longer (line, none) h = ap (◌∷◌ c) h
    longer (line, some t) h = ap (◌∷◌ c) h
