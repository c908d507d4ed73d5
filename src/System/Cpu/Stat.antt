-- ===== src/System/Cpu/Stat.antt =====
-- The texts of /proc/stat, and that `fscanf` reads them.
use gorn.Common.{
  ℕ, zero, suc, ◌+◌, ◌^◌, ◌≤◌, ◌<◌, ◌≡◌, refl, sym, ap, ◌∙◌, Bool, true, false, Option, none, some,
  List, [], ◌∷◌, ◌++◌, map, arith, ltb, ◌==◌, if◌then◌else◌, length, All,
}
use gorn.Text.{Bytes, codes}
use gorn.Text.Stream.{skip_space, span_digits, is_digit, is_space, max_u64}
use gorn.Text.Stream.Decimal.{print, IsDigit, print-cons, span_digits-print}
use gorn.Text.Stream.Extract.{NotSpace, IsWord}
use gorn.System.Memory.Read.{blanked}
use gorn.System.Cpu.{
  Counters, unsigned, behind_sign, scan_signed, scan_number, scan_numbers, scan_literal, assign,
  scan_cpu, scan_each, cpu_names,
}

-- The counters of a processor and the six numbers behind them.
pub record Row : Type 0 where
  pub blanks : ℕ
  pub counters : Counters
  pub others : List ℕ

abbrev pub numbers : Row → List ℕ
numbers r = r.counters.user ∷ r.counters.user_low ∷ r.counters.sys ∷ r.counters.idle ∷ r.others

-- A blank in front of each number.
abbrev pub spaced : List ℕ → Bytes → Bytes
spaced [] s = s
spaced (n ∷ ns) s = 32 ∷ (print n ++ spaced ns s)

abbrev pub stat_text : List Bytes → List Row → Bytes → Bytes
stat_text (name ∷ names) (r ∷ rows) s =
    name ++ blanked r.blanks (spaced (numbers r) (10 ∷ stat_text names rows s))
stat_text names rows s = s

abbrev pub busy : Counters → ℕ
busy c = c.user + c.user_low + c.sys

abbrev pub whole : Counters → ℕ
whole c = busy c + c.idle

pub record IsRow (r : Row) : Type 0 where
  pub ten : length r.others ≡ 6
  pub fits : All (λ n. n ≤ max_u64) (numbers r)
  pub bounded : whole r.counters < 2 ^ 64

abbrev Stops : Bytes → Type 0
Stops [] = Unit
Stops (c ∷ s) = is_digit c ≡ false

span_digits-Stops : (n : ℕ) (s : Bytes) → Stops s → span_digits s n ≡ (n, s)
unfolding span_digits
span_digits-Stops n [] h = refl
span_digits-Stops n (c ∷ s) h = rw h

scan_signed-digits :
    (c n : ℕ) (t s : Bytes)
    → IsDigit c
    → span_digits (c ∷ t) 0 ≡ (n, s)
    → n ≤ max_u64
    → scan_signed (skip_space (c ∷ t)) ≡ some (n, s)
unfolding skip_space
scan_signed-digits c n t s d e h =
    let solid : is_space c ≡ false = ground arith in
    let minus : (c == b'-') ≡ false = ground arith in
    let plus : (c == b'+') ≡ false = ground arith in
    let fits : ltb max_u64 n ≡ false = ground arith in
    let go : ℕ × Bytes → Option (ℕ × Bytes) = λ r. some (unsigned false r.0, r.1) in
    rw (solid, minus, plus, d) (ap go e ∙ ap (λ k. some (k, s)) (rw fits))

scan_number-print :
    (n : ℕ) (s : Bytes) → n ≤ max_u64 → Stops s → scan_number (32 ∷ (print n ++ s)) ≡ some (n, s)
unfolding scan_number
scan_number-print n s h stops =
    let (c, t, e, digit) = print-cons n in
    ap (λ z. scan_signed (skip_space (z ++ s))) e
    ∙ scan_signed-digits c n (t ++ s) s digit
        (ap (λ z. span_digits (z ++ s) 0) (sym e)
          ∙ (span_digits-print n s ∙ span_digits-Stops n s stops))
        h

spaced-Stops : (ns : List ℕ) (s : Bytes) → Stops s → Stops (spaced ns s)
spaced-Stops [] s h = h
spaced-Stops (n ∷ ns) s h = refl

scan_numbers-spaced :
    (ns : List ℕ) (s : Bytes)
    → All (λ n. n ≤ max_u64) ns
    → Stops s
    → scan_numbers (length ns) (spaced ns s) ≡ (ns, s)
unfolding scan_numbers
scan_numbers-spaced [] s h stops = refl
scan_numbers-spaced (n ∷ ns) s (p, h) stops =
    let text = spaced (n ∷ ns) s in
    let grown : List ℕ × Bytes → List ℕ × Bytes = λ r. (n ∷ r.0, r.1) in
    let go : Option (ℕ × Bytes) → List ℕ × Bytes = λ o. elim o [
      | none ↦ ([], behind_sign (skip_space text))
      | some (m, after) ↦ let (ns', rest) = scan_numbers (length ns) after in (m ∷ ns', rest)
    ] in
    ap go (scan_number-print n (spaced ns s) p (spaced-Stops ns s stops))
    ∙ ap grown (scan_numbers-spaced ns s h stops)

scan_literal-append : (t s : Bytes) → scan_literal t (t ++ s) ≡ (true, s)
unfolding scan_literal
scan_literal-append [] s = refl
scan_literal-append (c ∷ t) s = ground (arith, scan_literal-append t s)

skip_space-blanked : (k : ℕ) (s : Bytes) → skip_space (blanked k s) ≡ skip_space s
unfolding skip_space
skip_space-blanked zero s = refl
skip_space-blanked (suc k) s = skip_space-blanked k s

scan_numbers-blanked :
    (k m : ℕ) (s : Bytes) → scan_numbers (suc m) (blanked k s) ≡ scan_numbers (suc m) s
unfolding scan_numbers scan_number
scan_numbers-blanked k m s =
    let go : Bytes → List ℕ × Bytes = λ z. elim (scan_signed z) [
      | none ↦ ([], behind_sign z)
      | some (n, after) ↦ let (ns, rest) = scan_numbers m after in (n ∷ ns, rest)
    ] in
    ap go (skip_space-blanked k s)

module _ (r : Row) (h : IsRow r) where
  numbers-ten : length (numbers r) ≡ 10
  numbers-ten = omega (arith, h.ten)

  scan_numbers-row :
      (s : Bytes)
      → scan_numbers 10 (blanked r.blanks (spaced (numbers r) (10 ∷ s))) ≡ (numbers r, 10 ∷ s)
  scan_numbers-row s =
      scan_numbers-blanked r.blanks 9 (spaced (numbers r) (10 ∷ s))
      ∙ (ap (λ k. scan_numbers k (spaced (numbers r) (10 ∷ s))) (sym numbers-ten)
          ∙ scan_numbers-spaced (numbers r) (10 ∷ s) h.fits refl)

  scan_cpu-row :
      (name s : Bytes) (c : Counters)
      → scan_cpu name c (name ++ blanked r.blanks (spaced (numbers r) (10 ∷ s)))
        ≡ (r.counters, skip_space s)
  unfolding scan_cpu assign skip_space
  scan_cpu-row name s c =
      let rest = blanked r.blanks (spaced (numbers r) (10 ∷ s)) in
      let ended : List ℕ × Bytes → Counters × Bytes =
        λ q. (assign q.0 c, (if length q.0 == 10 then skip_space q.1 else q.1)) in
      let go : Bool × Bytes → Counters × Bytes = λ q.
        let (ns, s'') = scan_numbers 10 q.1 in
        if q.0
        then (assign ns c, (if length ns == 10 then skip_space s'' else s''))
        else (c, q.1) in
      let test : (length (numbers r) == 10) ≡ true = ground (arith, numbers-ten) in
      ap go (scan_literal-append name rest)
      ∙ (ap ended (scan_numbers-row s)
          ∙ ap (λ b. (r.counters, (if b then skip_space (10 ∷ s) else 10 ∷ s))) test)

skip_space-word : (w s : Bytes) → IsWord w → skip_space (w ++ s) ≡ w ++ s
unfolding skip_space
skip_space-word [] s h = absurd (h.nonempty refl)
skip_space-word (c ∷ w) s h = let solid : is_space c ≡ false = h.solid.0 in rw solid

abbrev pub counters_of : List Row → List Counters
counters_of rows = map (λ (r : Row). r.counters) rows

-- Each `fscanf` finds its line, behind the white space that the one before it left.
pub scan_each-stat_text :
    (names : List Bytes) (rows : List Row) (cs : List Counters) (s : Bytes)
    → All IsWord names
    → All IsRow rows
    → length rows ≡ length names
    → length cs ≡ length names
    → (scan_each names cs (stat_text names rows s) ≡ counters_of rows)
      × (scan_each names cs (skip_space (stat_text names rows s)) ≡ counters_of rows)
unfolding scan_each
scan_each-stat_text [] [] [] s w h e f = (refl, refl)
scan_each-stat_text [] [] (c ∷ cs) s w h e f = absurd (omega arith)
scan_each-stat_text [] (r ∷ rows) cs s w h e f = absurd (omega arith)
scan_each-stat_text (n ∷ names) [] cs s w h e f = absurd (omega arith)
scan_each-stat_text (n ∷ names) (r ∷ rows) [] s w h e f = absurd (omega arith)
scan_each-stat_text (n ∷ names) (r ∷ rows) (c ∷ cs) s (p, w) (q, h) e f =
    let after = stat_text names rows s in
    let (plain, skipped_to) = scan_each-stat_text names rows cs s w h (omega arith) (omega arith) in
    let go : Counters × Bytes → List Counters = λ z. z.0 ∷ scan_each names cs z.1 in
    let here : scan_each (n ∷ names) (c ∷ cs) (stat_text (n ∷ names) (r ∷ rows) s)
        ≡ counters_of (r ∷ rows) =
      ap go (scan_cpu-row r q n after c) ∙ ap (λ z. r.counters ∷ z) skipped_to in
    (here, ap (λ z. scan_each (n ∷ names) (c ∷ cs) z) (skip_space-word n _ p) ∙ here)

letters-IsWord : (c : ℕ) (w : Bytes) → All NotSpace (c ∷ w) → IsWord (c ∷ w)
letters-IsWord c w h = record { nonempty = λ e. cc; solid = h }

pub cpu_names-IsWord : All IsWord cpu_names
cpu_names-IsWord = (
  letters-IsWord b'c' (codes "pu") (refl, (refl, (refl, tt))),
  (
    letters-IsWord b'c' (codes "pu0") (refl, (refl, (refl, (refl, tt)))),
    (
      letters-IsWord b'c' (codes "pu1") (refl, (refl, (refl, (refl, tt)))),
      (
        letters-IsWord b'c' (codes "pu2") (refl, (refl, (refl, (refl, tt)))),
        (letters-IsWord b'c' (codes "pu3") (refl, (refl, (refl, (refl, tt)))), tt),
      ),
    ),
  ),
)
