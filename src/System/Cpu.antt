-- ===== src/System/Cpu.antt =====
-- utils/system/get_tot_cpu_info.h: the counters of /proc/stat and the load since the last call.
pub mod Stat
pub mod Load
use gorn.Common.{
  ℕ, zero, suc, ◌+◌, ◌-◌, ◌%◌, ◌^◌, Bool, true, false, not, ◌||◌, Option, none, some, List, [], ◌∷◌,
  ltb, ◌==◌, if◌then◌else◌, length,
}
use gorn.Text.{Bytes, codes}
use gorn.Text.Stream.{skip_space, span_digits, is_digit, max_u64}

-- The four counters of a processor that the program keeps.
pub record Counters : Type 0 where
  pub user : ℕ
  pub user_low : ℕ
  pub sys : ℕ
  pub idle : ℕ

-- `%llu` of `fscanf`: white space, a sign, digits; a number past 64 bits gives the largest.
abbrev unsigned : Bool → ℕ → ℕ
unsigned negative n =
    if ltb max_u64 n then max_u64 else if negative then (2 ^ 64 - n) % 2 ^ 64 else n

abbrev scan_digits : Bool → Bytes → Option (ℕ × Bytes)
scan_digits negative [] = none
scan_digits negative (c ∷ s) =
    let (n, after) = span_digits (c ∷ s) 0 in
    if is_digit c then some (unsigned negative n, after) else none

abbrev scan_signed : Bytes → Option (ℕ × Bytes)
scan_signed [] = none
scan_signed (c ∷ s) =
    if c == b'-'
    then scan_digits true s
    else if c == b'+'
    then scan_digits false s
    else scan_digits false (c ∷ s)

unfoldable pub scan_number : Bytes → Option (ℕ × Bytes)
unfolding skip_space span_digits
scan_number s = scan_signed (skip_space s)

-- A sign that no digit follows is taken all the same.
abbrev behind_sign : Bytes → Bytes
behind_sign [] = []
behind_sign (c ∷ s) = if c == b'-' || c == b'+' then s else c ∷ s

-- The numbers of a line: at most so many, until one is not there, and what is left of the file.
unfoldable pub scan_numbers : ℕ → Bytes → List ℕ × Bytes
scan_numbers zero s = ([], s)
scan_numbers (suc k) s = elim (scan_number s) [
  | none ↦ ([], behind_sign (skip_space s))
  | some (n, after) ↦ let (ns, rest) = scan_numbers k after in (n ∷ ns, rest)
]

-- The literal text in front of them; `none` where it differs, with what is left.
unfoldable pub scan_literal : Bytes → Bytes → Bool × Bytes
scan_literal [] s = (true, s)
scan_literal (c ∷ t) [] = (false, [])
scan_literal (c ∷ t) (d ∷ s) = if c == d then scan_literal t s else (false, d ∷ s)

-- The first four numbers go into the counters, as far as they were read.
unfoldable pub assign : List ℕ → Counters → Counters
assign [] c = c
assign (u ∷ []) c = record c { user = u }
assign (u ∷ l ∷ []) c = record c { user = u; user_low = l }
assign (u ∷ l ∷ y ∷ []) c = record c { user = u; user_low = l; sys = y }
assign (u ∷ l ∷ y ∷ i ∷ ns) c = record { user = u; user_low = l; sys = y; idle = i }

-- One `fscanf`: the name, ten numbers, and the white space behind them if all were read.
unfoldable pub scan_cpu : Bytes → Counters → Bytes → Counters × Bytes
scan_cpu name c s =
    let (matched, s') = scan_literal name s in
    let (ns, s'') = scan_numbers 10 s' in
    if matched then (assign ns c, (if length ns == 10 then skip_space s'' else s'')) else (c, s')

-- The five `fscanf`s, one for each set of counters that is left.
unfoldable pub scan_each : List Bytes → List Counters → Bytes → List Counters
scan_each (name ∷ names) (c ∷ cs) s = let (c', s') = scan_cpu name c s in c' ∷ scan_each names cs s'
scan_each names cs s = cs

abbrev pub cpu_names : List Bytes
cpu_names = codes "cpu" ∷ codes "cpu0" ∷ codes "cpu1" ∷ codes "cpu2" ∷ codes "cpu3" ∷ []

-- -1, or 100 times the quotient of two numbers, as `double`s.
pub data Percent : Type 0 where
  skipped : Percent
  share : ℕ → ℕ → Percent

unfoldable pub percent_of : Counters → Counters → Percent
percent_of last now =
    let total =
      ((now.user - last.user) + (now.user_low - last.user_low) + (now.sys - last.sys)) % 2 ^ 64 in
    if ltb now.user last.user
      || ltb now.user_low last.user_low
      || ltb now.sys last.sys
      || ltb now.idle last.idle
    then skipped
    else share total ((total + (now.idle - last.idle)) % 2 ^ 64)

-- The loop over the processors.
unfoldable pub percents : List Counters → List Counters → List Percent
percents (last ∷ lasts) (now ∷ nows) = percent_of last now ∷ percents lasts nows
percents lasts nows = []

-- `lastTotal...` and `total...`
pub record Cpus : Type 0 where
  pub last : List Counters
  pub now : List Counters

-- `getCurrentValue` on the text of /proc/stat: the percentages and the counters.
unfoldable pub get_current_value : Bytes → Cpus → List Percent × Cpus
get_current_value stat c =
    let now = scan_each cpu_names c.now stat in
    (percents c.last now, record { last = now; now = now })
