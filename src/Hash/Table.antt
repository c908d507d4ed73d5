-- ===== src/Hash/Table.antt =====
-- The table that `init` fills, against the list of allowed characters that its comment gives.
use gorn.Common.{
  ℕ, zero, suc, ◌<◌, ◌≡◌, refl, Bool, true, false, ◌&&◌, ◌||◌, Option, none, some, [], ◌∷◌, arith,
  ◌==◌, leb, All,
}
use gorn.Text.{Bytes, codes}
use gorn.Hash.{find, init, validate}

-- "allowed characters : !*'();:@&=+$,/?#[] % A-Z a-z 0-9 .~-"
in_text : ℕ → Bytes → Bool
in_text c [] = false
in_text c (d ∷ s) = d == c || in_text c s

pub is_allowed : ℕ → Bool
unfolding in_text
is_allowed c =
    (leb b'A' c && leb c b'Z')
    || (leb b'a' c && leb c b'z')
    || (leb b'0' c && leb c b'9')
    || in_text c (codes "!*'();:@&=+$,/?#[]%.~-")

is_found : Option ℕ → Bool
is_found none = false
is_found (some v) = true

same : Bool → Bool → Bool
same true b = b
same false true = false
same false false = true

-- Both sides of the table's law at a byte.
agrees : ℕ → Bool
unfolding is_found same
agrees c = same (is_found (find c init)) (is_allowed c)

-- Whether they agree at the `count` smallest bytes.
agree_first : (count : ℕ) → Bool
agree_first zero = true
agree_first (suc count) = elim (agrees count) [ false ↦ false | true ↦ agree_first count ]

agree_at : (count : ℕ) → agree_first count ≡ true → (c : ℕ) → c < count → agrees c ≡ true
unfolding agree_first
agree_at zero all c h = absurd (omega arith)
agree_at (suc count) all c h = ground (arith, λ (k : agree_first count ≡ true). agree_at count k c)

bytes_agree : agree_first 256 ≡ true
unfolding agree_first agrees is_allowed find init
bytes_agree = refl

found-is_allowed : (c : ℕ) → c < 256 → same (is_found (find c init)) (is_allowed c) ≡ true
unfolding agrees
found-is_allowed c h = agree_at 256 bytes_agree c h

pub all_allowed : Bytes → Bool
all_allowed [] = true
all_allowed (c ∷ s) = is_allowed c && all_allowed s

validate-cons :
    (c : ℕ) (s : Bytes) → c < 256 → validate init (c ∷ s) ≡ (is_allowed c && validate init s)
unfolding validate is_found same
validate-cons c s h = ground (arith, found-is_allowed c h)

-- Of a text of bytes, the table that `init` fills accepts exactly the texts whose characters all are
-- letters, digits or among `!*'();:@&=+$,/?#[]%.~-`.
pub validate-init : (s : Bytes) → All (λ c. c < 256) s → validate init s ≡ all_allowed s
unfolding all_allowed
validate-init [] h = unfold validate in refl
validate-init (c ∷ s) (p, h) = rw (validate-cons c s p, validate-init s h)
