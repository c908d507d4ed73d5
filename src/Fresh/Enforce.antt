-- ===== src/Fresh/Enforce.antt =====
-- DistributedQueue/DistributedQueue.cpp: `enforce_uniqueness`. `atoi` is undefined past an `int`, and
-- so is the sum; `undefined` stands for both, and `endless` for a loop without fuel.
pub mod Fuel
pub mod Unique
use gorn.Common.{
  ℕ, zero, suc, ◌+◌, ◌-◌, ◌%◌, ◌^◌, Bool, true, false, Option, none, some, List, [], ◌∷◌, leb, ltb,
  ◌==◌, if◌then◌else◌, length,
}
use gorn.Text.{Bytes}
use gorn.Text.Stream.{skip_space, span_digits}
use gorn.Text.Stream.Decimal.{print}
use gorn.Fresh.{CountMap, has, put}

-- `std::size_t v = atoi ( ... ) + 1` behind the white space and the sign: the number of a text of
-- digits, from above or from below 0.
pub above_zero : ℕ → Option ℕ
above_zero n = if ltb (n + 1) (2 ^ 31) then some (n + 1) else none

pub below_zero : ℕ → Option ℕ
below_zero n = if leb n (2 ^ 31) then some ((2 ^ 64 + 1 - n) % 2 ^ 64) else none

pub signed : Bytes → Option ℕ
unfolding above_zero below_zero span_digits
signed [] = above_zero 0
signed (c ∷ s) =
    if c == b'-'
    then below_zero (span_digits s 0).0
    else if c == b'+'
    then above_zero (span_digits s 0).0
    else above_zero (span_digits (c ∷ s) 0).0

unfoldable pub atoi_next : Bytes → Option ℕ
unfolding signed skip_space
atoi_next s = signed (skip_space s)

pub data Enforced {ℓ} (A : Type ℓ) : Type ℓ where
  ended : A → Enforced A
  undefined : Enforced A
  endless : Enforced A

unfoldable pub and_then {ℓ κ} :
    {A : Type ℓ} {B : Type κ} → Enforced A → (A → Enforced B) → Enforced B
and_then (ended a) f = f a
and_then undefined f = undefined
and_then endless f = endless

-- The `while` of one text: the text that it ends with, and the map.
unfoldable pub enforce_text : ℕ → CountMap → Bytes → Enforced (Bytes × CountMap)
unfolding has put atoi_next
enforce_text zero m s = endless
enforce_text (suc fuel) m s =
    if has s m
    then elim (atoi_next s) [ none ↦ undefined | some v ↦ enforce_text fuel m (print v) ]
    else ended (s, put s m)

-- The loops over a vector and over the vectors.
unfoldable pub enforce_row : CountMap → List Bytes → Enforced (List Bytes × CountMap)
unfolding enforce_text and_then
enforce_row m [] = ended ([], m)
enforce_row m (s ∷ ss) =
    and_then (enforce_text (suc (suc (length m))) m s)
      (λ text. and_then (enforce_row text.1 ss) (λ row. ended (text.0 ∷ row.0, row.1)))

unfoldable pub enforce_rows : CountMap → List (List Bytes) → Enforced (List (List Bytes))
unfolding enforce_row and_then
enforce_rows m [] = ended []
enforce_rows m (r ∷ rs) =
    and_then (enforce_row m r)
      (λ row. and_then (enforce_rows row.1 rs) (λ rows. ended (row.0 ∷ rows)))

-- `enforce_uniqueness`. A text takes a round for each larger number in the map, and two more.
unfoldable pub enforce_uniqueness : List (List Bytes) → Enforced (List (List Bytes))
unfolding enforce_rows
enforce_uniqueness vec = enforce_rows [] vec
