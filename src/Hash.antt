-- ===== src/Hash.antt =====
-- utils/hash/hash.h: `HashGenerator`. The object's state is `hash_map`, an association list from
-- characters (bytes) to codes; `operator []` on a missing key inserts the code 0, as `std::map` does.
pub mod Laws
pub mod Table
use gorn.Common.{
  ℕ, zero, suc, ◌+◌, ◌*◌, ◌%◌, ◌^◌, Bool, true, false, Option, none, some, List, [], ◌∷◌, ◌++◌,
  ◌==◌, if◌then◌else◌,
}
use gorn.Text.{Bytes, codes}

abbrev pub HashMap : Type 0
HashMap = List (ℕ × ℕ)

unfoldable pub find : ℕ → HashMap → Option ℕ
find c [] = none
find c ((d, v) ∷ m) = if d == c then some v else find c m

-- `hash_map[c] = v`
pub assign : ℕ → ℕ → HashMap → HashMap
assign c v [] = (c, v) ∷ []
assign c v ((d, w) ∷ m) = if d == c then (d, v) ∷ m else (d, w) ∷ assign c v m

-- `hash_map[c]` as a value, with the entry that it inserts.
pub index_at : HashMap → ℕ → ℕ × HashMap
index_at m c = elim (find c m) [ some v ↦ (v, m) | none ↦ (0, assign c 0 m) ]

-- The characters from `c` on, `n` of them: `for ( char c='A' ; c <= 'Z' ; ++c )`.
abbrev chars_from : ℕ → ℕ → Bytes
chars_from c zero = []
chars_from c (suc n) = c ∷ chars_from (c + 1) n

-- Each character in turn gets `index++`.
number_chars : Bytes → ℕ → HashMap → HashMap
number_chars [] index m = m
number_chars (c ∷ cs) index m = number_chars cs (index + 1) (assign c index m)

unfoldable pub init : HashMap
unfolding number_chars assign
init =
    number_chars
      (codes "!*'();:@&=+$,/?#[]%"
        ++ chars_from b'A' 26
        ++ chars_from b'a' 26
        ++ chars_from b'0' 10
        ++ codes ".~-")
      1 []

unfoldable pub validate : HashMap → Bytes → Bool
unfolding find
validate m [] = true
validate m (c ∷ s) = elim (find c m) [ none ↦ false | some v ↦ validate m s ]

-- The loop of `generate_hash`; `ret` is a 64-bit `std::size_t`.
hash_loop : Bytes → ℕ → HashMap → ℕ × HashMap
unfolding index_at
hash_loop [] ret m = (ret, m)
hash_loop (c ∷ s) ret m =
    let (v, m') = index_at m c in hash_loop s (((ret * 2) % 2 ^ 64 + v) % 2 ^ 64) m'

-- The hash of a text and the object's next state. (On a text that `validate` refuses the method
-- prints a warning and goes on.)
unfoldable pub generate_hash : HashMap → Bytes → ℕ × HashMap
unfolding hash_loop
generate_hash m s = hash_loop s 0 m
