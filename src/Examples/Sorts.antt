-- ===== src/Examples/Sorts.antt =====
-- Merges, sorts and files at concrete inputs.
use gorn.Common.{ℕ, ◌≡◌, refl, true, List, [], ◌∷◌, arith, nat_order, All}
use gorn.Text.{Bytes, codes}
use gorn.Text.Stream.Extract.{IsWord}
use gorn.Sorting.{merge}
use gorn.Files.{Disk}

abbrev odds : List ℕ
odds = 1 ∷ 3 ∷ 3 ∷ []

abbrev evens : List ℕ
evens = 2 ∷ 4 ∷ []

merge_runs : merge odds evens ≡ 1 ∷ 2 ∷ 3 ∷ 3 ∷ 4 ∷ []
unfolding merge
merge_runs = refl

abbrev empty_disk : Disk
empty_disk = record { files = []; can_open = λ p. true }

abbrev two_words : List Bytes
two_words = codes "b" ∷ codes "a" ∷ []

two_words-IsWord : All IsWord two_words
two_words-IsWord = (
  record { nonempty = cc; solid = ground arith },
  (record { nonempty = cc; solid = ground arith }, tt),
)
