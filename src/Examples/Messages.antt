-- ===== src/Examples/Messages.antt =====
-- Runs of the serializers and of the sending loop, and their theorems at concrete inputs.
use gorn.Common.{
  ℕ, zero, suc, ◌+◌, ◌≡◌, refl, true, false, List, [], ◌∷◌, ◌++◌, arith, length, concat, All,
}
use gorn.Text.{Bytes, codes}
use gorn.Text.Stream.{get_string, get_number}
use gorn.Text.Stream.Extract.{IsWord}
use gorn.Text.Stream.Decimal.{print}
use gorn.Message.{store, find, check_sum, body, serialize, deserialize}
use gorn.Message.RoundTrip.{written, deserialize-serialize}
use gorn.Message.Offset.{blanks, received, deserialize-offset}
use gorn.Batches.{batches}
use gorn.Batches.Cover.{glue, Shaped, Repeats, batches_cover, batches_repeat}

abbrev two_urls : List Bytes
two_urls = codes "a.org/" ∷ codes "b.org/x" ∷ []

two_urls-IsWord : All IsWord two_urls
two_urls-IsWord = (
  record { nonempty = cc; solid = ground arith },
  (record { nonempty = cc; solid = ground arith }, tt),
)

sent : serialize store two_urls 0 2 ≡ codes "1234589 2 a.org/ b.org/x 1728 "
unfolding serialize print
sent = refl

read_back :
    deserialize 7 store [] (codes "1234589 2 a.org/ b.org/x 1 ")
    ≡ record { status = 0; items = two_urls; warned = true }
unfolding deserialize get_string get_number print check_sum
read_back = refl

deserialize-serialize_example :
    deserialize 7 find [] (serialize find two_urls 0 1)
    ≡ record { status = 0; items = codes "a.org/" ∷ []; warned = false }
deserialize-serialize_example =
    deserialize-serialize 7 find [] two_urls 1 two_urls-IsWord (omega arith) (omega arith)

deserialize-offset_example :
    ((received 7 store [] two_urls 0 1).status ≡ 0)
    × ((received 7 store [] two_urls 0 1).items
        ≡ written two_urls 1 1 ++ print (check_sum (body store two_urls 1 1)) ∷ blanks 0)
deserialize-offset_example =
    deserialize-offset 7 store [] two_urls 0 1 two_urls-IsWord (omega arith) (omega arith)

abbrev numbers : ℕ → List ℕ
numbers zero = []
numbers (suc n) = n ∷ numbers n

batches_runs : batches (numbers 2) ≡ (1 ∷ 0 ∷ []) ∷ []
unfolding batches
batches_runs = refl

-- A vector of 100 items is sent as a full batch and one item again.
batches_twice : length (concat (batches (numbers 100))) ≡ 101
unfolding batches
batches_twice = refl

batches_cover_example :
    (glue (batches (numbers 150)) ≡ numbers 150) × Shaped (batches (numbers 150))
batches_cover_example = batches_cover (numbers 150)

batches_repeat_example :
    Repeats (batches (numbers 150))
    × (length (concat (batches (numbers 150))) + 1
        ≡ length (numbers 150) + length (batches (numbers 150)))
batches_repeat_example = batches_repeat (numbers 150)
