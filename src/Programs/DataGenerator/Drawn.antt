-- ===== src/Programs/DataGenerator/Drawn.antt =====
-- The words of the generated data are the numbers that were drawn.
use gorn.Common.{
  ℕ, zero, suc, ◌+◌, ◌*◌, ◌^◌, ◌<◌, ◌≡◌, refl, sym, ap, ◌∙◌, Option, none, some, [], ◌∷◌, ◌++◌, map,
  arith,
}
use mathlib.Core.List.{map-append}
use gorn.Text.{Bytes}
use gorn.Text.Find.{atoi}
use gorn.Text.Find.Quotes.{atoi-print}
use gorn.Text.Stream.Decimal.{print}
use gorn.Files.{words, delimited}
use gorn.Files.ReadWrite.{words-delimited}
use gorn.Files.Split.{words-line}
use gorn.Programs.MergeSort.Printed.{prints-IsWord}
use gorn.Programs.DataGenerator.{draws, iterations, main}

draws-split :
    (rand : ℕ → ℕ) (a b k : ℕ) → draws rand (a + b) k ≡ draws rand a k ++ draws rand b (k + a)
draws-split rand zero b k =
    ap (λ n. draws rand n k) (omega arith) ∙ ap (λ n. draws rand b n) (omega arith)
draws-split rand (suc a) b k =
    let count : suc a + b ≡ suc (a + b) = omega arith in
    let later : k + 1 + a ≡ k + suc a = omega arith in
    ap (λ n. draws rand n k) count
    ∙ ap (λ z. rand k ∷ z)
        (draws-split rand a b (k + 1) ∙ ap (λ n. draws rand a (k + 1) ++ draws rand b n) later)

words-nothing : words [] ≡ []
unfolding delimited
words-nothing = words-delimited 32 refl [] tt

iterations-words :
    (rand : ℕ → ℕ) (n m k : ℕ) → words (iterations rand n m k) ≡ map print (draws rand (m * n) k)
unfolding iterations
iterations-words rand n zero k =
    let none_drawn : 0 ≡ zero * n = omega arith in
    words-nothing ∙ ap (λ c. map print (draws rand c k)) none_drawn
iterations-words rand n (suc m) k =
    let row = map print (draws rand n k) in
    let count : suc m * n ≡ n + m * n = grind arith in
    words-line (delimited 32 row) (iterations rand n m (k + n))
    ∙ (ap (λ z. z ++ words (iterations rand n m (k + n)))
          (words-delimited 32 refl row (prints-IsWord (draws rand n k)))
        ∙ (ap (λ z. row ++ z) (iterations-words rand n m (k + n))
            ∙ (sym (map-append print (draws rand n k) (draws rand (m * n) (k + n)))
                ∙ ap (λ z. map print z)
                    (sym (draws-split rand n (m * n) k) ∙ ap (λ c. draws rand c k) (sym count)))))

-- On two decimal numbers `n` and `m` below 2 ^ 31 the generator returns 0, and the words that it
-- writes are the prints of the first `m * n` values of `rand`, in order.
pub main-draws :
    (rand : ℕ → ℕ) (program : Bytes) (n m : ℕ)
    → n < 2 ^ 31
    → m < 2 ^ 31
    → (text : Bytes) × (main rand (program ∷ print n ∷ print m ∷ []) ≡ some (0, text))
      × (words text ≡ map print (draws rand (m * n) 0))
unfolding main
main-draws rand program n m hn hm =
    let second : Option ℕ → Option (ℕ × Bytes) =
      λ o. elim o [ none ↦ none | some b ↦ some (0, iterations rand n b 0) ] in
    let first : Option ℕ → Option (ℕ × Bytes) = λ o. elim o [
      | none ↦ none
      | some a ↦ elim (atoi (print m)) [ none ↦ none | some b ↦ some (0, iterations rand a b 0) ]
    ] in
    (
      iterations rand n m 0,
      ap first (atoi-print n hn) ∙ ap second (atoi-print m hm),
      iterations-words rand n m 0,
    )
