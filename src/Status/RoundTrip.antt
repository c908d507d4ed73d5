-- ===== src/Status/RoundTrip.antt =====
-- utils/serializers/system_status_serialize.h: readers put one behind the other, and what the
-- `serialize` functions write, as one list of numbers.
pub mod Parts
pub mod Members
pub mod Whole
use gorn.Common.{
  ℕ, zero, suc, ◌≡◌, refl, sym, ap, ◌∙◌, List, [], ◌∷◌, ◌++◌, map, append_assoc, append-nil, length,
  All, concat,
}
use mathlib.Core.Path.{ap₂}
use gorn.Text.{Bytes}
use gorn.Text.Stream.{Stream, open_text}
use gorn.Status.{Floats, push_entries, serialize_t}
use gorn.Status.Reader.{
  Reader, pure, ◌>>=◌, read_double, read_member, read_entries, deserialize_t, read_size,
}
use gorn.Status.Message.{write_numbers}

module _ {Float Double : Type 0} (o : Floats Float Double) (unset : Double) where
  -- The number that `<<` prints of the float is read by `>>` from between two blanks as the double,
  -- which prints alike.
  pub record Reads (x : Float) (v : Double) : Type 0 where
    pub got :
        (rest : Bytes)
        → o.get_double unset (open_text (32 ∷ (o.print_float x ++ 32 ∷ rest)))
          ≡ (v, open_text (32 ∷ rest))
    pub same_print : o.print_double v ≡ o.print_float x

  -- A value that comes back through `float`, text and `double`.
  pub record Exact {ℓ} {A : Type ℓ} (to_float : A → Float) (of_double : Double → A) (a : A)
      : Type ℓ where
    pub number : Double
    pub reads : Reads (to_float a) number
    pub back : of_double number ≡ a

  abbrev pub ExactSize : ℕ → Type 0
  ExactSize n = Exact o.float_of_size o.size_of_double n

  -- The reader takes the numbers from a stream that goes on with `rest`, and copies them to the check
  -- sum's text.
  abbrev pub Parses {ℓ} : {A : Type ℓ} → Reader A → List Float → A → Type ℓ
  Parses p xs a =
      (rest text : Bytes)
      → p (open_text (32 ∷ (write_numbers o xs ++ rest)), text)
        ≡ (a, open_text (32 ∷ rest), text ++ write_numbers o xs)

  write_numbers-append :
      (xs ys : List Float) → write_numbers o (xs ++ ys) ≡ write_numbers o xs ++ write_numbers o ys
  unfolding write_numbers
  write_numbers-append [] ys = refl
  write_numbers-append (x ∷ xs) ys =
      ap (λ z. o.print_float x ++ 32 ∷ z) (write_numbers-append xs ys)
      ∙ sym (append_assoc (o.print_float x) (32 ∷ write_numbers o xs) (write_numbers o ys))

  pub Parses-pure {ℓ} : {A : Type ℓ} (a : A) → Parses (pure a) [] a
  unfolding write_numbers pure
  Parses-pure a rest text = ap (λ z. (a, open_text (32 ∷ rest), z)) (sym (append-nil text))

  pub Parses-bind {ℓ κ} :
      {A : Type ℓ} {B : Type κ} (p : Reader A) (f : A → Reader B) (xs ys : List Float) (a : A)
      (b : B)
      → Parses p xs a
      → Parses (f a) ys b
      → Parses (p >>= f) (xs ++ ys) b
  unfolding ◌>>=◌
  Parses-bind {A = A} p f xs ys a b first second rest text =
      let both = write_numbers-append xs ys in
      let front : write_numbers o (xs ++ ys) ++ rest
          ≡ write_numbers o xs ++ (write_numbers o ys ++ rest) =
        ap (λ z. z ++ rest) both ∙ append_assoc (write_numbers o xs) (write_numbers o ys) rest in
      let run = λ (r : A × Stream × Bytes). f r.0 (r.1, r.2) in
      ap (λ z. run (p (open_text (32 ∷ z), text))) front
      ∙ (ap run (first (write_numbers o ys ++ rest) text)
          ∙ (second rest (text ++ write_numbers o xs)
              ∙ ap (λ z. (b, open_text (32 ∷ rest), z))
                  (append_assoc text (write_numbers o xs) (write_numbers o ys)
                    ∙ ap (λ z. text ++ z) (sym both))))

  pub Parses-double : (x : Float) (v : Double) → Reads x v → Parses (read_double o unset) (x ∷ []) v
  unfolding read_double write_numbers
  Parses-double x v h rest text =
      ap
        (λ z.
          let (num, s') = o.get_double unset (open_text (32 ∷ z)) in
          (num, s', text ++ (o.print_double num ++ 32 ∷ [])))
        (append_assoc (o.print_float x) (32 ∷ []) rest)
      ∙ (ap (λ (r : Double × Stream). (r.0, r.1, text ++ (o.print_double r.0 ++ 32 ∷ [])))
            (h.got rest)
          ∙ ap (λ z. (v, open_text (32 ∷ rest), text ++ (z ++ 32 ∷ []))) h.same_print)

  -- A reader whose result is converted at the end.
  pub Parses-map {ℓ κ} :
      {A : Type ℓ} {B : Type κ} (p : Reader A) (g : A → B) (xs : List Float) (a : A) (b : B)
      → Parses p xs a
      → g a ≡ b
      → Parses (p >>= λ v. pure (g v)) xs b
  unfolding ◌>>=◌ pure
  Parses-map {A = A} p g xs a b h e rest text =
      ap (λ (r : A × Stream × Bytes). (g r.0, r.1, r.2)) (h rest text)
      ∙ ap (λ z. (z, open_text (32 ∷ rest), text ++ write_numbers o xs)) e

  pub Parses-member :
      (old x : Float)
      → ((rest : Bytes)
          → o.get_float old (open_text (32 ∷ (o.print_float x ++ 32 ∷ rest)))
            ≡ (x, open_text (32 ∷ rest)))
      → Parses (read_member o unset old) (x ∷ []) x
  unfolding read_member write_numbers
  Parses-member old x got rest text =
      ap
        (λ z.
          let (num, s') = o.get_float old (open_text (32 ∷ z)) in
          (num, s', text ++ (o.print_float num ++ 32 ∷ [])))
        (append_assoc (o.print_float x) (32 ∷ []) rest)
      ∙ ap (λ (r : Float × Stream). (r.0, r.1, text ++ (o.print_float r.0 ++ 32 ∷ []))) (got rest)
