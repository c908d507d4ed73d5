-- ===== src/Status/RoundTrip/Whole.antt =====
-- utils/serializers/system_status_serialize.h: the whole `SystemStatusMessage`.
use gorn.Common.{
  ℕ, ◌≡◌, ap, ◌∙◌, false, List, [], ◌∷◌, ◌++◌, append_assoc, arith, ==_refl, if◌then◌else◌, ◌==◌,
}
use gorn.Text.{Bytes}
use gorn.Text.Stream.{Stream, open_text, get_number}
use gorn.Text.Stream.Decimal.{print}
use gorn.Text.Stream.Extract.{get_string-end, get_number-print}
use gorn.Message.{check_sum, system_status_type}
use gorn.Message.RoundTrip.{check_sum-le, read_number}
use gorn.Status.{Floats, InfoPackage}
use gorn.Status.Reader.{deserialize_package}
use gorn.Status.Message.{conclude_status, write_numbers, serialize_status, deserialize_status}
use gorn.Status.RoundTrip.Members.{
  package_numbers, serialize_package-numbers, ExactPackage, deserialize_package-Parses,
}

conclude_status-sum {ℓ} :
    {A : Type ℓ} (unset : ℕ) (info : A) (text : Bytes)
    → conclude_status unset info (open_text (32 ∷ (print (check_sum text) ++ 32 ∷ []))) text
      ≡ (0, info, false)
unfolding conclude_status
conclude_status-sum unset info text = rw (
  read_number unset (check_sum text) [] (check_sum-le text),
  get_string-end [],
  ==_refl (check_sum text),
)

module _ {Float Double : Type 0} (o : Floats Float Double) where
  -- The text that stands before the check sum.
  abbrev status_text : InfoPackage Float → Bytes
  status_text info = print system_status_type ++ 32 ∷ write_numbers o (package_numbers o info)

  pub serialize_status-parts :
      (info : InfoPackage Float)
      → serialize_status o info
        ≡ print system_status_type
          ++ 32
            ∷ (write_numbers o (package_numbers o info)
                ++ (print (check_sum (status_text info)) ++ 32 ∷ []))
  unfolding serialize_status
  serialize_status-parts info =
      let text = λ (xs : List Float). print system_status_type ++ 32 ∷ write_numbers o xs in
      ap (λ xs. text xs ++ (print (check_sum (text xs)) ++ 32 ∷ []))
        (serialize_package-numbers o info)
      ∙ append_assoc (print system_status_type) (32 ∷ write_numbers o (package_numbers o info)) _

  -- Let every number of a package come back through `float`, text and `double`. Then
  -- `deserialize` takes what `serialize` writes, returns 0 with the package, and has no warning.
  pub deserialize_status-serialize_status :
      (unset : ℕ) (unset_double : Double) (old info : InfoPackage Float)
      → ExactPackage o unset_double old.m_system_info.p_memory_percent info
      → deserialize_status o unset unset_double old (serialize_status o info) ≡ (0, info, false)
  unfolding deserialize_status
  deserialize_status-serialize_status unset unset_double old info e =
      let sum = print (check_sum (status_text info)) ++ 32 ∷ [] in
      let numbers = write_numbers o (package_numbers o info) in
      let head = print system_status_type ++ 32 ∷ [] in
      let read = deserialize_package o unset_double old.m_system_info.p_memory_percent in
      let end = λ (r : InfoPackage Float × Stream × Bytes). conclude_status unset r.0 r.1 r.2 in
      let go = λ (r : ℕ × Stream).
        if r.0 == system_status_type
        then end (read (r.1, print r.0 ++ 32 ∷ []))
        else (1, old, false) in
      ap (λ t. go (get_number unset (open_text t))) (serialize_status-parts info)
      ∙ (ap go (get_number-print unset system_status_type (numbers ++ sum) (omega arith))
          ∙ (ap end (deserialize_package-Parses o unset_double _ info e sum head)
              ∙ (ap (conclude_status unset info (open_text (32 ∷ sum)))
                    (append_assoc (print system_status_type) (32 ∷ []) numbers)
                  ∙ conclude_status-sum unset info (status_text info))))
