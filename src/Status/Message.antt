-- ===== src/Status/Message.antt =====
-- utils/serializers/system_status_serialize.h: `SystemStatusMessage`.
use gorn.Common.{ℕ, Bool, false, not, List, [], ◌∷◌, ◌++◌, ◌==◌, if◌then◌else◌}
use gorn.Text.{Bytes}
use gorn.Text.Stream.{Stream, open_text, get_string, get_number, is_nil}
use gorn.Text.Stream.Decimal.{print}
use gorn.Message.{check_sum, system_status_type}
use gorn.Status.{Floats, InfoPackage, serialize_package}
use gorn.Status.Reader.{pure, ◌>>=◌, deserialize_package}

-- The end of `deserialize`, behind the package: what it returns, the package, and whether it printed
-- that the check sums do not match.
unfoldable pub conclude_status {ℓ} : {A : Type ℓ} → ℕ → A → Stream → Bytes → ℕ × A × Bool
conclude_status unset_sum info s text =
    let (check_sum_2, s') = get_number unset_sum s in
    let (residual, _) = get_string [] s' in
    ((if is_nil residual then 0 else 1), info, not (check_sum text == check_sum_2))

module _ {Float Double : Type 0} (o : Floats Float Double) where
  -- `ss << vec[k] << " "` for each number.
  unfoldable pub write_numbers : List Float → Bytes
  write_numbers [] = []
  write_numbers (x ∷ xs) = o.print_float x ++ 32 ∷ write_numbers xs

  unfoldable pub serialize_status : InfoPackage Float → Bytes
  unfolding write_numbers
  serialize_status info =
      let text = print system_status_type ++ 32 ∷ write_numbers (serialize_package o info) in
      text ++ (print (check_sum text) ++ 32 ∷ [])

  -- `deserialize` of a message object that holds `old`.
  unfoldable pub deserialize_status :
      ℕ → Double → InfoPackage Float → Bytes → ℕ × InfoPackage Float × Bool
  unfolding conclude_status ◌>>=◌ pure
  deserialize_status unset unset_double old str =
      let (type, s) = get_number unset (open_text str) in
      let read =
        deserialize_package o unset_double old.m_system_info.p_memory_percent
          (s, print type ++ 32 ∷ []) in
      if type == system_status_type
      then conclude_status unset read.0 read.1 read.2
      else (1, old, false)
