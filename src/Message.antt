-- ===== src/Message.antt =====
-- utils/serializers/serialize.h, store_message_serialize.h and find_message_serialize.h. The two
-- message classes have the same text but for their type number, so a message is a `Kind` with its
-- `m_data`. A variable that a failed first extraction leaves unset has the arbitrary value `unset`.
pub mod RoundTrip
pub mod Offset
use gorn.Common.{
  ℕ, zero, suc, ◌+◌, ◌-◌, ◌%◌, ◌^◌, min, Bool, true, false, not, List, [], ◌∷◌, ◌++◌, arith, ltb,
  ◌==◌, if◌then◌else◌, length, take, drop,
}
use gorn.Text.{Bytes}
use gorn.Text.Stream.{Stream, open_text, get_string, get_number, is_nil}
use gorn.Text.Stream.Decimal.{print}

pub data Kind : Type 0 where
  store find : Kind

abbrev pub store_type : ℕ
store_type = 1234589

abbrev pub find_reply_type : ℕ
find_reply_type = 9387534

abbrev pub find_type : ℕ
find_type = 4389728

abbrev pub system_status_type : ℕ
system_status_type = 3892051

abbrev pub get_system_status_type : ℕ
get_system_status_type = 2398475

-- `get_type` of `StoreMessage` and of `FindMessage`.
abbrev pub get_type : Kind → ℕ
get_type store = store_type
get_type find = find_type

-- `Serialize::extract_type`
unfoldable pub extract_type : ℕ → Bytes → ℕ
extract_type unset str = (get_number unset (open_text str)).0

-- `(int)c + 1` added to a `std::size_t`: a `char` is signed.
abbrev pub char_weight : ℕ → ℕ
char_weight c = if ltb c 128 then c + 1 else (c + 1 + 2 ^ 64 - 256) % 2 ^ 64

check_loop : Bytes → ℕ → ℕ
check_loop [] sum = sum
check_loop (c ∷ s) sum = check_loop s ((sum + char_weight c) % 2 ^ 64)

unfoldable pub check_sum : Bytes → ℕ
unfolding check_loop
check_sum s = check_loop s 0

-- `ss << m_data[k] << " "` for each item in turn.
pub write_items : List Bytes → Bytes
write_items [] = []
write_items (w ∷ ws) = w ++ 32 ∷ write_items ws

-- What `serialize` writes before the check sum: the type, `size`, and the items from `offset` up to
-- `size`, the end of the range or of the data.
pub body : Kind → List Bytes → ℕ → ℕ → Bytes
unfolding write_items
body k items offset num =
    let size = min (length items) ((offset + num) % 2 ^ 64) in
    print (get_type k)
    ++ 32 ∷ (print size ++ 32 ∷ write_items (take (size - offset) (drop offset items)))

unfoldable pub serialize : Kind → List Bytes → ℕ → ℕ → Bytes
unfolding body check_sum
serialize k items offset num =
    let text = body k items offset num in text ++ (print (check_sum text) ++ 32 ∷ [])

-- The `for` of `deserialize`: the values, what went to `ss_check_sum`, and the stream after them.
pub read_items : ℕ → Stream → List Bytes × Bytes × Stream
read_items zero s = ([], [], s)
read_items (suc n) s =
    let (value, s') = get_string [] s in
    let rest = read_items n s' in (value ∷ rest.0, value ++ 32 ∷ rest.1, rest.2)

-- The result of `deserialize`: its return value, the `m_data` that it leaves, and whether it printed
-- that the check sums do not match.
pub record Outcome : Type 0 where
  pub status : ℕ
  pub items : List Bytes
  pub warned : Bool

-- The end of `deserialize`, after the items.
pub conclude : ℕ → List Bytes → Bytes → Stream → Outcome
conclude unset values text s =
    let (check_sum_2, s') = get_number unset s in
    let (residual, _) = get_string [] s' in
    record {
      status = if is_nil residual then 0 else 1;
      items = values;
      warned = not (check_sum text == check_sum_2);
    }

-- `deserialize` after it read the type.
pub read_body : ℕ → ℕ → Stream → Outcome
unfolding read_items conclude
read_body unset type s =
    let (num, s') = get_number unset s in
    let read = read_items num s' in
    conclude unset read.0 (print type ++ 32 ∷ (print num ++ 32 ∷ read.1)) read.2

-- `deserialize` of a message object that holds `old`; a text of another type leaves the data alone.
unfoldable pub deserialize : ℕ → Kind → List Bytes → Bytes → Outcome
unfolding read_body
deserialize unset k old str =
    let (type, s) = get_number unset (open_text str) in
    if type == get_type k
    then read_body unset type s
    else record { status = 1; items = old; warned = false }

-- `FindMessage`, by the same code.
abbrev pub serialize_find : List Bytes → ℕ → ℕ → Bytes
serialize_find items offset num = serialize find items offset num

abbrev pub deserialize_find : ℕ → List Bytes → Bytes → Outcome
deserialize_find unset old str = deserialize unset find old str

-- The loop of `set_data`.
pub push_all : List Bytes → List Bytes → List Bytes
push_all m [] = m
push_all m (w ∷ ws) = push_all (m ++ w ∷ []) ws

-- `set_data`: the object's `old` data is cleared.
pub set_data : List Bytes → List Bytes → List Bytes
unfolding push_all
set_data old items = push_all [] items
