-- ===== src/Message/RoundTrip.antt =====
-- What a peer reads from a serialized message.
use gorn.Common.{
  ℕ, zero, suc, ◌+◌, ◌-◌, ◌%◌, ◌^◌, ◌≤◌, ◌<◌, min, ◌≡◌, refl, sym, ap, ◌≢◌, ◌∙◌, false, List, [],
  ◌∷◌, ◌++◌, append_assoc, append-nil, arith, ◌==◌, ==_refl, if◌then◌else◌, length, take, drop,
  length-take, All,
}
use mathlib.Core.Path.{ap₂}
use gorn.Text.{Bytes}
use gorn.Text.Stream.{Stream, open_text, get_number, max_u64}
use gorn.Text.Stream.Decimal.{print}
use gorn.Text.Stream.Extract.{
  IsWord, get_string-word, get_string-space, get_string-end, get_number-space, get_number-print,
}
use gorn.Message.{
  Kind, store, find, get_type, extract_type, check_loop, check_sum, write_items, body, serialize,
  read_items, conclude, read_body, deserialize, push_all, set_data,
}

-- The sum that stands behind the items is a 64-bit number.
check_loop-le : (s : Bytes) (n : ℕ) → n ≤ max_u64 → check_loop s n ≤ max_u64
unfolding check_loop
check_loop-le [] n h = h
check_loop-le (c ∷ s) n h = check_loop-le s _ (omega arith)

pub check_sum-le : (s : Bytes) → check_sum s ≤ max_u64
unfolding check_sum
check_sum-le s = check_loop-le s 0 (omega arith)

-- Reading the items back, with a space in front, as the count before them leaves it.
pub read_items-write_items :
    (ws : List Bytes) (s : Bytes)
    → All IsWord ws
    → read_items (length ws) (open_text (32 ∷ (write_items ws ++ s)))
      ≡ (ws, write_items ws, open_text (32 ∷ s))
unfolding read_items write_items
read_items-write_items [] s h = refl
read_items-write_items (w ∷ ws) s (p, h) = rw (
  append_assoc,
  get_string-space [] (w ++ 32 ∷ (write_items ws ++ s)),
  get_string-word [] w (write_items ws ++ s) p,
  read_items,
  read_items-write_items ws s h,
)

pub read_number :
    (unset n : ℕ) (s : Bytes)
    → n ≤ max_u64
    → get_number unset (open_text (32 ∷ (print n ++ 32 ∷ s))) ≡ (n, open_text (32 ∷ s))
read_number unset n s h = get_number-space unset _ ∙ get_number-print unset n s h

conclude-sum :
    (unset : ℕ) (values : List Bytes) (text : Bytes)
    → conclude unset values text (open_text (32 ∷ (print (check_sum text) ++ 32 ∷ [])))
      ≡ record { status = 0; items = values; warned = false }
unfolding conclude
conclude-sum unset values text = rw (
  read_number unset (check_sum text) [] (check_sum-le text),
  get_string-end [],
  ==_refl (check_sum text),
)

get_type-le : (k : Kind) → get_type k ≤ max_u64
get_type-le store = omega arith
get_type-le find = omega arith

-- The count that `serialize` writes, and the items that it writes behind it.
abbrev pub count : List Bytes → ℕ → ℕ → ℕ
count items offset num = min (length items) ((offset + num) % 2 ^ 64)

abbrev pub written : List Bytes → ℕ → ℕ → List Bytes
written items offset num = take (count items offset num - offset) (drop offset items)

body-append :
    (k : Kind) (items : List Bytes) (offset num : ℕ) (s : Bytes)
    → body k items offset num ++ s
      ≡ print (get_type k)
        ++ 32
          ∷ (print (count items offset num) ++ 32 ∷ (write_items (written items offset num) ++ s))
unfolding body
body-append k items offset num s =
    append_assoc (print (get_type k)) _ _
    ∙ ap (λ t. print (get_type k) ++ 32 ∷ t) (append_assoc (print _) _ _)

-- The text as one chain of words with a space behind each.
pub serialize_parts :
    (k : Kind) (items : List Bytes) (offset num : ℕ)
    → serialize k items offset num
      ≡ print (get_type k)
        ++ 32
          ∷ (print (count items offset num)
              ++ 32
                ∷ (write_items (written items offset num)
                    ++ (print (check_sum (body k items offset num)) ++ 32 ∷ [])))
unfolding serialize
serialize_parts k items offset num = body-append k items offset num _

-- The type that a receiver dispatches on is the one that was written.
pub extract_type-serialize :
    (unset : ℕ) (k : Kind) (items : List Bytes) (offset num : ℕ)
    → extract_type unset (serialize k items offset num) ≡ get_type k
unfolding extract_type
extract_type-serialize unset k items offset num =
    ap (λ t. (get_number unset (open_text t)).0) (serialize_parts k items offset num)
    ∙ ap (λ (r : ℕ × Stream). r.0) (get_number-print unset (get_type k) _ (get_type-le k))

take_all : (n : ℕ) (items : List Bytes) → take (length (take n items)) items ≡ take n items
take_all zero items = refl
take_all (suc n) [] = refl
take_all (suc n) (w ∷ ws) = ap (◌∷◌ w) (take_all n ws)

pub All-take : (n : ℕ) (ws : List Bytes) → All IsWord ws → All IsWord (take n ws)
All-take zero ws h = tt
All-take (suc n) [] h = tt
All-take (suc n) (w ∷ ws) (p, h) = (p, All-take n ws h)

-- A body that counts its own items is read back with no warning.
read_body-write_items :
    (unset : ℕ) (k : Kind) (ws : List Bytes) (sum : ℕ)
    → length ws ≤ max_u64
    → All IsWord ws
    → sum ≡ check_sum (print (get_type k) ++ 32 ∷ (print (length ws) ++ 32 ∷ write_items ws))
    → read_body unset
        (get_type k)
        (open_text (32 ∷ (print (length ws) ++ 32 ∷ (write_items ws ++ (print sum ++ 32 ∷ [])))))
      ≡ record { status = 0; items = ws; warned = false }
unfolding read_body
read_body-write_items unset k ws sum few h e =
    rw
      (
        e,
        read_number unset (length ws)
            (write_items ws
              ++ (print (
                    check_sum
                      (print (get_type k) ++ 32 ∷ (print (length ws) ++ 32 ∷ write_items ws)))
                  ++ 32 ∷ []))
            few,
        read_items-write_items ws
            (print
                (check_sum (print (get_type k) ++ 32 ∷ (print (length ws) ++ 32 ∷ write_items ws)))
              ++ 32 ∷ [])
            h,
      )
      (conclude-sum unset ws _)

-- Once the type is read, `deserialize` goes on with the body, or refuses.
pub deserialize_typed :
    (unset : ℕ) (j k : Kind) (old : List Bytes) (s : Bytes)
    → deserialize unset j old (print (get_type k) ++ 32 ∷ s) ≡ (
        if get_type k == get_type j
        then read_body unset (get_type k) (open_text (32 ∷ s))
        else record { status = 1; items = old; warned = false })
unfolding deserialize
deserialize_typed unset j k old s = rw (get_number-print unset (get_type k) s (get_type-le k))

module _ (k : Kind) (items : List Bytes) (num : ℕ) (small : num < 2 ^ 64) where
  count_zero : count items 0 num ≡ length (take num items)
  count_zero = omega (arith, length-take num items)

  written_zero : written items 0 num ≡ take num items
  written_zero =
      let e : count items 0 num - 0 ≡ length (take num items) =
        omega (arith, length-take num items) in
      rw e (take_all num items)

  body_zero :
      body k items 0 num
      ≡ print (get_type k)
        ++ 32 ∷ (print (length (take num items)) ++ 32 ∷ write_items (take num items))
  unfolding body
  body_zero =
      ap₂ (λ n ws. print (get_type k) ++ 32 ∷ (print n ++ 32 ∷ write_items ws)) count_zero
        written_zero

  -- The text from offset 0, with the count of the items that it holds.
  pub serialize_zero :
      serialize k items 0 num
      ≡ print (get_type k)
        ++ 32
          ∷ (print (length (take num items))
              ++ 32
                ∷ (write_items (take num items)
                    ++ (print (check_sum (body k items 0 num)) ++ 32 ∷ [])))
  serialize_zero =
      serialize_parts k items 0 num
      ∙ ap₂
          (λ n ws.
            print (get_type k)
            ++ 32
              ∷ (print n
                  ++ 32 ∷ (write_items ws ++ (print (check_sum (body k items 0 num)) ++ 32 ∷ []))))
          count_zero written_zero

-- A message object of the same class reads from a text serialized at offset 0 the first `num`
-- items, in order, with status 0 and no warning about the check sum, whatever it held before and
-- whatever value an unset variable has; the items are words, and their number and `num` are 64-bit.
pub deserialize-serialize :
    (unset : ℕ) (k : Kind) (old items : List Bytes) (num : ℕ)
    → All IsWord items
    → length items < 2 ^ 64
    → num < 2 ^ 64
    → deserialize unset k old (serialize k items 0 num)
      ≡ record { status = 0; items = take num items; warned = false }
deserialize-serialize unset k old items num words few small =
    ap (deserialize unset k old) (serialize_zero k items num small)
    ∙ (deserialize_typed unset k k old _
        ∙ rw (==_refl (get_type k)) (
            read_body-write_items unset k (take num items) (check_sum (body k items 0 num))
              (omega (arith, length-take num items)) (All-take num items words)
              (ap check_sum (body_zero k items num small))))

-- A message object of the other class refuses the text, with status 1, and keeps its data.
pub deserialize-serialize_other :
    (unset : ℕ) (j k : Kind) (old items : List Bytes) (offset num : ℕ)
    → j ≢ k
    → deserialize unset j old (serialize k items offset num)
      ≡ record { status = 1; items = old; warned = false }
deserialize-serialize_other unset j k old items offset num different =
    ap (deserialize unset j old) (serialize_parts k items offset num)
    ∙ (deserialize_typed unset j k old _ ∙ rw (types_differ j k different))
  where
    types_differ : (j k : Kind) → j ≢ k → (get_type k == get_type j) ≡ false
    types_differ store store h = absurd (h refl)
    types_differ store find h = refl
    types_differ find store h = refl
    types_differ find find h = absurd (h refl)

push_all-append : (m ws : List Bytes) → push_all m ws ≡ m ++ ws
unfolding push_all
push_all-append m [] = sym (append-nil m)
push_all-append m (w ∷ ws) = push_all-append (m ++ w ∷ []) ws ∙ append_assoc m (w ∷ []) ws

pub set_data_lem : (old items : List Bytes) → set_data old items ≡ items
unfolding set_data
set_data_lem old items = push_all-append [] items

pub All-drop : (n : ℕ) (ws : List Bytes) → All IsWord ws → All IsWord (drop n ws)
All-drop zero ws h = h
All-drop (suc n) [] h = tt
All-drop (suc n) (w ∷ ws) (p, h) = All-drop n ws h
