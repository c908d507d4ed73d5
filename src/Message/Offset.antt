-- ===== src/Message/Offset.antt =====
-- What a peer reads from a text that was serialized from an offset other than 0: `serialize` writes
-- the end of the range where `deserialize` expects the number of items.
use gorn.Common.{
  ℕ, zero, suc, ◌+◌, ◌-◌, ◌≤◌, ◌≡◌, refl, sym, ap, subst, ◌∙◌, List, [], ◌∷◌, ◌++◌, append_assoc,
  arith, ==_refl, length, drop, length-take, length-drop, All,
}
use gorn.Text.{Bytes}
use gorn.Text.Stream.{Stream, open_text, ended, get_string, get_number, max_u64}
use gorn.Text.Stream.Decimal.{print}
use gorn.Text.Stream.Extract.{IsWord, get_string-word, get_string-space, print-IsWord}
use gorn.Message.{
  Kind, get_type, check_sum, write_items, body, serialize, read_items, conclude, read_body,
  deserialize, Outcome,
}
use gorn.Message.RoundTrip.{
  count, written, serialize_parts, deserialize_typed, read_number, All-take, All-drop,
}

-- What a failed extraction leaves in `value`, `n` times.
pub blanks : ℕ → List Bytes
blanks zero = []
blanks (suc n) = [] ∷ blanks n

-- A stream with nothing left to read.
abbrev Spent : Stream → Type 0
Spent s = (unset : ℕ) → get_number unset s ≡ (unset, ended)

read_items-ended : (n : ℕ) → ((read_items n ended).0 ≡ blanks n) × Spent (read_items n ended).2
unfolding read_items blanks get_string get_number
read_items-ended zero = (refl, λ unset. refl)
read_items-ended (suc n) = let (p, q) = read_items-ended n in (ap (◌∷◌ []) p, q)

read_items_short :
    (n : ℕ)
    → ((read_items n (open_text (32 ∷ []))).0 ≡ blanks n)
      × Spent (read_items n (open_text (32 ∷ []))).2
unfolding read_items blanks get_string get_number
read_items_short zero = (refl, λ unset. refl)
read_items_short (suc n) = let (p, q) = read_items-ended n in (ap (◌∷◌ []) p, q)

past : List Bytes → ℕ → ℕ
past [] n = suc n
past (w ∷ ws) n = suc (past ws n)

past-length : (ws : List Bytes) (n : ℕ) → past ws n ≡ length ws + suc n
unfolding past
past-length [] n = omega arith
past-length (w ∷ ws) n = omega (arith, past-length ws n)

read_items-word :
    (n : ℕ) (w s : Bytes)
    → IsWord w
    → read_items (suc n) (open_text (32 ∷ (w ++ 32 ∷ s))) ≡ (
      w ∷ (read_items n (open_text (32 ∷ s))).0,
      w ++ 32 ∷ (read_items n (open_text (32 ∷ s))).1,
      (read_items n (open_text (32 ∷ s))).2,
    )
unfolding read_items
read_items-word n w s p = rw (get_string-space [] (w ++ 32 ∷ s), get_string-word [] w s p)

abbrev Overread : List Bytes → Bytes → ℕ → List Bytes × Bytes × Stream → Type 0
Overread ws w n r = (r.0 ≡ ws ++ w ∷ blanks n) × Spent r.2

-- The items that are there, the check sum as one more item, and blanks.
read_items-past :
    (ws : List Bytes) (w : Bytes) (n : ℕ)
    → All IsWord ws
    → IsWord w
    → Overread ws w n (read_items (past ws n) (open_text (32 ∷ (write_items ws ++ (w ++ 32 ∷ [])))))
unfolding past write_items
read_items-past [] w n h p =
    let (q, r) = read_items_short n in rw (read_items-word n w [] p) (ap (◌∷◌ w) q, r)
read_items-past (v ∷ ws) w n (g, h) p =
    let (q, r) = read_items-past ws w n h p in
    rw
      (
        append_assoc v (32 ∷ write_items ws) (w ++ 32 ∷ []),
        read_items-word (past ws n) v (write_items ws ++ (w ++ 32 ∷ [])) g,
      )
      (ap (◌∷◌ v) q, r)

conclude-Spent :
    (unset : ℕ) (values : List Bytes) (text : Bytes) (s : Stream)
    → Spent s
    → ((conclude unset values text s).status ≡ 0) × ((conclude unset values text s).items ≡ values)
unfolding conclude get_string
conclude-Spent unset values text s h = rw (h unset) (refl, refl)

abbrev Misread : List Bytes → Bytes → ℕ → Outcome → Type 0
Misread ws w n r = (r.status ≡ 0) × (r.items ≡ ws ++ w ∷ blanks n)

read_body-past :
    (unset type n c : ℕ) (ws : List Bytes) (w : Bytes)
    → c ≡ past ws n
    → c ≤ max_u64
    → All IsWord ws
    → IsWord w
    → Misread ws w n (
        read_body unset type
          (open_text (32 ∷ (print c ++ 32 ∷ (write_items ws ++ (w ++ 32 ∷ []))))))
unfolding read_body
read_body-past unset type n c ws w e few h p =
    let (q, r) = read_items-past ws w n h p in
    rw (read_number unset c (write_items ws ++ (w ++ 32 ∷ [])) few, e)
      (let read = read_items (past ws n) (open_text (32 ∷ (write_items ws ++ (w ++ 32 ∷ [])))) in
        let text = print type ++ 32 ∷ (print (past ws n) ++ 32 ∷ read.1) in
        let (status, values) = conclude-Spent unset read.0 text read.2 r in (status, values ∙ q))

module _ (unset : ℕ) (k : Kind) (old items : List Bytes) (offset num : ℕ) where
  abbrev pub received : Outcome
  received = deserialize unset k old (serialize k items (suc offset) num)

  received-read_body :
      received
      ≡ read_body unset (get_type k) (
          open_text (
            32
            ∷ (print (count items (suc offset) num)
                ++ 32
                  ∷ (write_items (written items (suc offset) num)
                      ++ (print (check_sum (body k items (suc offset) num)) ++ 32 ∷ [])))))
  received-read_body =
      ap (deserialize unset k old) (serialize_parts k items (suc offset) num)
      ∙ (deserialize_typed unset k k old _ ∙ rw (==_refl (get_type k)))

  -- Let `serialize` write the items of a range that begins past 0 and ends within the data. The
  -- peer then takes the end of the range for the number of items: it returns status 0 with the
  -- items of the range, the check sum as one more item, and a blank for each of the other places.
  pub deserialize-offset :
      All IsWord items
      → suc offset ≤ count items (suc offset) num
      → count items (suc offset) num ≤ max_u64
      → (received.status ≡ 0)
        × (received.items
            ≡ written items (suc offset) num
              ++ print (check_sum (body k items (suc offset) num)) ∷ blanks offset)
  deserialize-offset words inside few =
      let sum = print (check_sum (body k items (suc offset) num)) in
      let ws = written items (suc offset) num in
      let left : length (drop (suc offset) items) ≡ length items - suc offset =
        length-drop (suc offset) items in
      let held : count items (suc offset) num ≡ past ws offset = omega (
        arith,
        past-length ws offset,
        length-take (count items (suc offset) num - suc offset) (drop (suc offset) items),
      ) in
      subst (Misread ws sum offset) (sym received-read_body) (
        read_body-past unset (get_type k) offset (count items (suc offset) num) ws sum held few
          (All-take _ _ (All-drop (suc offset) items words)) (print-IsWord _))
