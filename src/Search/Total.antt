-- ===== src/Search/Total.antt =====
-- utils/data/data.h: the whole of `search_new`, on a file of ascending words.
use gorn.Common.{
  ℕ, suc, ◌+◌, ◌^◌, ◌%◌, ◌<◌, ◌≡◌, ◌≢◌, refl, ap, ◌∙◌, inr, Bool, true, none, some, List, [], ◌∷◌,
  arith, length, drop, All, Le, IsSorted, if◌then◌else◌,
}
use gorn.Text.{Bytes}
use gorn.Text.Order.{text_order, eq_text, eq_text_iff}
use gorn.Text.Stream.{get_string}
use gorn.Text.Stream.Extract.{IsWord, get_string-word_at}
use gorn.Files.{Disk, lookup, delimited}
use gorn.Files.ReadWrite.{lookup-store_at, length-delimited}
use gorn.Search.{
  search_loop, search_round, search_start, search_lines, search_new, space, pick, search_end,
  advance, push_output, write_bytes, write_lines, search_text,
}
use gorn.Search.Items.{new_items}
use gorn.Search.News.{at_end, emit_of, standing}
use gorn.Search.Correct.{in_file}

-- What is put out of a vector: on an empty file all entries but the first.
unfoldable pub found : List Bytes → List Bytes → List Bytes
unfolding new_items
found [] xs = drop 1 xs
found (w ∷ ws) xs = new_items (w ∷ ws) xs

pub low_empty : (w : Bytes) → Le [] w
low_empty [] = refl
low_empty (c ∷ w) = refl

search_start-word :
    (w : Bytes) (ws xs : List Bytes)
    → IsWord w
    → search_start (delimited space (w ∷ ws)) xs ≡ standing w ws [] xs 2 true
unfolding search_start standing delimited
search_start-word w ws xs h = rw (get_string-word_at space [] w (delimited space ws) refl h) refl

-- On an empty file the first entry is passed over.
search_start-empty :
    (x : Bytes) (xs : List Bytes) (fuel : ℕ)
    → length xs < fuel
    → search_loop (suc fuel) (search_start [] (x ∷ xs)) ≡ some xs
unfolding search_loop search_round search_start pick search_end advance push_output get_string
search_start-empty x xs fuel h =
    ap (push_output none) (at_end fuel [] true [] x xs ((2 + 1) % 2 ^ 64) h)

pub search_lines-found :
    (ws xs : List Bytes)
    → All IsWord ws
    → IsSorted ws
    → IsSorted xs
    → length xs + 2 < 2 ^ 64
    → search_lines (delimited space ws) xs ≡ some (found ws xs)
unfolding search_lines found delimited emit_of
search_lines-found [] [] words sw sx k =
    unfold search_loop search_round search_start pick search_end get_string in refl
search_lines-found [] (x ∷ xs) words sw sx k =
    search_start-empty x xs (suc (0 + suc (length xs))) (omega arith)
search_lines-found (w ∷ ws) xs words sw sx k =
    let fuel = suc (length (delimited space (w ∷ ws)) + length xs) in
    ap (search_loop (suc fuel)) (search_start-word w ws xs words.0)
    ∙ in_file (suc fuel) w ws [] xs 2 true none
        (omega (arith, length-delimited space refl (w ∷ ws))) (omega arith) words.1 sw sx
        (low_empty w) (inr refl)

pub lookup-write_bytes :
    (d : Disk) (p q text : Bytes)
    → d.can_open p ≡ true
    → lookup q (write_bytes d p text).files ≡ (if eq_text q p then some text else lookup q d.files)
unfolding write_bytes
lookup-write_bytes d p q text can = rw can (lookup-store_at p q text d.files)

pub can_open-write_bytes :
    (d : Disk) (p text : Bytes) → (write_bytes d p text).can_open ≡ d.can_open
unfolding write_bytes
can_open-write_bytes d p text = ground arith

search_text-open :
    (d : Disk) (text : Bytes) (xs : List Bytes) (output_name : Bytes)
    → d.can_open output_name ≡ true
    → search_text d (some text) xs output_name ≡ write_lines d output_name (search_lines text xs)
unfolding search_text
search_text-open d text xs output_name can = rw can refl

-- With a map file of ascending words, each with a blank behind it, and an ascending vector of less
-- than 2 ^ 64 - 2 entries, `search_new` ends, its output file has the entries that `found` names,
-- and every other file is as it was, if the output can be opened and is not the map file.
pub search_new-found :
    (d : Disk) (map_name output_name : Bytes) (ws xs : List Bytes)
    → map_name ≢ output_name
    → d.can_open output_name ≡ true
    → lookup map_name d.files ≡ some (delimited space ws)
    → All IsWord ws
    → IsSorted ws
    → IsSorted xs
    → length xs + 2 < 2 ^ 64
    → (e : Disk) × (search_new d map_name xs output_name ≡ some e)
      × ((q : Bytes)
          → lookup q e.files ≡ (
              if eq_text q output_name
              then some (delimited space (found ws xs))
              else lookup q d.files))
unfolding search_new write_lines
search_new-found d map_name output_name ws xs different can there words sw sx k =
    let d' = write_bytes d output_name [] in
    let can' : d'.can_open output_name ≡ true =
      ap (λ (f : Bytes → Bool). f output_name) (can_open-write_bytes d output_name []) ∙ can in
    let text : lookup map_name d'.files ≡ some (delimited space ws) =
      lookup-write_bytes d output_name map_name [] can
      ∙ ground (arith, eq_text_iff map_name output_name) in
    (
      write_bytes d' output_name (delimited space (found ws xs)),
      ap (λ o. search_text d' o xs output_name) text
          ∙ (search_text-open d' (delimited space ws) xs output_name can'
              ∙ ap (write_lines d' output_name) (search_lines-found ws xs words sw sx k)),
      λ q.
          lookup-write_bytes d' output_name q (delimited space (found ws xs)) can'
          ∙ ground (arith, lookup-write_bytes d output_name q [] can),
    )
