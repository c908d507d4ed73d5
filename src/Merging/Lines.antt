-- ===== src/Merging/Lines.antt =====
-- utils/data/data.h: the whole loop of `sort_write_file`, on a file of ascending words and
-- ascending vectors.
use gorn.Common.{
  ℕ, zero, suc, ◌+◌, ◌<◌, ◌≡◌, refl, sym, ap, ◌∙◌, inl, inr, true, false, Option, none, some, List,
  [], ◌∷◌, ◌++◌, arith, length, length-append, All, All-lt_trans, Le, IsSorted, concat,
  if◌then◌else◌, Bool-cases, subst,
}
use gorn.Text.{Bytes}
use gorn.Text.Order.{lt_text, text_order}
use gorn.Text.Stream.{Stream, open_text, get_string}
use gorn.Text.Stream.Extract.{IsWord, get_string-word_at, get_string-end, get_string-empty}
use gorn.Files.{delimited}
use gorn.Files.ReadWrite.{length-delimited}
use gorn.Search.{pick, advance, space}
use gorn.Search.News.{next_word}
use gorn.Search.Total.{low_empty}
use gorn.Merging.{Merging, merge_vector, merge_file, merge_round, merge_start, merge_lines, total}
use gorn.Merging.Picked.{Picked, pick-Picked}
use gorn.Merging.Merged.{Merged, Merged-end, Merged-vector, Merged-file, kept}
use gorn.Merging.Directory.{IsSortOf}

-- The words `ws` of the file are ahead, the first of them in `file_line`.
abbrev Waiting : Merging → List Bytes → Type 0
Waiting s [] = s.input.eof ≡ true
Waiting s (w ∷ ws) =
    (s.file_line ≡ w) × (s.input ≡ open_text (space ∷ delimited space ws)) × Le s.line w

-- A round, with what the loop over the iterators gave.
abbrev turn : Merging → Bytes × Option ℕ → Option Merging
turn s p =
    if s.input.eof
    then merge_vector s p.0 p.1
    else if lt_text s.file_line p.0
    then some (merge_file s)
    else merge_vector s p.0 p.1

abbrev picked : Merging → Bytes × Option ℕ
picked s = pick 0 s.it_vec s.line none

merge_round_lem : (s : Merging) → merge_round s ≡ turn s (picked s)
unfolding merge_round
merge_round_lem s = refl

turn-end :
    (s : Merging) → s.input.eof ≡ true → (p : Bytes × Option ℕ) → turn s p ≡ merge_vector s p.0 p.1
turn-end s e p = rw e refl

turn-vector :
    (s : Merging) (p : Bytes × Option ℕ)
    → lt_text s.file_line p.0 ≡ false
    → turn s p ≡ merge_vector s p.0 p.1
turn-vector s p e = elim (Bool-cases s.input.eof) [ inl f ↦ rw f refl | inr f ↦ rw (f, e) refl ]

turn-file :
    (s : Merging) (p : Bytes × Option ℕ)
    → s.input.eof ≡ false
    → lt_text s.file_line p.0 ≡ true
    → turn s p ≡ some (merge_file s)
turn-file s p f e = rw (f, e) refl

-- A round that does not take a word of the file.
Merged-turn :
    (fuel : ℕ) (s : Merging) (ws : List Bytes) (p : Bytes × Option ℕ)
    → merge_round s ≡ merge_vector s p.0 p.1
    → Picked 0 s.it_vec s.line p
    → All (Le p.0) ws
    → ((it_vec : List (List Bytes))
        → All IsSorted it_vec
        → suc (length (concat it_vec)) ≡ length (concat s.it_vec)
        → Merged fuel (record s { line = p.0; it_vec = it_vec }) ws)
    → Merged (suc fuel) s ws
unfolding merge_vector
Merged-turn fuel s ws p e (inl (r, spent)) h go =
    Merged-end fuel s ws (e ∙ ap (λ (z : Bytes × Option ℕ). merge_vector s z.0 z.1) r) spent
Merged-turn fuel s ws p e (inr (least, (i, pre, post, r, before, behind, sorted))) h go =
    let s' = record s { line = p.0; it_vec = advance i s.it_vec } in
    let index : 0 + i ≡ i = omega arith in
    let count : suc (length (concat (advance i s.it_vec))) ≡ length (concat s.it_vec) =
      ap (λ z. suc (length z)) behind
      ∙ (omega (arith, length-append pre post, length-append pre (p.0 ∷ post))
          ∙ sym (ap length before)) in
    Merged-vector fuel s s' ws p.0 pre post
      (e ∙ (ap (merge_vector s p.0) (r ∙ ap some index) ∙ refl)) refl before behind least h
      (go (advance i s.it_vec) sorted count)

-- Behind a round that took the word `w`, the next one is in `file_line`.
Waiting-file :
    (s : Merging) (w : Bytes) (ws : List Bytes)
    → s.file_line ≡ w
    → s.input ≡ open_text (space ∷ delimited space ws)
    → All IsWord ws
    → All (Le w) ws
    → Waiting (merge_file s) ws
unfolding merge_file delimited
Waiting-file s w [] e f h k =
    (λ i. (get_string (e i) (f i)).1.eof) ∙ ap (λ (z : Bytes × Stream). z.1.eof) (get_string-end w)
Waiting-file s w (v ∷ ws) e f h k =
    let next : get_string s.file_line s.input ≡ (v, open_text (space ∷ delimited space ws)) =
      (λ i. get_string (e i) (f i)) ∙ next_word w v ws h.0 in
    (
      ap (λ (z : Bytes × Stream). z.0) next,
      ap (λ (z : Bytes × Stream). z.1) next,
      subst (λ z. Le z v) (sym e) k.0,
    )

file_case :
    (fuel : ℕ) (s : Merging) (w : Bytes) (ws : List Bytes)
    → Waiting s (w ∷ ws)
    → All IsWord ws
    → All (Le w) ws
    → lt_text w (picked s).0 ≡ true
    → Picked 0 s.it_vec s.line (picked s)
    → Merged fuel (merge_file s) ws
    → Merged (suc fuel) s (w ∷ ws)
unfolding merge_file
file_case fuel s w ws (e, f, le) words h less (inl (r, spent)) ih =
    let below : lt_text w s.line ≡ true =
      ap (λ (z : Bytes × Option ℕ). lt_text w z.0) (sym r) ∙ less in
    absurd (cc (below, le))
file_case fuel s w ws (e, f, le) words h less (inr (least, (i, pre, post, r, before, _, _))) ih =
    Merged-file fuel s (merge_file s) w ws (picked s).0 pre post
      (merge_round_lem s
        ∙ turn-file s (picked s) (ap (λ (z : Stream). z.eof) f)
            (ap (λ z. lt_text z (picked s).0) e ∙ less))
      e refl before least less h ih

merged :
    (fuel : ℕ) (s : Merging) (ws : List Bytes)
    → Waiting s ws
    → All IsWord ws
    → IsSorted ws
    → All IsSorted s.it_vec
    → length ws + length (concat s.it_vec) < fuel
    → Merged fuel s ws
unfolding merge_file
merged zero s ws waiting words sw sv enough = absurd (omega arith)
merged (suc fuel) s [] waiting words sw sv enough =
    Merged-turn fuel s [] (picked s) (merge_round_lem s ∙ turn-end s waiting (picked s))
      (pick-Picked 0 s.it_vec s.line sv) tt
      (λ it_vec sorted count.
        merged fuel (record s { line = (picked s).0; it_vec = it_vec }) [] waiting tt tt sorted
          (omega (arith, count)))
merged (suc fuel) s (w ∷ ws) waiting words sw sv enough =
    elim (Bool-cases (lt_text w (picked s).0)) [
      | inl less ↦
          file_case fuel s w ws waiting words.1 sw.0 less (pick-Picked 0 s.it_vec s.line sv) (
            merged fuel (merge_file s) ws (Waiting-file s w ws waiting.0 waiting.1 words.1 sw.0)
              words.1 sw.1 sv (omega arith))
      | inr least ↦
          Merged-turn fuel s (w ∷ ws) (picked s)
            (merge_round_lem s
              ∙ turn-vector s (picked s) (ap (λ z. lt_text z (picked s).0) waiting.0 ∙ least))
            (pick-Picked 0 s.it_vec s.line sv) (least, All-lt_trans (picked s).0 w ws least sw.0)
            (λ it_vec sorted count.
              merged fuel (record s { line = (picked s).0; it_vec = it_vec }) (w ∷ ws)
                (waiting.0, waiting.1, least) words sw sorted (omega (arith, count)))
    ]

total_lem : (it_vec : List (List Bytes)) → total it_vec ≡ length (concat it_vec)
unfolding total
total_lem [] = refl
total_lem (xs ∷ it_vec) = omega (arith, total_lem it_vec, length-append xs (concat it_vec))

merge_start-Waiting :
    (ws : List Bytes) (sorted_data : List (List Bytes))
    → All IsWord ws
    → Waiting (merge_start (delimited space ws) sorted_data) ws
unfolding merge_start delimited
merge_start-Waiting [] sorted_data h = ap (λ (z : Bytes × Stream). z.1.eof) (get_string-empty [])
merge_start-Waiting (w ∷ ws) sorted_data h =
    let first : get_string [] (open_text (delimited space (w ∷ ws)))
        ≡ (w, open_text (space ∷ delimited space ws)) =
      get_string-word_at space [] w (delimited space ws) refl h.0 in
    (ap (λ (z : Bytes × Stream). z.0) first, ap (λ (z : Bytes × Stream). z.1) first, low_empty w)

-- The entries of the vectors and the file's words that are below some entry, in ascending order.
pub merge_lines-IsSortOf :
    (ws : List Bytes) (sorted_data : List (List Bytes))
    → All IsWord ws
    → IsSorted ws
    → All IsSorted sorted_data
    → (out : List Bytes) × (merge_lines (delimited space ws) sorted_data ≡ some out)
      × IsSortOf out (kept (concat sorted_data) ws ++ concat sorted_data)
unfolding merge_lines merge_start
merge_lines-IsSortOf ws sorted_data words sw sv =
    let (out, runs, sorted, perm, low) =
      merged (suc (suc (length (delimited space ws) + total sorted_data)))
        (merge_start (delimited space ws) sorted_data) ws (merge_start-Waiting ws sorted_data words)
        words sw sv (omega (arith, length-delimited space refl ws, total_lem sorted_data)) in
    (out, runs, (sorted, perm))
