-- ===== src/Merging/Ends.antt =====
-- utils/data/data.h: the loop of `sort_write_file` ends, whatever the file and the vectors hold.
use gorn.Common.{
  ℕ, zero, suc, ◌+◌, ◌<◌, ◌≡◌, refl, ap, ◌∙◌, inl, inr, ◌⊎◌, Bool, true, false, Option, none, some,
  List, [], ◌∷◌, arith, if◌then◌else◌, length,
}
use gorn.Text.{Bytes}
use gorn.Text.Order.{lt_text}
use gorn.Text.Stream.{get_string, open_text}
use gorn.Text.Stream.Words.{left, IsSane, get_string-left}
use gorn.Search.{pick, advance}
use gorn.Merging.{
  Merging, merge_vector, merge_file, merge_round, merge_loop, merge_start, merge_lines, push_line,
  total,
}

-- The vector that the loop over `it_vec` chose has an entry to take.
abbrev Chosen : ℕ → List (List Bytes) → Option ℕ → Option ℕ → Type 0
Chosen k it_vec before r =
    (r ≡ before) ⊎ ((i : ℕ) × (r ≡ some (k + i)) × (suc (total (advance i it_vec)) ≡ total it_vec))

Chosen-past :
    (k : ℕ) (xs : List Bytes) (it_vec : List (List Bytes)) (before r : Option ℕ)
    → Chosen (suc k) it_vec before r
    → Chosen k (xs ∷ it_vec) before r
unfolding advance total
Chosen-past k xs it_vec before r (inl e) = inl e
Chosen-past k xs it_vec before r (inr (i, e, t)) =
    inr (suc i, e ∙ ap some (omega arith), omega (arith, t))

Chosen-here :
    (k : ℕ) (x : Bytes) (xs : List Bytes) (it_vec : List (List Bytes)) (before r : Option ℕ)
    → Chosen (suc k) it_vec (some k) r
    → Chosen k ((x ∷ xs) ∷ it_vec) before r
unfolding advance total
Chosen-here k x xs it_vec before r (inl e) = inr (0, e ∙ ap some (omega arith), omega arith)
Chosen-here k x xs it_vec before r (inr (i, e, t)) =
    inr (suc i, e ∙ ap some (omega arith), omega (arith, t))

Chosen-of :
    (k : ℕ) (x : Bytes) (xs : List Bytes) (it_vec : List (List Bytes)) (before : Option ℕ)
    (here past : Bytes × Option ℕ) (less : Bool)
    → Chosen (suc k) it_vec (some k) here.1
    → Chosen (suc k) it_vec before past.1
    → Chosen k
        ((x ∷ xs) ∷ it_vec)
        before
        (elim less as (λ _. Bytes × Option ℕ) [ true ↦ here | false ↦ past ]).1
Chosen-of k x xs it_vec before here past true h p = Chosen-here k x xs it_vec before here.1 h
Chosen-of k x xs it_vec before here past false h p = Chosen-past k (x ∷ xs) it_vec before past.1 p

pick-Chosen :
    (k : ℕ) (it_vec : List (List Bytes)) (line : Bytes) (max_k : Option ℕ)
    → Chosen k it_vec max_k (pick k it_vec line max_k).1
unfolding pick
pick-Chosen k [] line max_k = inl refl
pick-Chosen k ([] ∷ it_vec) line max_k =
    Chosen-past k [] it_vec max_k (pick (suc k) it_vec line max_k).1
      (pick-Chosen (suc k) it_vec line max_k)
pick-Chosen k ((x ∷ xs) ∷ it_vec) line none =
    Chosen-here k x xs it_vec none (pick (suc k) it_vec x (some k)).1
      (pick-Chosen (suc k) it_vec x (some k))
pick-Chosen k ((x ∷ xs) ∷ it_vec) line (some j) =
    Chosen-of k x xs it_vec (some j) (pick (suc k) it_vec x (some k))
      (pick (suc k) it_vec line (some j)) (lt_text x line) (pick-Chosen (suc k) it_vec x (some k))
      (pick-Chosen (suc k) it_vec line (some j))

-- What is left of the vectors and of the file.
measure : Merging → ℕ
measure s = total s.it_vec + left s.input

-- A round ends the loop or takes something.
abbrev Takes : Merging → Option Merging → Type 0
Takes s none = Unit
Takes s (some s') = (measure s' < measure s) × IsSane s'.input

merge_vector-Takes :
    (s : Merging) (line : Bytes) (r : Option ℕ)
    → Chosen 0 s.it_vec none r
    → IsSane s.input
    → Takes s (merge_vector s line r)
unfolding merge_vector measure
merge_vector-Takes s line none h sane = tt
merge_vector-Takes s line (some j) (inl e) sane = absurd cc
merge_vector-Takes s line (some j) (inr (i, e, t)) sane =
    let same : j ≡ i = ground arith in (rw same (omega (arith, t)), sane)

round_of-Takes :
    (s : Merging) (ended below : Bool) (line : Bytes) (r : Option ℕ)
    → (ended ≡ false → s.input.eof ≡ false)
    → Chosen 0 s.it_vec none r
    → IsSane s.input
    → Takes s (
        if ended
        then merge_vector s line r
        else if below
        then some (merge_file s)
        else merge_vector s line r)
unfolding measure merge_file
round_of-Takes s true below line r e h sane = merge_vector-Takes s line r h sane
round_of-Takes s false false line r e h sane = merge_vector-Takes s line r h sane
round_of-Takes s false true line r e h sane =
    let (a, b) = get_string-left s.file_line s.input (e refl) sane in (omega (arith, a), b)

merge_round-Takes : (s : Merging) → IsSane s.input → Takes s (merge_round s)
unfolding merge_round
merge_round-Takes s sane =
    round_of-Takes s s.input.eof (lt_text s.file_line (pick 0 s.it_vec s.line none).0)
      (pick 0 s.it_vec s.line none).0 (pick 0 s.it_vec s.line none).1 (λ e. e)
      (pick-Chosen 0 s.it_vec s.line none) sane

abbrev Done : Option (List Bytes) → Type 0
Done o = (lines : List Bytes) × (o ≡ some lines)

push_line-Done : (line : Bytes) (o : Option (List Bytes)) → Done o → Done (push_line line o)
unfolding push_line
push_line-Done line none (l, e) = absurd cc
push_line-Done line (some l) d = (line ∷ l, refl)

merge_loop-Done :
    (fuel : ℕ) (s : Merging) → IsSane s.input → measure s < fuel → Done (merge_loop fuel s)
unfolding merge_loop
merge_loop-Done zero s sane h = absurd (omega arith)
merge_loop-Done (suc fuel) s sane h =
    next (merge_round s) (merge_round-Takes s sane) (λ s'. merge_loop-Done fuel s')
  where
    next :
        (r : Option Merging)
        → Takes s r
        → ((s' : Merging) → IsSane s'.input → measure s' < fuel → Done (merge_loop fuel s'))
        → Done (elim r as (λ _. Option (List Bytes)) [
          | none ↦ some []
          | some s' ↦ push_line s'.line (merge_loop fuel s')
        ])
    next none t go = ([], refl)
    next (some s') (t, sane') go =
        push_line-Done s'.line (merge_loop fuel s') (go s' sane' (omega (arith, t)))

start_fits : (a n t : ℕ) → a < suc n → t + a < suc (suc (n + t))
start_fits a n t h = omega arith

-- The loop of `sort_write_file` ends, whatever the file and the vectors hold.
pub merge_lines-Done :
    (text : Bytes) (sorted_data : List (List Bytes))
    → (lines : List Bytes) × (merge_lines text sorted_data ≡ some lines)
unfolding merge_lines merge_start left measure get_string
merge_lines-Done text sorted_data =
    let (a, b) = get_string-left [] (open_text text) refl (inr refl) in
    merge_loop-Done (suc (suc (length text + total sorted_data))) (merge_start text sorted_data) b
      (start_fits (left (get_string [] (open_text text)).1) (length text) (total sorted_data) a)
