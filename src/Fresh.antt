-- ===== src/Fresh.antt =====
-- DistributedQueue/DistributedQueue.cpp: the checks and the filter on vectors of texts. A
-- `std::map < std::string , std::size_t >` is an association list with at most one entry for a key.
pub mod Counts
pub mod Load
pub mod Output
pub mod Enforce
pub mod Round
pub mod Unique
use gorn.Common.{
  ℕ, suc, ◌+◌, Bool, true, false, not, ◌&&◌, ◌||◌, Option, none, some, List, [], ◌∷◌, ◌++◌, ltb,
  leb, if◌then◌else◌, length,
}
use gorn.Text.{Bytes}
use gorn.Text.Order.{eq_text}

abbrev pub CountMap : Type 0
CountMap = List (Bytes × ℕ)

-- `unique_map . find ( k ) != unique_map . end ()`
pub has : Bytes → CountMap → Bool
has k [] = false
has k ((j, v) ∷ m) = eq_text k j || has k m

-- `unique_map [ k ] = 1`
pub put : Bytes → CountMap → CountMap
put k [] = (k, 1) ∷ []
put k ((j, v) ∷ m) = if eq_text k j then (k, 1) ∷ m else (j, v) ∷ put k m

-- `++ unique_map [ k ]` of a key that is there.
pub bump : Bytes → CountMap → CountMap
bump k [] = []
bump k ((j, v) ∷ m) = if eq_text k j then (j, v + 1) ∷ m else (j, v) ∷ bump k m

pub count_one : CountMap → Bytes → CountMap
unfolding has put bump
count_one m k = if has k m then bump k m else put k m

pub count_row : CountMap → List Bytes → CountMap
unfolding count_one
count_row m [] = m
count_row m (k ∷ ks) = count_row (count_one m k) ks

pub count_rows : CountMap → List (List Bytes) → CountMap
unfolding count_row
count_rows m [] = m
count_rows m (r ∷ rs) = count_rows (count_row m r) rs

-- The loop over the map: no count above 1.
pub all_single : CountMap → Bool
all_single [] = true
all_single ((j, v) ∷ m) = not (ltb 1 v) && all_single m

unfoldable pub verify_uniqueness : List (List Bytes) → Bool
unfolding count_rows all_single
verify_uniqueness vec = all_single (count_rows [] vec)

-- The first loop of `remove_non_unique`; `none` stands for the return on a duplicate.
pub load_row : CountMap → List Bytes → Option CountMap
unfolding has put
load_row m [] = some m
load_row m (k ∷ ks) = if has k m then none else load_row (put k m) ks

pub load_rows : CountMap → List (List Bytes) → Option CountMap
unfolding load_row
load_rows m [] = some m
load_rows m (r ∷ rs) = elim (load_row m r) [ none ↦ none | some m' ↦ load_rows m' rs ]

-- The variables of the second loop.
pub record FilterState : Type 0 where
  pub unique_map : CountMap
  pub vec : List Bytes
  pub unique_output : List (List Bytes)

pub filter_one : ℕ → FilterState → Bytes → FilterState
unfolding has put
filter_one n_numbers s k =
    let vec = s.vec ++ k ∷ [] in
    if has k s.unique_map
    then s
    else if leb n_numbers (length vec)
    then record {
      unique_map = put k s.unique_map;
      vec = [];
      unique_output = s.unique_output ++ vec ∷ [];
    }
    else record s { unique_map = put k s.unique_map; vec = vec }

pub filter_row : ℕ → FilterState → List Bytes → FilterState
unfolding filter_one
filter_row n_numbers s [] = s
filter_row n_numbers s (k ∷ ks) = filter_row n_numbers (filter_one n_numbers s k) ks

pub filter_rows : ℕ → FilterState → List (List Bytes) → FilterState
unfolding filter_row
filter_rows n_numbers s [] = s
filter_rows n_numbers s (r ∷ rs) = filter_rows n_numbers (filter_row n_numbers s r) rs

finish : FilterState → List (List Bytes)
finish s = s.unique_output ++ s.vec ∷ []

-- The second loop, behind the first; `old` is what stood in `unique_output`.
filter_behind : Option CountMap → List (List Bytes) → List (List Bytes) → ℕ → List (List Bytes)
unfolding filter_rows finish
filter_behind none non_unique_input old n_numbers = old
filter_behind (some m) non_unique_input old n_numbers = finish (
    filter_rows n_numbers (record { unique_map = m; vec = []; unique_output = [] })
      non_unique_input)

-- `remove_non_unique`: what it leaves in `unique_output`, which held `old`. With a duplicate in
-- `unique` it returns at once.
unfoldable pub remove_non_unique :
    List (List Bytes) → List (List Bytes) → List (List Bytes) → ℕ → List (List Bytes)
unfolding load_rows filter_behind
remove_non_unique unique non_unique_input old n_numbers =
    filter_behind (load_rows [] unique) non_unique_input old n_numbers
