-- ===== src/Search/Items.antt =====
-- utils/data/data.h, `search_new`: which entries of the vector the loop puts out, without the loop.
use gorn.Common.{
  ◌≡◌, refl, ap, Bool, true, not, ◌&&◌, ◌||◌, List, [], ◌∷◌, ◌++◌, arith, if◌then◌else◌, All, Le,
}
use gorn.Text.{Bytes}
use gorn.Text.Order.{lt_text, text_order}

-- All words of the file are below `x`.
unfoldable pub all_below : List Bytes → Bytes → Bool
all_below [] x = true
all_below (w ∷ ws) x = lt_text w x && all_below ws x

-- No word of the file is at least `x` and below `y`.
unfoldable pub none_between : List Bytes → Bytes → Bytes → Bool
none_between [] x y = true
none_between (w ∷ ws) x y = (lt_text w x || not (lt_text w y)) && none_between ws x y

-- Whether `x` is put out when the vector goes on with `rest` and the file does not end below `x`:
-- the next entry is taken before the file's next word, and the file does not end below that entry.
unfoldable pub emit : List Bytes → Bytes → List Bytes → List Bytes
unfolding all_below none_between
emit ws x [] = []
emit ws x (y ∷ rest) = if none_between ws x y && not (all_below ws y) then x ∷ [] else []

-- An entry is put out if all words of the file are below it, or if the next entry is, up to the
-- file's words, its neighbour and some word is not below that.
unfoldable pub new_items : List Bytes → List Bytes → List Bytes
unfolding all_below emit
new_items ws [] = []
new_items ws (x ∷ rest) =
    if all_below ws x then x ∷ new_items ws rest else emit ws x rest ++ new_items ws rest

-- A word below the vector's entries tells nothing of them.
pub new_items-below :
    (w : Bytes) (ws xs : List Bytes)
    → All (λ x. lt_text w x ≡ true) xs
    → new_items (w ∷ ws) xs ≡ new_items ws xs
unfolding new_items emit all_below none_between
new_items-below w ws [] h = refl
new_items-below w ws (x ∷ []) (p, h) = rw p refl
new_items-below w ws (x ∷ y ∷ rest) (p, qh) =
    let q = qh.0 in ground (arith, new_items-below w ws (y ∷ rest) qh)

pub new_items-empty : (xs : List Bytes) → new_items [] xs ≡ xs
unfolding new_items all_below
new_items-empty [] = refl
new_items-empty (x ∷ xs) = ap (◌∷◌ x) (new_items-empty xs)

-- With every word of the file at least `y`, none is between and some is not below.
pub none_between-ge : (ws : List Bytes) (x y : Bytes) → All (Le y) ws → none_between ws x y ≡ true
unfolding none_between
none_between-ge [] x y h = refl
none_between-ge (w ∷ ws) x y (p, h) = rw (p, none_between-ge ws x y h) ground arith
