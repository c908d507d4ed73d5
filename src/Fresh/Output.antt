-- ===== src/Fresh/Output.antt =====
-- DistributedQueue/DistributedQueue.cpp: the second loop of `remove_non_unique`, which cuts the new
-- keys into vectors.
use gorn.Common.{
  ℕ, ◌<◌, ◌≡◌, refl, sym, ap, subst, ◌∙◌, inl, inr, true, false, List, [], ◌∷◌, ◌++◌, append-nil,
  append_assoc, arith, leb, if◌then◌else◌, All, All-append, concat, length, length-append,
  Bool-cases,
}
use gorn.Text.{Bytes}
use gorn.Text.Order.{member, distinct}
use gorn.Fresh.{
  CountMap, has, put, FilterState, filter_one, filter_row, filter_rows, finish, remove_non_unique,
  filter_behind,
}
use gorn.Fresh.Counts.{has-put, none_of_empty}
use gorn.Fresh.Load.{load_row-some, load_row-none, load_rows-concat}

-- The texts of a list that neither `seen` nor the list before them has.
unfoldable pub fresh : List Bytes → List Bytes → List Bytes
unfolding member
fresh seen [] = []
fresh seen (k ∷ ks) = if member k seen then fresh seen ks else k ∷ fresh (k ∷ seen) ks

-- The same of what a map marks.
fresh_of : CountMap → List Bytes → List Bytes
unfolding has put
fresh_of m [] = []
fresh_of m (k ∷ ks) = if has k m then fresh_of m ks else k ∷ fresh_of (put k m) ks

abbrev Marks : CountMap → List Bytes → Type 0
Marks m seen = (j : Bytes) → has j m ≡ member j seen

put-Marks :
    (m : CountMap) (seen : List Bytes) (k : Bytes) → Marks m seen → Marks (put k m) (k ∷ seen)
unfolding member
put-Marks m seen k h j = has-put j k m ∙ ground (arith, h j)

fresh_of-fresh :
    (m : CountMap) (seen ks : List Bytes) → Marks m seen → fresh_of m ks ≡ fresh seen ks
unfolding fresh_of fresh
fresh_of-fresh m seen [] h = refl
fresh_of-fresh m seen (k ∷ ks) h = ground (
  arith,
  h k,
  fresh_of-fresh m seen ks h,
  fresh_of-fresh (put k m) (k ∷ seen) ks (put-Marks m seen k h),
)

filter_row-append :
    (n : ℕ) (s : FilterState) (xs ys : List Bytes)
    → filter_row n s (xs ++ ys) ≡ filter_row n (filter_row n s xs) ys
unfolding filter_row
filter_row-append n s [] ys = refl
filter_row-append n s (x ∷ xs) ys = filter_row-append n (filter_one n s x) xs ys

filter_rows-concat :
    (n : ℕ) (s : FilterState) (rows : List (List Bytes))
    → filter_rows n s rows ≡ filter_row n s (concat rows)
unfolding filter_rows
filter_rows-concat n s [] = unfold filter_row in refl
filter_rows-concat n s (r ∷ rs) =
    filter_rows-concat n (filter_row n s r) rs ∙ sym (filter_row-append n s r (concat rs))

pub concat-append {ℓ} :
    {A : Type ℓ} (xs ys : List (List A)) → concat (xs ++ ys) ≡ concat xs ++ concat ys
concat-append [] ys = refl
concat-append (x ∷ xs) ys =
    ap (λ zs. x ++ zs) (concat-append xs ys) ∙ sym (append_assoc x (concat xs) (concat ys))

-- All keys that the two vectors hold, in order.
held : FilterState → List Bytes
held s = concat s.unique_output ++ s.vec

filter_one-old :
    (n : ℕ) (s : FilterState) (k : Bytes) → has k s.unique_map ≡ true → filter_one n s k ≡ s
unfolding filter_one
filter_one-old n s k h = rw h refl

map-filter_one :
    (n : ℕ) (s : FilterState) (k : Bytes)
    → has k s.unique_map ≡ false
    → (filter_one n s k).unique_map ≡ put k s.unique_map
unfolding filter_one
map-filter_one n s k h = elim (Bool-cases (leb n (length (s.vec ++ k ∷ [])))) [
  | inl e ↦ rw (h, e) refl
  | inr e ↦ rw (h, e) refl
]

held-filter_one :
    (n : ℕ) (s : FilterState) (k : Bytes)
    → has k s.unique_map ≡ false
    → held (filter_one n s k) ≡ held s ++ k ∷ []
unfolding filter_one held
held-filter_one n s k h =
    let right = sym (append_assoc (concat s.unique_output) s.vec (k ∷ [])) in
    elim (Bool-cases (leb n (length (s.vec ++ k ∷ [])))) [
      | inl e ↦
          rw (h, e)
            (append-nil (concat (s.unique_output ++ (s.vec ++ k ∷ []) ∷ []))
              ∙ (concat-append s.unique_output ((s.vec ++ k ∷ []) ∷ [])
                  ∙ (ap (λ z. concat s.unique_output ++ z) (append-nil (s.vec ++ k ∷ [])) ∙ right)))
      | inr e ↦ rw (h, e) right
    ]

held-filter_row :
    (n : ℕ) (s : FilterState) (ks : List Bytes)
    → held (filter_row n s ks) ≡ held s ++ fresh_of s.unique_map ks
unfolding filter_row fresh_of
held-filter_row n s [] = sym (append-nil (held s))
held-filter_row n s (k ∷ ks) = elim (Bool-cases (has k s.unique_map)) [
  | inl e ↦
      ap (λ z. held (filter_row n z ks)) (filter_one-old n s k e)
      ∙ (held-filter_row n s ks ∙ rw e refl)
  | inr e ↦
      held-filter_row n (filter_one n s k) ks
      ∙ (ap (λ z. z ++ fresh_of (filter_one n s k).unique_map ks) (held-filter_one n s k e)
          ∙ (append_assoc (held s) (k ∷ []) (fresh_of (filter_one n s k).unique_map ks)
              ∙ (ap (λ z. held s ++ k ∷ fresh_of z ks) (map-filter_one n s k e) ∙ rw e refl)))
]

-- The vectors that were put out are full, the current one is not.
abbrev IsCut : ℕ → FilterState → Type 0
IsCut n s = All (λ r. length r ≡ n) s.unique_output × length s.vec < n

filter_one-IsCut :
    (n : ℕ) (s : FilterState) (k : Bytes) → 0 < n → IsCut n s → IsCut n (filter_one n s k)
unfolding filter_one
filter_one-IsCut n s k hn (a, b) = elim (Bool-cases (has k s.unique_map)) [
  | inl h ↦ rw h (a, b)
  | inr h ↦ elim (Bool-cases (leb n (length (s.vec ++ k ∷ [])))) [
    | inl e ↦
        let full : length (s.vec ++ k ∷ []) ≡ n = ground (arith, length-append s.vec (k ∷ [])) in
        rw (h, e)
          (All-append (λ r. length r ≡ n) s.unique_output ((s.vec ++ k ∷ []) ∷ []) a (full, tt), hn)
    | inr e ↦ let short : length (s.vec ++ k ∷ []) < n = ground arith in rw (h, e) (a, short)
  ]
]

filter_row-IsCut :
    (n : ℕ) (s : FilterState) (ks : List Bytes) → 0 < n → IsCut n s → IsCut n (filter_row n s ks)
unfolding filter_row
filter_row-IsCut n s [] hn h = h
filter_row-IsCut n s (k ∷ ks) hn h =
    filter_row-IsCut n (filter_one n s k) ks hn (filter_one-IsCut n s k hn h)

-- What the vectors put out hold, cut into full vectors and one that is not.
abbrev pub IsCutOf : ℕ → List Bytes → List (List Bytes) → Type 0
IsCutOf n keys out =
    (full : List (List Bytes)) × (rest : List Bytes) × (out ≡ full ++ rest ∷ [])
    × All (λ r. length r ≡ n) full
    × (length rest < n)
    × (concat out ≡ keys)

finish-IsCutOf :
    (n : ℕ) (s : FilterState) (keys : List Bytes)
    → IsCut n s
    → held s ≡ keys
    → IsCutOf n keys (finish s)
unfolding finish held
finish-IsCutOf n s keys (a, b) e = (
  s.unique_output,
  s.vec,
  refl,
  a,
  b,
  concat-append s.unique_output (s.vec ∷ [])
      ∙ (ap (λ z. concat s.unique_output ++ z) (append-nil s.vec) ∙ e),
)

abbrev init : CountMap → FilterState
init m = record { unique_map = m; vec = []; unique_output = [] }

-- With no text twice in `unique`, `remove_non_unique` puts out the texts of its input that neither
-- `unique` nor the input before them has, in the order of the input, in vectors of exactly
-- `n_numbers` and a last one of fewer, if `n_numbers` is above 0.
pub remove_non_unique-fresh :
    (unique inp old : List (List Bytes)) (n : ℕ)
    → 0 < n
    → distinct (concat unique) ≡ true
    → IsCutOf n (fresh (concat unique) (concat inp)) (remove_non_unique unique inp old n)
unfolding remove_non_unique filter_behind held
remove_non_unique-fresh unique inp old n hn d =
    let (m, e, l) = load_row-some [] (concat unique) (none_of_empty (concat unique)) d in
    let s = filter_row n (init m) (concat inp) in
    let marks : Marks m (concat unique) = λ j. l j ∙ ground arith in
    let loaded = load_rows-concat [] unique ∙ e in
    subst (λ o. IsCutOf n (fresh (concat unique) (concat inp)) (filter_behind o inp old n))
      (sym loaded)
      (subst (λ z. IsCutOf n (fresh (concat unique) (concat inp)) (finish z))
        (sym (filter_rows-concat n (init m) inp))
        (finish-IsCutOf n s (fresh (concat unique) (concat inp))
          (filter_row-IsCut n (init m) (concat inp) hn (tt, hn))
          (held-filter_row n (init m) (concat inp)
            ∙ fresh_of-fresh m (concat unique) (concat inp) marks)))

-- With a text twice in `unique`, `remove_non_unique` leaves the output as it was.
pub remove_non_unique-duplicate :
    (unique inp old : List (List Bytes)) (n : ℕ)
    → distinct (concat unique) ≡ false
    → remove_non_unique unique inp old n ≡ old
unfolding remove_non_unique filter_behind held
remove_non_unique-duplicate unique inp old n d =
    ap (λ o. filter_behind o inp old n)
      (load_rows-concat [] unique ∙ load_row-none [] (concat unique) (ground arith))
