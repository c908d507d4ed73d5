-- ===== src/Search/Sound.antt =====
-- utils/data/data.h, `search_new`: what is put out is new.
use gorn.Common.{
  ◌≡◌, ◌≢◌, refl, sym, ap, ◌∙◌, inl, inr, true, false, List, [], ◌∷◌, arith, All, IsSorted,
  IsStrict, IsStrict-IsSorted, some, length, ◌+◌, ◌^◌, ◌<◌, Bool-cases,
}
use gorn.Text.{Bytes}
use gorn.Text.Order.{
  lt_text, text_order, eq_text, eq_text_iff, member, member-append, lt_text_irrefl,
}
use gorn.Search.Items.{all_below, none_between, emit, new_items}
use gorn.Text.Stream.Extract.{IsWord}
use gorn.Files.{Disk, lookup, delimited}
use gorn.Search.{search_new, space}
use gorn.Search.Total.{found, search_new-found}

-- A word that all are below is none of them.
all_below-member : (ws : List Bytes) (x : Bytes) → all_below ws x ≡ true → member x ws ≡ false
unfolding all_below member
all_below-member [] x h = refl
all_below-member (w ∷ ws) x h =
    ground (arith, all_below-member ws x, eq_text_iff x w, lt_text_irrefl x)

none_between-member :
    (ws : List Bytes) (x y : Bytes)
    → lt_text x y ≡ true
    → none_between ws x y ≡ true
    → member x ws ≡ false
unfolding none_between member
none_between-member [] x y e h = refl
none_between-member (w ∷ ws) x y e h =
    ground (arith, none_between-member ws x y e, eq_text_iff x w, lt_text_irrefl x)

-- What an entry gives is the entry, and then it is not in the file.
emit-member :
    (ws : List Bytes) (x : Bytes) (rest : List Bytes) (a : Bytes)
    → All (λ y. lt_text x y ≡ true) rest
    → member a (emit ws x rest) ≡ true
    → (a ≡ x) × (member a ws ≡ false)
unfolding emit member
emit-member ws x [] a h e = absurd cc
emit-member ws x (y ∷ rest) a (p, h) e =
    ground (arith, none_between-member ws x y p, eq_text_iff a x)

pub new_items-member :
    (ws xs : List Bytes) (a : Bytes)
    → IsStrict xs
    → member a (new_items ws xs) ≡ true
    → (member a xs ≡ true) × (member a ws ≡ false)
unfolding new_items member
new_items-member ws [] a h e = absurd cc
new_items-member ws (x ∷ rest) a (p, h) e = ground (
  arith,
  all_below-member ws x,
  eq_text_iff a x,
  emit-member ws x rest a p,
  new_items-member ws rest a h,
  member-append a (emit ws x rest) (new_items ws rest),
)

-- What `search_new` puts out of a strictly ascending vector is in the vector and not in the file.
pub found-new :
    (ws xs : List Bytes) (a : Bytes)
    → IsStrict xs
    → member a (found ws xs) ≡ true
    → (member a xs ≡ true) × (member a ws ≡ false)
unfolding found member
found-new [] [] a h e = absurd cc
found-new [] (x ∷ xs) a h e = ground arith
found-new (w ∷ ws) xs a h e = new_items-member (w ∷ ws) xs a h e

above :
    (ws xs : List Bytes) (a : Bytes)
    → member a xs ≡ true
    → all_below ws a ≡ true
    → member a (new_items ws xs) ≡ true
unfolding new_items member
above ws [] a i h = absurd cc
above ws (x ∷ xs) a i h = elim (Bool-cases (eq_text a x)) [
  | inl e ↦
      let same : a ≡ x = (eq_text_iff a x).0 e in
      let h' : all_below ws x ≡ true = ap (all_below ws) (sym same) ∙ h in rw h' (ground arith)
  | inr e ↦
      ground
        (arith, above ws xs a (ground arith) h, member-append a (emit ws x xs) (new_items ws xs))
]

-- On a file that is not empty, an entry above all its words is put out.
pub found-above :
    (w : Bytes) (ws xs : List Bytes) (a : Bytes)
    → member a xs ≡ true
    → all_below (w ∷ ws) a ≡ true
    → member a (found (w ∷ ws) xs) ≡ true
unfolding found
found-above w ws xs a i h = above (w ∷ ws) xs a i h

-- With a map file of ascending words, each with a blank behind it, and a strictly ascending vector
-- of less than 2 ^ 64 - 2 entries, `search_new` ends, and each text that it writes is in the vector
-- and not in the map file, if the output can be opened and is not the map file.
pub search_new-new :
    (d : Disk) (map_name output_name : Bytes) (ws xs : List Bytes)
    → map_name ≢ output_name
    → d.can_open output_name ≡ true
    → lookup map_name d.files ≡ some (delimited space ws)
    → All IsWord ws
    → IsSorted ws
    → IsStrict xs
    → length xs + 2 < 2 ^ 64
    → (e : Disk) × (out : List Bytes) × (search_new d map_name xs output_name ≡ some e)
      × (lookup output_name e.files ≡ some (delimited space out))
      × ((a : Bytes) → member a out ≡ true → (member a xs ≡ true) × (member a ws ≡ false))
search_new-new d map_name output_name ws xs different can there words sw sx k =
    let (e, ran, files) =
      search_new-found d map_name output_name ws xs different can there words sw
        (IsStrict-IsSorted xs sx) k in
    (
      e,
      found ws xs,
      ran,
      files output_name ∙ ground (arith, eq_text_iff output_name output_name),
      λ a h. found-new ws xs a sx h,
    )
