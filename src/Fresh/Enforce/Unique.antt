-- ===== src/Fresh/Enforce/Unique.antt =====
-- DistributedQueue/DistributedQueue.cpp: after `enforce_uniqueness` no text is twice.
use gorn.Common.{
  suc, ◌≡◌, refl, ap, ◌∙◌, true, false, ◌||◌, List, [], ◌∷◌, map, arith, length, concat,
}
use mathlib.Core.Path.{ap₂}
use gorn.Text.{Bytes}
use gorn.Text.Order.{eq_text, eq_text_iff, member, distinct, member-append}
use gorn.Fresh.{CountMap, has, put, verify_uniqueness}
use gorn.Fresh.Counts.{has-put, verify_uniqueness-distinct}
use gorn.Fresh.Unique.{distinct-append}
use gorn.Fresh.Enforce.{
  Enforced, ended, undefined, endless, and_then, enforce_text, enforce_row, enforce_rows,
  enforce_uniqueness,
}
use gorn.Fresh.Enforce.Fuel.{Post, IsNew, enforce_text-Post}

Post-and_then {ℓ κ} :
    {A : Type ℓ} {B : Type κ} (P : A → Type 0) (Q : B → Type 0) (o : Enforced A)
    (f : A → Enforced B)
    → Post P o
    → ((a : A) → P a → Post Q (f a))
    → Post Q (and_then o f)
unfolding and_then
Post-and_then P Q (ended a) f h next = next a h
Post-and_then P Q undefined f h next = tt
Post-and_then P Q endless f h next = h

-- The texts are new to the map and different, and are in the map behind them.
record Row (m : CountMap) (old : List Bytes) (r : List Bytes × CountMap) : Type 0 where
  pub same_length : length r.0 ≡ length old
  pub different : distinct r.0 ≡ true
  pub absent : (j : Bytes) → has j m ≡ true → member j r.0 ≡ false
  pub added : (j : Bytes) → has j r.1 ≡ (member j r.0 || has j m)

Row-cons :
    (m m' m'' : CountMap) (s t : Bytes) (ss ts : List Bytes)
    → has t m ≡ false
    → m' ≡ put t m
    → Row m' ss (ts, m'')
    → Row m (s ∷ ss) (t ∷ ts, m'')
unfolding distinct member
Row-cons m m' m'' s t ss ts new put_there rest =
    let has_next = λ (j : Bytes). ap (has j) put_there ∙ has-put j t m in
    let itself : has t m' ≡ true = has_next t ∙ ground (arith, eq_text_iff t t) in
    record {
      same_length = ap suc rest.same_length;
      different = ground (arith, rest.absent t itself, rest.different);
      absent = λ j h.
          let still : has j m' ≡ true = has_next j ∙ ground (arith, h) in
          let apart : eq_text j t ≡ false =
            ground (arith, eq_text_iff j t, ap (λ z. has z m), h, new) in
          ground (arith, rest.absent j still);
      added = λ j. rest.added j ∙ ground (arith, has_next j);
    }

enforce_row-Row : (m : CountMap) (ss : List Bytes) → Post (Row m ss) (enforce_row m ss)
unfolding enforce_row distinct member
enforce_row-Row m [] = record {
  same_length = refl;
  different = refl;
  absent = λ j h. refl;
  added = λ j. refl;
}
enforce_row-Row m (s ∷ ss) =
    Post-and_then (IsNew m) (Row m (s ∷ ss)) (enforce_text (suc (suc (length m))) m s)
      (λ text. and_then (enforce_row text.1 ss) (λ row. ended (text.0 ∷ row.0, row.1)))
      (enforce_text-Post m s)
      (λ (t, m') (new, put_there).
        Post-and_then (Row m' ss) (Row m (s ∷ ss)) (enforce_row m' ss)
          (λ row. ended (t ∷ row.0, row.1)) (enforce_row-Row m' ss)
          (λ (ts, m'') rest. Row-cons m m' m'' s t ss ts new put_there rest))

-- The same of the vectors, which keep their lengths.
record Rows (m : CountMap) (old : List (List Bytes)) (r : List (List Bytes)) : Type 0 where
  pub same_lengths : map length r ≡ map length old
  pub different : distinct (concat r) ≡ true
  pub absent : (j : Bytes) → has j m ≡ true → member j (concat r) ≡ false

Rows-cons :
    (m m' : CountMap) (old row : List Bytes) (olds rows : List (List Bytes))
    → Row m old (row, m')
    → Rows m' olds rows
    → Rows m (old ∷ olds) (row ∷ rows)
Rows-cons m m' old row olds rows first rest = record {
  same_lengths = ap₂ ◌∷◌ first.same_length rest.same_lengths;
  different =
      distinct-append row (concat rows) first.different rest.different
        (λ j h. rest.absent j (first.added j ∙ ground (arith, h)));
  absent = λ j h.
      let still : has j m' ≡ true = first.added j ∙ ground (arith, h) in
      member-append j row (concat rows) ∙ ground (arith, first.absent j h, rest.absent j still);
}

enforce_rows-Rows :
    (m : CountMap) (vec : List (List Bytes)) → Post (Rows m vec) (enforce_rows m vec)
unfolding enforce_rows
enforce_rows-Rows m [] = record {
  same_lengths = refl;
  different = unfold distinct in refl;
  absent = λ j h. unfold member in refl;
}
enforce_rows-Rows m (r ∷ rs) =
    Post-and_then (Row m r) (Rows m (r ∷ rs)) (enforce_row m r)
      (λ row. and_then (enforce_rows row.1 rs) (λ rows. ended (row.0 ∷ rows))) (enforce_row-Row m r)
      (λ (row, m') first.
        Post-and_then (Rows m' rs) (Rows m (r ∷ rs)) (enforce_rows m' rs)
          (λ rows. ended (row ∷ rows)) (enforce_rows-Rows m' rs)
          (λ rows rest. Rows-cons m m' r row rs rows first rest))

-- The vectors keep their lengths, and `verify_uniqueness` accepts them.
abbrev pub Verified : List (List Bytes) → List (List Bytes) → Type 0
Verified old vec = (map length vec ≡ map length old) × (verify_uniqueness vec ≡ true)

Post-imp {ℓ} :
    {A : Type ℓ} (P Q : A → Type 0) (o : Enforced A) → ((a : A) → P a → Q a) → Post P o → Post Q o
Post-imp P Q (ended a) f h = f a h
Post-imp P Q undefined f h = tt
Post-imp P Q endless f h = h

-- `enforce_uniqueness` ends; if no number overflows, the vectors keep their lengths and no text is
-- twice in them.
pub enforce_uniqueness-Verified :
    (vec : List (List Bytes)) → Post (Verified vec) (enforce_uniqueness vec)
unfolding enforce_uniqueness
enforce_uniqueness-Verified vec =
    Post-imp (Rows [] vec) (Verified vec) (enforce_rows [] vec)
      (λ r rows. (rows.same_lengths, verify_uniqueness-distinct r ∙ rows.different))
      (enforce_rows-Rows [] vec)
