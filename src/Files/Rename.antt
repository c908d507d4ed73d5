-- ===== src/Files/Rename.antt =====
-- The files that are there after a rename or a removal.
use gorn.Common.{◌≡◌, ◌≢◌, refl, ap, subst, ◌∙◌, none, some, arith, if◌then◌else◌}
use gorn.Text.{Bytes}
use gorn.Text.Order.{eq_text, eq_text_iff}
use gorn.Files.{Disk, lookup, store_at, erase_at, rename, rename_file, unless_error}
use gorn.Files.ReadWrite.{lookup-store_at, lookup-erase_at}

-- After a rename the destination has the bytes of the source, the source is gone, and every other
-- file is as it was.
pub lookup-rename :
    (d e : Disk) (src dest q s : Bytes)
    → src ≢ dest
    → lookup src d.files ≡ some s
    → rename d src dest ≡ some e
    → lookup q e.files
      ≡ (if eq_text q dest then some s else if eq_text q src then none else lookup q d.files)
unfolding rename
lookup-rename d e src dest q s different there renamed = ground (
  arith,
  eq_text_iff src dest,
  lookup-store_at dest q s (erase_at src d.files),
  lookup-erase_at src q d.files,
)

-- What a rename of `src` to `dest` leaves: the files `e`.
pub record Moved (d : Disk) (src dest s : Bytes) (e : Disk) : Type 0 where
  pub done : rename d src dest ≡ some e
  pub there : lookup dest e.files ≡ some s
  pub gone : lookup src e.files ≡ none
  pub others : (q : Bytes) → q ≢ src → q ≢ dest → lookup q e.files ≡ lookup q d.files
  pub opens : e.can_open ≡ d.can_open

pub rename_lem :
    (d : Disk) (src dest s : Bytes)
    → src ≢ dest
    → lookup src d.files ≡ some s
    → (e : Disk) × Moved d src dest s e
unfolding rename
rename_lem d src dest s different there = (
  moved,
  record {
    done = done;
    there = at dest ∙ ground (arith, eq_text_iff dest dest);
    gone = at src ∙ ground (arith, eq_text_iff src dest, eq_text_iff src src);
    others = λ q p r. at q ∙ ground (arith, eq_text_iff q dest, eq_text_iff q src);
    opens = refl;
  },
)
  where
    moved : Disk
    moved = record d { files = store_at dest s (erase_at src d.files) }

    done : rename d src dest ≡ some moved
    done = ground (arith, eq_text_iff src dest)

    at :
        (q : Bytes)
        → lookup q moved.files
          ≡ (if eq_text q dest then some s else if eq_text q src then none else lookup q d.files)
    at q = lookup-rename d moved src dest q s different there done

pub rename_fails :
    (d : Disk) (src dest : Bytes) → lookup src d.files ≡ none → rename d src dest ≡ none
unfolding rename
rename_fails d src dest e = ground arith

pub Moved-of_rename :
    (d : Disk) (src dest s : Bytes) (e : Disk)
    → src ≢ dest
    → lookup src d.files ≡ some s
    → rename d src dest ≡ some e
    → Moved d src dest s e
Moved-of_rename d src dest s e different there renamed =
    let (e', moved) = rename_lem d src dest s different there in
    let same : e' ≡ e = cc (moved.done) in subst (Moved d src dest s) same moved

pub lookup-rename_file :
    (d : Disk) (src dest q s : Bytes)
    → src ≢ dest
    → lookup src d.files ≡ some s
    → lookup q (rename_file d src dest).files
      ≡ (if eq_text q dest then some s else if eq_text q src then none else lookup q d.files)
unfolding rename_file
lookup-rename_file d src dest q s different there =
    let (e, moved) = rename_lem d src dest s different there in
    ap (λ o. lookup q (unless_error d o).files) moved.done
    ∙ lookup-rename d e src dest q s different there moved.done

pub can_open-rename_file :
    (d : Disk) (src dest : Bytes) → (rename_file d src dest).can_open ≡ d.can_open
unfolding rename_file rename
can_open-rename_file d src dest = ground arith
