-- ===== src/QueueFile/Retry.antt =====
-- utils/data/queue_file.h: `Push` and `Pop` come through when the mutex is free.
use gorn.Common.{
  ℕ, ◌≡◌, ◌≢◌, refl, ap, ◌∙◌, Bool, true, Option, none, some, List, [], ◌∷◌, ◌++◌, if◌then◌else◌,
  All, ◌==◌, ◌⊎◌, inl, inr,
}
use mathlib.Core.List.{append_cancel_left}
use gorn.Text.{Bytes, codes}
use gorn.Files.{Disk, lookup, get_files}
use gorn.Mutex.Calls.{IsFree, IsHeld}
use gorn.QueueFile.{
  QueueEntryKeyValue, get, queue_mutex, entry_lines, Done, pop, push_retry, pop_retry, retry,
  first_file, came_through,
}
use gorn.QueueFile.Entries.{IsEntry}
use gorn.QueueFile.Calls.{Apart, through, SameBut, push-IsFree, pop-IsFree, push_held, pop_held}

-- A file name that does not lead to the mutex's files.
abbrev pub Plain : Bytes → Type 0
Plain filename = (filename ≢ codes "../unlocked") × (filename ≢ codes "../locked")

queue_mutex-Apart :
    (dir filename : Bytes) → Plain filename → Apart (queue_mutex dir) (dir ++ 47 ∷ filename)
unfolding queue_mutex
queue_mutex-Apart dir filename (u, l) = record {
  mutex = λ e. suffixes_differ (append_cancel_left dir _ _ e);
  unlocked = λ e. u (cc (append_cancel_left dir (47 ∷ filename) (codes "/../unlocked") e));
  locked = λ e. l (cc (append_cancel_left dir (47 ∷ filename) (codes "/../locked") e));
}
  where
    suffixes_differ : codes "/../unlocked" ≢ codes "/../locked"
    suffixes_differ h = cc

-- The disks that the attempts before the last find: another process holds the mutex.
abbrev pub AllHeld : Bytes → List (Bytes × Disk) → Type 0
AllHeld dir ds = All (λ (sd : Bytes × Disk). IsHeld (queue_mutex dir) sd.0 sd.1) ds

abbrev pub disks_of : List (Bytes × Disk) → List Disk → List Disk
disks_of [] ds = ds
disks_of ((s, d) ∷ held) ds = d ∷ disks_of held ds

push_retry-held :
    (dir filename : Bytes) (es : List QueueEntryKeyValue) (held : List (Bytes × Disk))
    (ds : List Disk)
    → AllHeld dir held
    → push_retry dir filename es (disks_of held ds) ≡ push_retry dir filename es ds
unfolding push_retry
push_retry-held dir filename es [] ds all = refl
push_retry-held dir filename es ((s, d) ∷ held) ds (h, all) =
    let of : Done (List QueueEntryKeyValue) → Option (Done (List QueueEntryKeyValue)) = λ tried.
      if tried.status == 0 then some tried else push_retry dir filename es (disks_of held ds) in
    ap of (push_held (queue_mutex dir) s (dir ++ 47 ∷ filename) d es h)
    ∙ push_retry-held dir filename es held ds all

-- Let other processes hold the mutex at the first attempts of `Push`, and let it be free at the
-- next, with the file open. Then `Push` ends there: the file has the lines of the entries, the mutex
-- is free, and every other file reads as at that attempt.
pub push_retry-through :
    (dir filename : Bytes) (es : List QueueEntryKeyValue) (held : List (Bytes × Disk)) (s : Bytes)
    (d : Disk) (ds : List Disk)
    → Plain filename
    → AllHeld dir held
    → IsFree (queue_mutex dir) s d
    → d.can_open (dir ++ 47 ∷ filename) ≡ true
    → (e : Disk) × (push_retry dir filename es (disks_of held (d ∷ ds)) ≡ some (through e es))
      × IsFree (queue_mutex dir) s e
      × (lookup (dir ++ 47 ∷ filename) e.files ≡ some (entry_lines es))
      × SameBut (queue_mutex dir) (dir ++ 47 ∷ filename) d e
unfolding push_retry
push_retry-through dir filename es held s d ds plain all free can =
    let (e, pushed, free', there, same) =
      push-IsFree (queue_mutex dir) s (dir ++ 47 ∷ filename) (queue_mutex-Apart dir filename plain)
        d es can free in
    let of : Done (List QueueEntryKeyValue) → Option (Done (List QueueEntryKeyValue)) =
      λ tried. if tried.status == 0 then some tried else push_retry dir filename es ds in
    (e, push_retry-held dir filename es held (d ∷ ds) all ∙ ap of pushed, free', there, same)

-- What an attempt of `Pop` finds when it comes to nothing: no file, or a held mutex.
abbrev pub Waits : Bytes → Bytes × Disk × List (Bytes × Bool) → Type 0
Waits dir (s, d, entries) = (get_files entries [] ≡ []) ⊎ IsHeld (queue_mutex dir) s d

abbrev pub attempts_of :
    List (Bytes × Disk × List (Bytes × Bool))
    → List (Disk × List (Bytes × Bool))
    → List (Disk × List (Bytes × Bool))
attempts_of [] ds = ds
attempts_of ((s, d, entries) ∷ waits) ds = (d, entries) ∷ attempts_of waits ds

module _ {ℓ} {A : Type ℓ} (of_line : Bytes → A) (dir : Bytes) (output : List A) where
  first_file-held :
      (s : Bytes) (d : Disk) (files : List Bytes)
      → IsHeld (queue_mutex dir) s d
      → came_through (first_file (pop of_line (queue_mutex dir)) d files output) ≡ none
  unfolding first_file
  first_file-held s d [] h = refl
  first_file-held s d (p ∷ files) h =
      ap came_through (pop_held of_line (queue_mutex dir) s p d output h)

  Waits-none :
      (s : Bytes) (d : Disk) (entries : List (Bytes × Bool))
      → Waits dir (s, d, entries)
      → came_through (first_file (pop of_line (queue_mutex dir)) d (get_files entries []) output)
        ≡ none
  unfolding first_file
  Waits-none s d entries (inl e) =
      ap (λ z. came_through (first_file (pop of_line (queue_mutex dir)) d z output)) e
  Waits-none s d entries (inr h) = first_file-held s d (get_files entries []) h

  pub pop_retry-Waits :
      (waits : List (Bytes × Disk × List (Bytes × Bool))) (ds : List (Disk × List (Bytes × Bool)))
      → All (Waits dir) waits
      → pop_retry of_line dir (attempts_of waits ds) output ≡ pop_retry of_line dir ds output
  unfolding pop_retry retry
  pop_retry-Waits [] ds all = refl
  pop_retry-Waits ((s, d, entries) ∷ waits) ds (w, all) =
      let after : Option (Done (List A)) → Option (Done (List A)) = λ z. elim z [
        | none ↦ retry (pop of_line (queue_mutex dir)) (attempts_of waits ds) output
        | some done ↦ some done
      ] in
      ap after (Waits-none s d entries w) ∙ pop_retry-Waits waits ds all

-- Let the first attempts of `Pop` find no file or a held mutex, and let the next find a free mutex
-- and, first in the directory, a plain file with the lines of entries. Then `Pop` ends there with
-- the entries behind its output: the file is gone, the mutex is free, and every other file reads
-- as at that attempt.
pub pop_retry-through :
    (unset : ℕ) (dir filename : Bytes) (es output : List QueueEntryKeyValue)
    (waits : List (Bytes × Disk × List (Bytes × Bool))) (s : Bytes) (d : Disk)
    (entries : List (Bytes × Bool)) (files : List Bytes) (ds : List (Disk × List (Bytes × Bool)))
    → Plain filename
    → All IsEntry es
    → All (Waits dir) waits
    → IsFree (queue_mutex dir) s d
    → get_files entries [] ≡ (dir ++ 47 ∷ filename) ∷ files
    → lookup (dir ++ 47 ∷ filename) d.files ≡ some (entry_lines es)
    → (e : Disk) × (pop_retry (get unset) dir (attempts_of waits ((d, entries) ∷ ds)) output
        ≡ some (through e (output ++ es)))
      × IsFree (queue_mutex dir) s e
      × (lookup (dir ++ 47 ∷ filename) e.files ≡ none)
      × SameBut (queue_mutex dir) (dir ++ 47 ∷ filename) d e
unfolding pop_retry retry first_file
pop_retry-through unset dir filename es output waits s d entries files ds plain words all free
      listed there =
    let p = dir ++ 47 ∷ filename in
    let (e, popped, free', gone, same) =
      pop-IsFree (queue_mutex dir) s p (queue_mutex-Apart dir filename plain) unset es output words
        d free there in
    let after : Option (Done (List QueueEntryKeyValue)) → Option (Done (List QueueEntryKeyValue)) =
      λ z. elim z [
        | none ↦ retry (pop (get unset) (queue_mutex dir)) ds output
        | some done ↦ some done
      ] in
    (
      e,
      pop_retry-Waits (get unset) dir output waits ((d, entries) ∷ ds) all
          ∙ ap after (
              ap (λ z. came_through (first_file (pop (get unset) (queue_mutex dir)) d z output))
                listed
              ∙ ap came_through popped),
      free',
      gone,
      same,
    )
