-- ===== src/QueueFile/Calls.antt =====
-- utils/data/queue_file.h: `push`, `pop` and `peek` on a free and on a held mutex.
use gorn.Common.{
  ℕ, ◌≡◌, ◌≢◌, refl, sym, ap, ◌∙◌, Bool, true, Option, none, some, List, ◌++◌, arith, if◌then◌else◌,
  All, ◌==◌,
}
use gorn.Text.{Bytes}
use gorn.Text.Order.{eq_text_iff}
use gorn.Files.{Disk, lookup, store_at, erase_at, remove_file}
use gorn.Files.ReadWrite.{lookup-store_at, lookup-erase_at}
use gorn.Mutex.{Mutex}
use gorn.Mutex.Calls.{
  IsFree, IsHeld, SameElse, lock_takes, unlock_releases, can_open-lock, lock_held,
}
use gorn.QueueFile.{
  QueueEntryKeyValue, get, entry_lines, append_entries, Done, release, busy, push, pop, peek,
}
use gorn.QueueFile.Entries.{IsEntry, entries_of_file-entry_lines}

-- The file of a queue is none of the mutex's two.
pub record Apart (m : Mutex) (p : Bytes) : Type 0 where
  pub mutex : m.unlock_name ≢ m.lock_name
  pub unlocked : p ≢ m.unlock_name
  pub locked : p ≢ m.lock_name

-- A call that came through.
abbrev pub through {ℓ} : {A : Type ℓ} → Disk → A → Done A
through d output = record { status = 0; code = 0; disk = d; output = output }

-- Every file but `p` and the mutex's two reads as before.
abbrev pub SameBut : Mutex → Bytes → Disk → Disk → Type 0
SameBut m p d e =
    (q : Bytes) → q ≢ p → q ≢ m.unlock_name → q ≢ m.lock_name → lookup q e.files ≡ lookup q d.files

module _ (m : Mutex) (s p : Bytes) (apart : Apart m p) where
  store_at-IsHeld :
      (t : Bytes) (d : Disk) → IsHeld m s d → IsHeld m s (record d { files = store_at p t d.files })
  store_at-IsHeld t d held = record {
    there =
        lookup-store_at p m.lock_name t d.files
        ∙ (ground (arith, eq_text_iff m.lock_name p, apart.locked) ∙ held.there);
    gone =
        lookup-store_at p m.unlock_name t d.files
        ∙ (ground (arith, eq_text_iff m.unlock_name p, apart.unlocked) ∙ held.gone);
  }

  erase_at-IsHeld : (d : Disk) → IsHeld m s d → IsHeld m s (record d { files = erase_at p d.files })
  erase_at-IsHeld d held = record {
    there =
        lookup-erase_at p m.lock_name d.files
        ∙ (ground (arith, eq_text_iff m.lock_name p, apart.locked) ∙ held.there);
    gone =
        lookup-erase_at p m.unlock_name d.files
        ∙ (ground (arith, eq_text_iff m.unlock_name p, apart.unlocked) ∙ held.gone);
  }

  release-IsFree {ℓ} :
      {A : Type ℓ} (d : Disk) (output : A)
      → IsHeld m s d
      → (e : Disk) × (release m d output ≡ through e output) × IsFree m s e × SameElse m d e
  unfolding release
  release-IsFree {A = A} d output held =
      let (e, gave, free, same) = unlock_releases m s d apart.mutex held in
      let of : ℕ × Disk → Done A =
        λ r. record { status = 0; code = r.0; disk = r.1; output = output } in
      (e, ap of gave, free, same)

  pub push-IsFree :
      (d : Disk) (es : List QueueEntryKeyValue)
      → d.can_open p ≡ true
      → IsFree m s d
      → (e : Disk) × (push m d p es ≡ through e es)
        × IsFree m s e
        × (lookup p e.files ≡ some (entry_lines es))
        × SameBut m p d e
  unfolding push
  push-IsFree d es can free =
      let (d₁, took, held, same) = lock_takes m s d apart.mutex free in
      let can₁ : d₁.can_open p ≡ true =
        ap (λ (z : ℕ × Disk). z.1.can_open p) (sym took)
        ∙ (ap (λ (g : Bytes → Bool). g p) (can_open-lock m d) ∙ can) in
      let d₂ : Disk = record d₁ { files = store_at p (entry_lines es) d₁.files } in
      let (e, gave, free', same') =
        release-IsFree d₂ es (store_at-IsHeld (entry_lines es) d₁ held) in
      let of : ℕ × Disk → Done (List QueueEntryKeyValue) = λ r.
        if r.0 == 1
        then busy r.1 es
        else release m
            (if r.1.can_open p
              then record r.1 { files = store_at p (entry_lines es) r.1.files }
              else r.1)
            es in
      (
        e,
        ap of took ∙ (rw can₁ refl ∙ gave),
        free',
        same' p apart.unlocked apart.locked
            ∙ (lookup-store_at p p (entry_lines es) d₁.files ∙ ground (arith, eq_text_iff p p)),
        λ q differs u l.
            same' q u l
            ∙ (lookup-store_at p q (entry_lines es) d₁.files
                ∙ (ground (arith, eq_text_iff q p, differs) ∙ same q u l)),
      )

  module _ (unset : ℕ) (es output : List QueueEntryKeyValue) (words : All IsEntry es) where
    append_entries-lines :
        append_entries (get unset) output (some (entry_lines es)) ≡ some (output ++ es)
    unfolding append_entries
    append_entries-lines = rw (append_entries, entries_of_file-entry_lines unset es words) refl

    pub peek-IsFree :
        (d : Disk)
        → IsFree m s d
        → lookup p d.files ≡ some (entry_lines es)
        → (e : Disk) × (peek (get unset) m d p output ≡ some (through e (output ++ es)))
          × IsFree m s e
          × SameElse m d e
    unfolding peek
    peek-IsFree d free there =
        let (d₁, took, held, same) = lock_takes m s d apart.mutex free in
        let (e, gave, free', same') = release-IsFree d₁ (output ++ es) held in
        let of : ℕ × Disk → Option (Done (List QueueEntryKeyValue)) = λ r.
          if r.0 == 1
          then some (busy r.1 output)
          else elim (append_entries (get unset) output (lookup p r.1.files)) [
            | none ↦ none
            | some output' ↦ some (release m r.1 output')
          ] in
        (
          e,
          ap of took
              ∙ (rw (same p apart.unlocked apart.locked ∙ there, append_entries-lines) refl
                  ∙ ap some gave),
          free',
          λ q u l. same' q u l ∙ same q u l,
        )

    pub pop-IsFree :
        (d : Disk)
        → IsFree m s d
        → lookup p d.files ≡ some (entry_lines es)
        → (e : Disk) × (pop (get unset) m d p output ≡ some (through e (output ++ es)))
          × IsFree m s e
          × (lookup p e.files ≡ none)
          × SameBut m p d e
    unfolding pop remove_file
    pop-IsFree d free there =
        let (d₁, took, held, same) = lock_takes m s d apart.mutex free in
        let d₂ : Disk = record d₁ { files = erase_at p d₁.files } in
        let (e, gave, free', same') = release-IsFree d₂ (output ++ es) (erase_at-IsHeld d₁ held) in
        let of : ℕ × Disk → Option (Done (List QueueEntryKeyValue)) = λ r.
          if r.0 == 1
          then some (busy r.1 output)
          else elim (append_entries (get unset) output (lookup p r.1.files)) [
            | none ↦ none
            | some output' ↦ some (release m (remove_file r.1 p) output')
          ] in
        (
          e,
          ap of took
              ∙ (rw (same p apart.unlocked apart.locked ∙ there, append_entries-lines) refl
                  ∙ ap some gave),
          free',
          same' p apart.unlocked apart.locked
              ∙ (lookup-erase_at p p d₁.files ∙ ground (arith, eq_text_iff p p)),
          λ q differs u l.
              same' q u l
              ∙ (lookup-erase_at p q d₁.files
                  ∙ (ground (arith, eq_text_iff q p, differs) ∙ same q u l)),
        )

-- Let a mutex be free and a file apart from it open. `push` then returns 0; `peek` returns 0 with
-- the entries that were pushed behind its output, and so does `pop` after it. Behind these calls the
-- file is gone, the mutex is free, and every other file reads as before, if each key is a 64-bit
-- number and each value one word.
pub push-peek-pop :
    (m : Mutex) (s p : Bytes) (unset : ℕ) (d : Disk) (es output : List QueueEntryKeyValue)
    → Apart m p
    → d.can_open p ≡ true
    → IsFree m s d
    → All IsEntry es
    → (pushed : Disk) × (peeked : Disk) × (popped : Disk) × (push m d p es ≡ through pushed es)
      × (peek (get unset) m pushed p output ≡ some (through peeked (output ++ es)))
      × (pop (get unset) m peeked p output ≡ some (through popped (output ++ es)))
      × (lookup p popped.files ≡ none)
      × IsFree m s popped
      × SameBut m p d popped
push-peek-pop m s p unset d es output apart can free words =
    let (e, pushed, free₁, there, same₁) = push-IsFree m s p apart d es can free in
    let (f, peeked, free₂, same₂) = peek-IsFree m s p apart unset es output words e free₁ there in
    let (g, popped, free₃, gone, same₃) =
      pop-IsFree m s p apart unset es output words f free₂
        (same₂ p apart.unlocked apart.locked ∙ there) in
    (
      e,
      f,
      g,
      pushed,
      peeked,
      popped,
      gone,
      free₃,
      λ q differs u l. same₃ q differs u l ∙ (same₂ q u l ∙ same₁ q differs u l),
    )

-- On a held mutex the three return 1 and change nothing.
pub push_held :
    (m : Mutex) (s p : Bytes) (d : Disk) (es : List QueueEntryKeyValue)
    → IsHeld m s d
    → push m d p es ≡ busy d es
unfolding push
push_held m s p d es held =
    let of : ℕ × Disk → Done (List QueueEntryKeyValue) = λ r.
      if r.0 == 1
      then busy r.1 es
      else release m
          (if r.1.can_open p
            then record r.1 { files = store_at p (entry_lines es) r.1.files }
            else r.1)
          es in
    ap of (lock_held m s d held)

pub pop_held {ℓ} :
    {A : Type ℓ} (of_line : Bytes → A) (m : Mutex) (s p : Bytes) (d : Disk) (output : List A)
    → IsHeld m s d
    → pop of_line m d p output ≡ some (busy d output)
unfolding pop
pop_held {A} of_line m s p d output held =
    let of : ℕ × Disk → Option (Done (List A)) = λ r.
      if r.0 == 1
      then some (busy r.1 output)
      else elim (append_entries of_line output (lookup p r.1.files)) [
        | none ↦ none
        | some output' ↦ some (release m (remove_file r.1 p) output')
      ] in
    ap of (lock_held m s d held)
