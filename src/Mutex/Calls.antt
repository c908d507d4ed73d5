-- ===== src/Mutex/Calls.antt =====
-- What a call of the mutex returns and leaves on the disk.
use gorn.Common.{◌≡◌, ◌≢◌, sym, ◌∙◌, none, some, arith}
use gorn.Text.{Bytes}
use gorn.Files.{Disk, lookup, exists, rename}
use gorn.Files.Rename.{rename_lem}
use gorn.Mutex.{Mutex, lock, unlock}

-- The two states of a mutex in use: one of its two files is there, with the bytes `s`.
pub record IsFree (m : Mutex) (s : Bytes) (d : Disk) : Type 0 where
  pub there : lookup m.unlock_name d.files ≡ some s
  pub gone : lookup m.lock_name d.files ≡ none

pub record IsHeld (m : Mutex) (s : Bytes) (d : Disk) : Type 0 where
  pub there : lookup m.lock_name d.files ≡ some s
  pub gone : lookup m.unlock_name d.files ≡ none

-- Every file but the mutex's two reads as before.
abbrev pub SameElse : Mutex → Disk → Disk → Type 0
SameElse m d e =
    (q : Bytes) → q ≢ m.unlock_name → q ≢ m.lock_name → lookup q e.files ≡ lookup q d.files

lock_renames :
    (m : Mutex) (d e : Disk)
    → lookup m.lock_name d.files ≡ none
    → rename d m.unlock_name m.lock_name ≡ some e
    → lock m d ≡ (0, e)
unfolding lock exists
lock_renames m d e absent renamed = ground arith

unlock_renames :
    (m : Mutex) (d e : Disk)
    → lookup m.unlock_name d.files ≡ none
    → rename d m.lock_name m.unlock_name ≡ some e
    → unlock m d ≡ (0, e)
unfolding unlock exists
unlock_renames m d e absent renamed = ground arith

module _ (m : Mutex) (s : Bytes) (d : Disk) where
  -- `lock` on a held mutex returns 1 and changes nothing.
  pub lock_held : IsHeld m s d → lock m d ≡ (1, d)
  unfolding lock exists
  lock_held held = ground arith

  -- `unlock` on a free mutex returns 1 and changes nothing.
  pub unlock_free : IsFree m s d → unlock m d ≡ (1, d)
  unfolding unlock exists
  unlock_free free = ground arith

  module _ (two : m.unlock_name ≢ m.lock_name) where
    -- `lock` on a free mutex returns 0 and takes it; every other file is as it was.
    pub lock_takes : IsFree m s d → (e : Disk) × (lock m d ≡ (0, e)) × IsHeld m s e × SameElse m d e
    lock_takes free =
        let (e, moved) = rename_lem d m.unlock_name m.lock_name s two free.there in
        (
          e,
          lock_renames m d e free.gone moved.done,
          record { there = moved.there; gone = moved.gone },
          moved.others,
        )

    -- `unlock` on a held mutex returns 0 and frees it; every other file is as it was.
    pub unlock_releases :
        IsHeld m s d → (e : Disk) × (unlock m d ≡ (0, e)) × IsFree m s e × SameElse m d e
    unlock_releases held =
        let (e, moved) = rename_lem d m.lock_name m.unlock_name s (λ p. two (sym p)) held.there in
        (
          e,
          unlock_renames m d e held.gone moved.done,
          record { there = moved.there; gone = moved.gone },
          λ q p r. moved.others q r p,
        )

-- From a free mutex with two different names: the first `lock` returns 0, a second returns 1, the
-- first round of `Unlock` returns 0, and a second unlocking returns 1. Every other file reads as
-- before, and the mutex is free again.
pub lock-lock-unlock-unlock :
    (m : Mutex) (s : Bytes) (d : Disk)
    → m.unlock_name ≢ m.lock_name
    → IsFree m s d
    → (held : Disk) × (free : Disk) × (lock m d ≡ (0, held))
      × (lock m held ≡ (1, held))
      × (unlock m held ≡ (0, free))
      × (unlock m free ≡ (1, free))
      × IsFree m s free
      × SameElse m d free
lock-lock-unlock-unlock m s d two free =
    let (e, locked, held, same) = lock_takes m s d two free in
    let (f, unlocked, freed, same') = unlock_releases m s e two held in
    (
      e,
      f,
      locked,
      lock_held m s e held,
      unlocked,
      unlock_free m s f freed,
      freed,
      λ q p r. same' q p r ∙ same q p r,
    )

-- The mutex leaves the paths that can be opened as they are.
pub can_open-lock : (m : Mutex) (d : Disk) → (lock m d).1.can_open ≡ d.can_open
unfolding lock rename
can_open-lock m d = ground arith
