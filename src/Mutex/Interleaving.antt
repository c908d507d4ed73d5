-- ===== src/Mutex/Interleaving.antt =====
-- Processes that share a `DistributedMutex`, with the test and the rename of each call as two steps,
-- so that other processes may run in between.
pub mod Exclusion
use gorn.Common.{ℕ, ◌≡◌, ◌≢◌, Bool, true, false, Option, none, some, ite}
use native.Mathlib.Decide.{ℕ_discrete}
use gorn.Text.{Bytes}
use gorn.Files.{Disk, lookup, exists, rename}
use gorn.Mutex.{Mutex}

-- Where a process stands: outside, in `lock` behind the test, between `Lock` and `Unlock`, and in
-- `unlock` behind the test.
pub data Pc : Type 0 where
  outside checked holding releasing : Pc

pub record System : Type 0 where
  pub disk : Disk
  pub pc : ℕ → Pc

unfoldable pub update : (ℕ → Pc) → ℕ → Pc → ℕ → Pc
unfolding ℕ_discrete
update f i a j = ite (ℕ_discrete i j) a (f j)

abbrev pub move : System → ℕ → Pc → System
move s i a = record s { pc = update s.pc i a }

-- A step of process `i`, or of anything else that leaves the mutex's two files alone. A `lock` that
-- finds the lock file returns 1 and changes nothing, as does an `unlock` that finds the other file.
pub data Step (m : Mutex) (s : System) (t : System) : Type 0 where
  lock_test :
      (i : ℕ)
      → s.pc i ≡ outside
      → exists s.disk m.lock_name ≡ false
      → t ≡ move s i checked
      → Step m s t
  lock_rename :
      (i : ℕ) (e : Disk)
      → s.pc i ≡ checked
      → rename s.disk m.unlock_name m.lock_name ≡ some e
      → t ≡ record { disk = e; pc = update s.pc i holding }
      → Step m s t
  lock_throws :
      (i : ℕ)
      → s.pc i ≡ checked
      → rename s.disk m.unlock_name m.lock_name ≡ none
      → t ≡ move s i outside
      → Step m s t
  unlock_test :
      (i : ℕ)
      → s.pc i ≡ holding
      → exists s.disk m.unlock_name ≡ false
      → t ≡ move s i releasing
      → Step m s t
  unlock_rename :
      (i : ℕ) (e : Disk)
      → s.pc i ≡ releasing
      → rename s.disk m.lock_name m.unlock_name ≡ some e
      → t ≡ record { disk = e; pc = update s.pc i outside }
      → Step m s t
  unlock_throws :
      (i : ℕ)
      → s.pc i ≡ releasing
      → rename s.disk m.lock_name m.unlock_name ≡ none
      → t ≡ move s i holding
      → Step m s t
  elsewhere :
      (e : Disk)
      → lookup m.unlock_name e.files ≡ lookup m.unlock_name s.disk.files
      → lookup m.lock_name e.files ≡ lookup m.lock_name s.disk.files
      → t ≡ record s { disk = e }
      → Step m s t

pub data Reach (m : Mutex) (s : System) : System → Type 0 where
  here : Reach m s s
  next : {t u : System} → Reach m s t → Step m t u → Reach m s u
