-- ===== src/Mutex.antt =====
-- utils/data/distributed_mutex.h: `DistributedMutex`, a lock that is the name of one file.
pub mod Calls
pub mod Interleaving
use gorn.Common.{ℕ, Bool, true, false, Option, none, some}
use gorn.Text.{Bytes}
use gorn.Files.{Disk, exists, rename}

pub record Mutex : Type 0 where
  pub unlock_name : Bytes
  pub lock_name : Bytes

abbrev attempt : Disk → Option Disk → ℕ × Disk
attempt d none = (1, d)
attempt d (some e) = (0, e)

-- `lock`: 1 if the lock file is there or the rename throws, else 0.
unfoldable pub lock : Mutex → Disk → ℕ × Disk
unfolding exists
lock m d = elim (exists d m.lock_name) [
  | true ↦ (1, d)
  | false ↦ attempt d (rename d m.unlock_name m.lock_name)
]

-- One round of `Unlock`, which repeats it as long as it returns 1.
unfoldable pub unlock : Mutex → Disk → ℕ × Disk
unfolding exists
unlock m d = elim (exists d m.unlock_name) [
  | true ↦ (1, d)
  | false ↦ attempt d (rename d m.lock_name m.unlock_name)
]
