-- ===== src/Examples/Locks.antt =====
-- The mutex's theorems at a disk that holds the file `unlocked`, empty.
use gorn.Common.{ℕ, ◌≡◌, ◌≢◌, refl, true, [], ◌∷◌}
use gorn.Text.{codes}
use gorn.Text.Order.{eq_text}
use gorn.Files.{Disk, lookup, store_at, erase_at, exists, rename}
use gorn.Mutex.{Mutex, unlock}
use gorn.Mutex.Calls.{IsFree}
use gorn.Mutex.Interleaving.{
  System, outside, checked, holding, update, lock_test, lock_rename, Reach, here, next,
}
use gorn.Mutex.Interleaving.Exclusion.{Holds, mutual_exclusion, unlock_succeeds}

abbrev c_mutex : Mutex
c_mutex = record { unlock_name = codes "unlocked"; lock_name = codes "locked" }

abbrev fresh : Disk
fresh = record { files = (codes "unlocked", []) ∷ []; can_open = λ p. true }

abbrev taken : Disk
taken = record { files = (codes "locked", []) ∷ []; can_open = λ p. true }

names_differ : codes "unlocked" ≢ codes "locked"
names_differ = λ e. cc

fresh-IsFree : IsFree c_mutex [] fresh
unfolding lookup eq_text
fresh-IsFree = record { there = refl; gone = refl }

abbrev all_outside : System
all_outside = record { disk = fresh; pc = λ i. outside }

abbrev tested : System
tested = record { disk = fresh; pc = update (λ i. outside) 4 checked }

abbrev locked : System
locked = record { disk = taken; pc = update (update (λ i. outside) 4 checked) 4 holding }

-- Process 4 takes the mutex.
locked_reached : Reach c_mutex all_outside locked
unfolding update exists rename lookup store_at erase_at eq_text
locked_reached = next (next here (lock_test 4 refl refl refl)) (lock_rename 4 taken refl refl refl)

locked-Holds : Holds (locked.pc 4)
unfolding update
locked-Holds = tt

mutual_exclusion_example : ◌≡◌ {A = ℕ} 4 4
mutual_exclusion_example =
    mutual_exclusion c_mutex [] all_outside locked names_differ fresh-IsFree (λ i. refl)
      locked_reached 4 4 locked-Holds locked-Holds

unlock_succeeds_example : (e : Disk) × (unlock c_mutex taken ≡ (0, e)) × IsFree c_mutex [] e
unlock_succeeds_example =
    unlock_succeeds c_mutex [] all_outside locked names_differ fresh-IsFree (λ i. refl)
      locked_reached 4 locked-Holds
