-- ===== src/Examples/Queues.antt =====
-- The queue's filter and the sorter's round at concrete inputs.
use gorn.Common.{◌≡◌, refl, ◌∙◌, Bool, true, false, List, [], ◌∷◌, concat, arith}
use gorn.Text.{Bytes, codes}
use gorn.Text.Order.{eq_text, eq_text-differ, member, distinct}
use gorn.Text.Stream.{is_nil}
use gorn.Files.{Disk, lookup, get_files}
use gorn.Fresh.{verify_uniqueness, remove_non_unique}
use gorn.Fresh.Counts.{verify_uniqueness-distinct}
use gorn.Fresh.Output.{fresh, IsCutOf, remove_non_unique-fresh}
use gorn.Mutex.{Mutex}
use gorn.Mutex.Calls.{IsFree}
use gorn.Sorter.{round}
use gorn.Sorter.Round.{Names, Sorted}
use gorn.Sorter.Correct.{round-Sorted}

abbrev a_row : List (List Bytes)
a_row = (codes "a" ∷ codes "c" ∷ []) ∷ []

abbrev input_rows : List (List Bytes)
input_rows = (codes "b" ∷ codes "a" ∷ []) ∷ (codes "d" ∷ codes "b" ∷ codes "e" ∷ []) ∷ []

a_row-distinct : distinct (concat a_row) ≡ true
unfolding distinct member eq_text
a_row-distinct = refl

input_twice : verify_uniqueness input_rows ≡ false
unfolding distinct member eq_text
input_twice = verify_uniqueness-distinct input_rows ∙ refl

remove_non_unique-fresh_example :
    IsCutOf 2 (fresh (concat a_row) (concat input_rows)) (remove_non_unique a_row input_rows [] 2)
remove_non_unique-fresh_example =
    remove_non_unique-fresh a_row input_rows [] 2 (omega arith) a_row-distinct

a_row-verified : verify_uniqueness a_row ≡ true
a_row-verified = verify_uniqueness-distinct a_row ∙ a_row-distinct

abbrev sorter_unlock : Bytes
sorter_unlock = codes "sorted_output/unlocked"

abbrev sorter_lock : Bytes
sorter_lock = codes "sorted_output/locked"

abbrev sorter_mutex : Mutex
sorter_mutex = record { unlock_name = sorter_unlock; lock_name = sorter_lock }

abbrev old_file : Bytes
old_file = codes "sorted_output/comprehensive.out"

abbrev new_file : Bytes
new_file = codes "sorted_output/comprehensive.tmp"

abbrev listing : List (Bytes × Bool)
listing = (codes "batch_output/x", true) ∷ (codes "batch_output/sub", false) ∷ []

abbrev sorter_disk : Disk
sorter_disk = record {
  files = (codes "sorted_output/unlocked", []) ∷ (codes "batch_output/x", codes "b a b ") ∷ [];
  can_open = λ p. true;
}

sorter-Names : Names sorter_mutex (get_files listing []) old_file new_file
unfolding get_files member eq_text
sorter-Names = record {
  mutex = eq_text-differ sorter_unlock sorter_lock refl;
  outputs = eq_text-differ old_file new_file refl;
  initial_unlock = eq_text-differ old_file sorter_unlock refl;
  initial_lock = eq_text-differ old_file sorter_lock refl;
  comprehensive_unlock = eq_text-differ new_file sorter_unlock refl;
  comprehensive_lock = eq_text-differ new_file sorter_lock refl;
  unlock_unlisted = refl;
  lock_unlisted = refl;
}

sorter_disk-IsFree : IsFree sorter_mutex [] sorter_disk
unfolding lookup eq_text
sorter_disk-IsFree = record { there = refl; gone = refl }

listing_not_empty : is_nil (get_files listing []) ≡ false
unfolding get_files
listing_not_empty = refl

round-Sorted_example :
    (f : Disk) × (round sorter_mutex sorter_disk listing old_file new_file ≡ (0, f))
    × IsFree sorter_mutex [] f
    × Sorted sorter_mutex sorter_disk (get_files listing []) old_file new_file f
round-Sorted_example =
    round-Sorted sorter_mutex [] sorter_disk listing old_file new_file sorter-Names
      sorter_disk-IsFree refl listing_not_empty
