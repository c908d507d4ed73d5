-- ===== src/Writers/FindBatch.antt =====
-- HashTableDaemon/HashTableDaemon.cpp: the search that `find_write_output_thread` makes.
use gorn.Common.{
  ℕ, ◌+◌, ◌^◌, ◌<◌, ◌≡◌, ◌≢◌, refl, sym, ap, ◌∙◌, Bool, true, some, List, [], ◌∷◌, ◌++◌, arith, ltb,
  not, ◌==◌, if◌then◌else◌, length, length-append, All, IsSorted,
}
use gorn.Text.{Bytes}
use gorn.Text.Order.{text_order, eq_text_iff}
use gorn.Text.Stream.Extract.{IsWord}
use gorn.Sorting.{std_sort}
use gorn.Sorting.Sort.{std_sort-IsSorted, length-std_sort}
use gorn.Files.{Disk, lookup, delimited, sort_data}
use gorn.Mutex.{Mutex, lock, unlock}
use gorn.Mutex.Calls.{IsFree, IsHeld, lock_takes, unlock_releases, can_open-lock}
use gorn.Search.{search_new, space}
use gorn.Search.Total.{found, search_new-found}
use gorn.Writers.{Writer, threshold, queue_name, map_name, write_found, find_write_round}

-- The files of a round: the mutex's two, the map and the output are four files.
pub record Apart (m : Mutex) (output : Bytes) : Type 0 where
  pub mutex : m.unlock_name ≢ m.lock_name
  pub map_output : map_name ≢ output
  pub map_unlock : map_name ≢ m.unlock_name
  pub map_lock : map_name ≢ m.lock_name
  pub output_unlock : output ≢ m.unlock_name
  pub output_lock : output ≢ m.lock_name

find_write_round-full :
    (m : Mutex) (port : ℕ) (d e f : Disk) (w : Writer) (item : Bytes)
    → length w.q ≡ threshold
    → lock m d ≡ (0, e)
    → search_new e map_name (sort_data (w.q ++ item ∷ [])) (queue_name port w.batch_num) ≡ some f
    → find_write_round m port d w item ≡ write_found m w (some f)
unfolding find_write_round
find_write_round-full m port d e f w item h took ran =
    let full : ltb threshold (length (w.q ++ item ∷ [])) ≡ true =
      ground (arith, length-append w.q (item ∷ [])) in
    ap
      (λ (z : ℕ × Disk).
        if not (ltb threshold (length (w.q ++ item ∷ [])))
        then some (record w { q = w.q ++ item ∷ [] }, 0, d)
        else if z.0 == 1
        then some (record w { q = w.q ++ item ∷ [] }, 1, z.1)
        else write_found m w
            (search_new z.1 map_name (sort_data (w.q ++ item ∷ [])) (queue_name port w.batch_num)))
      took
    ∙ (rw full refl ∙ ap (write_found m w) ran)

write_found-unlock :
    (m : Mutex) (w : Writer) (f g : Disk)
    → unlock m f ≡ (0, g)
    → write_found m w (some f) ≡ some (record { q = []; batch_num = w.batch_num + 1 }, 0, g)
unfolding write_found
write_found-unlock m w f g gave = ap (λ (z : ℕ × Disk). some (the_writer, z.0, z.1)) gave
  where
    the_writer : Writer
    the_writer = record { q = []; batch_num = w.batch_num + 1 }

-- From a free mutex, with 1000 items collected and a map file of ascending words, the next item
-- makes `find_write_output_thread` search: the output file has the entries that `search_new` finds
-- for the 1001 items in order, the mutex is free again, `Q` is empty and the number one more, if the
-- output can be opened and the files are apart.
pub find_write_round-found :
    (m : Mutex) (s : Bytes) (port : ℕ) (d : Disk) (w : Writer) (item : Bytes) (ws : List Bytes)
    → Apart m (queue_name port w.batch_num)
    → IsFree m s d
    → d.can_open (queue_name port w.batch_num) ≡ true
    → lookup map_name d.files ≡ some (delimited space ws)
    → All IsWord ws
    → IsSorted ws
    → length w.q ≡ threshold
    → (g : Disk) × (find_write_round m port d w item
        ≡ some (record { q = []; batch_num = w.batch_num + 1 }, 0, g))
      × IsFree m s g
      × (lookup (queue_name port w.batch_num) g.files
          ≡ some (delimited space (found ws (std_sort (w.q ++ item ∷ [])))))
unfolding sort_data
find_write_round-found m s port d w item ws apart free can there words sw h =
    let out = queue_name port w.batch_num in
    let batch = std_sort (w.q ++ item ∷ []) in
    let (e, took, held, same) = lock_takes m s d apart.mutex free in
    let can' : e.can_open out ≡ true =
      ap (λ (z : ℕ × Disk). z.1.can_open out) (sym took)
      ∙ (ap (λ (g : Bytes → Bool). g out) (can_open-lock m d) ∙ can) in
    let few : length batch + 2 < 2 ^ 64 =
      omega (arith, length-std_sort (w.q ++ item ∷ []), length-append w.q (item ∷ []), h) in
    let (f, ran, files) =
      search_new-found e map_name out ws batch apart.map_output can'
        (same map_name apart.map_unlock apart.map_lock ∙ there) words sw
        (std_sort-IsSorted (w.q ++ item ∷ [])) few in
    let held' : IsHeld m s f = record {
      there =
          files m.lock_name
          ∙ (ground (arith, eq_text_iff m.lock_name out, apart.output_lock) ∙ held.there);
      gone =
          files m.unlock_name
          ∙ (ground (arith, eq_text_iff m.unlock_name out, apart.output_unlock) ∙ held.gone);
    } in
    let (g, gave, free', behind) = unlock_releases m s f apart.mutex held' in
    (
      g,
      find_write_round-full m port d e f w item h took ran ∙ write_found-unlock m w f g gave,
      free',
      behind out apart.output_unlock apart.output_lock
          ∙ (files out ∙ ground (arith, eq_text_iff out out)),
    )
