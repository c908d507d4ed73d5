-- ===== src/Writers/Batch.antt =====
-- HashTableDaemon/HashTableDaemon.cpp: the batch that `write_output_thread` writes.
use gorn.Common.{
  ℕ, ◌+◌, ◌≡◌, ◌≢◌, refl, sym, subst, ◌∙◌, true, some, List, [], ◌∷◌, ◌++◌, Perm, arith, ltb,
  if◌then◌else◌, length, length-append, All, IsSorted,
}
use gorn.Text.{Bytes}
use gorn.Text.Order.{text_order, eq_text, eq_text_iff}
use gorn.Text.Stream.Extract.{IsWord}
use gorn.Sorting.{std_sort}
use gorn.Sorting.Sort.{std_sort-perm, std_sort-IsSorted, std_sort-All}
use gorn.Files.{Disk, lookup, delimited, sort_data, write_file}
use gorn.Files.ReadWrite.{lookup-store_at, words-delimited}
use gorn.Files.Words.{words_of, words_of-there}
use gorn.Search.{space}
use gorn.Writers.{Writer, threshold, batch_name, write_round}

-- What a round leaves when it writes a batch.
pub record Written (port : ℕ) (d : Disk) (w : Writer) (batch : List Bytes) (w' : Writer) (d' : Disk)
    : Type 0 where
  pub emptied : w'.q ≡ []
  pub counted : w'.batch_num ≡ w.batch_num + 1
  pub ascending : IsSorted (words_of d' (batch_name port w.batch_num))
  pub same_items : Perm (words_of d' (batch_name port w.batch_num)) batch
  pub others : (p : Bytes) → p ≢ batch_name port w.batch_num → lookup p d'.files ≡ lookup p d.files

write_round-full :
    (port : ℕ) (d : Disk) (w : Writer) (item : Bytes)
    → length w.q ≡ threshold
    → write_round port d w item ≡ (
      record { q = []; batch_num = w.batch_num + 1 },
      write_file d (batch_name port w.batch_num) (sort_data (w.q ++ item ∷ [])) space,
    )
unfolding write_round
write_round-full port d w item h =
    let full : ltb threshold (length (w.q ++ item ∷ [])) ≡ true =
      ground (arith, length-append w.q (item ∷ [])) in
    rw full refl

lookup-write_file :
    (d : Disk) (p q : Bytes) (ws : List Bytes)
    → d.can_open p ≡ true
    → lookup q (write_file d p ws space).files
      ≡ (if eq_text q p then some (delimited space ws) else lookup q d.files)
unfolding write_file
lookup-write_file d p q ws can = rw can (lookup-store_at p q (delimited space ws) d.files)

-- With 1000 words collected, the next one makes `write_output_thread` write a batch: the file has
-- the 1001 words in ascending order, no other file changes, `Q` is empty and the number one more, if
-- the file can be opened.
pub write_round-Written :
    (port : ℕ) (d : Disk) (w : Writer) (item : Bytes)
    → length w.q ≡ threshold
    → All IsWord (w.q ++ item ∷ [])
    → d.can_open (batch_name port w.batch_num) ≡ true
    → Written port d w
        (w.q ++ item ∷ [])
        (write_round port d w item).0
        (write_round port d w item).1
unfolding sort_data
write_round-Written port d w item h words can =
    let batch = w.q ++ item ∷ [] in
    let name = batch_name port w.batch_num in
    let d' = write_file d name (sort_data batch) space in
    let there : lookup name d'.files ≡ some (delimited space (std_sort batch)) =
      lookup-write_file d name name (sort_data batch) can ∙ ground (arith, eq_text_iff name name) in
    let same : words_of d' name ≡ std_sort batch =
      words_of-there d' name (delimited space (std_sort batch)) there
      ∙ words-delimited space refl (std_sort batch) (std_sort-All IsWord batch words) in
    subst (λ (r : Writer × Disk). Written port d w batch r.0 r.1)
      (sym (write_round-full port d w item h))
      (record {
        emptied = refl;
        counted = refl;
        ascending = subst IsSorted (sym same) (std_sort-IsSorted batch);
        same_items = subst (λ z. Perm z batch) (sym same) (std_sort-perm batch);
        others = λ p different.
            lookup-write_file d name p (sort_data batch) can ∙ ground (arith, eq_text_iff p name);
      })
