-- ===== src/Status/Files/Recovered.antt =====
-- What the readers of `construct_status_message` make of the files that the processes leave.
use gorn.Common.{
  ℕ, ◌≡◌, refl, sym, ap, ◌∙◌, true, false, some, List, [], ◌∷◌, ◌++◌, append-nil, length, All,
  if◌then◌else◌,
}
use gorn.Text.{Bytes, codes}
use gorn.Text.Order.{eq_text}
use gorn.Text.Stream.{Stream, open_text}
use gorn.Config.{Peer}
use gorn.Files.{Disk, lookup, store_at}
use gorn.Files.ReadWrite.{lookup-store_at}
use gorn.Status.{Floats, HashTableInfo, CrawlerInfo}
use gorn.Status.Files.{
  size_line, size_lines, NodeSizes, hash_table_text, crawler_text, hash_table_name, crawler_name,
  set_hash_table_status, set_crawler_status, read_size_line, read_size_lines, read_crawler,
  read_hash_table, read_status_files,
}
use gorn.Status.Files.Lines.{
  ReadsSize, is_solid, is_solid-All, read_size_line-line, read_size_lines-lines,
}

-- What a reader gets of a node's sizes.
abbrev pub table_of : NodeSizes → HashTableInfo
table_of n = record {
  queue_size = n.queue;
  sorting_queue_size = n.sorting;
  find_sorting_queue_size = n.find_sorting;
  output_queue_size = n.output ∷ [];
  find_output_queue_size = n.find_output ∷ [];
}

pub names_differ :
    (node crawler : Peer) → eq_text (hash_table_name node) (crawler_name crawler) ≡ false
unfolding eq_text hash_table_name crawler_name
names_differ node crawler = refl

pub read_status_files-one {ℓ} :
    {A : Type ℓ} (read : Bytes → A) (d : Disk) (p s : Bytes)
    → lookup p d.files ≡ some s
    → read_status_files read d (p ∷ []) ≡ read s ∷ []
unfolding read_status_files
read_status_files-one read d p s e = rw (e, read_status_files)

module _ (d : Disk) (node crawler : Peer) (n : NodeSizes) (c : CrawlerInfo) where
  abbrev pub both_left : Disk
  both_left = set_crawler_status (set_hash_table_status d node n) crawler c

  pub lookup-both_left :
      (q : Bytes)
      → d.can_open (hash_table_name node) ≡ true
      → d.can_open (crawler_name crawler) ≡ true
      → lookup q both_left.files ≡ (
          if eq_text q (crawler_name crawler)
          then some (crawler_text c)
          else if eq_text q (hash_table_name node)
          then some (hash_table_text n)
          else lookup q d.files)
  unfolding set_crawler_status set_hash_table_status
  lookup-both_left q can can' =
      rw (can, can')
        (lookup-store_at (crawler_name crawler) q (crawler_text c)
            (store_at (hash_table_name node) (hash_table_text n) d.files)
          ∙ ap (λ z. if eq_text q (crawler_name crawler) then some (crawler_text c) else z)
              (lookup-store_at (hash_table_name node) q (hash_table_text n) d.files))

module _ {Float Double : Type 0} (o : Floats Float Double) (unset : Float) where
  pub record NodeReads (n : NodeSizes) : Type 0 where
    pub queue : ReadsSize o unset n.queue
    pub sorting : All (ReadsSize o unset) n.sorting
    pub find_sorting : All (ReadsSize o unset) n.find_sorting
    pub output : ReadsSize o unset n.output
    pub find_output : ReadsSize o unset n.find_output

  pub record CrawlerReads (c : CrawlerInfo) : Type 0 where
    pub q : ReadsSize o unset c.q_size
    pub z : ReadsSize o unset c.z_size
    pub map_queue : ReadsSize o unset c.map_queue_size
    pub m : ReadsSize o unset c.m_size

  at_line :
      (old label : Bytes) (n : ℕ) (s : Bytes)
      → is_solid label ≡ true
      → ReadsSize o unset n
      → (line : Bytes) × (read_size_line o unset (old, open_text (size_line label n ++ s))
          ≡ (n, line, open_text s))
  at_line old label n s h e = read_size_line-line o unset old label n s (is_solid-All label h) e

  at_last :
      (old label : Bytes) (n : ℕ)
      → is_solid label ≡ true
      → ReadsSize o unset n
      → (line : Bytes) × (read_size_line o unset (old, open_text (size_line label n))
          ≡ (n, line, open_text []))
  at_last old label n h e =
      let (line, got) = at_line old label n [] h e in
      (
        line,
        ap (λ z. read_size_line o unset (old, open_text z)) (sym (append-nil (size_line label n)))
            ∙ got,
      )

  at_lines :
      (old label : Bytes) (sizes : List ℕ) (s : Bytes)
      → is_solid label ≡ true
      → length sizes ≡ 4
      → All (ReadsSize o unset) sizes
      → (line : Bytes) × (read_size_lines o unset 4 (old, open_text (size_lines label 0 sizes ++ s))
          ≡ (sizes, line, open_text s))
  at_lines old label sizes s h four all =
      let (line, got) =
        read_size_lines-lines o unset old label 0 sizes s (is_solid-All label h) all in
      (
        line,
        ap (λ k. read_size_lines o unset k (old, open_text (size_lines label 0 sizes ++ s)))
              (sym four)
            ∙ got,
      )

  pub read_crawler-crawler_text :
      (c : CrawlerInfo) → CrawlerReads c → read_crawler o unset (crawler_text c) ≡ c
  unfolding read_crawler crawler_text
  read_crawler-crawler_text c e =
      let (l₁, g₁) = at_line [] (codes "Q_size") c.q_size _ refl e.q in
      let (l₂, g₂) = at_line l₁ (codes "Z_size") c.z_size _ refl e.z in
      let (l₃, g₃) = at_line l₂ (codes "map_queue_size") c.map_queue_size _ refl e.map_queue in
      let (l₄, g₄) = at_last l₃ (codes "M_size") c.m_size refl e.m in
      let step₁ : ℕ × Bytes × Stream → CrawlerInfo = λ r. read_three r.0 (r.1, r.2) in
      let step₂ : ℕ × Bytes × Stream → CrawlerInfo = λ r. read_two c.q_size r.0 (r.1, r.2) in
      let step₃ : ℕ × Bytes × Stream → CrawlerInfo =
        λ r. read_one c.q_size c.z_size r.0 (r.1, r.2) in
      let step₄ : ℕ × Bytes × Stream → CrawlerInfo = λ r. record c { m_size = r.0 } in
      ap step₁ g₁ ∙ (ap step₂ g₂ ∙ (ap step₃ g₃ ∙ ap step₄ g₄))
    where
      read_one : ℕ → ℕ → ℕ → Bytes × Stream → CrawlerInfo
      read_one q z m r = record {
        q_size = q;
        z_size = z;
        map_queue_size = m;
        m_size = (read_size_line o unset r).0;
      }

      read_two : ℕ → ℕ → Bytes × Stream → CrawlerInfo
      read_two q z r = let (m, l, f) = read_size_line o unset r in read_one q z m (l, f)

      read_three : ℕ → Bytes × Stream → CrawlerInfo
      read_three q r = let (z, l, f) = read_size_line o unset r in read_two q z (l, f)

  pub read_hash_table-hash_table_text :
      (n : NodeSizes)
      → NodeReads n
      → length n.sorting ≡ 4
      → length n.find_sorting ≡ 4
      → read_hash_table o unset (hash_table_text n) ≡ table_of n
  unfolding read_hash_table hash_table_text
  read_hash_table-hash_table_text n e four four' =
      let (l₁, g₁) = at_line [] (codes "queue_size") n.queue _ refl e.queue in
      let (l₂, g₂) = at_lines l₁ (codes "sorting_queue_size") n.sorting _ refl four e.sorting in
      let (l₃, g₃) =
        at_lines l₂ (codes "find_sorting_queue_size") n.find_sorting _ refl four' e.find_sorting in
      let (l₄, g₄) = at_line l₃ (codes "output_queue_size") n.output _ refl e.output in
      let (l₅, g₅) = at_last l₄ (codes "find_output_queue_size") n.find_output refl e.find_output in
      let step₁ : ℕ × Bytes × Stream → HashTableInfo = λ r. sortings r.0 (r.1, r.2) in
      let step₂ : List ℕ × Bytes × Stream → HashTableInfo = λ r. finds n.queue r.0 (r.1, r.2) in
      let step₃ : List ℕ × Bytes × Stream → HashTableInfo =
        λ r. outputs n.queue n.sorting r.0 (r.1, r.2) in
      let step₄ : ℕ × Bytes × Stream → HashTableInfo =
        λ r. lasts n.queue n.sorting n.find_sorting r.0 (r.1, r.2) in
      let step₅ : ℕ × Bytes × Stream → HashTableInfo =
        λ r. table n.queue n.sorting n.find_sorting n.output r.0 in
      ap step₁ g₁ ∙ (ap step₂ g₂ ∙ (ap step₃ g₃ ∙ (ap step₄ g₄ ∙ ap step₅ g₅)))
    where
      table : ℕ → List ℕ → List ℕ → ℕ → ℕ → HashTableInfo
      table q s f out find_out = table_of (record {
        queue = q;
        sorting = s;
        find_sorting = f;
        output = out;
        find_output = find_out;
      })

      lasts : ℕ → List ℕ → List ℕ → ℕ → Bytes × Stream → HashTableInfo
      lasts q s f out r = table q s f out (read_size_line o unset r).0

      outputs : ℕ → List ℕ → List ℕ → Bytes × Stream → HashTableInfo
      outputs q s f r = let (out, l, t) = read_size_line o unset r in lasts q s f out (l, t)

      finds : ℕ → List ℕ → Bytes × Stream → HashTableInfo
      finds q s r = let (f, l, t) = read_size_lines o unset 4 r in outputs q s f (l, t)

      sortings : ℕ → Bytes × Stream → HashTableInfo
      sortings q r = let (s, l, t) = read_size_lines o unset 4 r in finds q s (l, t)
