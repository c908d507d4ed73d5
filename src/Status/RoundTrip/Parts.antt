-- ===== src/Status/RoundTrip/Parts.antt =====
-- utils/serializers/system_status_serialize.h: each part is read back from the numbers that its
-- `serialize` writes.
use gorn.Common.{
  ℕ, ◌≡◌, refl, sym, ap, subst, ◌∙◌, List, [], ◌∷◌, ◌++◌, map, append_assoc, append-nil, length,
  All,
}
use gorn.Text.{Bytes}
use gorn.Text.Stream.{open_text}
use gorn.Status.{
  Floats, SystemInfo, HashTableInfo, CrawlerInfo, push_entries, serialize_t, serialize_system,
  serialize_hash_table, serialize_crawler, serialize_each,
}
use gorn.Status.Reader.{
  pure, ◌>>=◌, read_double, read_member, read_entries, deserialize_t, read_size, deserialize_system,
}
use gorn.Status.RoundTrip.{
  Exact, ExactSize, Parses, Parses-pure, Parses-bind, Parses-double, Parses-map, Parses-member,
}

module _ {Float Double : Type 0} (o : Floats Float Double) where
  -- The numbers of a vector: its size and its entries.
  abbrev pub numbers_t {ℓ} : {A : Type ℓ} → (A → Float) → List A → List Float
  numbers_t to_float xs = o.float_of_size (length xs) ∷ map to_float xs

  push_entries-map {ℓ} :
      {A : Type ℓ} (to_float : A → Float) (xs : List A) (vec : List Float)
      → push_entries o to_float xs vec ≡ vec ++ map to_float xs
  unfolding push_entries
  push_entries-map to_float [] vec = sym (append-nil vec)
  push_entries-map to_float (x ∷ xs) vec =
      push_entries-map to_float xs (vec ++ to_float x ∷ [])
      ∙ append_assoc vec (to_float x ∷ []) (map to_float xs)

  pub serialize_t-numbers {ℓ} :
      {A : Type ℓ} (to_float : A → Float) (xs : List A) (vec : List Float)
      → serialize_t o to_float xs vec ≡ vec ++ numbers_t to_float xs
  unfolding serialize_t
  serialize_t-numbers to_float xs vec =
      push_entries-map to_float xs (vec ++ o.float_of_size (length xs) ∷ [])
      ∙ append_assoc vec (o.float_of_size (length xs) ∷ []) (map to_float xs)

  -- The numbers of each part, in the order of the members.
  abbrev pub system_numbers : SystemInfo Float → List Float
  system_numbers info = numbers_t (λ x. x) info.p_cpu_percent ++ info.p_memory_percent ∷ []

  abbrev pub table_numbers : HashTableInfo → List Float
  table_numbers info =
      o.float_of_size info.queue_size
      ∷ (numbers_t o.float_of_size info.sorting_queue_size
          ++ (numbers_t o.float_of_size info.find_sorting_queue_size
              ++ (numbers_t o.float_of_size info.output_queue_size
                  ++ numbers_t o.float_of_size info.find_output_queue_size)))

  abbrev pub crawler_numbers : CrawlerInfo → List Float
  crawler_numbers info =
      o.float_of_size info.q_size
      ∷ o.float_of_size info.z_size
      ∷ o.float_of_size info.map_queue_size
      ∷ o.float_of_size info.m_size
      ∷ []

  abbrev pub each_numbers {ℓ} : {A : Type ℓ} → (A → List Float) → List A → List Float
  each_numbers numbers [] = []
  each_numbers numbers (x ∷ xs) = numbers x ++ each_numbers numbers xs

  pub serialize_system-numbers :
      (info : SystemInfo Float) (vec : List Float)
      → serialize_system o info vec ≡ vec ++ system_numbers info
  unfolding serialize_system
  serialize_system-numbers info vec =
      ap (λ z. z ++ info.p_memory_percent ∷ [])
        (serialize_t-numbers (λ x. x) info.p_cpu_percent vec)
      ∙ append_assoc vec (numbers_t (λ x. x) info.p_cpu_percent) (info.p_memory_percent ∷ [])

  pub serialize_hash_table-numbers :
      (info : HashTableInfo) (vec : List Float)
      → serialize_hash_table o info vec ≡ vec ++ table_numbers info
  unfolding serialize_hash_table
  serialize_hash_table-numbers info vec = simp (serialize_t-numbers, append_assoc)

  pub serialize_crawler-numbers :
      (info : CrawlerInfo) (vec : List Float)
      → serialize_crawler o info vec ≡ vec ++ crawler_numbers info
  unfolding serialize_crawler
  serialize_crawler-numbers info vec = simp append_assoc

  pub serialize_each-numbers {ℓ} :
      {A : Type ℓ} (one : A → List Float → List Float) (numbers : A → List Float)
      → ((a : A) (vec : List Float) → one a vec ≡ vec ++ numbers a)
      → (xs : List A) (vec : List Float)
      → serialize_each o one xs vec ≡ vec ++ each_numbers numbers xs
  unfolding serialize_each
  serialize_each-numbers one numbers h [] vec = sym (append-nil vec)
  serialize_each-numbers one numbers h (x ∷ xs) vec =
      ap (λ z. serialize_each o one xs z) (h x vec)
      ∙ (serialize_each-numbers one numbers h xs (vec ++ numbers x)
          ∙ append_assoc vec (numbers x) (each_numbers numbers xs))

  module _ (unset : Double) where
    read_entries-Parses {ℓ} :
        {A : Type ℓ} (to_float : A → Float) (of_double : Double → A) (xs : List A)
        → All (Exact o unset to_float of_double) xs
        → Parses o unset (read_entries o unset of_double (length xs)) (map to_float xs) xs
    unfolding read_entries
    read_entries-Parses to_float of_double [] h = Parses-pure o unset []
    read_entries-Parses to_float of_double (x ∷ xs) (e, h) =
        Parses-bind o unset (read_double o unset)
          (λ v. read_entries o unset of_double (length xs) >>= λ vec. pure (of_double v ∷ vec))
          (to_float x ∷ []) (map to_float xs) e.number (x ∷ xs)
          (Parses-double o unset (to_float x) e.number e.reads)
          (Parses-map o unset (read_entries o unset of_double (length xs))
            (λ vec. of_double e.number ∷ vec) (map to_float xs) xs (x ∷ xs)
            (read_entries-Parses to_float of_double xs h) (ap (λ a. a ∷ xs) e.back))

    pub deserialize_t-Parses {ℓ} :
        {A : Type ℓ} (to_float : A → Float) (of_double : Double → A) (xs : List A)
        → ExactSize o unset (length xs)
        → All (Exact o unset to_float of_double) xs
        → Parses o unset (deserialize_t o unset of_double) (numbers_t to_float xs) xs
    unfolding deserialize_t
    deserialize_t-Parses to_float of_double xs e h =
        Parses-bind o unset (read_double o unset)
          (λ num. read_entries o unset of_double (o.size_of_double num))
          (o.float_of_size (length xs) ∷ []) (map to_float xs) e.number xs
          (Parses-double o unset (o.float_of_size (length xs)) e.number e.reads)
          (subst (λ n. Parses o unset (read_entries o unset of_double n) (map to_float xs) xs)
            (sym e.back) (read_entries-Parses to_float of_double xs h))

    pub read_size-Parses :
        (n : ℕ)
        → ExactSize o unset n
        → Parses o unset (read_size o unset) (o.float_of_size n ∷ []) n
    unfolding read_size
    read_size-Parses n e =
        Parses-map o unset (read_double o unset) o.size_of_double (o.float_of_size n ∷ []) e.number
          n (Parses-double o unset (o.float_of_size n) e.number e.reads) e.back

    -- What a package's members must be for the round trip.
    pub record ExactSystem (old : Float) (info : SystemInfo Float) : Type 0 where
      pub count : ExactSize o unset (length info.p_cpu_percent)
      pub cpu : All (Exact o unset (λ x. x) o.float_of_double) info.p_cpu_percent
      pub memory :
          (rest : Bytes)
          → o.get_float old (open_text (32 ∷ (o.print_float info.p_memory_percent ++ 32 ∷ rest)))
            ≡ (info.p_memory_percent, open_text (32 ∷ rest))

    abbrev pub ExactSizes : List ℕ → Type 0
    ExactSizes xs = ExactSize o unset (length xs) × All (ExactSize o unset) xs

    pub record ExactTable (info : HashTableInfo) : Type 0 where
      pub queue : ExactSize o unset info.queue_size
      pub sorting : ExactSizes info.sorting_queue_size
      pub find_sorting : ExactSizes info.find_sorting_queue_size
      pub output : ExactSizes info.output_queue_size
      pub find_output : ExactSizes info.find_output_queue_size

    pub record ExactCrawler (info : CrawlerInfo) : Type 0 where
      pub q : ExactSize o unset info.q_size
      pub z : ExactSize o unset info.z_size
      pub map_queue : ExactSize o unset info.map_queue_size
      pub m : ExactSize o unset info.m_size

    pub deserialize_system-Parses :
        (old : Float) (info : SystemInfo Float)
        → ExactSystem old info
        → Parses o unset (deserialize_system o unset old) (system_numbers info) info
    unfolding deserialize_system
    deserialize_system-Parses old info e =
        Parses-bind o unset (deserialize_t o unset o.float_of_double) _
          (numbers_t (λ x. x) info.p_cpu_percent) (info.p_memory_percent ∷ []) info.p_cpu_percent
          info (deserialize_t-Parses (λ x. x) o.float_of_double info.p_cpu_percent e.count e.cpu)
          (Parses-map o unset (read_member o unset old)
            (λ m. record { p_cpu_percent = info.p_cpu_percent; p_memory_percent = m })
            (info.p_memory_percent ∷ []) info.p_memory_percent info
            (Parses-member o unset old info.p_memory_percent e.memory) refl)

    pub sizes-Parses :
        (xs : List ℕ)
        → ExactSizes xs
        → Parses o unset (deserialize_t o unset o.size_of_double) (numbers_t o.float_of_size xs) xs
    sizes-Parses xs (e, h) = deserialize_t-Parses o.float_of_size o.size_of_double xs e h
