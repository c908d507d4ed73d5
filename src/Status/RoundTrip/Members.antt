-- ===== src/Status/RoundTrip/Members.antt =====
-- utils/serializers/system_status_serialize.h: the members of a package, and the package itself.
use gorn.Common.{◌≡◌, refl, List, [], ◌∷◌, ◌++◌, append_assoc, length, All}
use gorn.Status.{
  Floats, HashTableInfo, CrawlerInfo, InfoPackage, serialize_hash_table, serialize_crawler,
  serialize_package,
}
use gorn.Status.Reader.{
  Reader, pure, ◌>>=◌, deserialize_t, read_size, deserialize_system, deserialize_hash_table,
  deserialize_crawler, deserialize_each, deserialize_package,
}
use gorn.Status.RoundTrip.{ExactSize, Parses, Parses-pure, Parses-bind, Parses-map}
use gorn.Status.RoundTrip.Parts.{
  numbers_t, system_numbers, table_numbers, crawler_numbers, each_numbers, serialize_system-numbers,
  serialize_hash_table-numbers, serialize_crawler-numbers, serialize_each-numbers, read_size-Parses,
  ExactSystem, ExactTable, ExactCrawler, deserialize_system-Parses, sizes-Parses,
}

module _ {Float Double : Type 0} (o : Floats Float Double) where
  abbrev pub package_numbers : InfoPackage Float → List Float
  package_numbers info =
      system_numbers o info.m_system_info
      ++ (o.float_of_size (length info.m_hash_table_info)
          ∷ (each_numbers o (table_numbers o) info.m_hash_table_info
              ++ (o.float_of_size (length info.m_crawler_info)
                  ∷ each_numbers o (crawler_numbers o) info.m_crawler_info)))

  pub serialize_package-numbers :
      (info : InfoPackage Float) → serialize_package o info ≡ package_numbers info
  unfolding serialize_package
  serialize_package-numbers info = simp (
    serialize_system-numbers o,
    serialize_each-numbers o (serialize_hash_table o) (table_numbers o)
        (serialize_hash_table-numbers o),
    serialize_each-numbers o (serialize_crawler o) (crawler_numbers o)
        (serialize_crawler-numbers o),
    append_assoc,
  )

  module _ (unset : Double) where
    deserialize_hash_table-Parses :
        (info : HashTableInfo)
        → ExactTable o unset info
        → Parses o unset (deserialize_hash_table o unset) (table_numbers o info) info
    unfolding deserialize_hash_table
    deserialize_hash_table-Parses info e =
        let numbers = numbers_t o o.float_of_size in
        Parses-bind o unset (read_size o unset) _ (o.float_of_size info.queue_size ∷ []) _
          info.queue_size info (read_size-Parses o unset info.queue_size e.queue)
          (Parses-bind o unset (deserialize_t o unset o.size_of_double) _
            (numbers info.sorting_queue_size) _ info.sorting_queue_size info
            (sizes-Parses o unset info.sorting_queue_size e.sorting)
            (Parses-bind o unset (deserialize_t o unset o.size_of_double) _
              (numbers info.find_sorting_queue_size) _ info.find_sorting_queue_size info
              (sizes-Parses o unset info.find_sorting_queue_size e.find_sorting)
              (Parses-bind o unset (deserialize_t o unset o.size_of_double) _
                (numbers info.output_queue_size) _ info.output_queue_size info
                (sizes-Parses o unset info.output_queue_size e.output)
                (Parses-map o unset (deserialize_t o unset o.size_of_double) _
                  (numbers info.find_output_queue_size) info.find_output_queue_size info
                  (sizes-Parses o unset info.find_output_queue_size e.find_output) refl))))

    deserialize_crawler-Parses :
        (info : CrawlerInfo)
        → ExactCrawler o unset info
        → Parses o unset (deserialize_crawler o unset) (crawler_numbers o info) info
    unfolding deserialize_crawler
    deserialize_crawler-Parses info e =
        Parses-bind o unset (read_size o unset) _ (o.float_of_size info.q_size ∷ []) _ info.q_size
          info (read_size-Parses o unset info.q_size e.q)
          (Parses-bind o unset (read_size o unset) _ (o.float_of_size info.z_size ∷ []) _
            info.z_size info (read_size-Parses o unset info.z_size e.z)
            (Parses-bind o unset (read_size o unset) _ (o.float_of_size info.map_queue_size ∷ []) _
              info.map_queue_size info (read_size-Parses o unset info.map_queue_size e.map_queue)
              (Parses-map o unset (read_size o unset) _ (o.float_of_size info.m_size ∷ [])
                info.m_size info (read_size-Parses o unset info.m_size e.m) refl)))

    deserialize_each-Parses {ℓ} :
        {A : Type ℓ} (one : Reader A) (numbers : A → List Float) (P : A → Type 0)
        → ((a : A) → P a → Parses o unset one (numbers a) a)
        → (xs : List A) → All P xs
        → Parses o unset (deserialize_each o unset one (length xs)) (each_numbers o numbers xs) xs
    unfolding deserialize_each
    deserialize_each-Parses one numbers P h [] all = Parses-pure o unset []
    deserialize_each-Parses one numbers P h (x ∷ xs) (p, all) =
        Parses-bind o unset one
          (λ a. deserialize_each o unset one (length xs) >>= λ as_. pure (a ∷ as_)) (numbers x)
          (each_numbers o numbers xs) x (x ∷ xs) (h x p)
          (Parses-map o unset (deserialize_each o unset one (length xs)) (λ z. x ∷ z)
            (each_numbers o numbers xs) xs (x ∷ xs) (deserialize_each-Parses one numbers P h xs all)
            refl)

    -- Each number of the package comes back through `float`, text and `double`.
    pub record ExactPackage (old : Float) (info : InfoPackage Float) : Type 0 where
      pub system : ExactSystem o unset old info.m_system_info
      pub table_count : ExactSize o unset (length info.m_hash_table_info)
      pub tables : All (ExactTable o unset) info.m_hash_table_info
      pub crawler_count : ExactSize o unset (length info.m_crawler_info)
      pub crawlers : All (ExactCrawler o unset) info.m_crawler_info

    pub deserialize_package-Parses :
        (old : Float) (info : InfoPackage Float)
        → ExactPackage old info
        → Parses o unset (deserialize_package o unset old) (package_numbers info) info
    unfolding deserialize_package
    deserialize_package-Parses old info e =
        Parses-bind o unset (deserialize_system o unset old) _ (system_numbers o info.m_system_info)
          _ info.m_system_info info
          (deserialize_system-Parses o unset old info.m_system_info e.system)
          (Parses-bind o unset (read_size o unset) _
            (o.float_of_size (length info.m_hash_table_info) ∷ []) _ (length info.m_hash_table_info)
            info (read_size-Parses o unset _ e.table_count)
            (Parses-bind o unset
              (deserialize_each o unset (deserialize_hash_table o unset)
                (length info.m_hash_table_info))
              _ (each_numbers o (table_numbers o) info.m_hash_table_info) _ info.m_hash_table_info
              info
              (deserialize_each-Parses (deserialize_hash_table o unset) (table_numbers o)
                (ExactTable o unset) deserialize_hash_table-Parses info.m_hash_table_info e.tables)
              (Parses-bind o unset (read_size o unset) _
                (o.float_of_size (length info.m_crawler_info) ∷ []) _ (length info.m_crawler_info)
                info (read_size-Parses o unset _ e.crawler_count)
                (Parses-map o unset
                  (deserialize_each o unset (deserialize_crawler o unset)
                    (length info.m_crawler_info))
                  _ (each_numbers o (crawler_numbers o) info.m_crawler_info) info.m_crawler_info
                  info
                  (deserialize_each-Parses (deserialize_crawler o unset) (crawler_numbers o)
                    (ExactCrawler o unset) deserialize_crawler-Parses info.m_crawler_info
                    e.crawlers)
                  refl))))
