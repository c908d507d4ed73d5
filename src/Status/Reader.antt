-- ===== src/Status/Reader.antt =====
-- utils/serializers/system_status_serialize.h: the `deserialize` functions, over the stream `ss` and
-- the text that went to `ss_check_sum`. A variable that a failed extraction leaves unset has the
-- arbitrary value `unset`.
use gorn.Common.{ℕ, zero, suc, List, [], ◌∷◌, ◌++◌}
use gorn.Text.{Bytes}
use gorn.Text.Stream.{Stream}
use gorn.Status.{Floats, SystemInfo, HashTableInfo, CrawlerInfo, InfoPackage}

-- What reads from the stream and writes to the check sum.
abbrev pub Reader {ℓ} : Type ℓ → Type ℓ
Reader A = Stream × Bytes → A × Stream × Bytes

unfoldable pub pure {ℓ} : {A : Type ℓ} → A → Reader A
pure a (s, text) = (a, s, text)

infixl 5 ◌>>=◌
unfoldable pub ◌>>=◌ {ℓ κ} : {A : Type ℓ} {B : Type κ} → Reader A → (A → Reader B) → Reader B
◌>>=◌ m f r = let (a, s, text) = m r in f a (s, text)

module _ {Float Double : Type 0} (o : Floats Float Double) (unset : Double) where
  -- `ss >> num ; ss_check_sum << num << " "`
  unfoldable pub read_double : Reader Double
  read_double (s, text) =
      let (num, s') = o.get_double unset s in (num, s', text ++ (o.print_double num ++ 32 ∷ []))

  unfoldable pub read_member : Float → Reader Float
  read_member old (s, text) =
      let (num, s') = o.get_float old s in (num, s', text ++ (o.print_float num ++ 32 ∷ []))

  -- The loop of `deserialize_t`, with the conversion of the entry.
  unfoldable pub read_entries {ℓ} : {A : Type ℓ} → (Double → A) → ℕ → Reader (List A)
  unfolding read_double
  read_entries of_double zero = pure []
  read_entries of_double (suc n) = do
    val ← read_double
    vec ← read_entries of_double n
    pure (of_double val ∷ vec)

  unfoldable pub deserialize_t {ℓ} : {A : Type ℓ} → (Double → A) → Reader (List A)
  unfolding read_double read_entries
  deserialize_t of_double = do num ← read_double; read_entries of_double (o.size_of_double num)

  -- A count or a size: `double t ; ss >> t ; std::size_t ( t )`.
  unfoldable pub read_size : Reader ℕ
  unfolding read_double
  read_size = do num ← read_double; pure (o.size_of_double num)

  unfoldable pub deserialize_system : Float → Reader (SystemInfo Float)
  unfolding deserialize_t read_member
  deserialize_system old = do
    p_cpu_percent ← deserialize_t o.float_of_double
    p_memory_percent ← read_member old
    pure (record { p_cpu_percent = p_cpu_percent; p_memory_percent = p_memory_percent })

  unfoldable pub deserialize_hash_table : Reader HashTableInfo
  unfolding deserialize_t read_size
  deserialize_hash_table = do
    queue_size ← read_size
    sorting ← deserialize_t o.size_of_double
    find_sorting ← deserialize_t o.size_of_double
    output ← deserialize_t o.size_of_double
    find_output ← deserialize_t o.size_of_double
    pure (record {
      queue_size = queue_size;
      sorting_queue_size = sorting;
      find_sorting_queue_size = find_sorting;
      output_queue_size = output;
      find_output_queue_size = find_output;
    })

  unfoldable pub deserialize_crawler : Reader CrawlerInfo
  unfolding read_size
  deserialize_crawler = do
    q_size ← read_size
    z_size ← read_size
    map_queue_size ← read_size
    m_size ← read_size
    pure (record {
      q_size = q_size;
      z_size = z_size;
      map_queue_size = map_queue_size;
      m_size = m_size;
    })

  -- The loops over the tables and over the crawlers.
  unfoldable pub deserialize_each {ℓ} : {A : Type ℓ} → Reader A → ℕ → Reader (List A)
  deserialize_each one zero = pure []
  deserialize_each one (suc n) = do info ← one; infos ← deserialize_each one n; pure (info ∷ infos)

  -- `InfoPackage::deserialize` on a package with the memory percentage `old`.
  unfoldable pub deserialize_package : Float → Reader (InfoPackage Float)
  unfolding deserialize_system deserialize_hash_table deserialize_crawler deserialize_each
  deserialize_package old = do
    system ← deserialize_system old
    num_hash_table ← read_size
    hash_tables ← deserialize_each deserialize_hash_table num_hash_table
    num_crawler ← read_size
    crawlers ← deserialize_each deserialize_crawler num_crawler
    pure (record {
      m_system_info = system;
      m_hash_table_info = hash_tables;
      m_crawler_info = crawlers;
    })
