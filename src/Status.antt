-- ===== src/Status.antt =====
-- utils/serializers/system_status_serialize.h. The floating point types and what a stream does with
-- them belong to the compiler: a record of operations, an argument of every definition.
pub mod Reader
pub mod Message
pub mod RoundTrip
pub mod Files
pub mod Request
use gorn.Common.{ℕ, ◌+◌, List, [], ◌∷◌, ◌++◌, length}
use gorn.Text.{Bytes}
use gorn.Text.Stream.{Stream}

-- `float` and `double`: `<<`, `>>` into a variable with the value given first, and conversions.
pub record Floats (Float Double : Type 0) : Type 0 where
  pub print_float : Float → Bytes
  pub print_double : Double → Bytes
  pub get_float : Float → Stream → Float × Stream
  pub get_double : Double → Stream → Double × Stream
  pub float_of_size : ℕ → Float
  pub float_of_double : Double → Float
  pub size_of_double : Double → ℕ
  pub size_of_float : Float → ℕ

pub record SystemInfo (Float : Type 0) : Type 0 where
  pub p_cpu_percent : List Float
  pub p_memory_percent : Float

pub record HashTableInfo : Type 0 where
  pub queue_size : ℕ
  pub sorting_queue_size : List ℕ
  pub find_sorting_queue_size : List ℕ
  pub output_queue_size : List ℕ
  pub find_output_queue_size : List ℕ

pub record CrawlerInfo : Type 0 where
  pub q_size : ℕ
  pub z_size : ℕ
  pub map_queue_size : ℕ
  pub m_size : ℕ

pub record InfoPackage (Float : Type 0) : Type 0 where
  pub m_system_info : SystemInfo Float
  pub m_hash_table_info : List HashTableInfo
  pub m_crawler_info : List CrawlerInfo

module _ {Float Double : Type 0} (o : Floats Float Double) where
  -- The loop of `serialize_t`, with the conversion of an entry to `float`.
  pub push_entries {ℓ} : {A : Type ℓ} → (A → Float) → List A → List Float → List Float
  push_entries to_float [] vec = vec
  push_entries to_float (x ∷ xs) vec = push_entries to_float xs (vec ++ to_float x ∷ [])

  pub serialize_t {ℓ} : {A : Type ℓ} → (A → Float) → List A → List Float → List Float
  unfolding push_entries
  serialize_t to_float input vec =
      push_entries to_float input (vec ++ o.float_of_size (length input) ∷ [])

  pub serialize_system : SystemInfo Float → List Float → List Float
  serialize_system info vec =
      serialize_t (λ x. x) info.p_cpu_percent vec ++ info.p_memory_percent ∷ []

  pub serialize_hash_table : HashTableInfo → List Float → List Float
  serialize_hash_table info vec =
      let vec₁ = vec ++ o.float_of_size info.queue_size ∷ [] in
      let vec₂ = serialize_t o.float_of_size info.sorting_queue_size vec₁ in
      let vec₃ = serialize_t o.float_of_size info.find_sorting_queue_size vec₂ in
      let vec₄ = serialize_t o.float_of_size info.output_queue_size vec₃ in
      serialize_t o.float_of_size info.find_output_queue_size vec₄

  pub serialize_crawler : CrawlerInfo → List Float → List Float
  serialize_crawler info vec =
      let vec₁ = vec ++ o.float_of_size info.q_size ∷ [] in
      let vec₂ = vec₁ ++ o.float_of_size info.z_size ∷ [] in
      let vec₃ = vec₂ ++ o.float_of_size info.map_queue_size ∷ [] in
      vec₃ ++ o.float_of_size info.m_size ∷ []

  -- The loops over the tables and over the crawlers.
  pub serialize_each {ℓ} :
      {A : Type ℓ} → (A → List Float → List Float) → List A → List Float → List Float
  serialize_each serialize_one [] vec = vec
  serialize_each serialize_one (x ∷ xs) vec = serialize_each serialize_one xs (serialize_one x vec)

  unfoldable pub serialize_package : InfoPackage Float → List Float
  unfolding serialize_t serialize_system serialize_hash_table serialize_crawler serialize_each
  serialize_package info =
      let vec₁ = serialize_system info.m_system_info [] in
      let vec₂ = vec₁ ++ o.float_of_size (length info.m_hash_table_info) ∷ [] in
      let vec₃ = serialize_each serialize_hash_table info.m_hash_table_info vec₂ in
      let vec₄ = vec₃ ++ o.float_of_size (length info.m_crawler_info) ∷ [] in
      serialize_each serialize_crawler info.m_crawler_info vec₄
