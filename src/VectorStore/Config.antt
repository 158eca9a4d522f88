-- ===== src/VectorStore/Config.antt =====
-- pkg/vectorstore/options.go: the options of a collection and of a batch. An option changes a
-- configuration; a duration is an integer of nanoseconds.
use aixgo.Common.{
  if◌then◌else◌, Bool, true, false, ◌||◌, ◌&&◌, List, [], ◌∷◌, Option, none, some, String,
}
use aixgo.Common.Int.{ℤ, pos, same_ℤ, less_ℤ}
use aixgo.Common.Maps.{Map, insert}
use aixgo.VectorStore.{Floats, Content, Embedding, Value}

pub data IndexType : Type 0 where
  flat_index : IndexType
  hnsw_index : IndexType
  ivf_index : IndexType
  auto_index : IndexType
  other_index : String → IndexType

pub data ConfigError : Type 0 where
  negative_ttl : ConfigError
  threshold_out_of_range : ConfigError
  negative_dimensions : ConfigError
  negative_max_documents : ConfigError
  negative_max_versions : ConfigError
  no_embedding_function : ConfigError
  small_batch_size : ConfigError
  small_parallelism : ConfigError
  negative_max_retries : ConfigError
  negative_retry_delay : ConfigError

-- `time.Second`
abbrev second : ℤ
second = pos 1000000000

-- `n < 0`
abbrev is_negative : ℤ → Bool
is_negative n = less_ℤ n (pos 0)

abbrev is_zero : ℤ → Bool
is_zero n = same_ℤ n (pos 0)

module _ (f : Floats) where
  -- An error of an embedding function stands for its text.
  abbrev pub EmbeddingFunction : Type 0
  EmbeddingFunction = Content → Embedding f × Option String

  pub record CollectionConfig : Type 0 where
    pub ttl : ℤ
    pub enable_deduplication : Bool
    pub deduplication_threshold : f.F
    pub index_type : IndexType
    pub embedding_dimensions : ℤ
    pub auto_generate_embeddings : Bool
    pub embedding_function : Option EmbeddingFunction
    pub scope_required : List String
    pub max_documents : ℤ
    pub enable_versioning : Bool
    pub max_versions : ℤ
    pub enable_audit_log : Bool
    pub metadata : Map (Value f)

  abbrev pub CollectionOption : Type 0
  CollectionOption = CollectionConfig → CollectionConfig

  unfoldable pub with_ttl : ℤ → CollectionOption
  with_ttl ttl c = record c { ttl = ttl }

  pub with_deduplication : Bool → CollectionOption
  with_deduplication enabled c = record c {
    enable_deduplication = enabled;
    deduplication_threshold =
        if enabled && f.same c.deduplication_threshold f.zero_f
        then f.near_one
        else c.deduplication_threshold;
  }

  pub with_deduplication_threshold : f.F → CollectionOption
  with_deduplication_threshold threshold c = record c {
    enable_deduplication = true;
    deduplication_threshold = threshold;
  }

  pub with_indexing : IndexType → CollectionOption
  with_indexing index_type c = record c { index_type = index_type }

  pub with_dimensions : ℤ → CollectionOption
  with_dimensions dimensions c = record c { embedding_dimensions = dimensions }

  pub with_auto_embeddings : EmbeddingFunction → CollectionOption
  with_auto_embeddings fn c = record c {
    auto_generate_embeddings = true;
    embedding_function = some fn;
  }

  pub with_scope : List String → CollectionOption
  with_scope fields c = record c { scope_required = fields }

  pub with_max_documents : ℤ → CollectionOption
  with_max_documents max c = record c { max_documents = max }

  pub with_versioning : Bool → CollectionOption
  with_versioning enabled c = record c { enable_versioning = enabled }

  pub with_max_versions : ℤ → CollectionOption
  with_max_versions max c = record c { enable_versioning = true; max_versions = max }

  pub with_audit_log : Bool → CollectionOption
  with_audit_log enabled c = record c { enable_audit_log = enabled }

  -- `c.Metadata[k] = v` for every entry. A nil map and an empty one are the same here.
  pub add_entries : Map (Value f) → Map (Value f) → Map (Value f)
  add_entries [] metadata = metadata
  add_entries ((k, v) ∷ rest) metadata = add_entries rest (insert k v metadata)

  pub with_metadata : Map (Value f) → CollectionOption
  unfolding add_entries
  with_metadata metadata c = record c { metadata = add_entries metadata c.metadata }

  unfoldable pub apply_each : List CollectionOption → CollectionConfig → CollectionConfig
  apply_each [] c = c
  apply_each (opt ∷ opts) c = apply_each opts (opt c)

  unfoldable pub apply_options : List CollectionOption → CollectionConfig
  unfolding apply_each
  apply_options opts = apply_each opts (record {
    ttl = pos 0;
    enable_deduplication = false;
    deduplication_threshold = f.near_one;
    index_type = auto_index;
    embedding_dimensions = pos 0;
    auto_generate_embeddings = false;
    embedding_function = none;
    scope_required = [];
    max_documents = pos 0;
    enable_versioning = false;
    max_versions = pos 0;
    enable_audit_log = false;
    metadata = [];
  })

  -- `none` is nil; the stores do not call this check.
  pub validate_collection_config : CollectionConfig → Option ConfigError
  validate_collection_config c =
      if is_negative c.ttl
      then some negative_ttl
      else if f.less c.deduplication_threshold f.zero_f || f.less f.one_f c.deduplication_threshold
      then some threshold_out_of_range
      else if is_negative c.embedding_dimensions
      then some negative_dimensions
      else if is_negative c.max_documents
      then some negative_max_documents
      else if is_negative c.max_versions
      then some negative_max_versions
      else if c.auto_generate_embeddings
          && elim c.embedding_function [ none ↦ true | some _ ↦ false ]
      then some no_embedding_function
      else none

-- The progress callback is called with how many documents are processed and how many there are;
-- `has_callback` tells that there is one.
pub record BatchConfig : Type 0 where
  pub batch_size : ℤ
  pub parallelism : ℤ
  pub continue_on_error : Bool
  pub has_callback : Bool
  pub validate_before_batch : Bool
  pub retry_on_error : Bool
  pub max_retries : ℤ
  pub retry_delay : ℤ

abbrev pub BatchOption : Type 0
BatchOption = BatchConfig → BatchConfig

unfoldable pub with_batch_size : ℤ → BatchOption
with_batch_size size c = record c { batch_size = size }

pub with_parallelism : ℤ → BatchOption
with_parallelism n c = record c { parallelism = n }

unfoldable pub with_continue_on_error : Bool → BatchOption
with_continue_on_error enabled c = record c { continue_on_error = enabled }

pub with_progress_callback : BatchOption
with_progress_callback c = record c { has_callback = true }

pub with_validation : Bool → BatchOption
with_validation enabled c = record c { validate_before_batch = enabled }

pub with_retry : Bool → BatchOption
with_retry enabled c = record c {
  retry_on_error = enabled;
  max_retries = if enabled && is_zero c.max_retries then pos 3 else c.max_retries;
  retry_delay = if enabled && is_zero c.retry_delay then second else c.retry_delay;
}

pub with_max_retries : ℤ → BatchOption
with_max_retries max c = record c {
  retry_on_error = true;
  max_retries = max;
  retry_delay = if is_zero c.retry_delay then second else c.retry_delay;
}

pub with_retry_delay : ℤ → BatchOption
with_retry_delay delay c = record c {
  retry_on_error = true;
  retry_delay = delay;
  max_retries = if is_zero c.max_retries then pos 3 else c.max_retries;
}

pub apply_each_batch : List BatchOption → BatchConfig → BatchConfig
apply_each_batch [] c = c
apply_each_batch (opt ∷ opts) c = apply_each_batch opts (opt c)

unfoldable pub apply_batch_options : List BatchOption → BatchConfig
unfolding apply_each_batch
apply_batch_options opts = apply_each_batch opts (record {
  batch_size = pos 100;
  parallelism = pos 1;
  continue_on_error = true;
  has_callback = false;
  validate_before_batch = false;
  retry_on_error = false;
  max_retries = pos 3;
  retry_delay = second;
})

-- The batches do not call this check either.
pub validate_batch_config : BatchConfig → Option ConfigError
validate_batch_config c =
    if less_ℤ c.batch_size (pos 1)
    then some small_batch_size
    else if less_ℤ c.parallelism (pos 1)
    then some small_parallelism
    else if is_negative c.max_retries
    then some negative_max_retries
    else if is_negative c.retry_delay
    then some negative_retry_delay
    else none
