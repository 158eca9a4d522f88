-- ===== src/VectorStore.antt =====
-- pkg/vectorstore: documents with embeddings, the queries over them (document.go, query.go,
-- results.go, options.go, iterator.go), and the store that keeps them in memory (memory/memory.go).
-- This module has the data of document.go. A pointer that may be nil is an Option, a `time.Time` is
-- the nanoseconds since Go's zero time, and a `time.Duration` is an integer of nanoseconds.
pub mod Documents
pub mod Validate
pub mod Filters
pub mod Matching
pub mod Config
pub mod Indexes
pub mod Slices
pub mod Queries
pub mod Scoring
pub mod ContentHash
pub mod Collection
pub mod Store
pub mod Iterators
mod Tests
use aixgo.Common.{ℕ, Bool, List, Option, String}
use aixgo.Common.Int.{ℤ}
use aixgo.Common.Maps.{Map}

-- Go's float32 (`F`) and float64 (`D`), with the operations that the code uses.
pub record Floats : Type 1 where
  pub F : Type 0
  pub zero_f : F
  pub one_f : F
  pub half : F
  pub three_halves : F
  -- 0.99, and the constant of `isInf32`
  pub near_one : F
  pub max_float : F
  pub add : F → F → F
  pub sub : F → F → F
  pub mul : F → F → F
  pub div : F → F → F
  pub neg : F → F
  -- `float32(math.Sqrt(float64(x)))`
  pub root : F → F
  -- `float32(n)` and `int32(x)`
  pub of_int : ℤ → F
  pub to_int32 : F → ℤ
  -- `x < y` and `x == y`
  pub less : F → F → Bool
  pub same : F → F → Bool
  pub D : Type 0
  pub double : F → D
  pub double_of_int : ℤ → D
  pub less_d : D → D → Bool
  pub same_d : D → D → Bool

pub data ContentType : Type 0 where
  text_type : ContentType
  image_type : ContentType
  audio_type : ContentType
  video_type : ContentType
  multimodal_type : ContentType
  -- The type is a string, which a caller may set to anything.
  other_type : String → ContentType

-- `data_bytes` are the bytes of `Data`.
pub record Content : Type 0 where
  pub content_type : ContentType
  pub text : String
  pub data_bytes : List ℕ
  pub mime_type : String
  pub url : String
  pub chunks : List String

pub record Scope : Type 0 where
  pub tenant : String
  pub user : String
  pub session : String
  pub agent : String
  pub thread : String
  pub custom : Map String

pub record Temporal : Type 0 where
  pub created_at : ℕ
  pub updated_at : ℕ
  pub expires_at : Option ℕ
  pub event_time : Option ℕ
  pub valid_from : Option ℕ
  pub valid_until : Option ℕ

module _ (f : Floats) where
  open f use {F, D}

  pub record Embedding : Type 0 where
    pub vector : List F
    pub model : String
    pub dimensions : ℤ
    pub normalized : Bool

  -- A metadata value of one of the types that `==` compares and `toFloat64` reads, or nil.
  pub data Value : Type 0 where
    nil_value : Value
    bool_value : Bool → Value
    string_value : String → Value
    float64_value : D → Value
    float32_value : F → Value
    int_value : ℤ → Value
    int32_value : ℤ → Value
    int64_value : ℤ → Value
    uint_value : ℕ → Value
    uint32_value : ℕ → Value
    uint64_value : ℕ → Value

  pub record Document : Type 0 where
    pub id : String
    pub content : Option Content
    pub embedding : Option Embedding
    pub scope : Option Scope
    pub temporal : Option Temporal
    pub tags : List String
    pub metadata : Map Value
    pub score : F
    pub distance : F

  -- `%d` and `%f` of `fmt`, and the hexadecimal SHA-256 sum of a text's bytes.
  pub record Formats : Type 0 where
    pub decimal : ℕ → String
    pub fixed : F → String
    pub hex_sha256 : String → String
