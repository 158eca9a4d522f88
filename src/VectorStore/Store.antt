-- ===== src/VectorStore/Store.antt =====
-- pkg/vectorstore/memory/memory.go: the store, which has collections by their names. The goroutine
-- that removes expired documents every minute makes one step `cleanup_all`; `Close` ends it.
use aixgo.Common.{ℕ, ◌+◌, Bool, true, false, List, [], ◌∷◌, Option, none, some, String, length}
use aixgo.Common.Maps.{Map, lookup, insert, delete, keys}
use aixgo.Common.Sort.{sort_strings}
use aixgo.VectorStore.{Floats, Formats}
use aixgo.VectorStore.Config.{CollectionOption, apply_options}
use aixgo.VectorStore.Collection.{Collection, new_collection}
use aixgo.VectorStore.Collection.Delete.{total_size, cleanup_expired}

module _ (f : Floats) where
  -- `stopped` tells that the store is closed.
  pub record MemoryVectorStore : Type 0 where
    pub collections : Map (Collection f)
    pub stopped : Bool

  unfoldable pub new_store : MemoryVectorStore
  new_store = record { collections = []; stopped = false }

  -- The collection of the name, which is made if there is none; the options of a collection that
  -- exists are not looked at.
  unfoldable pub collection :
      ℕ → String → List (CollectionOption f) → MemoryVectorStore → Collection f × MemoryVectorStore
  unfolding lookup insert new_collection apply_options
  collection now name opts m = elim (lookup name m.collections) [
    | some c ↦ (c, m)
    | none ↦
        let c = new_collection f now name (apply_options f opts) in
        (c, record m { collections = insert name c m.collections })
  ]

  unfoldable pub list_collections : MemoryVectorStore → List String
  unfolding sort_strings
  list_collections m = sort_strings (keys m.collections)

  -- `none`: the collection does not exist.
  unfoldable pub delete_collection : String → MemoryVectorStore → Option MemoryVectorStore
  unfolding lookup delete
  delete_collection name m = elim (lookup name m.collections) [
    | none ↦ none
    | some _ ↦ some (record m { collections = delete name m.collections })
  ]

  pub record StoreStats : Type 0 where
    pub collection_count : ℕ
    pub document_count : ℕ
    pub storage_bytes : ℕ

  unfoldable pub add_stats : Map (Collection f) → StoreStats → StoreStats
  unfolding total_size
  add_stats [] stats = stats
  add_stats ((_, c) ∷ collections) stats = add_stats collections (record stats {
    document_count = stats.document_count + length c.documents;
    storage_bytes = stats.storage_bytes + total_size f c.documents;
  })

  unfoldable pub store_stats : MemoryVectorStore → StoreStats
  unfolding add_stats
  store_stats m =
      add_stats m.collections
        (record { collection_count = length m.collections; document_count = 0; storage_bytes = 0 })

  -- `none`: closing the channel a second time panics.
  unfoldable pub close : MemoryVectorStore → Option MemoryVectorStore
  close m = elim m.stopped [ true ↦ none | false ↦ some (record m { stopped = true }) ]

module _ (f : Floats) (formats : Formats f) where
  unfoldable pub clean_each : ℕ → Map (Collection f) → Map (Collection f)
  unfolding cleanup_expired
  clean_each now [] = []
  clean_each now ((name, c) ∷ collections) =
      (name, cleanup_expired f formats now c) ∷ clean_each now collections

  unfoldable pub cleanup_all : ℕ → MemoryVectorStore f → MemoryVectorStore f
  unfolding clean_each
  cleanup_all now m = record m { collections = clean_each now m.collections }
