-- ===== src/VectorStore/Indexes.antt =====
-- pkg/vectorstore/memory/memory.go: the indexes of a collection, which list the identifiers of
-- documents under the values of their fields. Nothing reads them but `remove`.
pub mod Listed
pub mod Timed
use aixgo.Common.{
  ℕ, ◌≡◌, ◌==◌, ◌-◌, if◌then◌else◌, Bool, true, false, List, [], ◌∷◌, ◌++◌, Option, none, some,
  String, same_text, ite, string_discrete, ◌∈◌,
}
use aixgo.Common.Int.{ℤ, pos, negsuc, same_ℤ}
use aixgo.Common.Maps.{Map, lookup, insert}
use Prim.Native.Nat.{◌/◌}
use aixgo.VectorStore.{Scope, Temporal}

unfoldable pub remove_from_slice : List String → String → List String
remove_from_slice [] item = []
remove_from_slice (s ∷ slice) item =
    let rest = remove_from_slice slice item in ite (string_discrete s item) rest (s ∷ rest)

-- `index[key]`, which is nil without an entry.
unfoldable pub listed : Map (List String) → String → List String
unfolding lookup
listed index key = elim (lookup key index) [ some ids ↦ ids | none ↦ [] ]

-- `index[key] = append(index[key], docID)`
unfoldable pub list_under : String → String → Map (List String) → Map (List String)
unfolding listed insert
list_under doc_id key index = insert key (listed index key ++ doc_id ∷ []) index

-- `if key != "" { index[key] = append(index[key], docID) }`
unfoldable pub list_if_set : String → String → Map (List String) → Map (List String)
unfolding list_under
list_if_set doc_id key index = if same_text key "" then index else list_under doc_id key index

-- The loop over all entries of one index.
unfoldable pub unlist : String → Map (List String) → Map (List String)
unfolding remove_from_slice
unlist doc_id [] = []
unlist doc_id ((key, ids) ∷ index) = (key, remove_from_slice ids doc_id) ∷ unlist doc_id index

pub record ScopeIndex : Type 0 where
  pub tenant_ids : Map (List String)
  pub user_ids : Map (List String)
  pub session_ids : Map (List String)
  pub agent_ids : Map (List String)
  pub thread_ids : Map (List String)

unfoldable pub new_scope_index : ScopeIndex
new_scope_index = record {
  tenant_ids = [];
  user_ids = [];
  session_ids = [];
  agent_ids = [];
  thread_ids = [];
}

unfoldable pub add_scope : String → Option Scope → ScopeIndex → ScopeIndex
unfolding list_if_set
add_scope doc_id none index = index
add_scope doc_id (some scope) index = record {
  tenant_ids = list_if_set doc_id scope.tenant index.tenant_ids;
  user_ids = list_if_set doc_id scope.user index.user_ids;
  session_ids = list_if_set doc_id scope.session index.session_ids;
  agent_ids = list_if_set doc_id scope.agent index.agent_ids;
  thread_ids = list_if_set doc_id scope.thread index.thread_ids;
}

unfoldable pub remove_scope : String → ScopeIndex → ScopeIndex
unfolding unlist
remove_scope doc_id index = record {
  tenant_ids = unlist doc_id index.tenant_ids;
  user_ids = unlist doc_id index.user_ids;
  session_ids = unlist doc_id index.session_ids;
  agent_ids = unlist doc_id index.agent_ids;
  thread_ids = unlist doc_id index.thread_ids;
}

-- The identifiers under the minutes of their times.
abbrev pub Buckets : Type 0
Buckets = List (ℤ × List String)

pub record TimeIndex : Type 0 where
  pub created_ids : Buckets
  pub updated_ids : Buckets
  pub expires_ids : Buckets

unfoldable pub new_time_index : TimeIndex
new_time_index = record { created_ids = []; updated_ids = []; expires_ids = [] }

-- `t.Unix() / 60`, which rounds toward 0: the seconds since 1970 of a time since Go's zero time.
unfoldable pub bucket_of : ℕ → ℤ
bucket_of t =
    let seconds = t / 1000000000 in
    let before = (62135596800 - seconds) / 60 in
    if before == 0 then pos ((seconds - 62135596800) / 60) else negsuc (before - 1)

-- `buckets[bucket] = append(buckets[bucket], docID)`
unfoldable pub list_in_bucket : String → ℤ → Buckets → Buckets
list_in_bucket doc_id bucket [] = (bucket, doc_id ∷ []) ∷ []
list_in_bucket doc_id bucket ((b, ids) ∷ buckets) =
    let rest = list_in_bucket doc_id bucket buckets in
    if same_ℤ b bucket then (b, ids ++ doc_id ∷ []) ∷ buckets else (b, ids) ∷ rest

unfoldable pub unlist_buckets : String → Buckets → Buckets
unfolding remove_from_slice
unlist_buckets doc_id [] = []
unlist_buckets doc_id ((b, ids) ∷ buckets) =
    (b, remove_from_slice ids doc_id) ∷ unlist_buckets doc_id buckets

unfoldable pub list_unless_zero : String → ℕ → Buckets → Buckets
unfolding bucket_of list_in_bucket
list_unless_zero doc_id t buckets =
    if t == 0 then buckets else list_in_bucket doc_id (bucket_of t) buckets

unfoldable pub add_time : String → Option Temporal → TimeIndex → TimeIndex
unfolding list_unless_zero list_in_bucket bucket_of
add_time doc_id none index = index
add_time doc_id (some t) index = record {
  created_ids = list_unless_zero doc_id t.created_at index.created_ids;
  updated_ids = list_unless_zero doc_id t.updated_at index.updated_ids;
  expires_ids = elim t.expires_at [
    | none ↦ index.expires_ids
    | some expires_at ↦ list_in_bucket doc_id (bucket_of expires_at) index.expires_ids
  ];
}

unfoldable pub remove_time : String → TimeIndex → TimeIndex
unfolding unlist_buckets
remove_time doc_id index = record {
  created_ids = unlist_buckets doc_id index.created_ids;
  updated_ids = unlist_buckets doc_id index.updated_ids;
  expires_ids = unlist_buckets doc_id index.expires_ids;
}

abbrev pub TagIndex : Type 0
TagIndex = Map (List String)

unfoldable pub add_tags : String → List String → TagIndex → TagIndex
unfolding list_under
add_tags doc_id [] index = index
add_tags doc_id (tag ∷ tags) index = add_tags doc_id tags (list_under doc_id tag index)

unfoldable pub remove_tags : String → TagIndex → TagIndex
unfolding unlist
remove_tags doc_id index = unlist doc_id index
