-- ===== src/VectorStore/Collection/Indexed.antt =====
-- The collection and its indexes: each document stands under its own identifier, and is listed under
-- all its tags and the fields of its scope; nothing else is listed under tags, scopes and times.
pub mod History
use aixgo.Common.{
  ℕ, ◌≡◌, ◌≢◌, ◌⊎◌, inl, inr, ◌∈◌, refl, sym, ap, ◌∙◌, subst, List, [], ◌∷◌, Option, none, some,
  String, All, Option-cases, string_discrete, true, false, arith, if◌then◌else◌, Bool, Bool-cases,
  ∈-append, ◌==◌, ◌++◌,
}
use aixgo.Common.Int.{ℤ, same_ℤ}
use aixgo.Common.Maps.{
  Map, lookup, insert, delete, keys, IsMap, lookup-insert_self, lookup-insert_ne,
  lookup-delete_self, lookup-delete_ne, insert-IsMap, delete-IsMap, mem-keys-insert,
  mem-keys-insert_self, mem-keys-delete,
}
use aixgo.VectorStore.{Floats, Scope, Temporal, Document, Formats}
use aixgo.VectorStore.Documents.{deep_copy_document, deep_copy_document_lem}
use aixgo.VectorStore.Indexes.{
  listed, ScopeIndex, TagIndex, add_scope, remove_scope, add_tags, remove_tags, list_if_set, unlist,
  Buckets, TimeIndex, list_in_bucket, list_unless_zero, bucket_of, add_time, unlist_buckets,
  remove_time,
}
use aixgo.VectorStore.Indexes.Listed.{
  remove_from_slice-mem, unlist_only, unlist_keeps, add_tags_keeps, add_tags_adds, add_tags_only,
  list_if_set_keeps, list_if_set_adds, list_if_set_only,
}
use aixgo.VectorStore.Indexes.Timed.{
  OnlyTimes, OnlyBuckets, add_time-OnlyTimes, unlist_buckets-OnlyBuckets,
}
use aixgo.VectorStore.Collection.{Collection}
use aixgo.VectorStore.Collection.Upsert.{put_document}
use aixgo.VectorStore.Collection.Delete.{remove_document}

-- A field that is set is listed.
abbrev pub IsListed : String → String → Map (List String) → Type 0
IsListed id key index = (key ≡ "") ⊎ (id ∈ listed index key)

abbrev pub InScopes : String → Option Scope → ScopeIndex → Type 0
InScopes id none index = Unit
InScopes id (some s) index =
    IsListed id s.tenant index.tenant_ids
    × IsListed id s.user index.user_ids
    × IsListed id s.session index.session_ids
    × IsListed id s.agent index.agent_ids
    × IsListed id s.thread index.thread_ids

-- Only these names are listed.
abbrev pub Only : List String → Map (List String) → Type 0
Only names index = (j key : String) → j ∈ listed index key → j ∈ names

abbrev pub OnlyScopes : List String → ScopeIndex → Type 0
OnlyScopes names index =
    Only names index.tenant_ids
    × Only names index.user_ids
    × Only names index.session_ids
    × Only names index.agent_ids
    × Only names index.thread_ids

module _ (f : Floats) where
  pub record IsIndexed (c : Collection f) : Type 0 where
    pub is_map : IsMap c.documents
    pub own_ids : (k : String) (doc : Document f) → lookup k c.documents ≡ some doc → doc.id ≡ k
    pub in_tags :
        (k : String) (doc : Document f)
        → lookup k c.documents ≡ some doc
        → All (λ tag. k ∈ listed c.tag_index tag) doc.tags
    pub in_scopes :
        (k : String) (doc : Document f)
        → lookup k c.documents ≡ some doc
        → InScopes k doc.scope c.scope_index
    pub only_tags : Only (keys c.documents) c.tag_index
    pub only_scopes : OnlyScopes (keys c.documents) c.scope_index
    pub only_times : OnlyTimes (keys c.documents) c.time_index

  All-map :
      (P Q : String → Type 0) (xs : List String) → ((x : String) → P x → Q x) → All P xs → All Q xs
  All-map P Q [] g h = tt
  All-map P Q (x ∷ xs) g h = (g x h.0, All-map P Q xs g h.1)

  IsListed-still :
      (id key k : String) (field : String) (index : Map (List String))
      → IsListed k field index
      → IsListed k field (list_if_set id key index)
  IsListed-still id key k field index (inl e) = inl e
  IsListed-still id key k field index (inr m) = inr (list_if_set_keeps id key k field index m)

  IsListed-new :
      (id key : String) (index : Map (List String)) → IsListed id key (list_if_set id key index)
  IsListed-new id key index = elim (string_discrete key "") [
    | yes e ↦ inl e
    | no n ↦ inr (list_if_set_adds id key index n)
  ]

  scopes_still :
      (id k : String) (o mine : Option Scope) (index : ScopeIndex)
      → InScopes k mine index
      → InScopes k mine (add_scope id o index)
  unfolding add_scope
  scopes_still id k none mine index h = h
  scopes_still id k (some s) none index h = tt
  scopes_still id k (some s) (some mine) index (a, b, c, d, e) = (
    IsListed-still id s.tenant k mine.tenant index.tenant_ids a,
    IsListed-still id s.user k mine.user index.user_ids b,
    IsListed-still id s.session k mine.session index.session_ids c,
    IsListed-still id s.agent k mine.agent index.agent_ids d,
    IsListed-still id s.thread k mine.thread index.thread_ids e,
  )

  scopes_new :
      (id : String) (o : Option Scope) (index : ScopeIndex) → InScopes id o (add_scope id o index)
  unfolding add_scope
  scopes_new id none index = tt
  scopes_new id (some s) index = (
    IsListed-new id s.tenant index.tenant_ids,
    IsListed-new id s.user index.user_ids,
    IsListed-new id s.session index.session_ids,
    IsListed-new id s.agent index.agent_ids,
    IsListed-new id s.thread index.thread_ids,
  )

  -- One index after an addition, whose names are among the old ones and the new one.
  Only-added :
      (names names' : List String) (id key : String) (index : Map (List String))
      → id ∈ names'
      → ((j : String) → j ∈ names → j ∈ names')
      → Only names index
      → Only names' (list_if_set id key index)
  Only-added names names' id key index m sub h j k i = elim (list_if_set_only id key j k index i) [
    | inl e ↦ subst (λ x. x ∈ names') (sym e) m
    | inr i' ↦ sub j (h j k i')
  ]

  OnlyScopes-added :
      (names names' : List String) (id : String) (o : Option Scope) (index : ScopeIndex)
      → id ∈ names'
      → ((j : String) → j ∈ names → j ∈ names')
      → OnlyScopes names index
      → OnlyScopes names' (add_scope id o index)
  unfolding add_scope
  OnlyScopes-added names names' id none index m sub (a, b, c, d, e) = (
    λ j k i. sub j (a j k i),
    λ j k i. sub j (b j k i),
    λ j k i. sub j (c j k i),
    λ j k i. sub j (d j k i),
    λ j k i. sub j (e j k i),
  )
  OnlyScopes-added names names' id (some s) index m sub (a, b, c, d, e) = (
    Only-added names names' id s.tenant index.tenant_ids m sub a,
    Only-added names names' id s.user index.user_ids m sub b,
    Only-added names names' id s.session index.session_ids m sub c,
    Only-added names names' id s.agent index.agent_ids m sub d,
    Only-added names names' id s.thread index.thread_ids m sub e,
  )

module _ (f : Floats) (formats : Formats f) where
  of_some : (a b : Document f) → some a ≡ some b → a ≡ b
  of_some a b e = ap (λ o. elim o [ some x ↦ x | none ↦ a ]) e

  -- What a lookup finds once a document is stored: the new one, or an old one of another name.
  found_after :
      (doc : Document f) (c : Collection f) (k : String) (d : Document f)
      → lookup k (put_document f formats doc c).documents ≡ some d
      → ((doc.id ≡ k) × (d ≡ record doc { score = f.zero_f; distance = f.zero_f }))
        ⊎ ((doc.id ≢ k) × (lookup k c.documents ≡ some d))
  unfolding put_document
  found_after doc c k d e =
      let copy = deep_copy_document f doc in
      elim (string_discrete doc.id k) [
        | yes s ↦
            let found = subst (λ k. lookup k (insert doc.id copy c.documents) ≡ some d) (sym s) e in
            let stored = lookup-insert_self doc.id copy c.documents in
            inl (s, of_some d copy (sym found ∙ stored) ∙ deep_copy_document_lem f doc)
        | no n ↦ inr (n, sym (lookup-insert_ne doc.id k copy c.documents n) ∙ e)
      ]

  pub put_document-IsIndexed :
      (doc : Document f) (c : Collection f)
      → IsIndexed f c
      → IsIndexed f (put_document f formats doc c)
  unfolding put_document
  put_document-IsIndexed doc c h = record {
    is_map = insert-IsMap doc.id (deep_copy_document f doc) c.documents h.is_map;
    own_ids = λ k d e. elim (found_after doc c k d e) [
      | inl (s, same) ↦ rw same s
      | inr (n, e') ↦ h.own_ids k d e'
    ];
    in_tags = λ k d e. elim (found_after doc c k d e) [
      | inl (s, same) ↦ rw (same, sym s) (add_tags_adds doc.id doc.tags c.tag_index)
      | inr (n, e') ↦
          All-map f (λ tag. k ∈ listed c.tag_index tag)
            (λ tag. k ∈ listed (add_tags doc.id doc.tags c.tag_index) tag) d.tags
            (λ tag. add_tags_keeps doc.id doc.tags k tag c.tag_index) (h.in_tags k d e')
    ];
    in_scopes = λ k d e. elim (found_after doc c k d e) [
      | inl (s, same) ↦ rw (same, sym s) (scopes_new f doc.id doc.scope c.scope_index)
      | inr (n, e') ↦ scopes_still f doc.id k doc.scope d.scope c.scope_index (h.in_scopes k d e')
    ];
    only_tags = λ j key i. elim (add_tags_only doc.id doc.tags j key c.tag_index i) [
      | inl e ↦
          subst (λ x. x ∈ keys (insert doc.id (deep_copy_document f doc) c.documents)) (sym e)
            (mem-keys-insert_self doc.id (deep_copy_document f doc) c.documents)
      | inr i' ↦
          mem-keys-insert doc.id j (deep_copy_document f doc) c.documents (h.only_tags j key i')
    ];
    only_scopes =
        OnlyScopes-added f (keys c.documents)
          (keys (insert doc.id (deep_copy_document f doc) c.documents)) doc.id doc.scope
          c.scope_index (mem-keys-insert_self doc.id (deep_copy_document f doc) c.documents)
          (λ j. mem-keys-insert doc.id j (deep_copy_document f doc) c.documents) h.only_scopes;
    only_times =
        add_time-OnlyTimes (keys c.documents)
          (keys (insert doc.id (deep_copy_document f doc) c.documents)) doc.id doc.temporal
          c.time_index (mem-keys-insert_self doc.id (deep_copy_document f doc) c.documents)
          (λ j. mem-keys-insert doc.id j (deep_copy_document f doc) c.documents) h.only_times;
  }

  -- One index after a removal.
  Only-removed :
      (documents : Map (Document f)) (id : String) (index : Map (List String))
      → Only (keys documents) index
      → Only (keys (delete id documents)) (unlist id index)
  Only-removed documents id index h j key i =
      let (n, i') = unlist_only id j key index i in mem-keys-delete id j documents n (h j key i')

  IsListed-left :
      (id k field : String) (index : Map (List String))
      → k ≢ id
      → IsListed k field index
      → IsListed k field (unlist id index)
  IsListed-left id k field index n (inl e) = inl e
  IsListed-left id k field index n (inr m) = inr (unlist_keeps id k field index n m)

  scopes_left :
      (id k : String) (o : Option Scope) (index : ScopeIndex)
      → k ≢ id
      → InScopes k o index
      → InScopes k o (remove_scope id index)
  unfolding remove_scope
  scopes_left id k none index n h = tt
  scopes_left id k (some s) index n (a, b, c, d, e) = (
    IsListed-left id k s.tenant index.tenant_ids n a,
    IsListed-left id k s.user index.user_ids n b,
    IsListed-left id k s.session index.session_ids n c,
    IsListed-left id k s.agent index.agent_ids n d,
    IsListed-left id k s.thread index.thread_ids n e,
  )

  found_left :
      (id k : String) (m : Map (Document f)) (d : Document f)
      → lookup k (delete id m) ≡ some d
      → (k ≢ id) × (lookup k m ≡ some d)
  found_left id k m d e = elim (string_discrete id k) [
    | yes s ↦
        let none_left = subst (λ k. lookup k (delete id m) ≡ none) s (lookup-delete_self id m) in
        absurd (ground arith)
    | no n ↦ (λ s. n (sym s), sym (lookup-delete_ne id k m n) ∙ e)
  ]

  pub remove_document-IsIndexed :
      (id : String) (doc : Document f) (c : Collection f)
      → IsIndexed f c
      → IsIndexed f (remove_document f formats id doc c)
  unfolding remove_document remove_tags remove_scope remove_time
  remove_document-IsIndexed id doc c h = record {
    is_map = delete-IsMap id c.documents h.is_map;
    own_ids = λ k d e. h.own_ids k d (found_left id k c.documents d e).1;
    in_tags = λ k d e.
        let (n, e') = found_left id k c.documents d e in
        All-map f (λ tag. k ∈ listed c.tag_index tag)
          (λ tag. k ∈ listed (unlist id c.tag_index) tag) d.tags
          (λ tag. unlist_keeps id k tag c.tag_index n) (h.in_tags k d e');
    in_scopes = λ k d e.
        let (n, e') = found_left id k c.documents d e in
        scopes_left id k d.scope c.scope_index n (h.in_scopes k d e');
    only_tags = Only-removed c.documents id c.tag_index h.only_tags;
    only_scopes =
        let (a, b, c', d, e) = h.only_scopes in
        (
          Only-removed c.documents id c.scope_index.tenant_ids a,
          Only-removed c.documents id c.scope_index.user_ids b,
          Only-removed c.documents id c.scope_index.session_ids c',
          Only-removed c.documents id c.scope_index.agent_ids d,
          Only-removed c.documents id c.scope_index.thread_ids e,
        );
    only_times =
        let left =
          unlist_buckets-OnlyBuckets (keys c.documents) (keys (delete id c.documents)) id in
        let sub : (j : String) → j ≢ id → j ∈ keys c.documents → j ∈ keys (delete id c.documents) =
          λ j n. mem-keys-delete id j c.documents n in
        let (a, b, c') = h.only_times in
        (
          left c.time_index.created_ids sub a,
          left c.time_index.updated_ids sub b,
          left c.time_index.expires_ids sub c',
        );
  }
