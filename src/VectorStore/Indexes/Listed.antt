-- ===== src/VectorStore/Indexes/Listed.antt =====
-- What stands in an index after an entry is added, and after a document is taken out.
use aixgo.Common.{
  ◌≡◌, ◌≢◌, ◌⊎◌, inl, inr, ◌∈◌, refl, sym, ap, ◌∙◌, subst, List, [], ◌∷◌, ◌++◌, Option, none, some,
  String, Bool-cases, arith, ∈-append_left, ∈-append_right, ∈-append, same_text, same_text_iff,
  string_discrete, ite, if_pos, if_neg, All,
}
use aixgo.Common.Maps.{Map, lookup, lookup-insert}
use aixgo.VectorStore.Indexes.{
  remove_from_slice, listed, list_under, list_if_set, unlist, TagIndex, add_tags,
}

listed-list_under :
    (id key k : String) (index : Map (List String))
    → listed (list_under id key index) k
      ≡ ite (string_discrete key k) (listed index key ++ id ∷ []) (listed index k)
unfolding listed list_under
listed-list_under id key k index = elim (string_discrete key k) [
  | yes e ↦
      ap of_entry (lookup-insert key k (listed index key ++ id ∷ []) index)
      ∙ ap of_entry (if_pos (string_discrete key k) e _ _)
      ∙ sym (if_pos (string_discrete key k) e _ _)
  | no n ↦
      ap of_entry (lookup-insert key k (listed index key ++ id ∷ []) index)
      ∙ ap of_entry (if_neg (string_discrete key k) n _ _)
      ∙ sym (if_neg (string_discrete key k) n _ _)
]
  where
    of_entry : Option (List String) → List String
    of_entry o = elim o [ some ids ↦ ids | none ↦ [] ]

-- Where a document is listed once it is listed under a key: there, and where it was.
pub list_under_adds :
    (id key : String) (index : Map (List String)) → id ∈ listed (list_under id key index) key
list_under_adds id key index =
    let e = listed-list_under id key key index ∙ if_pos (string_discrete key key) refl _ _ in
    subst (λ ids. id ∈ ids) (sym e) (∈-append_right id (listed index key) (id ∷ []) (inl refl))

pub list_under_keeps :
    (id key j k : String) (index : Map (List String))
    → j ∈ listed index k
    → j ∈ listed (list_under id key index) k
list_under_keeps id key j k index h = elim (string_discrete key k) [
  | yes e ↦
      let s = listed-list_under id key k index ∙ if_pos (string_discrete key k) e _ _ in
      subst (λ ids. j ∈ ids) (sym s)
        (∈-append_left j (listed index key) (id ∷ []) (subst (λ k. j ∈ listed index k) (sym e) h))
  | no n ↦
      let s = listed-list_under id key k index ∙ if_neg (string_discrete key k) n _ _ in
      subst (λ ids. j ∈ ids) (sym s) h
]

-- No other document is listed anywhere.
pub list_under_only :
    (id key j k : String) (index : Map (List String))
    → j ∈ listed (list_under id key index) k
    → (j ≡ id) ⊎ (j ∈ listed index k)
list_under_only id key j k index h = elim (string_discrete key k) [
  | yes e ↦
      let s = listed-list_under id key k index ∙ if_pos (string_discrete key k) e _ _ in
      elim (∈-append j (listed index key) (id ∷ []) (subst (λ ids. j ∈ ids) s h)) [
        | inl a ↦ inr (subst (λ k. j ∈ listed index k) e a)
        | inr b ↦ elim b [ inl x ↦ inl x | inr x ↦ absurd x ]
      ]
  | no n ↦
      let s = listed-list_under id key k index ∙ if_neg (string_discrete key k) n _ _ in
      inr (subst (λ ids. j ∈ ids) s h)
]

pub remove_from_slice-mem :
    (ids : List String) (id j : String) → j ∈ remove_from_slice ids id → (j ≢ id) × (j ∈ ids)
unfolding remove_from_slice
remove_from_slice-mem [] id j h = absurd h
remove_from_slice-mem (i ∷ ids) id j h = ground (arith, remove_from_slice-mem ids id j)

mem-remove_from_slice :
    (ids : List String) (id j : String) → j ≢ id → j ∈ ids → j ∈ remove_from_slice ids id
unfolding remove_from_slice
mem-remove_from_slice [] id j n h = absurd h
mem-remove_from_slice (i ∷ ids) id j n h = ground (arith, mem-remove_from_slice ids id j)

listed-unlist :
    (id k : String) (index : Map (List String))
    → listed (unlist id index) k ≡ remove_from_slice (listed index k) id
unfolding listed unlist lookup remove_from_slice
listed-unlist id k [] = refl
listed-unlist id k ((j, ids) ∷ index) = ground (arith, listed-unlist id k index)

-- A document that is taken out is listed nowhere, and the others stay where they were.
pub unlist_only :
    (id j k : String) (index : Map (List String))
    → j ∈ listed (unlist id index) k
    → (j ≢ id) × (j ∈ listed index k)
unlist_only id j k index h =
    remove_from_slice-mem (listed index k) id j
      (subst (λ ids. j ∈ ids) (listed-unlist id k index) h)

pub unlist_keeps :
    (id j k : String) (index : Map (List String))
    → j ≢ id
    → j ∈ listed index k
    → j ∈ listed (unlist id index) k
unlist_keeps id j k index n h =
    subst (λ ids. j ∈ ids) (sym (listed-unlist id k index))
      (mem-remove_from_slice (listed index k) id j n h)

-- The tags of a document.
pub add_tags_keeps :
    (id : String) (tags : List String) (j k : String) (index : TagIndex)
    → j ∈ listed index k
    → j ∈ listed (add_tags id tags index) k
unfolding add_tags
add_tags_keeps id [] j k index h = h
add_tags_keeps id (tag ∷ tags) j k index h =
    add_tags_keeps id tags j k (list_under id tag index) (list_under_keeps id tag j k index h)

pub add_tags_adds :
    (id : String) (tags : List String) (index : TagIndex)
    → All (λ tag. id ∈ listed (add_tags id tags index) tag) tags
unfolding add_tags
add_tags_adds id [] index = tt
add_tags_adds id (tag ∷ tags) index = (
  add_tags_keeps id tags id tag (list_under id tag index) (list_under_adds id tag index),
  add_tags_adds id tags (list_under id tag index),
)

pub add_tags_only :
    (id : String) (tags : List String) (j k : String) (index : TagIndex)
    → j ∈ listed (add_tags id tags index) k
    → (j ≡ id) ⊎ (j ∈ listed index k)
unfolding add_tags
add_tags_only id [] j k index h = inr h
add_tags_only id (tag ∷ tags) j k index h =
    elim (add_tags_only id tags j k (list_under id tag index) h) [
      | inl e ↦ inl e
      | inr m ↦ list_under_only id tag j k index m
    ]

-- One field of a scope, which is not listed if it is empty.
pub list_if_set_keeps :
    (id key j k : String) (index : Map (List String))
    → j ∈ listed index k
    → j ∈ listed (list_if_set id key index) k
unfolding list_if_set
list_if_set_keeps id key j k index h = elim (Bool-cases (same_text key "")) [
  | inl e ↦ rw (list_if_set, e) h
  | inr e ↦ rw (list_if_set, e) (list_under_keeps id key j k index h)
]

pub list_if_set_adds :
    (id key : String) (index : Map (List String))
    → key ≢ ""
    → id ∈ listed (list_if_set id key index) key
unfolding list_if_set
list_if_set_adds id key index n = elim (Bool-cases (same_text key "")) [
  | inl e ↦ absurd (n ((same_text_iff key "").0 e))
  | inr e ↦ rw (list_if_set, e) (list_under_adds id key index)
]

pub list_if_set_only :
    (id key j k : String) (index : Map (List String))
    → j ∈ listed (list_if_set id key index) k
    → (j ≡ id) ⊎ (j ∈ listed index k)
unfolding list_if_set
list_if_set_only id key j k index = elim (Bool-cases (same_text key "")) [
  | inl e ↦ rw (list_if_set, e) (λ h. inr h)
  | inr e ↦ rw (list_if_set, e) (λ h. list_under_only id key j k index h)
]
