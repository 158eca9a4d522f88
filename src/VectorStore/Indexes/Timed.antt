-- ===== src/VectorStore/Indexes/Timed.antt =====
-- What the time index lists after an addition and a removal.
use aixgo.Common.{
  ℕ, ◌≢◌, inl, inr, ◌∈◌, sym, subst, List, [], ◌∷◌, Option, none, some, String, Option-cases,
  Bool-cases, ∈-append, ◌==◌,
}
use aixgo.Common.Int.{ℤ, same_ℤ}
use aixgo.VectorStore.{Temporal}
use aixgo.VectorStore.Indexes.{
  Buckets, TimeIndex, list_in_bucket, list_unless_zero, bucket_of, add_time, unlist_buckets,
}
use aixgo.VectorStore.Indexes.Listed.{remove_from_slice-mem}

-- Only these names are listed.
abbrev pub OnlyBuckets : List String → Buckets → Type 0
OnlyBuckets names [] = Unit
OnlyBuckets names ((_, ids) ∷ buckets) =
    ((j : String) → j ∈ ids → j ∈ names) × OnlyBuckets names buckets

abbrev pub OnlyTimes : List String → TimeIndex → Type 0
OnlyTimes names index =
    OnlyBuckets names index.created_ids
    × OnlyBuckets names index.updated_ids
    × OnlyBuckets names index.expires_ids

OnlyBuckets-more :
    (names names' : List String) (buckets : Buckets)
    → ((j : String) → j ∈ names → j ∈ names')
    → OnlyBuckets names buckets
    → OnlyBuckets names' buckets
OnlyBuckets-more names names' [] sub h = tt
OnlyBuckets-more names names' (_ ∷ buckets) sub (h, hs) =
    (λ j i. sub j (h j i), OnlyBuckets-more names names' buckets sub hs)

list_in_bucket-OnlyBuckets :
    (names : List String) (id : String) (b : ℤ) (buckets : Buckets)
    → id ∈ names
    → OnlyBuckets names buckets
    → OnlyBuckets names (list_in_bucket id b buckets)
unfolding list_in_bucket
list_in_bucket-OnlyBuckets names id b [] m h =
    (λ j i. elim i [ inl e ↦ subst (λ x. x ∈ names) (sym e) m | inr i' ↦ absurd i' ], tt)
list_in_bucket-OnlyBuckets names id b ((b', ids) ∷ buckets) m (h, hs) =
    elim (Bool-cases (same_ℤ b' b)) [
      | inl e ↦ rw e (
        λ j i. elim (∈-append j ids (id ∷ []) i) [
          | inl old ↦ h j old
          | inr (inl e') ↦ subst (λ x. x ∈ names) (sym e') m
          | inr (inr i') ↦ absurd i'
        ],
        hs,
      )
      | inr e ↦ rw e (h, list_in_bucket-OnlyBuckets names id b buckets m hs)
    ]

list_unless_zero-OnlyBuckets :
    (names : List String) (id : String) (t : ℕ) (buckets : Buckets)
    → id ∈ names
    → OnlyBuckets names buckets
    → OnlyBuckets names (list_unless_zero id t buckets)
unfolding list_unless_zero
list_unless_zero-OnlyBuckets names id t buckets m h = elim (Bool-cases (t == 0)) [
  | inl e ↦ rw e h
  | inr e ↦ rw e (list_in_bucket-OnlyBuckets names id (bucket_of t) buckets m h)
]

pub add_time-OnlyTimes :
    (names names' : List String) (id : String) (o : Option Temporal) (index : TimeIndex)
    → id ∈ names'
    → ((j : String) → j ∈ names → j ∈ names')
    → OnlyTimes names index
    → OnlyTimes names' (add_time id o index)
unfolding add_time
add_time-OnlyTimes names names' id none index m sub (a, b, c) = (
  OnlyBuckets-more names names' index.created_ids sub a,
  OnlyBuckets-more names names' index.updated_ids sub b,
  OnlyBuckets-more names names' index.expires_ids sub c,
)
add_time-OnlyTimes names names' id (some t) index m sub (a, b, c) =
    let expires = OnlyBuckets-more names names' index.expires_ids sub c in
    (
      list_unless_zero-OnlyBuckets names' id t.created_at index.created_ids m
          (OnlyBuckets-more names names' index.created_ids sub a),
      list_unless_zero-OnlyBuckets names' id t.updated_at index.updated_ids m
          (OnlyBuckets-more names names' index.updated_ids sub b),
      elim (Option-cases t.expires_at) [
        | inl e ↦ rw e expires
        | inr (at, e) ↦
            rw e (list_in_bucket-OnlyBuckets names' id (bucket_of at) index.expires_ids m expires)
      ],
    )

pub unlist_buckets-OnlyBuckets :
    (names names' : List String) (id : String) (buckets : Buckets)
    → ((j : String) → j ≢ id → j ∈ names → j ∈ names')
    → OnlyBuckets names buckets
    → OnlyBuckets names' (unlist_buckets id buckets)
unfolding unlist_buckets
unlist_buckets-OnlyBuckets names names' id [] sub h = tt
unlist_buckets-OnlyBuckets names names' id ((_, ids) ∷ buckets) sub (h, hs) = (
  λ j i. let (n, i') = remove_from_slice-mem ids id j i in sub j n (h j i'),
  unlist_buckets-OnlyBuckets names names' id buckets sub hs,
)
