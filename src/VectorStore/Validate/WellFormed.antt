-- ===== src/VectorStore/Validate/WellFormed.antt =====
-- What `Validate` lets through, described without the order of its checks.
use aixgo.Common.{
  ℕ, ◌≡◌, ◌≢◌, ◌≤◌, ◌<◌, ◌↔◌, ◌⊎◌, refl, List, [], ◌∷◌, Option, none, some, String, All, same_text,
  true, false, length, arith, ◌==◌, ◌&&◌,
}
use aixgo.Common.Int.{pos, same_ℤ}
use aixgo.Common.Maps.{keys}
use Prim.Native.String.{len}
use aixgo.VectorStore.{
  Floats, ContentType, text_type, image_type, audio_type, video_type, multimodal_type, other_type,
  Content, Embedding, Scope, Temporal, Document,
}
use aixgo.VectorStore.Validate.{
  ValidationError, ◌or_next◌, refuse_if, empty_text, unknown_content_type, validate_media,
  validate_metadata_key, validate_tag, validate_content, validate_each, validate_temporal,
  validate_scope, is_nan32, is_inf32, validate_numbers, validate_embedding, validate,
}
use aixgo.VectorStore.Validate.Texts.Allowed.{
  IsId, IsKey, IsTag, validate_id_iff, validate_metadata_key_iff, validate_tag_iff,
}

abbrev pub IsMedia : Content → Type 0
IsMedia c = ((0 < length c.data_bytes) ⊎ (c.url ≢ "")) × (c.mime_type ≢ "")

-- A multimodal content is refused, like one of an unknown type.
abbrev pub IsContentOf : ContentType → Content → Type 0
IsContentOf text_type c = (c.text ≢ "") ⊎ (0 < length c.chunks)
IsContentOf image_type c = IsMedia c
IsContentOf audio_type c = IsMedia c
IsContentOf video_type c = IsMedia c
IsContentOf _ c = ⊥

abbrev pub IsContent : Option Content → Type 0
IsContent none = ⊥
IsContent (some c) = IsContentOf c.content_type c

abbrev pub IsOrdered : Option ℕ → Option ℕ → Type 0
IsOrdered (some valid_from) (some valid_until) = valid_from ≤ valid_until
IsOrdered _ _ = Unit

abbrev pub IsTemporal : Temporal → Type 0
IsTemporal t =
    (t.created_at ≢ 0)
    × ((t.updated_at ≡ 0) ⊎ (t.created_at ≤ t.updated_at))
    × IsOrdered t.valid_from t.valid_until

abbrev pub IsScope : Scope → Type 0
IsScope s =
    (len s.tenant ≤ 256)
    × (len s.user ≤ 256)
    × (len s.session ≤ 256)
    × (len s.agent ≤ 256)
    × (len s.thread ≤ 256)
    × All IsKey (keys s.custom)

-- Where there is a value, it is so.
abbrev pub Where : {A : Type 0} → (A → Type 0) → Option A → Type 0
Where P none = Unit
Where P (some a) = P a

module _ (f : Floats) where
  abbrev pub IsNumber : f.F → Type 0
  IsNumber x =
      (f.same x x ≡ true) × (f.less f.max_float x ≡ false) × (f.less x (f.neg f.max_float) ≡ false)

  abbrev pub IsEmbedding : Embedding f → Type 0
  IsEmbedding e =
      (0 < length e.vector) × (e.dimensions ≡ pos (length e.vector)) × All IsNumber e.vector

  pub record IsDocument (doc : Document f) : Type 0 where
    pub id_ok : IsId doc.id
    pub content_ok : IsContent doc.content
    pub embedding_ok : Where IsEmbedding doc.embedding
    pub keys_ok : All IsKey (keys doc.metadata)
    pub tags_ok : All IsTag doc.tags
    pub temporal_ok : Where IsTemporal doc.temporal
    pub scope_ok : Where IsScope doc.scope

both : (a b : Option ValidationError) → (a or_next b ≡ none) ↔ ((a ≡ none) × (b ≡ none))
both none b = (λ h. (refl, h), λ h. h.1)
both (some e) b = (λ h. ground arith, λ h. ground arith)

validate_each_iff :
    (check : String → Option ValidationError) (P : String → Type 0)
    → ((s : String) → (check s ≡ none) ↔ P s)
    → (xs : List String) → (validate_each check xs ≡ none) ↔ All P xs
unfolding validate_each
validate_each_iff check P iff [] = (λ _. tt, λ _. refl)
validate_each_iff check P iff (s ∷ xs) = (
  λ h. let (a, b) = (both (check s) _).0 h in ((iff s).0 a, (validate_each_iff check P iff xs).0 b),
  λ h. (both (check s) _).1 ((iff s).1 h.0, (validate_each_iff check P iff xs).1 h.1),
)

validate_content_iff : (o : Option Content) → (validate_content o ≡ none) ↔ IsContent o
unfolding validate_content same_text
validate_content_iff none = (λ h. ground arith, λ h. absurd h)
validate_content_iff (some c) =
    elim c.content_type
      as (λ t.
        ((elim t [
          | text_type ↦ refuse_if (same_text c.text "" && length c.chunks == 0) empty_text
          | image_type ↦ validate_media c
          | audio_type ↦ validate_media c
          | video_type ↦ validate_media c
          | multimodal_type ↦ some unknown_content_type
          | other_type _ ↦ some unknown_content_type
        ])
          ≡ none)
        ↔ IsContentOf t c) [
          | text_type ↦ (λ h. ground arith, λ h. ground arith)
          | image_type ↦ (λ h. ground arith, λ h. ground arith)
          | audio_type ↦ (λ h. ground arith, λ h. ground arith)
          | video_type ↦ (λ h. ground arith, λ h. ground arith)
          | multimodal_type ↦ (λ h. ground arith, λ h. absurd h)
          | other_type _ ↦ (λ h. ground arith, λ h. absurd h)
        ]

validate_temporal_iff : (o : Option Temporal) → (validate_temporal o ≡ none) ↔ Where IsTemporal o
unfolding validate_temporal
validate_temporal_iff none = (λ _. tt, λ _. refl)
validate_temporal_iff (some t) = (λ h. ground arith, λ h. ground arith)

validate_scope_iff : (o : Option Scope) → (validate_scope o ≡ none) ↔ Where IsScope o
unfolding validate_scope
validate_scope_iff none = (λ _. tt, λ _. refl)
validate_scope_iff (some s) =
    let customs =
      validate_each_iff validate_metadata_key IsKey validate_metadata_key_iff (keys s.custom) in
    (λ h. ground (arith, customs), λ h. ground (arith, customs))

module _ (f : Floats) where
  validate_numbers_iff : (xs : List f.F) → (validate_numbers f xs ≡ none) ↔ All (IsNumber f) xs
  unfolding validate_numbers is_nan32 is_inf32
  validate_numbers_iff [] = (λ _. tt, λ _. refl)
  validate_numbers_iff (x ∷ xs) =
      (λ h. ground (arith, validate_numbers_iff xs), λ h. ground (arith, validate_numbers_iff xs))

  validate_embedding_iff :
      (e : Embedding f) → (validate_embedding f (some e) ≡ none) ↔ IsEmbedding f e
  unfolding validate_embedding same_ℤ
  validate_embedding_iff e = (
    λ h. ground (arith, validate_numbers_iff e.vector),
    λ h. ground (arith, validate_numbers_iff e.vector),
  )

  optional_embedding_iff :
      (o : Option (Embedding f))
      → ((elim o [ none ↦ none | some e ↦ validate_embedding f (some e) ]) ≡ none)
        ↔ Where (IsEmbedding f) o
  optional_embedding_iff none = (λ _. tt, λ _. refl)
  optional_embedding_iff (some e) = validate_embedding_iff e

  -- Validate reports no error exactly for a document whose identifier, metadata keys and tags are
  -- made of the characters that are allowed and are not too long, whose content has what its type
  -- needs, whose embedding has as many dimensions as it says and only finite numbers, and whose times
  -- and scope are in order.
  pub validate-IsDocument : (doc : Document f) → (validate f (some doc) ≡ none) ↔ IsDocument f doc
  unfolding validate
  validate-IsDocument doc =
      let keys_iff =
        validate_each_iff validate_metadata_key IsKey validate_metadata_key_iff
          (keys doc.metadata) in
      let tags_iff = validate_each_iff validate_tag IsTag validate_tag_iff doc.tags in
      (
        λ h.
            let (a, h1) = (both _ _).0 h in
            let (b, h2) = (both _ _).0 h1 in
            let (c, h3) = (both _ _).0 h2 in
            let (d, h4) = (both _ _).0 h3 in
            let (e, h5) = (both _ _).0 h4 in
            let (g, i) = (both _ _).0 h5 in
            record {
              id_ok = (validate_id_iff doc.id).0 a;
              content_ok = (validate_content_iff doc.content).0 b;
              embedding_ok = (optional_embedding_iff doc.embedding).0 c;
              keys_ok = keys_iff.0 d;
              tags_ok = tags_iff.0 e;
              temporal_ok = (validate_temporal_iff doc.temporal).0 g;
              scope_ok = (validate_scope_iff doc.scope).0 i;
            },
        λ ok. (both _ _).1 (
          (validate_id_iff doc.id).1 ok.id_ok,
          (both _ _).1 (
            (validate_content_iff doc.content).1 ok.content_ok,
            (both _ _).1 (
              (optional_embedding_iff doc.embedding).1 ok.embedding_ok,
              (both _ _).1 (
                keys_iff.1 ok.keys_ok,
                (both _ _).1 (
                  tags_iff.1 ok.tags_ok,
                  (both _ _).1 (
                    (validate_temporal_iff doc.temporal).1 ok.temporal_ok,
                    (validate_scope_iff doc.scope).1 ok.scope_ok,
                  ),
                ),
              ),
            ),
          ),
        ),
      )
