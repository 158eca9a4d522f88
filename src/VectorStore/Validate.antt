-- ===== src/VectorStore/Validate.antt =====
-- pkg/vectorstore/document.go: what a document must be like to be stored. An error stands for its
-- text, without the position that the text names; `none` is nil.
pub mod Texts
pub mod WellFormed
pub use Texts.{
  ValidationError, ◌or_next◌, refuse_if, nil_document, empty_id, long_id, dots_id, control_in_id,
  forbidden_in_id, nil_content, empty_text, neither_data_nor_url, no_mime_type,
  unknown_content_type, nil_embedding, empty_vector, dimensions_mismatch, invalid_number, empty_key,
  long_key, control_in_key, forbidden_in_key, empty_tag, long_tag, invalid_in_tag, zero_created_at,
  updated_before_created, valid_until_before_from, long_tenant, long_user, long_session, long_agent,
  long_thread,
}
unfoldable pub use Texts.{validate_id, validate_metadata_key, validate_tag}
use aixgo.Common.{
  ℕ, ltb, ◌==◌, if◌then◌else◌, Bool, true, false, ◌||◌, ◌&&◌, not, List, [], ◌∷◌, Option, none,
  some, String, same_text, length,
}
use aixgo.Common.Int.{ℤ, pos, same_ℤ}
use aixgo.Common.Maps.{Map, keys}
use Prim.Native.String.{len}
use aixgo.VectorStore.{
  Floats, ContentType, text_type, image_type, audio_type, video_type, multimodal_type, other_type,
  Content, Embedding, Scope, Temporal, Document,
}

abbrev pub validate_media : Content → Option ValidationError
validate_media c =
    refuse_if (length c.data_bytes == 0 && same_text c.url "") neither_data_nor_url
    or_next refuse_if (same_text c.mime_type "") no_mime_type

unfoldable pub validate_content : Option Content → Option ValidationError
validate_content none = some nil_content
validate_content (some c) = elim c.content_type [
  | text_type ↦ refuse_if (same_text c.text "" && length c.chunks == 0) empty_text
  | image_type ↦ validate_media c
  | audio_type ↦ validate_media c
  | video_type ↦ validate_media c
  | multimodal_type ↦ some unknown_content_type
  | other_type _ ↦ some unknown_content_type
]

-- The first error of a loop over texts.
unfoldable pub validate_each :
    (String → Option ValidationError) → List String → Option ValidationError
validate_each check [] = none
validate_each check (s ∷ rest) = let others = validate_each check rest in check s or_next others

unfoldable pub validate_temporal : Option Temporal → Option ValidationError
validate_temporal none = none
validate_temporal (some t) =
    refuse_if (t.created_at == 0) zero_created_at
    or_next refuse_if (not (t.updated_at == 0) && ltb t.updated_at t.created_at)
        updated_before_created
    or_next elim t.valid_from [
      | none ↦ none
      | some valid_from ↦ elim t.valid_until [
        | none ↦ none
        | some valid_until ↦ refuse_if (ltb valid_until valid_from) valid_until_before_from
      ]
    ]

unfoldable pub validate_scope : Option Scope → Option ValidationError
unfolding validate_each validate_metadata_key
validate_scope none = none
validate_scope (some s) =
    refuse_if (ltb 256 (len s.tenant)) long_tenant
    or_next refuse_if (ltb 256 (len s.user)) long_user
    or_next refuse_if (ltb 256 (len s.session)) long_session
    or_next refuse_if (ltb 256 (len s.agent)) long_agent
    or_next refuse_if (ltb 256 (len s.thread)) long_thread
    or_next validate_each validate_metadata_key (keys s.custom)

module _ (f : Floats) where
  unfoldable pub is_nan32 : f.F → Bool
  is_nan32 x = not (f.same x x)

  unfoldable pub is_inf32 : f.F → Bool
  is_inf32 x = f.less f.max_float x || f.less x (f.neg f.max_float)

  unfoldable pub validate_numbers : List f.F → Option ValidationError
  unfolding is_nan32 is_inf32
  validate_numbers [] = none
  validate_numbers (x ∷ xs) =
      let rest = validate_numbers xs in
      refuse_if (is_nan32 x || is_inf32 x) invalid_number or_next rest

  unfoldable pub validate_embedding : Option (Embedding f) → Option ValidationError
  unfolding validate_numbers
  validate_embedding none = some nil_embedding
  validate_embedding (some e) =
      refuse_if (length e.vector == 0) empty_vector
      or_next refuse_if (not (same_ℤ e.dimensions (pos (length e.vector)))) dimensions_mismatch
      or_next validate_numbers e.vector

  unfoldable pub validate : Option (Document f) → Option ValidationError
  unfolding validate_id validate_content validate_embedding validate_each validate_metadata_key
      validate_tag validate_temporal validate_scope
  validate none = some nil_document
  validate (some doc) =
      validate_id doc.id
      or_next validate_content doc.content
      or_next elim doc.embedding [ none ↦ none | some e ↦ validate_embedding (some e) ]
      or_next validate_each validate_metadata_key (keys doc.metadata)
      or_next validate_each validate_tag doc.tags
      or_next validate_temporal doc.temporal
      or_next validate_scope doc.scope
