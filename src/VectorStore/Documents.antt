-- ===== src/VectorStore/Documents.antt =====
-- pkg/vectorstore/document.go: how documents are made and changed. The time that the code takes from
-- the clock is the argument `now`.
use aixgo.Common.{
  ℕ, ◌+◌, ◌-◌, suc, ltb, ◌==◌, if◌then◌else◌, Bool, true, false, ◌||◌, ◌&&◌, not, List, ◌∷◌, Option,
  none, some, String, same_text, map, ◌≡◌, refl, ap,
}
use aixgo.Common as Lists
use aixgo.Common.Int.{ℤ, pos, negsuc}
use Prim.Native.Nat.{◌/◌, ◌^◌}
use Prim.Native.String.{◌++◌}
use aixgo.VectorStore.{
  Floats, ContentType, text_type, image_type, audio_type, video_type, multimodal_type, other_type,
  Content, Embedding, Scope, Temporal, Document, Formats,
}

pub type_name : ContentType → String
type_name text_type = "text"
type_name image_type = "image"
type_name audio_type = "audio"
type_name video_type = "video"
type_name multimodal_type = "multimodal"
type_name (other_type name) = name

abbrev empty_content : ContentType → Content
empty_content content_type = record {
  content_type = content_type;
  text = "";
  data_bytes = Lists.[];
  mime_type = "";
  url = "";
  chunks = Lists.[];
}

unfoldable pub new_text_content : String → Content
new_text_content text = record (empty_content text_type) { text = text }

pub new_image_content : List ℕ → String → Content
new_image_content data_bytes mime_type = record (empty_content image_type) {
  data_bytes = data_bytes;
  mime_type = mime_type;
}

pub new_image_url : String → Content
new_image_url url = record (empty_content image_type) { url = url; mime_type = "image/*" }

pub new_audio_content : List ℕ → String → Content
new_audio_content data_bytes mime_type = record (empty_content audio_type) {
  data_bytes = data_bytes;
  mime_type = mime_type;
}

pub new_video_content : List ℕ → String → Content
new_video_content data_bytes mime_type = record (empty_content video_type) {
  data_bytes = data_bytes;
  mime_type = mime_type;
}

unfoldable pub new_scope : String → String → String → Scope
new_scope tenant user session = record {
  tenant = tenant;
  user = user;
  session = session;
  agent = "";
  thread = "";
  custom = Lists.[];
}

-- One field of `Scope.Match`: both are set, and they differ.
unfoldable pub differ : String → String → Bool
differ mine other =
    not (same_text mine "") && not (same_text other "") && not (same_text mine other)

-- `Match` of two scopes, either of which may be nil.
unfoldable pub scope_match : Option Scope → Option Scope → Bool
unfolding differ
scope_match none other = true
scope_match (some _) none = true
scope_match (some s) (some other) =
    if differ s.tenant other.tenant
    then false
    else if differ s.user other.user
    then false
    else if differ s.session other.session
    then false
    else if differ s.agent other.agent
    then false
    else if differ s.thread other.thread
    then false
    else true

-- `t.Add(d)`. A time before Go's zero time does not arise.
unfoldable pub add_duration : ℕ → ℤ → ℕ
add_duration t (pos d) = t + d
add_duration t (negsuc d) = t - suc d

unfoldable pub new_temporal : ℕ → Temporal
new_temporal now = record {
  created_at = now;
  updated_at = now;
  expires_at = none;
  event_time = none;
  valid_from = none;
  valid_until = none;
}

pub new_temporal_with_ttl : ℕ → ℤ → Temporal
unfolding new_temporal add_duration
new_temporal_with_ttl now ttl = record (new_temporal now) {
  expires_at = some (add_duration now ttl);
}

unfoldable pub is_expired : ℕ → Option Temporal → Bool
is_expired now none = false
is_expired now (some t) = elim t.expires_at [ none ↦ false | some expires_at ↦ ltb expires_at now ]

pub is_valid : ℕ → Option Temporal → Bool
is_valid now none = true
is_valid now (some t) =
    if elim t.valid_from [ none ↦ false | some valid_from ↦ ltb now valid_from ]
    then false
    else if elim t.valid_until [ none ↦ false | some valid_until ↦ ltb valid_until now ]
    then false
    else true

pub set_expiry : ℕ → ℤ → Temporal → Temporal
unfolding add_duration
set_expiry now ttl t = record t { expires_at = some (add_duration now ttl) }

pub touch : ℕ → Temporal → Temporal
touch now t = record t { updated_at = now }

-- The subtraction of the 32-bit `0x5f3759df - (i >> 1)`, which wraps around.
pub wrap_int32 : ℕ → ℤ
wrap_int32 n = if ltb n (2 ^ 31) then pos n else negsuc (2 ^ 32 - n - 1)

pub magic : ℤ → ℤ
unfolding wrap_int32
magic (pos n) = pos (1597463007 - n / 2)
magic (negsuc n) = wrap_int32 (1597463007 + suc (n / 2))

module _ (f : Floats) where
  open f use {F, zero_f, one_f}

  pub improve : F → F → F
  improve half_x x = f.mul x (f.sub f.three_halves (f.mul (f.mul half_x x) x))

  pub sqrt32 : F → F
  unfolding magic improve
  sqrt32 x =
      if f.same x zero_f
      then zero_f
      else (let half_x = f.mul f.half x in
          let start = f.of_int (magic (f.to_int32 x)) in
          f.div one_f (improve half_x (improve half_x start)))

  pub sum_squares : F → List F → F
  sum_squares sum Lists.[] = sum
  sum_squares sum (x ∷ xs) = sum_squares (f.add sum (f.mul x x)) xs

  pub normalize_vector : List F → List F
  unfolding sum_squares sqrt32
  normalize_vector v =
      if f.same (sum_squares zero_f v) zero_f
      then v
      else (let norm = f.div one_f (sqrt32 (sum_squares zero_f v)) in map (λ x. f.mul x norm) v)

  unfoldable pub new_embedding : List F → String → Embedding f
  new_embedding vector model = record {
    vector = vector;
    model = model;
    dimensions = pos (Lists.length vector);
    normalized = false;
  }

  pub new_normalized_embedding : List F → String → Embedding f
  unfolding normalize_vector
  new_normalized_embedding vector model = record {
    vector = normalize_vector vector;
    model = model;
    dimensions = pos (Lists.length (normalize_vector vector));
    normalized = true;
  }

  pub normalize : Embedding f → Embedding f
  unfolding normalize_vector
  normalize e =
      if e.normalized then e else record e { vector = normalize_vector e.vector; normalized = true }

  -- `String` of a content that may be nil.
  unfoldable pub content_text : Formats f → Option Content → String
  unfolding type_name
  content_text formats none = ""
  content_text formats (some c) =
      let name = type_name c.content_type in
      let of_media =
        if not (same_text c.url "")
        then "[" ++ name ++ ": " ++ c.url ++ "]"
        else if ltb 0 (Lists.length c.data_bytes)
        then "[" ++ name ++ ": " ++ formats.decimal (Lists.length c.data_bytes) ++ " bytes]"
        else "[" ++ name ++ "]" in
      elim c.content_type [
        | text_type ↦ c.text
        | image_type ↦ of_media
        | audio_type ↦ of_media
        | video_type ↦ of_media
        | multimodal_type ↦ "[" ++ name ++ "]"
        | other_type _ ↦ "[" ++ name ++ "]"
      ]

  -- The copies of the slices, maps and times are the same values here; what a copy loses is the score
  -- and the distance.
  pub copy_content : Content → Content
  copy_content c = record {
    content_type = c.content_type;
    text = c.text;
    data_bytes = c.data_bytes;
    mime_type = c.mime_type;
    url = c.url;
    chunks = c.chunks;
  }

  pub copy_embedding : Embedding f → Embedding f
  copy_embedding e = record {
    vector = e.vector;
    model = e.model;
    dimensions = e.dimensions;
    normalized = e.normalized;
  }

  pub copy_scope : Scope → Scope
  copy_scope s = record {
    tenant = s.tenant;
    user = s.user;
    session = s.session;
    agent = s.agent;
    thread = s.thread;
    custom = s.custom;
  }

  pub copy_temporal : Temporal → Temporal
  copy_temporal t = record {
    created_at = t.created_at;
    updated_at = t.updated_at;
    expires_at = t.expires_at;
    event_time = t.event_time;
    valid_from = t.valid_from;
    valid_until = t.valid_until;
  }

  pub copied : {A : Type 0} → (A → A) → Option A → Option A
  copied copy none = none
  copied copy (some a) = some (copy a)

  unfoldable pub deep_copy_document : Document f → Document f
  unfolding copied copy_content copy_embedding copy_scope copy_temporal
  deep_copy_document doc = record {
    id = doc.id;
    content = copied copy_content doc.content;
    embedding = copied copy_embedding doc.embedding;
    scope = copied copy_scope doc.scope;
    temporal = copied copy_temporal doc.temporal;
    tags = doc.tags;
    metadata = doc.metadata;
    score = zero_f;
    distance = zero_f;
  }

  copied_all :
      {A : Type 0} (copy : A → A) → ((a : A) → copy a ≡ a) → (o : Option A) → copied copy o ≡ o
  unfolding copied
  copied_all copy h none = refl
  copied_all copy h (some a) = ap some (h a)

  pub deep_copy_document_lem :
      (doc : Document f) → deep_copy_document doc ≡ record doc { score = zero_f; distance = zero_f }
  unfolding deep_copy_document
  deep_copy_document_lem doc =
      rw
        (
          copied_all copy_content (λ _. refl) doc.content,
          copied_all copy_embedding (λ _. refl) doc.embedding,
          copied_all copy_scope (λ _. refl) doc.scope,
          copied_all copy_temporal (λ _. refl) doc.temporal,
        )
        refl
