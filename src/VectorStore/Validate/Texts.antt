-- ===== src/VectorStore/Validate/Texts.antt =====
-- pkg/vectorstore/document.go: the checks of names, which read a text character by character. An
-- error stands for its message, without the position that the message names; `none` is nil.
pub mod Allowed
use aixgo.Common.{
  ℕ, ltb, leb, ◌==◌, if◌then◌else◌, Bool, ◌||◌, ◌&&◌, not, Option, none, some, same_text,
}
use Prim.Native.Char.{Char, code}
use Prim.Native.String.{String, [], ◌∷◌, len}

pub data ValidationError : Type 0 where
  nil_document : ValidationError
  empty_id : ValidationError
  long_id : ValidationError
  dots_id : ValidationError
  control_in_id : ValidationError
  forbidden_in_id : ValidationError
  nil_content : ValidationError
  empty_text : ValidationError
  neither_data_nor_url : ValidationError
  no_mime_type : ValidationError
  unknown_content_type : ValidationError
  nil_embedding : ValidationError
  empty_vector : ValidationError
  dimensions_mismatch : ValidationError
  invalid_number : ValidationError
  empty_key : ValidationError
  long_key : ValidationError
  control_in_key : ValidationError
  forbidden_in_key : ValidationError
  empty_tag : ValidationError
  long_tag : ValidationError
  invalid_in_tag : ValidationError
  zero_created_at : ValidationError
  updated_before_created : ValidationError
  valid_until_before_from : ValidationError
  long_tenant : ValidationError
  long_user : ValidationError
  long_session : ValidationError
  long_agent : ValidationError
  long_thread : ValidationError

-- `if err := ...; err != nil { return err }`, and the rest of the function.
infixr 20 ◌or_next◌
abbrev pub ◌or_next◌ : Option ValidationError → Option ValidationError → Option ValidationError
(some e) or_next rest = some e
none or_next rest = rest

-- `if failed { return err }`, and the rest.
abbrev pub refuse_if : Bool → ValidationError → Option ValidationError
refuse_if b e = if b then some e else none

unfoldable pub is_control : ℕ → Bool
is_control r = ltb r 32 || r == 127

-- A slash, a backslash, or the zero character.
unfoldable pub is_forbidden : ℕ → Bool
is_forbidden r = r == 47 || r == 92 || r == 0

unfoldable pub id_characters : String → Option ValidationError
unfolding is_control is_forbidden
id_characters [] = none
id_characters (c ∷ s) =
    let rest = id_characters s in
    refuse_if (is_control (code c)) control_in_id
    or_next refuse_if (is_forbidden (code c)) forbidden_in_id
    or_next rest

unfoldable pub validate_id : String → Option ValidationError
unfolding id_characters
validate_id id =
    refuse_if (same_text id "") empty_id
    or_next refuse_if (ltb 512 (len id)) long_id
    or_next refuse_if (same_text id "." || same_text id "..") dots_id
    or_next id_characters id

-- A dollar sign or a dot.
unfoldable pub key_characters : String → Option ValidationError
unfolding is_control
key_characters [] = none
key_characters (c ∷ s) =
    let rest = key_characters s in
    refuse_if (is_control (code c)) control_in_key
    or_next refuse_if (code c == 36 || code c == 46) forbidden_in_key
    or_next rest

unfoldable pub validate_metadata_key : String → Option ValidationError
unfolding key_characters
validate_metadata_key key =
    refuse_if (same_text key "") empty_key
    or_next refuse_if (ltb 256 (len key)) long_key
    or_next key_characters key

unfoldable pub is_alphanumeric : ℕ → Bool
is_alphanumeric r = (leb 97 r && leb r 122) || (leb 65 r && leb r 90) || (leb 48 r && leb r 57)

-- A letter, a digit, a hyphen, an underscore or a colon.
unfoldable pub tag_characters : String → Option ValidationError
unfolding is_alphanumeric
tag_characters [] = none
tag_characters (c ∷ s) =
    let rest = tag_characters s in
    refuse_if
      (not (is_alphanumeric (code c))
        && not (code c == 45)
        && not (code c == 95)
        && not (code c == 58))
      invalid_in_tag
    or_next rest

unfoldable pub validate_tag : String → Option ValidationError
unfolding tag_characters
validate_tag tag =
    refuse_if (same_text tag "") empty_tag
    or_next refuse_if (ltb 128 (len tag)) long_tag
    or_next tag_characters tag
