-- ===== src/VectorStore/Validate/Texts/Allowed.antt =====
-- What the checks of names let through, described without their order and their loops.
use aixgo.Common.{ℕ, ◌≡◌, ◌≢◌, ◌≤◌, ◌↔◌, ◌⊎◌, refl, none, same_text, arith}
use Prim.Native.Char.{code}
use Prim.Native.String.{String, [], ◌∷◌, len}
use aixgo.VectorStore.Validate.Texts.{
  id_characters, validate_id, is_control, is_forbidden, key_characters, validate_metadata_key,
  tag_characters, validate_tag, is_alphanumeric,
}

abbrev pub AllChars : (ℕ → Type 0) → String → Type 0
AllChars P [] = Unit
AllChars P (c ∷ s) = P (code c) × AllChars P s

abbrev pub IsIdCharacter : ℕ → Type 0
IsIdCharacter r = (32 ≤ r) × (r ≢ 127) × (r ≢ 47) × (r ≢ 92)

abbrev pub IsKeyCharacter : ℕ → Type 0
IsKeyCharacter r = (32 ≤ r) × (r ≢ 127) × (r ≢ 36) × (r ≢ 46)

abbrev pub IsTagCharacter : ℕ → Type 0
IsTagCharacter r =
    ((97 ≤ r) × (r ≤ 122))
    ⊎ ((65 ≤ r) × (r ≤ 90))
    ⊎ ((45 ≤ r) × (r ≤ 58) × (r ≢ 46) × (r ≢ 47))
    ⊎ (r ≡ 95)

abbrev pub IsId : String → Type 0
IsId id = (id ≢ "") × (len id ≤ 512) × (id ≢ ".") × (id ≢ "..") × AllChars IsIdCharacter id

abbrev pub IsKey : String → Type 0
IsKey key = (key ≢ "") × (len key ≤ 256) × AllChars IsKeyCharacter key

abbrev pub IsTag : String → Type 0
IsTag tag = (tag ≢ "") × (len tag ≤ 128) × AllChars IsTagCharacter tag

id_characters_iff : (s : String) → (id_characters s ≡ none) ↔ AllChars IsIdCharacter s
unfolding id_characters is_control is_forbidden
id_characters_iff [] = (λ _. tt, λ _. refl)
id_characters_iff (c ∷ s) =
    (λ h. ground (arith, id_characters_iff s), λ h. ground (arith, id_characters_iff s))

key_characters_iff : (s : String) → (key_characters s ≡ none) ↔ AllChars IsKeyCharacter s
unfolding key_characters is_control
key_characters_iff [] = (λ _. tt, λ _. refl)
key_characters_iff (c ∷ s) =
    (λ h. ground (arith, key_characters_iff s), λ h. ground (arith, key_characters_iff s))

tag_characters_iff : (s : String) → (tag_characters s ≡ none) ↔ AllChars IsTagCharacter s
unfolding tag_characters is_alphanumeric
tag_characters_iff [] = (λ _. tt, λ _. refl)
tag_characters_iff (c ∷ s) =
    (λ h. ground (arith, tag_characters_iff s), λ h. ground (arith, tag_characters_iff s))

pub validate_id_iff : (id : String) → (validate_id id ≡ none) ↔ IsId id
unfolding validate_id same_text
validate_id_iff id =
    (λ h. ground (arith, id_characters_iff id), λ h. ground (arith, id_characters_iff id))

pub validate_metadata_key_iff : (key : String) → (validate_metadata_key key ≡ none) ↔ IsKey key
unfolding validate_metadata_key same_text
validate_metadata_key_iff key =
    (λ h. ground (arith, key_characters_iff key), λ h. ground (arith, key_characters_iff key))

pub validate_tag_iff : (tag : String) → (validate_tag tag ≡ none) ↔ IsTag tag
unfolding validate_tag same_text
validate_tag_iff tag =
    (λ h. ground (arith, tag_characters_iff tag), λ h. ground (arith, tag_characters_iff tag))
