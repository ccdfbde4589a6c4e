-- ===== src/Profile.antt =====
-- internal/apptypes/schema.go and the types of internal/apptypes/config.go that it works on: the
-- validation of a profile against the schema of the host.
pub mod Schema
use authpad.Prelude.{
  ℕ, Bool, true, false, not, ◌&&◌, ◌||◌, ◌==◌, Option, none, some, List, [], ◌∷◌, Text, codes,
  text_eq, length, all, any, leb, ltb, if◌then◌else◌,
}
use authpad.Prelude.Strings.{between, trim_space}
use authpad.Prelude.Dict.{Dict, lookup, insert}
use authpad.Redirect.{is_empty}

-- A Go value of type `any`, as far as the switch on its type tells values apart.
pub data Value : Type 0 where
  nil : Value
  string : Text → Value
  number : ℕ → Value
  bool : Bool → Value
  composite : Value

-- `FieldType`; the code has no case for `json` or for another text.
pub data FieldType : Type 0 where
  string email url int bool json custom : FieldType

-- `ProfileField`, with the fields that the validation reads; `validate` returns a message or nil.
pub record ProfileField : Type 0 where
  pub name : Text
  pub kind : FieldType
  pub required : Bool
  pub validate : Option (Value → Option Text)

pub record ProfileInput : Type 0 where
  pub name : Text
  pub image_url : Text
  pub bio : Text
  pub metadata : Dict Value

-- The errors, without their texts.
pub data ProfileError : Type 0 where
  name_missing name_malformed image_url_malformed : ProfileError
  field_missing unknown_field not_a_string not_an_email not_a_url not_a_number not_a_bool :
      Text → ProfileError
  refused : Text → ProfileError

pub data Checked (A : Type 0) : Type 0 where
  fine : A → Checked A
  bad : ProfileError → Checked A

-- `val.(string)`
unfoldable pub as_string : Option Value → Option Text
as_string (some (Value.string s)) = some s
as_string _ = none

-- A value that is there and is not nil.
unfoldable pub given : Option Value → Option Value
given none = none
given (some Value.nil) = none
given (some v) = some v

unfoldable pub declares : Text → List ProfileField → Bool
declares k fields = any (λ f. text_eq f.name k) fields

-- The keys of `reserved`.
unfoldable pub is_reserved : Text → Bool
is_reserved k = text_eq k (codes "name") || text_eq k (codes "image_url") || text_eq k (codes "bio")

-- `letter_or_number` is `[\p{L}\p{N}]` of the package regexp, `is_uri` tells whether
-- `url.ParseRequestURI` succeeds and `is_address` whether `mail.ParseAddress` does.
module _ (letter_or_number : ℕ → Bool) (is_uri is_address : Text → Bool) where
  -- A rune of `namePattern`; `\s` is the white space of ASCII.
  unfoldable pub is_name_rune : ℕ → Bool
  is_name_rune c =
      letter_or_number c
      || between 9 10 c
      || between 12 13 c
      || c == 32
      || c == b'.'
      || c == b'_'
      || c == b'-'

  -- `namePattern`
  unfoldable pub is_name : Text → Bool
  is_name s = between 1 255 (length s) && all is_name_rune s

  -- The `switch` of `validateField`.
  unfoldable pub validate_type : Text → FieldType → Value → Option ProfileError
  validate_type name FieldType.string (Value.string s) = none
  validate_type name FieldType.string _ = some (not_a_string name)
  validate_type name FieldType.email (Value.string s) =
      if is_address (trim_space s) then none else some (not_an_email name)
  validate_type name FieldType.email _ = some (not_an_email name)
  validate_type name FieldType.url (Value.string s) =
      if is_uri (trim_space s) then none else some (not_a_url name)
  validate_type name FieldType.url _ = some (not_a_url name)
  validate_type name FieldType.int (Value.number n) = none
  validate_type name FieldType.int _ = some (not_a_number name)
  validate_type name FieldType.bool (Value.bool b) = none
  validate_type name FieldType.bool _ = some (not_a_bool name)
  validate_type name FieldType.json v = none
  validate_type name FieldType.custom v = none

  -- What the hook of a field answers.
  unfoldable pub hook_answer : Option (Value → Option Text) → Value → Option Text
  hook_answer none v = none
  hook_answer (some hook) v = hook v

  -- `validateField`
  unfoldable pub validate_field : ProfileField → Value → Option ProfileError
  validate_field f v = elim (hook_answer f.validate v) [
    | none ↦ validate_type f.name f.kind v
    | some message ↦ some (refused message)
  ]

  -- The loop over the fields of the schema, with the metadata so far.
  unfoldable pub take_fields : Dict Value → List ProfileField → Dict Value → Checked (Dict Value)
  take_fields raw [] metadata = fine metadata
  take_fields raw (f ∷ fields) metadata = elim (given (lookup f.name raw)) [
    | none ↦ if f.required then bad (field_missing f.name) else take_fields raw fields metadata
    | some v ↦ elim (validate_field f v) [
      | none ↦ take_fields raw fields (insert f.name v metadata)
      | some e ↦ bad e
    ]
  ]

  -- The loop over the keys, in the order of the list: Go's order is any.
  unfoldable pub find_unknown : List ProfileField → Dict Value → Option Text
  find_unknown fields [] = none
  find_unknown fields ((k, v) ∷ raw) =
      if is_reserved k || declares k fields then find_unknown fields raw else some k

  -- The loops of `ValidateProfile`, after its three texts.
  unfoldable pub finish : List ProfileField → Dict Value → Text → Text → Text → Checked ProfileInput
  finish fields raw name image_url bio = elim (take_fields raw fields []) [
    | bad e ↦ bad e
    | fine metadata ↦ elim (find_unknown fields raw) [
      | some k ↦ bad (unknown_field k)
      | none ↦ fine (record { name = name; image_url = image_url; bio = bio; metadata = metadata })
    ]
  ]

  -- A text that is optional: trimmed, and empty where there is none.
  unfoldable pub optional_text : Text → Dict Value → Text
  optional_text k raw = elim (as_string (lookup k raw)) [ none ↦ [] | some s ↦ trim_space s ]

  -- `ValidateProfile` of a trimmed name.
  unfoldable pub validate_named : List ProfileField → Dict Value → Text → Checked ProfileInput
  validate_named fields raw name =
      let image_url = optional_text (codes "image_url") raw in
      if is_empty name
      then bad name_missing
      else if not (is_name name)
      then bad name_malformed
      else if not (is_empty image_url || is_uri image_url)
      then bad image_url_malformed
      else finish fields raw name image_url (optional_text (codes "bio") raw)

  -- `ValidateProfile`; a nil map is an empty one.
  unfoldable pub validate_profile : List ProfileField → Dict Value → Checked ProfileInput
  validate_profile fields raw = elim (as_string (lookup (codes "name") raw)) [
    | none ↦ bad name_missing
    | some name ↦ validate_named fields raw (trim_space name)
  ]
