-- ===== src/Tests/Profiles.antt =====
-- The validation of profiles, at concrete inputs.
use authpad.Prelude.{
  ℕ, ◌≡◌, refl, Bool, true, ◌||◌, none, List, [], ◌∷◌, Text, codes, any, ◌==◌, if◌then◌else◌,
}
use authpad.Prelude.Strings.{text_eq, between, is_space, trim_space}
use authpad.Prelude.Dict.{Dict, lookup, insert}
use authpad.Redirect.{is_empty}
use authpad.Profile.{
  Value, FieldType, ProfileField, ProfileInput, fine, as_string, given, declares, is_reserved,
  is_name, is_name_rune, validate_type, hook_answer, validate_field, take_fields, find_unknown,
  finish, optional_text, validate_named, validate_profile,
}
use authpad.Profile.Schema.{is_fine, is_valid, validate_profile-is_valid, validate_profile-metadata}

abbrev letters : ℕ → Bool
letters c = between b'a' b'z' c || between b'A' b'Z' c

abbrev has_at : Text → Bool
has_at s = any (λ c. c == b'@') s

abbrev work : ProfileField
work = record { name = codes "work"; kind = FieldType.email; required = true; validate = none }

abbrev schema : List ProfileField
schema = work ∷ []

abbrev ada : Dict Value
ada = (codes "name", Value.string (codes " Ada ")) ∷ (codes "work", Value.string (codes "a@b")) ∷ []

abbrev validated : ProfileInput
validated = record {
  name = codes "Ada";
  image_url = [];
  bio = [];
  metadata = (codes "work", Value.string (codes "a@b")) ∷ [];
}

validate-ada : validate_profile letters is_empty has_at schema ada ≡ fine validated
unfolding validate_profile as_string lookup text_eq trim_space is_space validate_named is_name
    is_name_rune optional_text finish take_fields given insert validate_field validate_type
    hook_answer find_unknown is_reserved declares
validate-ada = refl

validate_profile-metadata_example :
    lookup (codes "work") validated.metadata
    ≡ (if declares (codes "work") schema then given (lookup (codes "work") ada) else none)
validate_profile-metadata_example =
    validate_profile-metadata letters is_empty has_at schema ada validated validate-ada
      (codes "work")

validate_profile-is_valid_example :
    is_fine (validate_profile letters is_empty has_at schema ada)
    ≡ is_valid letters is_empty has_at schema ada
validate_profile-is_valid_example = validate_profile-is_valid letters is_empty has_at schema ada
