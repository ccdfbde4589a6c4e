-- ===== src/Profile/Schema.antt =====
-- What `ValidateProfile` of internal/apptypes/schema.go accepts, and the metadata that it returns.
use authpad.Prelude.{
  ℕ, ◌≡◌, refl, Bool, true, false, not, ◌&&◌, ◌||◌, Option, none, some, List, [], ◌∷◌, Text, codes,
  text_eq_iff, all, if◌then◌else◌, arith,
}
use authpad.Prelude.Strings.{trim_space}
use authpad.Prelude.Dict.{Dict, lookup, insert, lookup-insert}
use authpad.Redirect.{is_empty}
use authpad.Profile.{
  Value, ProfileField, ProfileInput, Checked, fine, bad, as_string, given, declares, is_reserved,
  is_name, validate_field, take_fields, find_unknown, finish, optional_text, validate_named,
  validate_profile,
}

abbrev pub is_fine : {A : Type 0} → Checked A → Bool
is_fine (fine _) = true
is_fine (bad _) = false

abbrev is_none : {A : Type 0} → Option A → Bool
is_none none = true
is_none (some _) = false

-- The second value where there is no first one.
abbrev or_else : Option Value → Option Value → Option Value
or_else none o = o
or_else (some v) o = some v

module _ (letter_or_number : ℕ → Bool) (is_uri is_address : Text → Bool) where
  -- A field has its value, where it is required, and the value is right, where there is one.
  abbrev pub fits : Dict Value → ProfileField → Bool
  fits raw f = elim (given (lookup f.name raw)) [
    | none ↦ not f.required
    | some v ↦ is_none (validate_field letter_or_number is_uri is_address f v)
  ]

  -- A key that the schema or the program knows.
  abbrev pub is_known : List ProfileField → Text × Value → Bool
  is_known fields (k, v) = is_reserved k || declares k fields

  -- The name is there and matches namePattern.
  abbrev pub names : Option Text → Bool
  names none = false
  names (some name) =
      not (is_empty (trim_space name))
      && is_name letter_or_number is_uri is_address (trim_space name)

  -- A picture, if there is one, has a URI.
  abbrev pub pictures : Text → Bool
  pictures url = is_empty url || is_uri url

  -- A profile that the schema allows.
  abbrev pub is_valid : List ProfileField → Dict Value → Bool
  is_valid fields raw =
      names (as_string (lookup (codes "name") raw))
      && pictures (optional_text letter_or_number is_uri is_address (codes "image_url") raw)
      && all (fits raw) fields
      && all (is_known fields) raw

  -- One field, whatever it has.
  take_field-fits :
      (raw : Dict Value) (f : ProfileField) (fields : List ProfileField) (m : Dict Value)
      → ((m2 : Dict Value)
          → is_fine (take_fields letter_or_number is_uri is_address raw fields m2)
            ≡ all (fits raw) fields)
      → (o : Option Value) → given (lookup f.name raw) ≡ o
      → is_fine (take_fields letter_or_number is_uri is_address raw (f ∷ fields) m)
        ≡ all (fits raw) (f ∷ fields)
  unfolding take_fields
  take_field-fits raw f fields m rest none e = ground (arith, rest m)
  take_field-fits raw f fields m rest (some v) e = ground (arith, rest (insert f.name v m))

  take_fields-fits :
      (raw : Dict Value) (fields : List ProfileField) (m : Dict Value)
      → is_fine (take_fields letter_or_number is_uri is_address raw fields m)
        ≡ all (fits raw) fields
  unfolding take_fields
  take_fields-fits raw [] m = refl
  take_fields-fits raw (f ∷ fields) m =
      take_field-fits raw f fields m (take_fields-fits raw fields) _ refl

  find_unknown-known :
      (fields : List ProfileField) (raw : Dict Value)
      → is_none (find_unknown letter_or_number is_uri is_address fields raw)
        ≡ all (is_known fields) raw
  unfolding find_unknown
  find_unknown-known fields [] = refl
  find_unknown-known fields ((k, v) ∷ raw) = ground (arith, find_unknown-known fields raw)

  -- What the lookup of a key gives after the loop.
  abbrev taken : Dict Value → List ProfileField → Dict Value → Text → Option Value
  taken raw fields m k =
      if declares k fields then or_else (given (lookup k raw)) (lookup k m) else lookup k m

  -- One field, whatever it has.
  take_field_lem :
      (raw : Dict Value) (f : ProfileField) (fields : List ProfileField) (m m' : Dict Value)
      (k : Text)
      → ((m2 : Dict Value)
          → take_fields letter_or_number is_uri is_address raw fields m2 ≡ fine m'
          → lookup k m' ≡ taken raw fields m2 k)
      → (o : Option Value) → given (lookup f.name raw) ≡ o
      → take_fields letter_or_number is_uri is_address raw (f ∷ fields) m ≡ fine m'
      → lookup k m' ≡ taken raw (f ∷ fields) m k
  unfolding take_fields declares
  take_field_lem raw f fields m m' k rest none e h = ground (arith, rest m, text_eq_iff f.name k)
  take_field_lem raw f fields m m' k rest (some v) e h =
      ground (arith, rest (insert f.name v m), text_eq_iff f.name k, lookup-insert f.name k v m)

  take_fields_lem :
      (raw : Dict Value) (fields : List ProfileField) (m m' : Dict Value)
      → take_fields letter_or_number is_uri is_address raw fields m ≡ fine m'
      → (k : Text) → lookup k m' ≡ taken raw fields m k
  unfolding take_fields declares
  take_fields_lem raw [] m m' h k = ground arith
  take_fields_lem raw (f ∷ fields) m m' h k =
      take_field_lem raw f fields m m' k (λ m2 h2. take_fields_lem raw fields m2 m' h2 k)
        (given (lookup f.name raw)) refl h

  -- ValidateProfile accepts exactly the profiles whose name matches namePattern, whose picture, if
  -- there is one, has a URI, whose fields have the values that the schema asks for, and whose keys
  -- are all known.
  pub validate_profile-is_valid :
      (fields : List ProfileField) (raw : Dict Value)
      → is_fine (validate_profile letter_or_number is_uri is_address fields raw)
        ≡ is_valid fields raw
  unfolding validate_profile validate_named finish
  validate_profile-is_valid fields raw =
      ground (arith, take_fields-fits raw fields [], find_unknown-known fields raw)

  -- The metadata that ValidateProfile returns holds, for every field of the schema, the value that
  -- is given for it, and nothing else.
  pub validate_profile-metadata :
      (fields : List ProfileField) (raw : Dict Value) (p : ProfileInput)
      → validate_profile letter_or_number is_uri is_address fields raw ≡ fine p
      → (k : Text)
      → lookup k p.metadata ≡ (if declares k fields then given (lookup k raw) else none)
  unfolding validate_profile validate_named finish lookup
  validate_profile-metadata fields raw p h k =
      let loop : take_fields letter_or_number is_uri is_address raw fields [] ≡ fine p.metadata =
        ground arith in
      ground (arith, take_fields_lem raw fields [] p.metadata loop k)
