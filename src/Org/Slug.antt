-- ===== src/Org/Slug.antt =====
-- internal/service/org_service.go, lines 36 to 39 and 81 to 96: slugs and the names of roles.
use authpad.Prelude.{
  ℕ, zero, suc, ◌≡◌, ◌⊎◌, ◌≤◌, inl, inr, refl, Bool, true, false, not, ◌&&◌, ◌||◌, List, [], ◌∷◌,
  Text, all, length, map, keep, leb, ltb, ◌==◌, if◌then◌else◌, arith, Bool-cases,
}
use authpad.Prelude.Strings.{Unicode, between, trim_space, to_lower}
pub mod Shape

abbrev pub is_alnum : ℕ → Bool
is_alnum c = between b'a' b'z' c || between b'0' b'9' c

abbrev pub is_slug_rune : ℕ → Bool
is_slug_rune c = is_alnum c || c == b'-'

abbrev pub starts_with : (ℕ → Bool) → Text → Bool
starts_with p [] = false
starts_with p (c ∷ _) = p c

abbrev pub ends_with : (ℕ → Bool) → Text → Bool
ends_with p [] = false
ends_with p (c ∷ []) = p c
ends_with p (_ ∷ d ∷ s) = ends_with p (d ∷ s)

-- `slugPattern`: 1 to 63 runes, the first and the last a letter or a digit.
unfoldable pub is_slug : Text → Bool
is_slug s =
    starts_with is_alnum s && all is_slug_rune s && ends_with is_alnum s && leb (length s) 63

abbrev is_role_rune : ℕ → Bool
is_role_rune c = is_alnum c || c == b'_'

-- `orgRolePattern`: a letter and 1 to 49 letters, digits or underscores.
unfoldable pub is_role_name : Text → Bool
is_role_name [] = false
is_role_name (c ∷ s) =
    between b'a' b'z' c && all is_role_rune s && leb 1 (length s) && leb (length s) 49

-- `strings.TrimLeft(s, "-")`
unfoldable pub trim_left : Text → Text
trim_left [] = []
trim_left (c ∷ s) = if c == b'-' then trim_left s else c ∷ s

abbrev pub push : ℕ → Text → Text
push c [] = if c == b'-' then [] else c ∷ []
push c (d ∷ s) = c ∷ d ∷ s

-- `strings.TrimRight(s, "-")`
unfoldable pub trim_right : Text → Text
trim_right [] = []
trim_right (c ∷ s) = push c (trim_right s)

-- `strings.Trim(s, "-")`
abbrev pub trim_dashes : Text → Text
trim_dashes s = trim_right (trim_left s)

-- `s[:n]`
unfoldable pub take : ℕ → Text → Text
take zero s = []
take (suc n) [] = []
take (suc n) (c ∷ s) = c ∷ take n s

-- `strings.ReplaceAll(s, " ", "-")`
abbrev pub dash_spaces : Text → Text
dash_spaces = map (λ c. if c == b' ' then b'-' else c)

-- The cut to 63 bytes; the runes that are left are ASCII.
unfoldable pub shorten : Text → Text
shorten s = if ltb 63 (length s) then trim_dashes (take 63 s) else s

-- `NormalizeSlug`
unfoldable pub normalize_slug : Unicode → Text → Text
normalize_slug u name =
    shorten (trim_dashes (keep is_slug_rune (dash_spaces (to_lower u (trim_space name)))))
