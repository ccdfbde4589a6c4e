-- ===== src/Redirect.antt =====
-- internal/security/redirect.go and magic_redirect.go: where a sign-in may send the browser.
-- `url.Parse` of net/url is a parameter.
use authpad.Prelude.{
  ℕ, Bool, true, false, not, ◌&&◌, ◌||◌, Option, none, some, List, [], ◌∷◌, ◌++◌, any, Text, codes,
  text_eq, leb, ltb, ◌==◌, if◌then◌else◌,
}
use authpad.Prelude.Strings.{Unicode, trim_space, to_lower, equal_fold, byte_len}
pub mod Allowed

-- `url.URL`, with what its methods `Hostname`, `Port` and `String` return.
pub record Url : Type 0 where
  pub scheme : Text
  pub opaque : Text
  pub has_user : Bool
  pub host : Text
  pub hostname : Text
  pub port : Text
  pub path : Text
  pub raw_query : Text
  pub fragment : Text
  pub text : Text

abbrev pub is_empty : Text → Bool
is_empty [] = true
is_empty (_ ∷ _) = false

abbrev pub is_web : Text → Bool
is_web scheme = text_eq scheme (codes "http") || text_eq scheme (codes "https")

-- A control character, a space or a backslash.
abbrev pub is_unsafe : ℕ → Bool
is_unsafe r = leb r 0x20 || r == 0x7f || r == b'\\'

-- `ap == "" || ap == "/"`
abbrev pub is_root : Text → Bool
is_root p = is_empty p || text_eq p (codes "/")

-- `strings.Contains(raw, "?")`
abbrev pub contains_char : ℕ → Text → Bool
contains_char c = any (λ d. d == c)

module _ (u : Unicode) (parse : Text → Option Url) where
  -- The port that `originOf` writes.
  unfoldable pub effective_port : Text → Text → Text
  effective_port scheme port =
      if is_empty port
      then (if text_eq scheme (codes "https") then codes "443" else codes "80")
      else port

  -- `originOf`
  unfoldable pub origin_of : Url → Option Text
  unfolding effective_port
  origin_of l =
      let scheme = to_lower u l.scheme in
      if is_web scheme
      then some (
          scheme
          ++ (codes "://"
              ++ (to_lower u l.hostname ++ (codes ":" ++ effective_port scheme l.port))))
      else none

  -- The entry is a bare origin, the one given.
  unfoldable pub entry_matches : Text → Text → Bool
  entry_matches origin entry = elim (parse (trim_space entry)) [
    | none ↦ false
    | some a ↦
        not a.has_user
        && is_root a.path
        && is_empty a.raw_query
        && is_empty a.fragment
        && elim (origin_of a) [ none ↦ false | some ao ↦ text_eq ao origin ]
  ]

  -- `MagicLinkRedirectAllowed`
  unfoldable pub magic_link_redirect_allowed : List Text → Text → Bool
  magic_link_redirect_allowed allowlist raw =
      if is_empty raw || not (text_eq raw (trim_space raw)) || ltb 2048 (byte_len raw)
      then false
      else if any is_unsafe raw
      then false
      else elim (parse raw) [
        | none ↦ false
        | some l ↦
            if not (is_empty l.opaque) || l.has_user || is_empty l.host || is_empty l.hostname
            then false
            else elim (origin_of l) [
              | none ↦ false
              | some origin ↦ any (entry_matches origin) allowlist
            ]
      ]

  -- `NormalizeOrigin`
  unfoldable pub normalize_origin : Text → Option Text
  normalize_origin raw =
      if is_empty raw || not (text_eq raw (trim_space raw)) || ltb 300 (byte_len raw)
      then none
      else if any is_unsafe raw
      then none
      else elim (parse raw) [
        | none ↦ none
        | some l ↦
            if not (is_empty l.opaque)
              || l.has_user
              || is_empty l.hostname
              || not (is_root l.path)
              || not (is_empty l.raw_query)
              || not (is_empty l.fragment)
              || contains_char b'?' raw
              || contains_char b'#' raw
            then none
            else origin_of l
      ]

  -- `OriginOfURL`
  unfoldable pub origin_of_url : Text → Option Text
  origin_of_url raw = elim (parse raw) [
    | none ↦ none
    | some l ↦
        if not (is_empty l.opaque) || l.has_user || is_empty l.hostname then none else origin_of l
  ]

  -- `redirectMatch`, of an entry that is not blank
  unfoldable pub redirect_match : Text → Url → Bool
  redirect_match allowed candidate = if is_empty allowed then false else elim (parse allowed) [
    | none ↦ false
    | some a ↦
        if is_empty a.scheme || is_empty a.host
        then false
        else if equal_fold u a.text candidate.text
        then true
        else if not (equal_fold u a.scheme candidate.scheme)
            || not (equal_fold u a.host candidate.host)
        then false
        else if is_root a.path
        then true
        else text_eq allowed candidate.text
  ]

  -- `RedirectAllowed`, of the hook (if there is one), the list of redirects and the callback page.
  unfoldable pub redirect_allowed : Option (Text → Bool) → List Text → Text → Text → Bool
  redirect_allowed hook allowed_redirects callback_url raw =
      let trimmed = trim_space raw in
      if is_empty trimmed then false else elim (parse trimmed) [
        | none ↦ false
        | some l ↦
            if is_empty l.scheme || is_empty l.host
            then false
            else if not (is_web l.scheme)
            then false
            else elim hook [
              | some validate ↦ validate trimmed
              | none ↦
                  any (λ c. redirect_match (trim_space c) l)
                    (allowed_redirects
                      ++ (if is_empty (trim_space callback_url) then [] else callback_url ∷ []))
            ]
      ]
