-- ===== src/Redirect/Allowed.antt =====
-- What a redirect that the allowlist permits looks like.
use mathlib.Core.List.{Mem}
use authpad.Prelude.{
  ◌≡◌, ◌≤◌, true, false, Option, some, List, Text, text_eq, text_eq_iff, any, arith, Option-cases,
  inl, inr,
}
use authpad.Prelude.Strings.{Unicode, trim_space, byte_len}
use authpad.Prelude.Tables.{any_witness}
use authpad.Redirect.{
  Url, is_empty, is_unsafe, is_root, origin_of, entry_matches, magic_link_redirect_allowed,
}

module _ (u : Unicode) (parse : Text → Option Url) where
  -- A bare origin: no user, path, query or fragment.
  abbrev IsBare : Url → Type 0
  IsBare a =
      (a.has_user ≡ false)
      × (is_root a.path ≡ true)
      × (is_empty a.raw_query ≡ true)
      × (is_empty a.fragment ≡ true)

  entry_matches_sound :
      (origin entry : Text)
      → entry_matches u parse origin entry ≡ true
      → (a : Url) × (parse (trim_space entry) ≡ some a)
        × (origin_of u parse a ≡ some origin)
        × IsBare a
  unfolding entry_matches
  entry_matches_sound origin entry h = elim (Option-cases (parse (trim_space entry))) [
    | inl broken ↦ absurd (ground arith)
    | inr (a, parsed) ↦ elim (Option-cases (origin_of u parse a)) [
      | inl strange ↦ absurd (ground arith)
      | inr (ao, found) ↦
          let same : text_eq ao origin ≡ true = ground arith in
          (
            a,
            parsed,
            rw ((text_eq_iff ao origin).0 same) at found,
            (ground arith, ground arith, ground arith, ground arith),
          )
    ]
  ]

  -- A redirect is permitted only where it is a URL of at most 2048 bytes without control
  -- characters, spaces and backslashes, with a host and without user information, whose origin is
  -- the origin of an entry of the allowlist that is itself a bare origin.
  pub magic_link_redirect_allowed_sound :
      (allowlist : List Text) (raw : Text)
      → magic_link_redirect_allowed u parse allowlist raw ≡ true
      → (byte_len raw ≤ 2048)
        × (any is_unsafe raw ≡ false)
        × ((l : Url) × (origin : Text) × (entry : Text) × (a : Url) × (parse raw ≡ some l)
            × (l.has_user ≡ false)
            × (is_empty l.opaque ≡ true)
            × (is_empty l.hostname ≡ false)
            × (origin_of u parse l ≡ some origin)
            × Mem entry allowlist
            × (parse (trim_space entry) ≡ some a)
            × (origin_of u parse a ≡ some origin)
            × IsBare a)
  unfolding magic_link_redirect_allowed
  magic_link_redirect_allowed_sound allowlist raw h = elim (Option-cases (parse raw)) [
    | inl broken ↦ absurd (ground arith)
    | inr (l, parsed) ↦ elim (Option-cases (origin_of u parse l)) [
      | inl strange ↦ absurd (ground arith)
      | inr (origin, here) ↦
          let listed : any (entry_matches u parse origin) allowlist ≡ true = ground arith in
          let (entry, m, matches) = any_witness _ allowlist listed in
          let (a, entry_parsed, there, bare) = entry_matches_sound origin entry matches in
          (
            ground arith,
            ground arith,
            (
              l,
              origin,
              entry,
              a,
              parsed,
              ground arith,
              ground arith,
              ground arith,
              here,
              m,
              entry_parsed,
              there,
              bare,
            ),
          )
    ]
  ]
