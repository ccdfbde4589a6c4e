-- ===== src/MagicLink/Requests.antt =====
-- internal/service/magic_link_service.go, lines 168 to 272 and 446 to 460: a request for a link, from the limits to
-- the mail, and the deletion of expired links.
use authpad.Prelude.{
  ℕ, ◌+◌, Bool, false, not, ◌&&◌, ◌||◌, Option, none, some, [], ◌∷◌, ◌++◌, Text, codes, text_eq,
  ltb, ◌==◌, if◌then◌else◌,
}
use mathlib.Core.List.{reverse}
use authpad.Prelude.Strings.{Unicode, trim_space, to_lower, byte_len}
use authpad.Crypto.{Crypto, Fresh}
use authpad.Limiter.{Limiter, allow}
use authpad.Redirect.{is_empty}
use authpad.Db.Rows.{Organization}
use authpad.Db.World.{World, Action, ◌>>=◌, ◌>>◌, pure, attempt, needs, fail_if, magic_link_invalid}
use authpad.MagicLink.Repo
use authpad.MagicLink.Service.{
  MagicLinkConfig, MagicLinkRequest, limit_window, link_ttl, valid_code_challenge,
}

-- `mail.Address`
pub record Address : Type 0 where
  pub name : Text
  pub address : Text

abbrev drop_slash : Text → Text
drop_slash [] = []
drop_slash (c ∷ s) = if c == b'/' then s else c ∷ s

-- `strings.TrimSuffix(s, "/")`
unfoldable pub trim_slash : Text → Text
trim_slash s = reverse (drop_slash (reverse s))

-- `BuildLink`; `encode` is `url.Values.Encode` of the token and the tenant.
unfoldable pub build_link : (Text → Text → Text) → MagicLinkConfig → Text → Text → Text
build_link encode cfg token slug =
    let path = trim_slash cfg.api_base_path in
    trim_slash (trim_space cfg.base_url)
    ++ ((if is_empty path then codes "/api/v1" else path)
        ++ (codes "/magic-link/verify?" ++ encode token slug))

module _ (u : Unicode) (parse_address : Text → Option Address) where
  -- `NormalizeEmail`
  unfoldable pub normalize_email : Text → Text × Bool
  normalize_email raw =
      let e = to_lower u (trim_space raw) in
      if is_empty e || ltb 254 (byte_len e) then (e, false) else elim (parse_address e) [
        | none ↦ (e, false)
        | some a ↦ (e, text_eq a.address e && is_empty a.name)
      ]

  -- The services that a request calls: hashing, the redirect check, the tenants, the mailer, the
  -- encoding of queries and the hexadecimal SHA-256 of an address.
  module _ (c : Crypto) (cfg : MagicLinkConfig) (redirect_ok : Text → Bool)
      (resolve_tenant : Text → Action (Option Organization))
      (send_mail : Text → Text → Action (Unit {0})) (encode : Text → Text → Text)
      (hex_sha256 : Text → Text) where
    -- The two counters of a request, both always evaluated.
    unfoldable pub count_request : Limiter → MagicLinkRequest → Text → ℕ → Limiter × Bool
    count_request l req email now =
        let (l1, ip_allowed) =
          allow l (codes "magiclink:ip:" ++ req.ip) cfg.ip_limit (limit_window cfg) now in
        let (l2, email_allowed) =
          allow l1 (codes "magiclink:email:" ++ hex_sha256 email) cfg.email_limit (limit_window cfg)
            now in
        (l2, ip_allowed && email_allowed)

    -- The challenge that a link carries: of the code flow alone, where it has to be well-formed.
    unfoldable pub kept_challenge : Text → Action Text
    kept_challenge challenge =
        if cfg.code_flow
        then (fail_if (not (valid_code_challenge challenge)) magic_link_invalid >> pure challenge)
        else pure []

    -- What `process` does when the limits allow it: every refusal is silent.
    unfoldable pub mint : Fresh → MagicLinkRequest → Text → Text → Action (Unit {0})
    unfolding kept_challenge
    mint fresh req email token = do
      found ← resolve_tenant req.tenant
      org ← needs found magic_link_invalid
      challenge ← kept_challenge req.code_challenge
      Repo.create (record {
        id = fresh.id;
        token_hash = c.hash_token token;
        organization_id = org.id;
        email = email;
        redirect_to = if redirect_ok req.redirect_to then req.redirect_to else [];
        code_challenge = challenge;
        created_at = fresh.now;
        expires_at = fresh.now + link_ttl cfg;
        consumed_at = none;
      })
      attempt (send_mail email (build_link encode cfg token org.slug))
      pure tt

    -- `process`
    unfoldable pub process : Limiter → Fresh → MagicLinkRequest → World → Limiter × World
    unfolding normalize_email count_request
    process l fresh req w =
        let (email, well_formed) = normalize_email req.email in
        let (l', allowed) = count_request l req email fresh.now in
        if well_formed && allowed
        then elim (fresh.token) [
          | none ↦ (l', w)
          | some token ↦ (l', (mint fresh req email token w).1)
        ]
        else (l', w)

-- `PurgeExpired`: both stores, in the order in which the map is iterated; failures are logged.
unfoldable pub purge_expired : Bool → ℕ → Action (Unit {0})
purge_expired tokens_first now =
    if tokens_first
    then (attempt (Repo.delete_expired now) >> attempt (Repo.delete_expired_codes now) >> pure tt)
    else (attempt (Repo.delete_expired_codes now) >> attempt (Repo.delete_expired now) >> pure tt)
