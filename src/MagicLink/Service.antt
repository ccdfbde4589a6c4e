-- ===== src/MagicLink/Service.antt =====
-- internal/service/magic_link_service.go: issuing a link, and redeeming it.
pub mod Redeemed
pub mod Signed
pub mod SingleUse
pub mod Tenant
use mathlib.Core.Option
use authpad.Prelude.{
  ℕ, ◌+◌, ◌*◌, Bool, true, false, not, ◌&&◌, ◌||◌, Option, none, some, List, [], ◌∷◌, ◌++◌, Text,
  codes, length, ltb, leb, ◌==◌, if◌then◌else◌, all,
}
use authpad.Prelude.Strings.{trim_space, byte_len}
use authpad.Crypto.{Crypto, Fresh}
use authpad.Limiter.{Limiter, allow}
use authpad.Db.Rows.{Uuid, UserAuth, Organization, MagicLinkToken, is_active}
use authpad.Db.World.{
  World, Result, ok, err, Error, Mail, Action, ◌>>=◌, ◌>>◌, pure, raise, attempt, or_fail, needs,
  fail_if, magic_link_invalid,
}
use authpad.Session.Service.{second}
use authpad.MagicLink.Accounts.{Found, MagicLinkAccounts}
use authpad.MagicLink.Repo

-- `apptypes.MagicLinkConfig`, as far as the service reads it, and `Config.APIBasePath`.
pub record MagicLinkConfig : Type 0 where
  pub base_url : Text
  pub api_base_path : Text
  pub redirect_allowlist : List Text
  pub ttl : ℕ
  pub email_limit : ℕ
  pub ip_limit : ℕ
  pub limit_window : ℕ
  pub code_flow : Bool
  pub exchange_limit : ℕ
  pub allow_password_accounts : Bool

-- `MagicLinkRequest`
pub record MagicLinkRequest : Type 0 where
  pub email : Text
  pub tenant : Text
  pub redirect_to : Text
  pub ip : Text
  pub code_challenge : Text

-- `MagicLinkVerified`
pub record MagicLinkVerified : Type 0 where
  pub user : UserAuth
  pub organization : Organization
  pub redirect_to : Text
  pub code_challenge : Text
  pub created : Bool

abbrev pub minute : ℕ
minute = 60 * second

-- `DefaultMagicLinkTTL`
abbrev pub default_ttl : ℕ
default_ttl = 15 * minute

abbrev pub is_letter_or_digit : ℕ → Bool
is_letter_or_digit c =
    (leb b'A' c && leb c b'Z') || (leb b'a' c && leb c b'z') || (leb b'0' c && leb c b'9')

-- `ValidCodeChallenge`; the text is ASCII where it is accepted, so bytes and code points agree.
unfoldable pub valid_code_challenge : Text → Bool
valid_code_challenge c =
    byte_len c == 43 && all (λ b. is_letter_or_digit b || b == b'-' || b == b'_') c

-- `MagicLinkService.limits`
unfoldable pub limit_window : MagicLinkConfig → ℕ
limit_window cfg = if cfg.limit_window == 0 then 15 * minute else cfg.limit_window

-- `MagicLinkService.ttl`
unfoldable pub link_ttl : MagicLinkConfig → ℕ
link_ttl cfg = if ltb 0 cfg.ttl then cfg.ttl else default_ttl

-- The interfaces of the service: `TenantResolver`, the redirect check of the security package, and
-- the account backend.
module _ (c : Crypto) (cfg : MagicLinkConfig) (redirect_ok : Text → Bool)
    (resolve_tenant : Text → Action (Option Organization)) (show_id : Uuid → Text)
    (accounts : MagicLinkAccounts) where
  -- `accountMayUseMagicLink`: every error is a refusal.
  unfoldable pub account_may_use_magic_link : UserAuth → Action (Unit {0})
  account_may_use_magic_link user = do
    staff ← or_fail magic_link_invalid (accounts.is_staff user.id)
    fail_if staff magic_link_invalid
    (if cfg.allow_password_accounts then pure tt else do
      password ← or_fail magic_link_invalid (accounts.has_password user.id)
      fail_if password magic_link_invalid)

  -- The organization that the tenant of the request stands for; a blank one filters nothing.
  unfoldable pub org_filter : Text → Action (Option Uuid)
  org_filter [] = pure none
  org_filter (t ∷ tenant) = do
    found ← or_fail magic_link_invalid (resolve_tenant (t ∷ tenant))
    org ← needs found magic_link_invalid
    pure (some org.id)

  -- An existing account is checked, and hardened when its address is verified for the first time.
  unfoldable pub admit : Found → ℕ → Action UserAuth
  admit found now = if found.created then pure found.user else do
    account_may_use_magic_link found.user
    (if found.user.email_verified then pure found.user else do
      or_fail magic_link_invalid (accounts.take_over found.user.id now)
      pure (record (found.user) { email_verified = true }))

  -- The answer to a redeemed link; its redirect is checked again.
  abbrev pub verified : MagicLinkToken → Organization → Found → UserAuth → MagicLinkVerified
  verified link org found user = record {
    user = user;
    organization = org;
    redirect_to = if redirect_ok link.redirect_to then link.redirect_to else [];
    code_challenge = link.code_challenge;
    created = found.created;
  }

  -- An active user enters, if admitted.
  unfoldable pub enter : Fresh → MagicLinkToken → Organization → Found → Action MagicLinkVerified
  enter fresh link org found = do
    fail_if (not (is_active found.user.status)) magic_link_invalid
    user ← admit found fresh.now
    pure (verified link org found user)

  -- What `Verify` does with a consumed link.
  unfoldable pub sign_in : Fresh → MagicLinkToken → Action MagicLinkVerified
  sign_in fresh link = do
    resolved ← or_fail magic_link_invalid (resolve_tenant (show_id link.organization_id))
    org ← needs resolved magic_link_invalid
    account ← or_fail magic_link_invalid (accounts.find_or_create fresh link.email)
    found ← needs account magic_link_invalid
    enter fresh link org found

  -- What `Verify` does once the tenant is known.
  unfoldable pub redeem : Fresh → Text → Option Uuid → Action MagicLinkVerified
  redeem fresh token org = do
    consumed ← or_fail magic_link_invalid (Repo.consume (c.hash_token token) org fresh.now)
    link ← needs consumed magic_link_invalid
    sign_in fresh link

  -- `Verify`
  unfoldable pub verify : Fresh → Text → Text → Action MagicLinkVerified
  verify fresh raw tenant = do
    let token = trim_space raw
    fail_if (byte_len token == 0 || ltb 256 (byte_len token)) magic_link_invalid
    org ← org_filter (if byte_len (trim_space tenant) == 0 then [] else tenant)
    redeem fresh token org
