-- ===== src/MagicLink/Codes.antt =====
-- internal/service/magic_link_code_service.go: one-time codes, made when a link is redeemed and
-- exchanged for a session token.
pub mod Exchanged
pub mod SingleUse
use mathlib.Core.Option
use mathlib.Core.Bool.{cond}
use authpad.Prelude.{
  ℕ, ◌+◌, ◌*◌, Bool, true, false, not, ◌&&◌, ◌||◌, Option, none, some, Text, codes, text_eq, ltb,
  leb, all, if◌then◌else◌, ◌++◌, ◌==◌, is_some,
}
use authpad.Prelude.Strings.{Unicode, byte_len}
use authpad.Crypto.{Crypto, Fresh}
use authpad.Limiter.{Limiter, allow}
use authpad.Db.Rows.{Uuid, UserAuth, Membership, MagicLinkCode, is_active}
use authpad.Db.World.{
  World, Result, ok, err, Action, ◌>>=◌, ◌>>◌, pure, raise, attempt, or_fail, needs, fail_if,
  magic_code_invalid, entropy_failure,
}
use authpad.Session.Repo as Sessions
use authpad.Session.Service.{SessionConfig, issue_session_token, second}
use authpad.User.Repo as Users
use authpad.Redirect.{Url, origin_of_url, normalize_origin}
use authpad.MagicLink.Repo
use authpad.MagicLink.Service.{valid_code_challenge, is_letter_or_digit, minute}

-- `MagicLinkExchange`
pub record MagicLinkExchange : Type 0 where
  pub session_token : Text
  pub expires_at : ℕ
  pub user : UserAuth
  pub org_id : Option Uuid
  pub is_member : Bool
  pub role : Text
  pub mfa_pending : Bool

-- `MagicLinkCodeTTL`
abbrev pub code_ttl : ℕ
code_ttl = 60 * second

-- `validCodeVerifier`; the text is ASCII where it is accepted, so bytes and code points agree.
unfoldable pub valid_code_verifier : Text → Bool
valid_code_verifier v =
    leb 43 (byte_len v)
    && leb (byte_len v) 128
    && all (λ b. is_letter_or_digit b || b == b'-' || b == b'.' || b == b'_' || b == b'~') v

-- The interfaces: the clock and the keys, `url.Parse`, and `MembershipLookup` where it is wired.
module _ (u : Unicode) (parse : Text → Option Url) (c : Crypto) (cfg : SessionConfig)
    (members : Option (Uuid → Uuid → Action (Option Membership))) where
  -- `CreateCode`
  unfoldable pub create_code : Fresh → Uuid → Uuid → Text → Text → Action Text
  create_code fresh session org redirect_url code_challenge = do
    fail_if (not (valid_code_challenge code_challenge)) magic_code_invalid
    origin ← needs (origin_of_url u parse redirect_url) magic_code_invalid
    code ← needs fresh.token entropy_failure
    Repo.create_code (record {
      id = fresh.id;
      code_hash = c.hash_token code;
      session_id = session;
      organization_id = org;
      redirect_origin = origin;
      code_challenge = code_challenge;
      created_at = fresh.now;
      expires_at = fresh.now + code_ttl;
      consumed_at = none;
    })
    pure code

  abbrev member_of : Result (Option Membership) → Option Membership
  member_of (ok (some m)) = if is_active m.status then some m else none
  member_of _ = none

  -- `tenantMembership`: the active membership in the tenant; a failure counts as none.
  unfoldable pub tenant_membership : Uuid → Uuid → Action (Option Membership)
  tenant_membership org user = elim members [
    | none ↦ pure none
    | some lookup ↦ attempt (lookup org user) >>= λ r. pure (member_of r)
  ]

  abbrev role_of : Option Membership → Text
  role_of none = codes ""
  role_of (some m) = m.role

  unfoldable pub active_user : Result (Option UserAuth) → Option UserAuth
  active_user (ok (some user)) = if is_active user.status then some user else none
  active_user _ = none

  -- The session is handed to an active user, and revoked where there is none.
  unfoldable pub hand_to :
      MagicLinkCode → Text → Sessions.Issued → Option UserAuth → Action MagicLinkExchange
  unfolding tenant_membership
  hand_to row token live none =
      attempt (Sessions.revoke_by_id row.session_id) >> raise magic_code_invalid
  hand_to row token live (some user) = do
    m ← tenant_membership row.organization_id live.user_id
    pure (record {
      session_token = token;
      expires_at = live.expires_at;
      user = user;
      org_id = if is_some m then some row.organization_id else none;
      is_member = is_some m;
      role = role_of m;
      mfa_pending = live.mfa_pending;
    })

  -- What `Exchange` does once a session token is issued.
  unfoldable pub hand_over : MagicLinkCode → Text → Sessions.Issued → Action MagicLinkExchange
  unfolding hand_to
  hand_over row token live = do
    found ← attempt (Users.get_by_id live.user_id)
    hand_to row token live (active_user found)

  -- `!originOK || origin != rec.RedirectOrigin`, negated
  unfoldable pub origin_agrees : Option Text → MagicLinkCode → Bool
  origin_agrees none row = false
  origin_agrees (some origin) row = text_eq origin row.redirect_origin

  -- The verifier is the one that the stored challenge was made from.
  unfoldable pub verifier_agrees : Text → MagicLinkCode → Bool
  verifier_agrees verifier row =
      valid_code_challenge row.code_challenge
      && text_eq (c.pkce_challenge verifier) row.code_challenge

  -- What `Exchange` does once the code is consumed.
  unfoldable pub settle_code : Fresh → Text → Text → Option MagicLinkCode → Action MagicLinkExchange
  unfolding hand_over
  settle_code fresh redirect_origin verifier consumed = do
    row ← needs consumed magic_code_invalid
    fail_if (not (origin_agrees (normalize_origin u parse redirect_origin) row)) magic_code_invalid
    fail_if (not (verifier_agrees verifier row)) magic_code_invalid
    issued ← or_fail magic_code_invalid (issue_session_token c cfg fresh row.session_id)
    let (token, live) = issued
    hand_over row token live

  -- The requests that `Exchange` refuses before it reads the table.
  abbrev pub is_malformed : Text → Text → Bool
  is_malformed code verifier =
      byte_len code == 0 || ltb 128 (byte_len code) || not (valid_code_verifier verifier)

  -- `Exchange`
  unfoldable pub exchange : Fresh → Text → Text → Text → Action MagicLinkExchange
  exchange fresh code redirect_origin verifier = do
    fail_if (is_malformed code verifier) magic_code_invalid
    consumed ← or_fail magic_code_invalid (Repo.consume_code (c.hash_token code) fresh.now)
    settle_code fresh redirect_origin verifier consumed

-- `AllowExchange`
unfoldable pub allow_exchange : Limiter → ℕ → Text → ℕ → Limiter × Bool
allow_exchange l limit ip now =
    if limit == 0 then (l, true) else allow l (codes "magiclink:exchange:" ++ ip) limit minute now
