-- ===== src/Session/Service.antt =====
-- internal/service/auth_service.go, lines 252 to 378 and 547 to 576: creating, checking, rotating
-- and revoking sessions. A duration below zero behaves as zero does: every one is tested for that.
use authpad.Prelude.{
  ℕ, ◌+◌, ◌-◌, ◌*◌, Bool, true, false, not, ◌&&◌, Option, none, some, List, Text, leb, ltb, ◌==◌,
  if◌then◌else◌,
}
use authpad.Crypto.{Crypto, Fresh}
use authpad.Db.Rows.{Uuid, Session, UserAuth, is_locked}
use authpad.Db.World.{
  Result, ok, err, entropy_failure, session_not_found, account_locked, Action, ◌>>=◌, ◌>>◌, pure,
  raise, attempt, needs,
}
use authpad.Session.Repo
use authpad.Session.Repo.{Issued}
use authpad.User.Repo as User
pub mod Expiry
pub mod Checks
pub mod Rotation

-- `apptypes.SessionConfig`
pub record SessionConfig : Type 0 where
  pub ttl : ℕ
  pub idle_timeout : ℕ
  pub staff_idle_timeout : ℕ
  pub max_lifetime : ℕ
  pub rotate_interval : ℕ

abbrev pub second : ℕ
second = 1_000_000_000

abbrev pub day : ℕ
day = 24 * 3600 * second

-- `NewAuthService` gives the lifetime a default.
abbrev pub with_default_ttl : SessionConfig → SessionConfig
with_default_ttl cfg = if cfg.ttl == 0 then record cfg { ttl = 7 * day } else cfg

-- `sessionIdleLimit`; 0 where idling does not end the session.
unfoldable pub session_idle_limit : SessionConfig → Bool → Bool → ℕ
session_idle_limit cfg staff remember_me =
    if staff && ltb 0 cfg.staff_idle_timeout
    then cfg.staff_idle_timeout
    else if remember_me
    then 0
    else cfg.idle_timeout

-- The lifetime that `CreateSessionWithTTL` falls back to.
unfoldable pub effective_ttl : SessionConfig → ℕ → ℕ
effective_ttl cfg ttl =
    let ttl' = if ttl == 0 then cfg.ttl else ttl in if ttl' == 0 then 7 * day else ttl'

-- The expiry that `CreateSessionWithTTL` computes, its cap by `MaxLifetime` included.
unfoldable pub session_expiry : SessionConfig → ℕ → ℕ → ℕ
unfolding effective_ttl
session_expiry cfg ttl now =
    let t = effective_ttl cfg ttl in
    let expires_at = now + t in
    if ltb 0 cfg.max_lifetime && leb t cfg.max_lifetime && ltb (now + cfg.max_lifetime) expires_at
    then now + cfg.max_lifetime
    else expires_at

-- The session remembers its user: its lifetime is 20 days or more.
abbrev pub is_remembered : Session → Bool
is_remembered s = leb (20 * day) (s.expires_at - s.created_at)

-- The idle window has passed since the session was last active.
unfoldable pub is_idle : SessionConfig → ℕ → Session → Bool
is_idle cfg now s =
    let limit = session_idle_limit cfg s.staff (is_remembered s) in
    ltb 0 limit && ltb limit (now - s.last_active_at)

-- The maximal lifetime has passed since the session was created.
unfoldable pub is_outlived : SessionConfig → ℕ → Session → Bool
is_outlived cfg now s =
    not (is_remembered s) && ltb 0 cfg.max_lifetime && ltb cfg.max_lifetime (now - s.created_at)

-- `err == nil && u != nil && u.Status == "locked"`
unfoldable pub reads_locked : Result (Option UserAuth) → Bool
reads_locked (ok (some u)) = is_locked u.status
reads_locked _ = false

-- A classifier of staff, which reads what it likes; nobody is staff where none is set.
abbrev pub StaffFunc : Type 0
StaffFunc = Uuid → Action Bool

abbrev pub session_is_staff : Option StaffFunc → Uuid → Action Bool
session_is_staff none user = pure false
session_is_staff (some staff) user = staff user

module _ (c : Crypto) (cfg : SessionConfig) where
  -- `AuthService.CreateSessionWithTTL`
  unfoldable pub create_session_with_ttl :
      Option StaffFunc → Fresh → Uuid → Text → Text → ℕ → Action (Text × Session)
  create_session_with_ttl staff fresh user ip_address user_agent ttl = do
    token ← needs fresh.token entropy_failure
    is_staff ← session_is_staff staff user
    let sess : Session = record {
      id = fresh.id;
      user_id = user;
      token_hash = c.hash_token token;
      ip_address = ip_address;
      user_agent = user_agent;
      created_at = fresh.now;
      expires_at = session_expiry cfg ttl fresh.now;
      last_active_at = fresh.now;
      revoked = false;
      mfa_pending = false;
      active_organization_id = none;
      staff = is_staff;
    }
    Repo.create sess
    pure (token, sess)

  -- `AuthService.CreateSession`
  unfoldable pub create_session :
      Option StaffFunc → Fresh → Uuid → Text → Text → Action (Text × Session)
  create_session staff fresh user ip_address user_agent =
      create_session_with_ttl staff fresh user ip_address user_agent cfg.ttl

  -- A refusal that revokes the session first; a failure to revoke is ignored.
  refuse : Session → Action Session → Action Session
  refuse s answer = attempt (Repo.revoke_by_id s.id) >>= λ _. answer

  -- The tests that a session found by its token has to pass, in their order.
  unfoldable pub judge : Session → Result (Option UserAuth) → ℕ → Action Session
  unfolding refuse
  judge sess user now =
      if reads_locked user
      then refuse sess (raise account_locked)
      else if is_idle cfg now sess
      then refuse sess (raise session_not_found)
      else if is_outlived cfg now sess
      then refuse sess (raise session_not_found)
      else (attempt (Repo.update_last_active sess.id now) >>= λ _. pure sess)

  -- `AuthService.GetSessionByToken`
  unfoldable pub get_session_by_token : Text → ℕ → Action Session
  unfolding judge
  get_session_by_token token now = do
    found ← Repo.get_by_token_hash (c.hash_token token) now
    sess ← needs found session_not_found
    user ← attempt (User.get_by_id sess.user_id)
    judge sess user now

  -- `AuthService.RotateSession`: a new token and the session as it was or with its new expiry.
  unfoldable pub rotate_session : Fresh → Session → Action (Option Text × Session)
  rotate_session fresh sess =
      if cfg.rotate_interval == 0
      then pure (none, sess)
      else if ltb (fresh.now - sess.created_at) cfg.rotate_interval
      then pure (none, sess)
      else do
        token ← needs fresh.token entropy_failure
        let expires_at = fresh.now + cfg.ttl
        Repo.rotate_token sess.id (c.hash_token token) expires_at fresh.now
        pure (some token, record sess { expires_at = expires_at })

  -- `AuthService.IssueSessionToken`
  unfoldable pub issue_session_token : Fresh → Uuid → Action (Text × Issued)
  issue_session_token fresh id = do
    token ← needs fresh.token entropy_failure
    row ← Repo.issue_token id (c.hash_token token) fresh.now
    live ← needs row session_not_found
    pure (token, live)
