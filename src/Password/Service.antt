-- ===== src/Password/Service.antt =====
-- Passwords in internal/service/auth_service.go: storing, checking, changing and resetting them,
-- and the proof of an address. A mail is sent by the handlers.
use authpad.Prelude.{
  ℕ, ◌+◌, ◌-◌, ◌*◌, Bool, true, false, not, ◌&&◌, Option, none, some, [], ◌∷◌, Text, text_eq, ltb,
  ◌==◌, if◌then◌else◌, is_some,
}
use authpad.Prelude.Strings.{Unicode, trim_space}
use authpad.Crypto.{Crypto, Fresh}
use authpad.Db.Rows.{Uuid, UserAuth, Session, Credential, is_active, is_locked}
use authpad.Db.World.{
  Result, ok, err, attempt, Action, ◌>>=◌, ◌>>◌, pure, or_fail, needs, fail_if, invalid_credentials,
  user_not_found, reset_token_invalid, no_password_credential, email_not_verified,
  verify_token_invalid, account_locked, reauth_required, account_inactive, entropy_failure,
}
use authpad.Session.Repo as Sessions
use authpad.Session.Service.{second}
use authpad.User.Repo as Users
use authpad.Password.Repo
use authpad.Password.Policy.{PasswordPolicy, validate_password_policy}

-- What `NewAuthService` is given for passwords.
pub record PasswordConfig : Type 0 where
  pub policy : PasswordPolicy
  pub require_verification : Bool

-- `PasswordResetTTL`, `EmailVerificationTTL` and `PasswordSetMaxSessionAge`
abbrev pub password_reset_ttl : ℕ
password_reset_ttl = 5 * 60 * second

abbrev pub email_verification_ttl : ℕ
email_verification_ttl = 24 * 3600 * second

abbrev pub password_set_max_session_age : ℕ
password_set_max_session_age = 30 * 60 * second

-- `strings.HasPrefix(hash, "$2")`
abbrev is_bcrypt : Text → Bool
is_bcrypt (a ∷ b ∷ _) = a == b'$' && b == b'2'
is_bcrypt _ = false

abbrev pub credential : Fresh → Uuid → Text → ℕ → Credential
credential fresh user hash version = record {
  id = fresh.id;
  user_id = user;
  password_hash = hash;
  hash_version = version;
  created_at = fresh.now;
  updated_at = fresh.now;
}

-- `AuthService.ImportCredential`
unfoldable pub import_credential : Fresh → Uuid → Text → Action (Unit {0})
import_credential fresh user hash = do
  fail_if (text_eq (trim_space hash) []) invalid_credentials
  Users.create_credential (credential fresh user hash (if is_bcrypt hash then 1 else 2))

-- `AuthService.HasPassword`
unfoldable pub has_password : Uuid → Action Bool
has_password user = do cred ← Users.get_credential user; pure (is_some cred)

-- `err == nil && ok` of `PasswordService.Verify`
abbrev pub is_right : Option Bool → Bool
is_right (some b) = b
is_right none = false

-- `x, err := …` where an error counts as nothing found.
abbrev pub answered : {A : Type 0} → Result (Option A) → Option A
answered (ok o) = o
answered (err _) = none

-- An account without a password may set one by a reset only when its address is verified.
unfoldable pub may_reset : UserAuth → Result (Option Credential) → Bool
may_reset user (ok none) = user.email_verified
may_reset user (ok (some _)) = true
may_reset user (err _) = false

module _ (u : Unicode) (c : Crypto) (cfg : PasswordConfig) where
  -- `PasswordService.Hash`, whose failures are those of the source of randomness.
  abbrev hashed : Text → Action Text
  hashed password = needs (c.password_hash password) entropy_failure

  -- `AuthService.CreateCredential`
  unfoldable pub create_credential : Fresh → Uuid → Text → Action (Unit {0})
  create_credential fresh user password = do
    validate_password_policy u cfg.policy password
    hash ← hashed password
    Users.create_credential (credential fresh user hash 2)

  -- `AuthService.ValidatePassword`
  unfoldable pub validate_password : Text → Text → Action UserAuth
  validate_password email password = do
    found ← or_fail invalid_credentials (Users.get_by_email email)
    user ← needs found invalid_credentials
    stored ← or_fail invalid_credentials (Users.get_credential user.id)
    cred ← needs stored invalid_credentials
    fail_if (not (is_right (c.password_verify password cred.password_hash))) invalid_credentials
    fail_if (is_locked user.status) account_locked
    fail_if (not (is_active user.status)) invalid_credentials
    fail_if (cfg.require_verification && not user.email_verified) email_not_verified
    pure user

  -- A first password, in `SetPassword`.
  unfoldable pub add_password : Fresh → Session → UserAuth → Text → Action Bool
  add_password fresh sess user new = do
    fail_if (not user.email_verified) email_not_verified
    fail_if (ltb password_set_max_session_age (fresh.now - sess.created_at)) reauth_required
    create_credential fresh sess.user_id new
    pure true

  -- The update of the stored hash, in `SetPassword` and `ResetPassword`.
  unfoldable pub replace_password : ℕ → Credential → Text → Action (Unit {0})
  replace_password now cred new = do hash ← hashed new; Users.update_hash cred.id hash 2 now

  -- A changed password, in `SetPassword`.
  unfoldable pub change_password : ℕ → Credential → Text → Text → Action Bool
  change_password now cred current new = do
    fail_if (not (is_right (c.password_verify current cred.password_hash))) invalid_credentials
    replace_password now cred new
    pure false

  -- The step of `SetPassword` that writes the credential.
  unfoldable pub write_password :
      Fresh → Session → UserAuth → Text → Text → Option Credential → Action Bool
  write_password fresh sess user current new none = add_password fresh sess user new
  write_password fresh sess user current new (some cred) =
      change_password fresh.now cred current new

  -- `AuthService.SetPassword` of a password that the policy allows.
  unfoldable pub set_valid_password : Fresh → Session → Text → Text → Action Bool
  set_valid_password fresh sess current new = do
    found ← or_fail user_not_found (Users.get_by_id sess.user_id)
    user ← needs found user_not_found
    fail_if (not (is_active user.status)) account_inactive
    stored ← Users.get_credential sess.user_id
    created ← write_password fresh sess user current new stored
    Sessions.revoke_others_for_user sess.user_id sess.id
    pure created

  -- `AuthService.SetPassword`
  unfoldable pub set_password : Fresh → Session → Text → Text → Action Bool
  set_password fresh sess current new = do
    validate_password_policy u cfg.policy new
    set_valid_password fresh sess current new

  -- The token that `CreatePasswordResetToken` stores.
  unfoldable pub make_reset_token : Fresh → Uuid → Action Text
  make_reset_token fresh user = do
    token ← needs fresh.token entropy_failure
    Repo.create (record {
      id = fresh.id;
      user_id = user;
      token_hash = c.hash_token token;
      expires_at = fresh.now + password_reset_ttl;
      created_at = fresh.now;
    })
    pure token

  -- The token for a user found by the address, in `CreatePasswordResetToken`.
  unfoldable pub offer_reset : Fresh → Option UserAuth → Action Text
  offer_reset fresh none = pure []
  offer_reset fresh (some user) = if not (is_active user.status) then pure [] else do
    stored ← attempt (Users.get_credential user.id)
    (if may_reset user stored then make_reset_token fresh user.id else pure [])

  -- `AuthService.CreatePasswordResetToken`; the empty token where there is nothing to reset.
  unfoldable pub create_password_reset_token : Fresh → Text → Action Text
  create_password_reset_token fresh email = do
    found ← attempt (Users.get_by_email email)
    offer_reset fresh (answered found)

  -- The new password of a reset token's user.
  unfoldable pub store_password : Fresh → Uuid → Text → Option Credential → Action (Unit {0})
  store_password fresh user new (some cred) = replace_password fresh.now cred new
  store_password fresh user new none = do
    found ← or_fail no_password_credential (Users.get_by_id user)
    owner ← needs found no_password_credential
    fail_if (not owner.email_verified) no_password_credential
    create_credential fresh user new

  -- `AuthService.ResetPassword`
  unfoldable pub reset_password : Fresh → Text → Text → Action (Unit {0})
  reset_password fresh token new = do
    validate_password_policy u cfg.policy new
    found ← or_fail reset_token_invalid (Repo.get_by_token_hash (c.hash_token token) fresh.now)
    t ← needs found reset_token_invalid
    stored ← or_fail no_password_credential (Users.get_credential t.user_id)
    store_password fresh t.user_id new stored
    Repo.delete_by_id t.id

  -- `AuthService.CreateEmailVerificationToken`
  unfoldable pub create_email_verification_token : Fresh → Uuid → Action Text
  create_email_verification_token fresh user = do
    token ← needs fresh.token entropy_failure
    Repo.create_verification (record {
      user_id = user;
      token_hash = c.hash_token token;
      expires_at = fresh.now + email_verification_ttl;
    })
    pure token

  -- `AuthService.VerifyEmail`; the nil id is that of no user.
  unfoldable pub verify_email : ℕ → Text → Action (Unit {0})
  verify_email now token = do
    found ←
        or_fail verify_token_invalid
          (Repo.get_verification_by_token_hash (c.hash_token (trim_space token)) now)
    user ← needs found verify_token_invalid
    fail_if (user == 0) verify_token_invalid
    Users.set_email_verified user now
    Repo.delete_verifications user
