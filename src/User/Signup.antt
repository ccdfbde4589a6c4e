-- ===== src/User/Signup.antt =====
-- `CreateAccount` and `DeleteAccount` of internal/service/account_service.go, without their audit
-- entries.
use authpad.Prelude.{
  ℕ, Bool, ◌||◌, ◌==◌, Option, none, some, List, Text, codes, update, is_some, if◌then◌else◌,
}
use authpad.Prelude.Strings.{Unicode}
use authpad.Prelude.Dict.{Dict}
use authpad.Redirect.{is_empty}
use authpad.Crypto.{Crypto, Fresh}
use authpad.Db.Rows.{Uuid, Session}
use authpad.Db.World.{
  Action, ◌>>=◌, ◌>>◌, pure, raise, attempt, fail_if, modify, in_idp, invalid_credentials,
  email_taken, profile_invalid,
}
use authpad.Session.Service.{SessionConfig, StaffFunc, create_session}
use authpad.Password.Service.{PasswordConfig, create_credential, answered}
use authpad.Profile.{Value, ProfileField, ProfileInput, Checked, fine, bad, validate_profile}
use authpad.User.Repo as Users
use authpad.User.Account.{
  SignupHooks, create_user_auth, rollback_user, create_profile, or_undo, undo_signup,
  run_signup_hook, delete_user_auth,
}

pub record CreateAccountRequest : Type 0 where
  pub email : Text
  pub password : Text
  pub profile : Dict Value
  pub email_verified : Bool
  pub skip_session : Bool

-- The user, and the token and the session where one is made.
pub record CreateAccountResult : Type 0 where
  pub user_id : Uuid
  pub email : Text
  pub name : Text
  pub session : Option (Text × Session)

-- A profile that was validated, or the error of the validation.
abbrev pub accepted : Checked ProfileInput → Action ProfileInput
accepted (fine p) = pure p
accepted (bad _) = raise profile_invalid

-- `ProfileRepo.Anonymize`, which is `IdPService.DeleteProfile`.
unfoldable pub anonymize_profile : Uuid → Action (Unit {0})
anonymize_profile user = modify (
    in_idp (λ d. record d {
      profiles =
          update (λ p. p.user_id == user) (λ p. record p { name = codes "Deleted User" })
            d.profiles;
    }))

-- The parameters of the validation of profiles, of passwords and of sessions.
module _ (letter_or_number : ℕ → Bool) (is_uri is_address : Text → Bool) (u : Unicode) (c : Crypto)
    (fields : List ProfileField) (passwords : PasswordConfig) (sessions : SessionConfig)
    (staff : Option StaffFunc) (hooks : SignupHooks) where
  -- The session of a new user, unless the request skips it.
  unfoldable pub open_session : Fresh → Bool → Text → Text → Action (Option (Text × Session))
  open_session fresh skipped ip_address user_agent =
      if skipped
      then pure none
      else or_undo (undo_signup hooks fresh.id) (
          create_session c sessions staff fresh fresh.id ip_address user_agent >>= λ s.
          pure (some s))

  -- The rows of a new user.
  unfoldable pub store_account : Fresh → CreateAccountRequest → Text → Action (Unit {0})
  store_account fresh req name = do
    create_user_auth fresh.id req.email fresh.now
    or_undo (rollback_user fresh.id) (create_credential u c passwords fresh fresh.id req.password)
    (if hooks.has_idp
        then or_undo (rollback_user fresh.id) (create_profile fresh.id name)
        else pure tt)
    (if req.email_verified
        then attempt (Users.set_email_verified fresh.id fresh.now) >> pure tt
        else pure tt)

  -- `CreateAccount`; the new user has the id of `fresh`.
  unfoldable pub create_account :
      Fresh → CreateAccountRequest → Text → Text → Action CreateAccountResult
  create_account fresh req ip_address user_agent = do
    fail_if (is_empty req.email || is_empty req.password) invalid_credentials
    profile ← accepted (validate_profile letter_or_number is_uri is_address fields req.profile)
    existing ← attempt (Users.get_by_email req.email)
    fail_if (is_some (answered existing)) email_taken
    store_account fresh req profile.name
    session ← open_session fresh req.skip_session ip_address user_agent
    run_signup_hook hooks fresh.id req.email
    pure (record { user_id = fresh.id; email = req.email; name = profile.name; session = session })

  -- `DeleteAccount`; `name` is the text of the id.
  unfoldable pub delete_account : Uuid → Text → ℕ → Action (Unit {0})
  delete_account user name now = do
    delete_user_auth user name now
    (if hooks.has_idp then anonymize_profile user else pure tt)
