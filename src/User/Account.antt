-- ===== src/User/Account.antt =====
-- The accounts of internal/service/auth_service.go and account_service.go: creating, locking and
-- removing users.
use authpad.Prelude.{
  ℕ, Bool, true, false, not, Option, none, some, [], ◌∷◌, ◌==◌, Text, keep, any, if◌then◌else◌,
}
use authpad.Crypto.{Fresh}
use authpad.Db.Rows.{Uuid, Status, UserAuth, is_locked}
use authpad.Db.World.{
  ok, err, Action, ◌>>=◌, ◌>>◌, pure, raise, attempt, needs, fail_if, modify, insert_unless, in_idp,
  user_not_found, account_not_locked, invalid_status,
}
use authpad.Session.Repo as Sessions
use authpad.User.Repo

-- `AuthService.CreateUserAuth`
unfoldable pub create_user_auth : Uuid → Text → ℕ → Action (Unit {0})
create_user_auth user email now = Repo.create (record {
  id = user;
  email = email;
  email_verified = false;
  status = Status.active;
  created_at = now;
  updated_at = now;
  deleted_at = none;
})

-- The texts that `SetStatus` accepts.
unfoldable pub is_settable : Status → Bool
is_settable Status.active = true
is_settable Status.suspended = true
is_settable Status.pending_deletion = true
is_settable Status.locked = true
is_settable _ = false

-- `AuthService.SetStatus`
unfoldable pub set_status : Uuid → Status → ℕ → Action (Unit {0})
set_status user status now = do
  fail_if (not (is_settable status)) invalid_status
  Repo.update_status user status none now

-- The user of an id, who has to be there: `GetByID` reads no deleted user.
present_user : Uuid → Action UserAuth
present_user user = do found ← Repo.get_by_id user; needs found user_not_found

-- `AuthService.LockUser`
unfoldable pub lock_user : Uuid → ℕ → Action (Unit {0})
unfolding present_user
lock_user user now = do
  present_user user
  set_status user Status.locked now
  Sessions.revoke_all_for_user user
  pure tt

-- `AuthService.UnlockUser`
unfoldable pub unlock_user : Uuid → ℕ → Action (Unit {0})
unfolding present_user
unlock_user user now = do
  u ← present_user user
  fail_if (not (is_locked u.status)) account_not_locked
  set_status user Status.active now

-- `AuthService.RollbackUser`; its errors are ignored.
unfoldable pub rollback_user : Uuid → Action (Unit {0})
rollback_user user = do attempt (Repo.delete_credentials user); attempt (Repo.delete user); pure tt

-- `AuthService.DeleteUserAuth`, of the text of the id.
unfoldable pub delete_user_auth : Uuid → Text → ℕ → Action (Unit {0})
delete_user_auth user name now = do
  attempt (Sessions.revoke_all_for_user user)
  attempt (Repo.delete_credentials user)
  Repo.anonymize user name now

-- What a host and the IdP side bring to an account: whether there is an IdP, and the hook that runs
-- on signup.
pub record SignupHooks : Type 0 where
  pub has_idp : Bool
  pub on_signup : Option (Uuid → Text → Action (Unit {0}))

-- `strings.SplitN(email, "@", 2)[0]`
unfoldable pub local_part : Text → Text
local_part [] = []
local_part (c ∷ s) = if c == b'@' then [] else c ∷ local_part s

-- `IdPService.CreateProfile`
unfoldable pub create_profile : Uuid → Text → Action (Unit {0})
create_profile user name =
    insert_unless (λ w. any (λ p. p.user_id == user) w.idp.profiles)
      (in_idp (λ d. record d { profiles = record { user_id = user; name = name } ∷ d.profiles }))

-- `IdPService.RollbackProfile`
unfoldable pub rollback_profile : Uuid → Action (Unit {0})
rollback_profile user =
    modify (in_idp (λ d. record d { profiles = keep (λ p. not (p.user_id == user)) d.profiles }))

-- A step that, when it fails, undoes what the signup has done so far and fails all the same.
unfoldable pub or_undo : {A : Type 0} → Action (Unit {0}) → Action A → Action A
or_undo undo m w =
    let (r, w') = m w in elim r [ ok a ↦ (ok a, w') | err e ↦ (attempt undo >> raise e) w' ]

module _ (hooks : SignupHooks) where
  -- The rollback after a failed signup hook.
  unfoldable pub undo_signup : Uuid → Action (Unit {0})
  undo_signup user =
      if hooks.has_idp
      then attempt (rollback_profile user) >> rollback_user user
      else rollback_user user

  unfoldable pub run_signup_hook : Uuid → Text → Action (Unit {0})
  run_signup_hook user email = elim hooks.on_signup [
    | none ↦ pure tt
    | some hook ↦ or_undo (undo_signup user) (hook user email)
  ]

  -- `AccountService.CreatePasswordlessAccount`, without its audit entry; it returns the id of `fresh`.
  unfoldable pub create_passwordless_account : Fresh → Text → Action Uuid
  create_passwordless_account fresh email = do
    create_user_auth fresh.id email fresh.now
    (if hooks.has_idp
        then or_undo (rollback_user fresh.id) (create_profile fresh.id (local_part email))
        else pure tt)
    attempt (Repo.set_email_verified fresh.id fresh.now)
    run_signup_hook fresh.id email
    pure fresh.id
