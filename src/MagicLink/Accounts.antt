-- ===== src/MagicLink/Accounts.antt =====
-- internal/service/magic_link_service.go, lines 61 to 74 and 364 to 438: how a redeemed link finds
-- its account, and the account behind the databases.
use authpad.Prelude.{
  ℕ, Bool, true, false, Option, none, some, List, [], ◌∷◌, Text, if◌then◌else◌, is_some,
}
use authpad.Prelude.Strings.{Unicode}
use authpad.Crypto.{Fresh}
use authpad.Db.Rows.{Uuid, UserAuth, Factor}
use authpad.Db.World.{
  Result, Error, ok, err, Action, ◌>>=◌, ◌>>◌, pure, raise, attempt, guards_unwired,
}
use authpad.Session.Service.{StaffFunc}
use authpad.Session.Repo as Sessions
use authpad.User.Repo as Users
use authpad.Mfa.Repo as Mfa
use authpad.User.Account.{SignupHooks, create_passwordless_account}

-- What `FindOrCreate` returns: no user, or a user and whether it was created.
pub record Found : Type 0 where
  pub user : UserAuth
  pub created : Bool

-- `MagicLinkAccounts`
pub record MagicLinkAccounts : Type 0 where
  pub find_or_create : Fresh → Text → Action (Option Found)
  pub is_staff : Uuid → Action Bool
  pub has_password : Uuid → Action Bool
  pub take_over : Uuid → ℕ → Action (Unit {0})

-- The loop of `TakeOver` over the factors.
unfoldable pub delete_factors : Uuid → List Factor → Action (Unit {0})
delete_factors user [] = pure tt
delete_factors user (f ∷ fs) =
    let rest = delete_factors user fs in Mfa.delete_factor f.id user >> rest

abbrev pub as_created : Option UserAuth → Option Found
as_created none = none
as_created (some user) = some (record { user = user; created = true })

-- After a failed creation: the account that another request has made meanwhile, or the failure.
abbrev pub as_existing : Error → Result (Option UserAuth) → Action (Option Found)
as_existing e (ok (some user)) = pure (some (record { user = user; created = false }))
as_existing e _ = raise e

-- `dbMagicLinkAccounts`. `guards` is `none` until `WireAccountGuards` has set the staff classifier
-- and the repositories of credentials and factors.
module _ (u : Unicode) (hooks : SignupHooks) (disable_public_signup : Bool)
    (guards : Option StaffFunc) where
  unfoldable pub settle : Text → Result Uuid → Action (Option Found)
  settle email (ok id) = do user ← Users.get_by_id id; pure (as_created user)
  settle email (err e) = do again ← attempt (Users.get_by_email_fold u email); as_existing e again

  unfoldable pub provision : Fresh → Text → Action (Option Found)
  unfolding settle
  provision fresh email = do
    made ← attempt (create_passwordless_account hooks fresh email)
    settle email made

  -- `FindOrCreate`
  unfoldable pub find_or_create : Fresh → Text → Action (Option Found)
  unfolding provision
  find_or_create fresh email = do
    known ← Users.get_by_email_fold u email
    elim known [
      | none ↦ if disable_public_signup then pure none else provision fresh email
      | some user ↦ pure (some (record { user = user; created = false }))
    ]

  -- `IsStaff`
  unfoldable pub is_staff : Uuid → Action Bool
  is_staff user = elim guards [ none ↦ raise guards_unwired | some staff ↦ staff user ]

  -- `HasPassword`
  unfoldable pub has_password : Uuid → Action Bool
  has_password user = elim guards [
    | none ↦ raise guards_unwired
    | some _ ↦ Users.get_credential user >>= λ c. pure (is_some c)
  ]

  -- `TakeOver`, once the guards are wired.
  unfoldable pub harden : Uuid → ℕ → Action (Unit {0})
  harden user now = do
    Sessions.revoke_all_for_user user
    Users.delete_credentials user
    factors ← Mfa.list_factors user
    delete_factors user factors
    Mfa.delete_recovery_codes user
    Users.set_email_verified user now

  -- `TakeOver`
  unfoldable pub take_over : Uuid → ℕ → Action (Unit {0})
  unfolding harden
  take_over user now = elim guards [ none ↦ raise guards_unwired | some _ ↦ harden user now ]

  abbrev pub db_accounts : MagicLinkAccounts
  db_accounts = record {
    find_or_create = find_or_create;
    is_staff = is_staff;
    has_password = has_password;
    take_over = take_over;
  }
