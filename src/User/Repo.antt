-- ===== src/User/Repo.antt =====
-- internal/repository/auth/user_auth_repo.go and credential_repo.go: the statements on the tables
-- of users and credentials.
use authpad.Prelude.{
  ℕ, Bool, true, false, not, ◌&&◌, ◌||◌, Option, none, some, List, [], ◌∷◌, ◌++◌, Text, text_eq,
  find, keep, update, any, leb, ◌==◌, codes, if◌then◌else◌,
}
use authpad.Prelude.Strings.{Unicode, to_lower}
use authpad.Db.Rows.{Uuid, Status, UserAuth, Credential, Session}
use authpad.Db.World.{World, Action, select, modify, insert_unless, in_auth}

abbrev pub update_users : (UserAuth → Bool) → (UserAuth → UserAuth) → World → World
update_users p f = in_auth (λ d. record d { users = update p f d.users })

abbrev pub has_id : Uuid → UserAuth → Bool
has_id id u = u.id == id

-- `deleted_at IS NULL`
abbrev pub is_present : UserAuth → Bool
is_present u = elim u.deleted_at [ none ↦ true | some _ ↦ false ]

-- `UserAuthRepo.Create`; the id and the address are unique.
unfoldable pub create : UserAuth → Action (Unit {0})
create u =
    insert_unless (λ w. any (λ v. has_id u.id v || text_eq v.email u.email) w.auth.users)
      (in_auth (λ d. record d { users = u ∷ d.users }))

-- `UserAuthRepo.GetByID`
unfoldable pub get_by_id : Uuid → Action (Option UserAuth)
get_by_id id = select (λ w. find (λ u. has_id id u && is_present u) w.auth.users)

-- `UserAuthRepo.GetByEmail`
unfoldable pub get_by_email : Text → Action (Option UserAuth)
get_by_email email = select (λ w. find (λ u. text_eq u.email email && is_present u) w.auth.users)

-- `ORDER BY created_at LIMIT 1`
abbrev pub oldest : List UserAuth → Option UserAuth
oldest [] = none
oldest (u ∷ us) = elim (oldest us) [
  | none ↦ some u
  | some v ↦ if leb u.created_at v.created_at then some u else some v
]

-- `UserAuthRepo.GetByEmailFold`
unfoldable pub get_by_email_fold : Unicode → Text → Action (Option UserAuth)
get_by_email_fold u email = select (λ w.
    oldest
      (keep (λ v. text_eq (to_lower u v.email) (to_lower u email) && is_present v) w.auth.users))

-- `UserAuthRepo.UpdateStatus`
unfoldable pub update_status : Uuid → Status → Option ℕ → ℕ → Action (Unit {0})
update_status id status deleted_at now = modify (
    update_users (has_id id)
      (λ u. record u { status = status; updated_at = now; deleted_at = deleted_at }))

-- `UserAuthRepo.SetEmailVerified`
unfoldable pub set_email_verified : Uuid → ℕ → Action (Unit {0})
set_email_verified id now =
    modify (update_users (has_id id) (λ u. record u { email_verified = true; updated_at = now }))

-- `UserAuthRepo.Anonymize`; `name` is the text of the id.
unfoldable pub anonymize : Uuid → Text → ℕ → Action (Unit {0})
anonymize id name now = modify (
    update_users (has_id id) (λ u. record u {
      email = codes "deleted+" ++ name ++ codes "@anonymous.local";
      status = Status.deleted;
      updated_at = now;
      deleted_at = some now;
    }))

-- The session of the id, if it is the user's.
abbrev pub is_session_of : Uuid → Uuid → Session → Bool
is_session_of user id s = s.user_id == user && s.id == id

-- `UserAuthRepo.Delete`; the rows that refer to the user go with it, and the codes that refer to one
-- of the sessions.
unfoldable pub delete : Uuid → Action (Unit {0})
delete id = modify (
    in_auth λ d. record d {
      users = keep (λ u. not (has_id id u)) d.users;
      credentials = keep (λ c. not (c.user_id == id)) d.credentials;
      sessions = keep (λ s. not (s.user_id == id)) d.sessions;
      factors = keep (λ f. not (f.user_id == id)) d.factors;
      recovery_codes = keep (λ c. not (c.user_id == id)) d.recovery_codes;
      reset_tokens = keep (λ t. not (t.user_id == id)) d.reset_tokens;
      email_verifications = keep (λ t. not (t.user_id == id)) d.email_verifications;
      magic_codes = keep (λ k. not (any (is_session_of id k.session_id) d.sessions)) d.magic_codes;
    })

-- `CredentialRepo.Create`; a user has one password.
unfoldable pub create_credential : Credential → Action (Unit {0})
create_credential c =
    insert_unless (λ w. any (λ d. d.user_id == c.user_id) w.auth.credentials)
      (in_auth (λ d. record d { credentials = c ∷ d.credentials }))

-- `CredentialRepo.GetByUserID`
unfoldable pub get_credential : Uuid → Action (Option Credential)
get_credential user = select (λ w. find (λ c. c.user_id == user) w.auth.credentials)

-- `CredentialRepo.UpdateHash`
unfoldable pub update_hash : Uuid → Text → ℕ → ℕ → Action (Unit {0})
update_hash id hash version now = modify (
    in_auth λ d. record d {
      credentials =
          update (λ c. c.id == id)
            (λ c. record c { password_hash = hash; hash_version = version; updated_at = now })
            d.credentials;
    })

-- `CredentialRepo.DeleteByUserID`
unfoldable pub delete_credentials : Uuid → Action (Unit {0})
delete_credentials user =
    modify
      (in_auth (λ d. record d { credentials = keep (λ c. not (c.user_id == user)) d.credentials }))
