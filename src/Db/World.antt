-- ===== src/Db/World.antt =====
-- Calls on the databases. Each statement first draws from a schedule of faults: it fails and
-- changes nothing, or it runs. What earlier statements wrote stays written.
use mathlib.Core.List.{tail}
use authpad.Prelude.{Bool, false, Option, none, some, List, [], ◌∷◌, Text, if◌then◌else◌}
use authpad.Db.Rows.{
  UserAuth, Credential, Session, Factor, RecoveryCode, PasswordResetToken, EmailVerification,
  MagicLinkToken, MagicLinkCode, Organization, Membership, Invitation, OrgName, Profile,
  PlatformInvitation, Role, UserRole,
}

-- A sent mail: the address and the link.
pub record Mail : Type 0 where
  pub to : Text
  pub link : Text

-- The Auth database.
pub record AuthDb : Type 0 where
  pub users : List UserAuth
  pub credentials : List Credential
  pub sessions : List Session
  pub factors : List Factor
  pub recovery_codes : List RecoveryCode
  pub reset_tokens : List PasswordResetToken
  pub email_verifications : List EmailVerification
  pub magic_tokens : List MagicLinkToken
  pub magic_codes : List MagicLinkCode

-- The IdP database.
pub record IdpDb : Type 0 where
  pub profiles : List Profile
  pub organizations : List Organization
  pub memberships : List Membership
  pub invitations : List Invitation
  pub org_roles : List OrgName
  pub departments : List OrgName
  pub levels : List OrgName
  pub platform_invitations : List PlatformInvitation
  pub roles : List Role
  pub user_roles : List UserRole

pub record World : Type 0 where
  pub auth : AuthDb
  pub idp : IdpDb
  pub outbox : List Mail
  pub faults : List Bool

-- The error values of the services, and what a statement fails with.
pub data Error : Type 0 where
  db_failure unique_violation entropy_failure hook_refused : Error
  invalid_credentials user_not_found session_not_found reset_token_invalid : Error
  no_password_credential email_not_verified verify_token_invalid weak_password : Error
  account_locked account_not_locked reauth_required account_inactive invalid_status : Error
  magic_link_invalid magic_code_invalid guards_unwired mfa_invalid : Error
  tenancy_disabled org_not_found not_org_member org_forbidden membership_limit : Error
  org_create_disabled invalid_slug org_required invalid_org_role org_role_exists : Error
  org_name_taken org_role_reserved last_owner name_required email_required : Error
  invite_invalid invite_revoked invite_used invitation_not_pending nil_dereference : Error
  email_taken profile_invalid role_not_allowed role_not_found : Error

pub data Result (A : Type 0) : Type 0 where
  ok : A → Result A
  err : Error → Result A

abbrev pub Action : Type 0 → Type 0
Action A = World → Result A × World

infixl 5 ◌>>=◌ ◌>>◌
abbrev pub ◌>>=◌ : {A B : Type 0} → Action A → (A → Action B) → Action B
◌>>=◌ m f w = let (r, w') = m w in elim r [ ok a ↦ f a w' | err e ↦ (err e, w') ]

abbrev pub ◌>>◌ : {A B : Type 0} → Action A → Action B → Action B
m >> k = m >>= λ _. k

module _ {A : Type 0} where
  abbrev pub pure : A → Action A
  pure a w = (ok a, w)

  abbrev pub raise : Error → Action A
  raise e w = (err e, w)

  -- `x, err := m` where the caller goes on after an error.
  abbrev pub attempt : Action A → Action (Result A)
  attempt m w = let (r, w') = m w in (ok r, w')

  -- The error is replaced.
  abbrev pub or_fail : Error → Action A → Action A
  or_fail e m w = let (r, w') = m w in elim r [ ok a ↦ (ok a, w') | err _ ↦ (err e, w') ]

abbrev pub fail_if : Bool → Error → Action (Unit {0})
fail_if c e w = (if c then err e else ok tt, w)

abbrev pub needs : {A : Type 0} → Option A → Error → Action A
needs none e = raise e
needs (some a) e = pure a

abbrev pub is_due : List Bool → Bool
is_due [] = false
is_due (b ∷ _) = b

abbrev pub tick : World → World
tick w = record w { faults = tail w.faults }

module _ {A : Type 0} where
  -- One SQL statement.
  unfoldable pub statement : Action A → Action A
  statement m w = if is_due w.faults then (err db_failure, tick w) else m (tick w)

-- A statement that reads.
abbrev pub select : {A : Type 0} → (World → A) → Action A
select f = statement (λ w. (ok (f w), w))

-- A statement that writes.
abbrev pub modify : (World → World) → Action (Unit {0})
modify f = statement (λ w. (ok tt, f w))

-- An `INSERT` into a table with a unique index.
abbrev pub insert_unless : (World → Bool) → (World → World) → Action (Unit {0})
insert_unless clash f = statement (λ w. if clash w then (err unique_violation, w) else (ok tt, f w))

-- A write to one of the databases.
abbrev pub in_auth : (AuthDb → AuthDb) → World → World
in_auth f w = record w { auth = f w.auth }

abbrev pub in_idp : (IdpDb → IdpDb) → World → World
in_idp f w = record w { idp = f w.idp }
