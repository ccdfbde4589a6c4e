-- ===== src/Db/Rows.antt =====
-- The rows of the tables (internal/domain/auth/user_auth.go, internal/domain/idp/user_profile.go
-- and the records of internal/repository/auth). An id is a number, the nil UUID is 0; an instant is
-- a number of nanoseconds; a pointer is an `Option`.
use authpad.Prelude.{ℕ, Bool, false, true, Option, Text}

abbrev pub Uuid : Type 0
Uuid = ℕ

-- The status texts that the code names, and any other text.
pub data Status : Type 0 where
  active suspended pending_deletion locked deleted removed : Status
  other : Text → Status

unfoldable pub is_active : Status → Bool
is_active Status.active = true
is_active _ = false

unfoldable pub is_locked : Status → Bool
is_locked Status.locked = true
is_locked _ = false

-- `auth.UserAuth`
pub record UserAuth : Type 0 where
  pub id : Uuid
  pub email : Text
  pub email_verified : Bool
  pub status : Status
  pub created_at : ℕ
  pub updated_at : ℕ
  pub deleted_at : Option ℕ

-- `auth.Credential`; the only type the code writes is the password.
pub record Credential : Type 0 where
  pub id : Uuid
  pub user_id : Uuid
  pub password_hash : Text
  pub hash_version : ℕ
  pub created_at : ℕ
  pub updated_at : ℕ

-- `auth.Session`
pub record Session : Type 0 where
  pub id : Uuid
  pub user_id : Uuid
  pub token_hash : Text
  pub ip_address : Text
  pub user_agent : Text
  pub created_at : ℕ
  pub expires_at : ℕ
  pub last_active_at : ℕ
  pub revoked : Bool
  pub mfa_pending : Bool
  pub active_organization_id : Option Uuid
  pub staff : Bool

pub data FactorType : Type 0 where
  totp webauthn : FactorType

-- `auth.Factor`
pub record Factor : Type 0 where
  pub id : Uuid
  pub user_id : Uuid
  pub factor_type : FactorType
  pub secret_enc : Text
  pub label : Text
  pub credential_id : Text
  pub public_key : Text
  pub sign_count : ℕ
  pub verified : Bool
  pub created_at : ℕ

-- A row of `mfa_recovery_codes`.
pub record RecoveryCode : Type 0 where
  pub user_id : Uuid
  pub code_hash : Text
  pub used : Bool

-- `auth.PasswordResetToken`
pub record PasswordResetToken : Type 0 where
  pub id : Uuid
  pub user_id : Uuid
  pub token_hash : Text
  pub expires_at : ℕ
  pub created_at : ℕ

-- A row of `email_verification_tokens`.
pub record EmailVerification : Type 0 where
  pub user_id : Uuid
  pub token_hash : Text
  pub expires_at : ℕ

-- `auth_repo.MagicLinkToken`, with the column `consumed_at`.
pub record MagicLinkToken : Type 0 where
  pub id : Uuid
  pub token_hash : Text
  pub organization_id : Uuid
  pub email : Text
  pub redirect_to : Text
  pub code_challenge : Text
  pub created_at : ℕ
  pub expires_at : ℕ
  pub consumed_at : Option ℕ

-- `auth_repo.MagicLinkCode`, with the column `consumed_at`.
pub record MagicLinkCode : Type 0 where
  pub id : Uuid
  pub code_hash : Text
  pub session_id : Uuid
  pub organization_id : Uuid
  pub redirect_origin : Text
  pub code_challenge : Text
  pub created_at : ℕ
  pub expires_at : ℕ
  pub consumed_at : Option ℕ

-- `idp.UserProfile`, by its owner and name.
pub record Profile : Type 0 where
  pub user_id : Uuid
  pub name : Text

-- `idp.Organization`
pub record Organization : Type 0 where
  pub id : Uuid
  pub slug : Text
  pub name : Text
  pub image_url : Text
  pub metadata : Text
  pub created_by : Option Uuid
  pub created_at : ℕ
  pub updated_at : ℕ

-- `idp.OrganizationMembership`
pub record Membership : Type 0 where
  pub id : Uuid
  pub organization_id : Uuid
  pub user_id : Uuid
  pub role : Text
  pub status : Status
  pub department_id : Option Uuid
  pub level_id : Option Uuid
  pub created_at : ℕ

-- `idp.OrganizationInvitation`
pub record Invitation : Type 0 where
  pub id : Uuid
  pub organization_id : Uuid
  pub email : Text
  pub role : Text
  pub token_hash : Text
  pub payload : Text
  pub expires_at : ℕ
  pub invited_by : Option Uuid
  pub accepted_at : Option ℕ
  pub revoked_at : Option ℕ
  pub created_at : ℕ

-- `idp.Invitation`, to the platform.
pub record PlatformInvitation : Type 0 where
  pub id : Uuid
  pub email : Text
  pub role : Text
  pub payload : Text
  pub token_hash : Text
  pub expires_at : ℕ
  pub invited_by : Option Uuid
  pub redeemed_at : Option ℕ
  pub redeemed_user_id : Option Uuid
  pub revoked_at : Option ℕ
  pub created_at : ℕ

-- `idp.Role`
pub record Role : Type 0 where
  pub id : Uuid
  pub name : Text
  pub description : Text

-- A row of `user_roles`.
pub record UserRole : Type 0 where
  pub user_id : Uuid
  pub role_id : Uuid

-- `idp.OrganizationRole`, `idp.OrganizationDepartment` and `idp.OrganizationLevel`: a name of an
-- organization.
pub record OrgName : Type 0 where
  pub id : Uuid
  pub organization_id : Uuid
  pub name : Text
  pub description : Text
  pub created_at : ℕ
