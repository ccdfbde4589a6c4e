-- ===== src/Mfa/Service.antt =====
-- internal/service/mfa_service.go: enrolment, verification and recovery codes. The audit entries of
-- the service are not kept. `totp.Generate` and the random bytes of recovery codes are parameters.
use authpad.Prelude.{
  ℕ, zero, suc, Bool, true, false, not, ◌&&◌, Option, none, some, List, [], ◌∷◌, Text, text_eq,
  codes, any, ◌==◌, if◌then◌else◌,
}
use authpad.Prelude.Strings.{trim_space}
use authpad.Crypto.{Crypto, Fresh}
use authpad.Db.Rows.{Uuid, Factor, FactorType}
use authpad.Db.World.{
  Result, ok, err, Action, ◌>>=◌, ◌>>◌, pure, attempt, or_fail, needs, fail_if, mfa_invalid,
  entropy_failure,
}
use authpad.Mfa.Repo

-- `*otp.Key`, of `totp.Generate`
pub record TotpKey : Type 0 where
  pub secret : Text
  pub url : Text

-- `TOTPEnrollResult`
pub record TotpEnrollResult : Type 0 where
  pub factor_id : Uuid
  pub secret : Text
  pub uri : Text

unfoldable pub is_totp : FactorType → Bool
is_totp FactorType.totp = true
is_totp FactorType.webauthn = false

-- `UserHasMFA`
unfoldable pub user_has_mfa : Uuid → Action Bool
user_has_mfa user = do factors ← Repo.list_factors user; pure (any (λ f. f.verified) factors)

-- `DeleteFactor`
unfoldable pub delete_factor : Uuid → Uuid → Action (Unit {0})
delete_factor user id = Repo.delete_factor id user

-- `StoreWebAuthnFactor`
unfoldable pub store_webauthn_factor : Fresh → Uuid → Text → Text → Text → Action Factor
store_webauthn_factor fresh user label credential_id public_key = do
  let f : Factor = record {
    id = fresh.id;
    user_id = user;
    factor_type = FactorType.webauthn;
    secret_enc = [];
    label = label;
    credential_id = credential_id;
    public_key = public_key;
    sign_count = 0;
    verified = true;
    created_at = fresh.now;
  }
  Repo.create_factor f
  pure f

-- `EnrollTOTP`, with the key that `totp.Generate` returns for the account's name.
unfoldable pub enroll_totp : (Text → Option TotpKey) → Fresh → Uuid → Text → Action TotpEnrollResult
enroll_totp generate fresh user label = do
  let name = trim_space label
  key ← needs (generate (if text_eq name [] then codes "account" else name)) entropy_failure
  Repo.create_factor (record {
    id = fresh.id;
    user_id = user;
    factor_type = FactorType.totp;
    secret_enc = key.secret;
    label = label;
    credential_id = [];
    public_key = [];
    sign_count = 0;
    verified = false;
    created_at = fresh.now;
  })
  pure (record { factor_id = fresh.id; secret = key.secret; uri = key.url })

-- The default of `GenerateRecoveryCodes`; a count below zero is as zero.
abbrev pub code_count : ℕ → ℕ
code_count n = if n == 0 then 8 else n

-- `factorID != nil && *factorID != uuid.Nil`
unfoldable pub chosen : Option Uuid → Option Uuid
chosen none = none
chosen (some id) = if id == 0 then none else some id

module _ (c : Crypto) where
  -- `VerifyTOTP`
  unfoldable pub verify_totp : ℕ → Uuid → Uuid → Text → Action (Unit {0})
  verify_totp now user id code = do
    found ← or_fail mfa_invalid (Repo.get_factor id)
    f ← needs found mfa_invalid
    fail_if (not (f.user_id == user)) mfa_invalid
    fail_if (not (is_totp f.factor_type)) mfa_invalid
    fail_if (not (c.totp_validate now code f.secret_enc)) mfa_invalid
    (if f.verified then pure tt else Repo.mark_verified id)

  -- The loop of `GenerateRecoveryCodes`; `draw i` is the `i`-th code drawn.
  unfoldable pub make_codes : (ℕ → Option Text) → Uuid → ℕ → ℕ → Action (List Text)
  make_codes draw user i zero = pure []
  make_codes draw user i (suc n) = do
    code ← needs (draw i) entropy_failure
    Repo.create_recovery_code user (c.hash_token code)
    rest ← make_codes draw user (suc i) n
    pure (code ∷ rest)

  -- `GenerateRecoveryCodes`; a failure to delete the old codes is ignored.
  unfoldable pub generate_recovery_codes : (ℕ → Option Text) → Uuid → ℕ → Action (List Text)
  generate_recovery_codes draw user n = do
    attempt (Repo.delete_recovery_codes user)
    make_codes draw user 0 (code_count n)

  -- `UseRecoveryCode`
  unfoldable pub use_recovery_code : Uuid → Text → Action Bool
  use_recovery_code user code = Repo.use_recovery_code user (c.hash_token code)

  -- The last resort of `VerifyLoginCode`
  unfoldable pub recover : Uuid → Text → Action (Unit {0})
  recover user code = do used ← use_recovery_code user code; fail_if (not used) mfa_invalid

  -- A listed factor that the loop of `VerifyLoginCode` accepts.
  unfoldable pub accepts : ℕ → Text → Factor → Bool
  accepts now code f = f.verified && is_totp f.factor_type && c.totp_validate now code f.secret_enc

  -- After `VerifyTOTP` of the chosen factor.
  unfoldable pub or_recover : Uuid → Text → Result (Unit {0}) → Action (Unit {0})
  or_recover user code (ok _) = pure tt
  or_recover user code (err _) = recover user code

  -- `VerifyLoginCode` of a trimmed code.
  unfoldable pub verify_code : ℕ → Uuid → Option Uuid → Text → Action (Unit {0})
  verify_code now user (some id) code = do
    checked ← attempt (verify_totp now user id code)
    or_recover user code checked
  verify_code now user none code = do
    factors ← Repo.list_factors user
    (if any (accepts now code) factors then pure tt else recover user code)

  -- `VerifyLoginCode`
  unfoldable pub verify_login_code : ℕ → Uuid → Option Uuid → Text → Action (Unit {0})
  verify_login_code now user factor code = do
    fail_if (text_eq (trim_space code) []) mfa_invalid
    verify_code now user (chosen factor) (trim_space code)
