-- ===== src/Crypto.antt =====
-- What the program calls of cryptographic packages, and what an operation draws from its
-- surroundings. SHA-256, argon2id, bcrypt and TOTP are parameters: no theorem needs more of them
-- than it says.
use authpad.Prelude.{ℕ, Bool, Option, Text}
use authpad.Db.Rows.{Uuid}

pub record Crypto : Type 0 where
  -- `security.HashToken`
  pub hash_token : Text → Text
  -- `PKCEChallenge`
  pub pkce_challenge : Text → Text
  -- `PasswordService.Hash`, under the salt that it draws; nothing when it fails.
  pub password_hash : Text → Option Text
  -- `PasswordService.Verify`: whether the password has this hash, or nothing when it fails.
  pub password_verify : Text → Text → Option Bool
  -- `totp.Validate(code, secret)` at an instant.
  pub totp_validate : ℕ → Text → Text → Bool

-- The instant of the operation (`time.Now()` and `NOW()`), the id that `uuid.New` returns, and
-- the token of `security.GenerateOpaqueToken`, which may fail.
pub record Fresh : Type 0 where
  pub now : ℕ
  pub id : Uuid
  pub token : Option Text
