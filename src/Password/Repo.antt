-- ===== src/Password/Repo.antt =====
-- internal/repository/auth/password_reset_token_repo.go and email_verification_repo.go: the
-- statements on the tables of reset tokens and of email verifications.
use mathlib.Core.Option
use authpad.Prelude.{
  ℕ, Bool, not, ◌&&◌, ◌||◌, Option, ◌∷◌, Text, text_eq, find, keep, any, count, ltb, ◌==◌,
}
use authpad.Db.Rows.{Uuid, PasswordResetToken, EmailVerification}
use authpad.Db.World.{World, ok, Action, ◌>>◌, statement, select, modify, insert_unless, in_auth}

abbrev pub has_token_hash : Text → PasswordResetToken → Bool
has_token_hash h t = text_eq t.token_hash h

-- `DELETE FROM password_reset_tokens WHERE p`
abbrev delete_tokens : (PasswordResetToken → Bool) → World → World
delete_tokens p = in_auth (λ d. record d { reset_tokens = keep (λ t. not (p t)) d.reset_tokens })

-- `PasswordResetTokenRepo.Create`; ids and token hashes are unique.
unfoldable pub create : PasswordResetToken → Action (Unit {0})
create t =
    insert_unless
      (λ w. any (λ r. r.id == t.id || has_token_hash t.token_hash r) w.auth.reset_tokens)
      (in_auth (λ d. record d { reset_tokens = t ∷ d.reset_tokens }))

-- The rows that `GetByTokenHash` reads.
abbrev pub resets : Text → ℕ → PasswordResetToken → Bool
resets h now t = has_token_hash h t && ltb now t.expires_at

-- `PasswordResetTokenRepo.GetByTokenHash`
unfoldable pub get_by_token_hash : Text → ℕ → Action (Option PasswordResetToken)
get_by_token_hash h now = select (λ w. find (resets h now) w.auth.reset_tokens)

-- `PasswordResetTokenRepo.DeleteByID`
unfoldable pub delete_by_id : Uuid → Action (Unit {0})
delete_by_id id = modify (delete_tokens (λ t. t.id == id))

-- `PasswordResetTokenRepo.DeleteExpired`
unfoldable pub delete_expired : ℕ → Action ℕ
delete_expired before = statement (λ w. (
  ok (count (λ t. ltb t.expires_at before) w.auth.reset_tokens),
  delete_tokens (λ t. ltb t.expires_at before) w,
))

-- `EmailVerificationRepo.DeleteByUserID`
unfoldable pub delete_verifications : Uuid → Action (Unit {0})
delete_verifications user = modify (
    in_auth λ d. record d {
      email_verifications = keep (λ v. not (v.user_id == user)) d.email_verifications;
    })

-- The insertion of `EmailVerificationRepo.Create`; token hashes are unique.
unfoldable pub insert_verification : EmailVerification → Action (Unit {0})
insert_verification v =
    insert_unless (λ w. any (λ r. text_eq r.token_hash v.token_hash) w.auth.email_verifications)
      (in_auth (λ d. record d { email_verifications = v ∷ d.email_verifications }))

-- `EmailVerificationRepo.Create`
unfoldable pub create_verification : EmailVerification → Action (Unit {0})
create_verification v = delete_verifications v.user_id >> insert_verification v

-- The rows that `EmailVerificationRepo.GetByTokenHash` reads.
abbrev pub verifies : Text → ℕ → EmailVerification → Bool
verifies h now v = text_eq v.token_hash h && ltb now v.expires_at

-- `EmailVerificationRepo.GetByTokenHash`, the user of the row.
unfoldable pub get_verification_by_token_hash : Text → ℕ → Action (Option Uuid)
get_verification_by_token_hash h now =
    select (λ w. Option.map (λ v. v.user_id) (find (verifies h now) w.auth.email_verifications))
