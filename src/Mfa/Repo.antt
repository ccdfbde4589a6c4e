-- ===== src/Mfa/Repo.antt =====
-- internal/repository/auth/factor_repo.go: the statements on the tables of factors and of recovery
-- codes.
use authpad.Prelude.{
  Bool, true, false, not, ◌&&◌, Option, List, [], ◌∷◌, Text, text_eq, find, keep, update, any, map,
  ◌==◌,
}
use authpad.Db.Rows.{Uuid, Factor, RecoveryCode}
use authpad.Db.World.{ok, Action, statement, select, modify, insert_unless, in_auth}

-- `FactorRepo.Create`; ids are unique.
unfoldable pub create_factor : Factor → Action (Unit {0})
create_factor f =
    insert_unless (λ w. any (λ g. g.id == f.id) w.auth.factors)
      (in_auth (λ d. record d { factors = f ∷ d.factors }))

-- The columns that `ListByUserID` reads; the others have their zero values.
unfoldable pub listed : Factor → Factor
listed f = record f { secret_enc = []; credential_id = []; public_key = []; sign_count = 0 }

-- `FactorRepo.ListByUserID`, in the order of the table.
unfoldable pub list_factors : Uuid → Action (List Factor)
list_factors user = select (λ w. map listed (keep (λ f. f.user_id == user) w.auth.factors))

-- `FactorRepo.GetByID`
unfoldable pub get_factor : Uuid → Action (Option Factor)
get_factor id = select (λ w. find (λ f. f.id == id) w.auth.factors)

-- `FactorRepo.Delete`
unfoldable pub delete_factor : Uuid → Uuid → Action (Unit {0})
delete_factor id user = modify (
    in_auth
      (λ d. record d { factors = keep (λ f. not (f.id == id && f.user_id == user)) d.factors }))

-- `FactorRepo.MarkVerified`
unfoldable pub mark_verified : Uuid → Action (Unit {0})
mark_verified id = modify (
    in_auth λ d. record d {
      factors = update (λ f. f.id == id) (λ f. record f { verified = true }) d.factors;
    })

-- `FactorRepo.CreateRecoveryCode`
unfoldable pub create_recovery_code : Uuid → Text → Action (Unit {0})
create_recovery_code user h = modify (
    in_auth λ d. record d {
      recovery_codes = record { user_id = user; code_hash = h; used = false } ∷ d.recovery_codes;
    })

abbrev pub is_code_of : Uuid → Text → RecoveryCode → Bool
is_code_of user h r = r.user_id == user && text_eq r.code_hash h

-- The rows that `UseRecoveryCode` marks.
abbrev pub is_usable : Uuid → Text → RecoveryCode → Bool
is_usable user h r = is_code_of user h r && not r.used

-- `FactorRepo.UseRecoveryCode`
unfoldable pub use_recovery_code : Uuid → Text → Action Bool
use_recovery_code user h = statement (λ w. (
  ok (any (is_usable user h) w.auth.recovery_codes),
  in_auth
      (λ d. record d {
        recovery_codes = update (is_usable user h) (λ r. record r { used = true }) d.recovery_codes;
      })
      w,
))

-- `FactorRepo.DeleteRecoveryCodes`
unfoldable pub delete_recovery_codes : Uuid → Action (Unit {0})
delete_recovery_codes user = modify (
    in_auth
      (λ d. record d { recovery_codes = keep (λ c. not (c.user_id == user)) d.recovery_codes }))
