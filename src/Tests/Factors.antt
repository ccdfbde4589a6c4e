-- ===== src/Tests/Factors.antt =====
-- Second factors, recovery codes and taking an account over, at concrete inputs.
use authpad.Prelude.{
  ℕ, ◌≡◌, ◌≢◌, refl, Bool, true, false, Option, none, some, List, [], ◌∷◌, Text, codes, length,
}
use authpad.Prelude.Strings.{text_eq, trim_space, is_space}
use authpad.Crypto.{Crypto}
use authpad.Db.Rows.{Factor, FactorType, RecoveryCode}
use authpad.Db.World.{World, Result, ok, statement}
use authpad.Session.Repo as Sessions
use authpad.User.Repo as Users
use authpad.User.Account.{SignupHooks}
use authpad.Mfa.Repo
use authpad.Mfa.Service.{
  verify_code, verify_login_code, chosen, is_totp, use_recovery_code, make_codes,
  generate_recovery_codes, code_count, accepts,
}
use authpad.Mfa.Login.{Accepted, verify_login_code_sound, verify_login_code-secrets, with_secrets}
use authpad.Mfa.Recovery.{
  codes_of, fresh_rows, login, perform_all, use_recovery_code-once,
  generate_recovery_codes-replaces,
}
use authpad.MagicLink.Accounts.{take_over, harden, delete_factors}
use authpad.MagicLink.Hardening.{Hardened, take_over-Hardened}
use authpad.Tests.Fixtures.{ascii, marked, empty_world, no_auth, ada}

-- The code of a secret is the secret behind a mark.
abbrev keyed : Crypto
keyed = record marked { totp_validate = λ now code secret. text_eq code (3 ∷ secret) }

abbrev phone : Factor
phone = record {
  id = 40;
  user_id = 7;
  factor_type = FactorType.totp;
  secret_enc = codes "s3";
  label = [];
  credential_id = [];
  public_key = [];
  sign_count = 0;
  verified = true;
  created_at = 1;
}

abbrev spare : RecoveryCode
spare = record { user_id = 7; code_hash = 1 ∷ codes "spare"; used = false }

abbrev enrolled : World
enrolled = record empty_world {
  auth = record no_auth { users = ada ∷ []; factors = phone ∷ []; recovery_codes = spare ∷ [] };
}

-- The code of the empty secret, where no factor is chosen.
abbrev entered : Result (Unit {0}) × World
entered = verify_login_code keyed 100 7 none (3 ∷ []) enrolled

entered-ok : entered ≡ (ok tt, entered.1)
unfolding verify_login_code verify_code chosen accepts is_totp Repo.list_factors Repo.listed
    trim_space is_space statement text_eq
entered-ok = refl

verify_login_code-sound_example : Accepted keyed 100 7 (trim_space (3 ∷ [])) (chosen none) enrolled
verify_login_code-sound_example =
    verify_login_code_sound keyed 100 7 none (3 ∷ []) enrolled entered.1 entered-ok

verify_login_code-secrets_example :
    (verify_login_code keyed 100 7 none (3 ∷ []) (with_secrets (λ _. codes "new") enrolled)).0
    ≡ (verify_login_code keyed 100 7 none (3 ∷ []) enrolled).0
verify_login_code-secrets_example =
    verify_login_code-secrets keyed (λ _. codes "new") 100 7 (3 ∷ []) enrolled

abbrev spent : Result Bool × World
spent = use_recovery_code keyed 7 (codes "spare") enrolled

spent-ok : spent ≡ (ok true, spent.1)
unfolding use_recovery_code Repo.use_recovery_code statement text_eq
spent-ok = refl

use_recovery_code-once_example :
    use_recovery_code keyed 7
      (codes "spare")
      (perform_all keyed (login 100 7 none (codes "spare") ∷ []) spent.1)
    ≢ (ok true, empty_world)
use_recovery_code-once_example =
    use_recovery_code-once keyed 7 (codes "spare") enrolled spent.1 empty_world true
      (login 100 7 none (codes "spare") ∷ []) spent-ok (tt, tt)

abbrev draws : ℕ → Option Text
draws i = some (i ∷ [])

abbrev two : Result (List Text) × World
two = generate_recovery_codes keyed draws 7 2 enrolled

two-ok : two ≡ (ok ((0 ∷ []) ∷ (1 ∷ []) ∷ []), two.1)
unfolding generate_recovery_codes make_codes Repo.delete_recovery_codes Repo.create_recovery_code
    statement
two-ok = refl

generate_recovery_codes-replaces_example :
    (length {A = Text} ((0 ∷ []) ∷ (1 ∷ []) ∷ []) ≡ code_count 2)
    × (codes_of 7 two.1 ≡ fresh_rows keyed 7 ((0 ∷ []) ∷ (1 ∷ []) ∷ []) [])
generate_recovery_codes-replaces_example =
    generate_recovery_codes-replaces keyed draws 7 2 enrolled two.1 ((0 ∷ []) ∷ (1 ∷ []) ∷ []) refl
      two-ok

abbrev no_hooks : SignupHooks
no_hooks = record { has_idp = false; on_signup = none }

abbrev taken : Result (Unit {0}) × World
taken = take_over ascii no_hooks false (some (λ user w. (ok false, w))) 7 50 enrolled

taken-ok : taken ≡ (ok tt, taken.1)
unfolding take_over harden delete_factors Sessions.revoke_all_for_user Users.delete_credentials
    Repo.list_factors Repo.listed Repo.delete_factor Repo.delete_recovery_codes
    Users.set_email_verified statement
taken-ok = refl

take_over-Hardened_example : Hardened 7 taken.1
take_over-Hardened_example =
    take_over-Hardened ascii no_hooks false (some (λ user w. (ok false, w))) 7 50 enrolled taken.1
      taken-ok
