-- ===== src/Tests/Passwords.antt =====
-- Passwords, reset tokens and email verifications at concrete inputs.
use authpad.Prelude.{
  ℕ, ◌+◌, ◌≡◌, ◌≢◌, refl, Bool, true, false, none, some, find, ◌&&◌, List, [], ◌∷◌, Text, codes,
  if◌then◌else◌, arith,
}
use authpad.Prelude.Strings.{text_eq, byte_len, trim_space, is_space}
use authpad.Db.Rows.{Session, Credential, PasswordResetToken, EmailVerification, is_active}
use authpad.Db.World.{World, Result, ok, err, statement, weak_password}
use authpad.Session.Repo as Sessions
use authpad.User.Repo as Users
use authpad.Password.Repo
use authpad.Password.Policy.{
  PasswordPolicy, Disjoint, validate_password_policy, meets, scan, note_rune,
  validate_password_policy-meets,
}
use authpad.Password.Service.{
  PasswordConfig, set_password, set_valid_password, write_password, change_password,
  replace_password, validate_password, reset_password, store_password, verify_email,
  create_email_verification_token, email_verification_ttl,
}
use authpad.Password.Stored.{Changed, set_password_sound, set_password-validate_password, reliable}
use authpad.Password.Reset.{WasReset, reset_password_sound}
use authpad.Password.SingleUse.{PasswordOp, request, reset_password-once, perform_all}
use authpad.Password.Email.{
  Verified, verify_email_sound, verifications_of, create_email_verification_token-latest,
}
use authpad.Tests.Fixtures.{ascii, marked, fresh_at, empty_world, no_auth, ada}

abbrev policy : PasswordPolicy
policy = record {
  min_length = 4;
  require_uppercase = false;
  require_lowercase = true;
  require_number = true;
  require_special = false;
}

abbrev config : PasswordConfig
config = record { policy = policy; require_verification = true }

ascii-Disjoint : Disjoint ascii
ascii-Disjoint = record {
  upper_lower = λ c h. refl;
  upper_number = λ c h. refl;
  upper_special = λ c h. refl;
  lower_number = λ c h. refl;
  lower_special = λ c h. refl;
  number_special = λ c h. refl;
}

validate_password_policy-meets_example :
    validate_password_policy ascii policy (codes "abc1") empty_world
    ≡ (if meets ascii policy (codes "abc1") then ok tt else err weak_password, empty_world)
validate_password_policy-meets_example =
    validate_password_policy-meets ascii ascii-Disjoint policy (codes "abc1") empty_world

abbrev old : Credential
old = record {
  id = 20;
  user_id = 7;
  password_hash = 2 ∷ codes "old1";
  hash_version = 1;
  created_at = 1;
  updated_at = 1;
}

abbrev session : ℕ → Session
session id = record {
  id = id;
  user_id = 7;
  token_hash = id ∷ [];
  ip_address = [];
  user_agent = [];
  created_at = 10;
  expires_at = 1010;
  last_active_at = 10;
  revoked = false;
  mfa_pending = false;
  active_organization_id = none;
  staff = false;
}

abbrev reset_row : PasswordResetToken
reset_row = record {
  id = 30;
  user_id = 7;
  token_hash = 1 ∷ codes "reset";
  expires_at = 900;
  created_at = 10;
}

abbrev verification : EmailVerification
verification = record { user_id = 7; token_hash = 1 ∷ codes "mail"; expires_at = 900 }

abbrev signed_up : World
signed_up = record empty_world {
  auth = record no_auth {
    users = ada ∷ [];
    credentials = old ∷ [];
    sessions = session 5 ∷ session 6 ∷ [];
    reset_tokens = reset_row ∷ [];
    email_verifications = verification ∷ [];
  };
}

marked_verifies :
    (p h : Text) → marked.password_hash p ≡ some h → marked.password_verify p h ≡ some true
marked_verifies p h e = refl

abbrev change : Result Bool × World
change =
    set_password ascii marked config (fresh_at 40 21 (codes "t")) (session 5) (codes "old1")
      (codes "new1") signed_up

change-ok : change ≡ (ok false, change.1)
unfolding set_password set_valid_password write_password change_password replace_password
    validate_password_policy scan note_rune byte_len is_active Users.get_by_id Users.get_credential
    Users.update_hash Sessions.revoke_others_for_user statement
change-ok = refl

set_password-sound_example :
    Changed ascii marked config marked_verifies
      (fresh_at 40 21 (codes "t"))
      (session 5)
      (codes "old1")
      (codes "new1")
      signed_up
      false
      change.1
set_password-sound_example =
    set_password_sound ascii marked config marked_verifies (fresh_at 40 21 (codes "t")) (session 5)
      (codes "old1") (codes "new1") signed_up change.1 false change-ok

still_known :
    find (λ v. text_eq v.email (codes "ada@example.org") && Users.is_present v) change.1.auth.users
    ≡ some ada
unfolding set_password set_valid_password write_password change_password replace_password
    validate_password_policy scan note_rune byte_len is_active Users.get_by_id Users.get_credential
    Users.update_hash Sessions.revoke_others_for_user statement text_eq
still_known = refl

set_password-validate_password_example :
    (validate_password ascii marked config
      (codes "ada@example.org")
      (codes "new1")
      (reliable change.1)).0
    ≡ ok ada
unfolding is_active
set_password-validate_password_example =
    set_password-validate_password ascii marked config marked_verifies (fresh_at 40 21 (codes "t"))
      (session 5) (codes "old1") (codes "new1") (codes "ada@example.org") signed_up change.1 false
      ada change-ok still_known refl refl refl

abbrev first_reset : Result (Unit {0}) × World
first_reset =
    reset_password ascii marked config (fresh_at 50 22 (codes "t")) (codes "reset") (codes "new1")
      signed_up

first_reset-ok : first_reset ≡ (ok tt, first_reset.1)
unfolding reset_password store_password replace_password validate_password_policy scan note_rune
    byte_len Repo.get_by_token_hash Repo.delete_by_id Users.get_credential Users.update_hash
    statement text_eq
first_reset-ok = refl

reset_password-sound_example :
    WasReset ascii marked config marked_verifies
      (codes "reset")
      (codes "new1")
      50
      signed_up
      first_reset.1
unfolding text_eq
reset_password-sound_example =
    reset_password_sound ascii marked config marked_verifies (fresh_at 50 22 (codes "t"))
      (codes "reset") (codes "new1") signed_up first_reset.1 (omega arith) first_reset-ok

-- Another reset is requested in between.
abbrev between : List PasswordOp
between = request (fresh_at 55 23 []) (codes "ada@example.org") ∷ []

reset_password-once_example :
    reset_password ascii marked config
      (fresh_at 60 24 (codes "t"))
      (codes "reset")
      (codes "new2")
      (perform_all ascii marked config between first_reset.1)
    ≢ (ok tt, empty_world)
unfolding text_eq
reset_password-once_example =
    reset_password-once ascii marked config marked_verifies (fresh_at 50 22 (codes "t"))
      (fresh_at 60 24 (codes "t")) (codes "reset") (codes "new1") (codes "new2") signed_up
      first_reset.1 empty_world between (omega arith) first_reset-ok ((λ t e same. cc), tt)

abbrev verifying : Result (Unit {0}) × World
verifying = verify_email ascii marked config 60 (codes " mail") signed_up

verifying-ok : verifying ≡ (ok tt, verifying.1)
unfolding verify_email Repo.get_verification_by_token_hash Repo.delete_verifications
    Users.set_email_verified trim_space is_space statement text_eq
verifying-ok = refl

verify_email-sound_example : Verified ascii marked config 60 (codes " mail") signed_up verifying.1
verify_email-sound_example =
    verify_email_sound ascii marked config 60 (codes " mail") signed_up verifying.1 verifying-ok

abbrev issued : Result Text × World
issued =
    create_email_verification_token ascii marked config (fresh_at 70 25 (codes "next")) 7 signed_up

issued-ok : issued ≡ (ok (codes "next"), issued.1)
unfolding create_email_verification_token Repo.create_verification Repo.delete_verifications
    Repo.insert_verification statement text_eq
issued-ok = refl

create_email_verification_token-latest_example :
    verifications_of 7 issued.1
    ≡ record {
      user_id = 7;
      token_hash = 1 ∷ codes "next";
      expires_at = 70 + email_verification_ttl;
    }
      ∷ []
create_email_verification_token-latest_example =
    create_email_verification_token-latest ascii marked config (fresh_at 70 25 (codes "next")) 7
      (codes "next") signed_up issued.1 issued-ok
