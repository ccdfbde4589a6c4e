-- ===== src/Tests/Invites.antt =====
-- Redeeming an invitation to the platform, at concrete inputs.
use authpad.Prelude.{ℕ, ◌≡◌, refl, Bool, true, false, ◌||◌, none, some, [], ◌∷◌, Text, codes}
use authpad.Prelude.Strings.{text_eq, between, is_space, trim_space, byte_len}
use authpad.Prelude.Dict.{Dict, lookup, insert}
use authpad.Db.Rows.{Uuid, PlatformInvitation}
use authpad.Db.World.{World, Result, ok, statement}
use authpad.User.Repo as Users
use authpad.User.Account.{SignupHooks, create_user_auth, or_undo, run_signup_hook, create_profile}
use authpad.User.Signup.{CreateAccountResult, create_account, store_account, open_session}
use authpad.Session.Repo as Sessions
use authpad.Session.Service.{
  SessionConfig, create_session, create_session_with_ttl, session_expiry, effective_ttl,
}
use authpad.Password.Policy.{validate_password_policy, scan, note_rune}
use authpad.Password.Service.{PasswordConfig, create_credential}
use authpad.Profile.{
  Value, as_string, validate_profile, validate_named, is_name, is_name_rune, optional_text, finish,
  take_fields, find_unknown, is_reserved,
}
use authpad.Invite.Repo
use authpad.Invite.Service.{
  refusal, validate, merge, request_of, open_account, give_role, mark_used, redeem,
}
use authpad.Invite.Redeemed.{Open, Marked, redeem_sound}
use authpad.Tests.Fixtures.{ascii, marked, fresh_at, empty_world, no_idp}

abbrev letters : ℕ → Bool
letters c = between b'a' b'z' c || between b'A' b'Z' c

abbrev no_text : Text → Bool
no_text _ = false

abbrev passwords : PasswordConfig
passwords = record {
  policy = record {
    min_length = 4;
    require_uppercase = false;
    require_lowercase = true;
    require_number = true;
    require_special = false;
  };
  require_verification = true;
}

abbrev sessions : SessionConfig
sessions = record {
  ttl = 1000;
  idle_timeout = 50;
  staff_idle_timeout = 20;
  max_lifetime = 500;
  rotate_interval = 0;
}

abbrev hooks : SignupHooks
hooks = record { has_idp = true; on_signup = none }

abbrev nothing : Text → Dict Value
nothing _ = []

abbrev no_ids : Text → Uuid
no_ids _ = 0

abbrev invitation : PlatformInvitation
invitation = record {
  id = 70;
  email = codes "bo@x.org";
  role = [];
  payload = codes "{}";
  token_hash = 1 ∷ codes "tok";
  expires_at = 500;
  invited_by = none;
  redeemed_at = none;
  redeemed_user_id = none;
  revoked_at = none;
  created_at = 10;
}

abbrev invited : World
invited = record empty_world { idp = record no_idp { platform_invitations = invitation ∷ [] } }

abbrev run : Result CreateAccountResult × World
run =
    redeem letters no_text no_text ascii marked [] passwords sessions none hooks [] no_ids none
      nothing (fresh_at 100 9 (codes "new")) (codes " tok") (codes "Bo") (codes "abc1") [] [] []
      invited

abbrev joined : CreateAccountResult
joined = record {
  user_id = 9;
  email = codes "bo@x.org";
  name = codes "Bo";
  session = some (
    codes "new",
    record {
      id = 9;
      user_id = 9;
      token_hash = 1 ∷ codes "new";
      ip_address = [];
      user_agent = [];
      created_at = 100;
      expires_at = 1100;
      last_active_at = 100;
      revoked = false;
      mfa_pending = false;
      active_organization_id = none;
      staff = false;
    },
  );
}

joins : run ≡ (ok joined, run.1)
unfolding redeem validate Repo.get_by_token_hash refusal statement text_eq trim_space is_space
    request_of merge insert open_account create_account validate_profile as_string lookup
    validate_named is_name is_name_rune optional_text finish take_fields find_unknown is_reserved
    store_account create_user_auth Users.create Users.get_by_email or_undo create_credential
    validate_password_policy scan note_rune byte_len Users.create_credential create_profile
    Users.set_email_verified open_session create_session create_session_with_ttl session_expiry
    effective_ttl Sessions.create run_signup_hook give_role mark_used Repo.mark_redeemed
    Repo.is_pending
joins = refl

redeem-sound_example :
    (i : PlatformInvitation) × Open (1 ∷ codes "tok") 100 i invited × Marked i.id 9 100 run.1
unfolding trim_space is_space
redeem-sound_example =
    redeem_sound letters no_text no_text ascii marked [] passwords sessions none hooks [] no_ids
      none nothing (fresh_at 100 9 (codes "new")) (codes " tok") (codes "Bo") (codes "abc1") [] []
      [] invited run.1 joined joins
