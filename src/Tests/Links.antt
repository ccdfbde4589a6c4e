-- ===== src/Tests/Links.antt =====
-- Links at concrete inputs.
use mathlib.Core.List.{Mem}
use authpad.Prelude.{
  ℕ, ◌≡◌, ◌≢◌, ◌<◌, ◌≤◌, refl, Bool, true, false, Option, none, some, [], ◌∷◌, Text, codes, arith,
  count,
}
use authpad.Prelude.Strings.{trim_space, byte_len, text_eq}
use authpad.Db.Rows.{Credential, MagicLinkToken, Organization, is_active}
use authpad.Db.World.{World, Result, ok, Action, pure, statement}
use authpad.Db.Rules.{Obeys-pure}
use authpad.MagicLink.Repo
use authpad.MagicLink.Repo.{is_unspent}
use authpad.MagicLink.Accounts.{MagicLinkAccounts}
use authpad.MagicLink.Service.{
  MagicLinkConfig, MagicLinkVerified, verify, redeem, sign_in, enter, admit,
  account_may_use_magic_link, org_filter,
}
use authpad.MagicLink.Service.Signed.{Apart, Ran, verify_sound}
use authpad.MagicLink.Service.SingleUse.{clean, perform_all, verify-once}
use authpad.MagicLink.Service.Signed.{has_hash}
use authpad.MagicLink.Service.Tenant.{verify-other_tenant}
use authpad.MagicLink.Accounts.{find_or_create, is_staff, has_password, db_accounts}
use authpad.MagicLink.Passwords.Refused.{verify-other_password}
use authpad.User.Account.{SignupHooks}
use authpad.User.Repo as Users
use authpad.Session.Service.{StaffFunc}
use authpad.Db.World.{err, magic_link_invalid}
use authpad.Prelude.{Bool, true, false, not, ◌&&◌, ◌==◌, all}
use authpad.Prelude.Strings.{is_space, to_lower}
use authpad.Tests.Fixtures.{ascii, marked, fresh_at, empty_world, no_auth, ada, acme}

abbrev link_config : MagicLinkConfig
link_config = record {
  base_url = codes "https://auth.example.org";
  api_base_path = [];
  redirect_allowlist = [];
  ttl = 0;
  email_limit = 5;
  ip_limit = 20;
  limit_window = 0;
  code_flow = true;
  exchange_limit = 0;
  allow_password_accounts = false;
}

abbrev link : MagicLinkToken
link = record {
  id = 1;
  token_hash = 1 ∷ codes "tok";
  organization_id = 3;
  email = codes "ada@example.org";
  redirect_to = [];
  code_challenge = [];
  created_at = 10;
  expires_at = 100;
  consumed_at = none;
}

abbrev one_link : World
one_link = record empty_world { auth = record no_auth { magic_tokens = link ∷ [] } }

abbrev no_redirect : Text → Bool
no_redirect _ = false

abbrev always_acme : Text → Action (Option Organization)
always_acme _ = pure (some acme)

abbrev shown : ℕ → Text
shown n = n ∷ []

abbrev known_accounts : MagicLinkAccounts
known_accounts = record {
  find_or_create = λ fresh email. pure (some (record { user = ada; created = false }));
  is_staff = λ user. pure false;
  has_password = λ user. pure false;
  take_over = λ user now. pure tt;
}

abbrev run_verify : World → Result MagicLinkVerified × World
run_verify =
    verify marked link_config no_redirect always_acme shown known_accounts (fresh_at 20 9 [])
      (codes " tok") []

abbrev signed_in : MagicLinkVerified
signed_in = record {
  user = ada;
  organization = acme;
  redirect_to = [];
  code_challenge = [];
  created = false;
}

known_accounts-Apart : Apart marked link_config no_redirect always_acme shown known_accounts
known_accounts-Apart = record {
  tenants = λ t. Obeys-pure _;
  finds = λ fresh email. Obeys-pure _;
  staff = λ user. Obeys-pure _;
  password = λ user. Obeys-pure _;
  takes = λ user now. Obeys-pure _;
}

run_verify-ok : run_verify one_link ≡ (ok signed_in, (run_verify one_link).1)
unfolding verify redeem sign_in enter admit account_may_use_magic_link org_filter Repo.consume
    statement trim_space byte_len is_active text_eq
run_verify-ok = refl

verify-sound_example :
    (t : MagicLinkToken) × Mem t one_link.auth.magic_tokens
    × (t.token_hash ≡ marked.hash_token (trim_space (codes " tok")))
    × (is_unspent t.consumed_at ≡ true)
    × (20 < t.expires_at)
    × Ran marked link_config no_redirect always_acme shown known_accounts known_accounts-Apart
        (fresh_at 20 9 [])
        (codes " tok")
        []
        t
        signed_in
        one_link
        (run_verify one_link).1
verify-sound_example =
    verify_sound marked link_config no_redirect always_acme shown known_accounts
      known_accounts-Apart (fresh_at 20 9 []) (codes " tok") [] one_link (run_verify one_link).1
      signed_in run_verify-ok

unique_link :
    count
      (λ t. text_eq t.token_hash (marked.hash_token (trim_space (codes " tok"))))
      one_link.auth.magic_tokens
    ≤ 1
unfolding text_eq trim_space
unique_link = ground arith

verify-once_example :
    verify marked link_config no_redirect always_acme shown known_accounts
      (fresh_at 30 10 [])
      (codes " tok")
      []
      (perform_all marked link_config no_redirect always_acme shown known_accounts
        known_accounts-Apart
        (clean 5 ∷ [])
        (run_verify one_link).1)
    ≢ (ok signed_in, empty_world)
verify-once_example =
    verify-once marked link_config no_redirect always_acme shown known_accounts known_accounts-Apart
      (fresh_at 20 9 []) (codes " tok") [] one_link (run_verify one_link).1 signed_in (clean 5 ∷ [])
      (fresh_at 30 10 []) [] signed_in empty_world run_verify-ok unique_link (tt, tt)

abbrev globex : Organization
globex = record acme { id = 4; slug = codes "globex" }

abbrev always_globex : Text → Action (Option Organization)
always_globex _ = pure (some globex)

named : (byte_len (trim_space (codes "globex")) == 0) ≡ false
unfolding byte_len trim_space is_space
named = refl

elsewhere :
    all
      (λ t.
        not (has_hash (marked.hash_token (trim_space (codes "tok"))) t && t.organization_id == 4))
      one_link.auth.magic_tokens
    ≡ true
unfolding text_eq trim_space is_space
elsewhere = refl

verify-other_tenant_example :
    (w' : World) × (w'.auth.magic_tokens ≡ one_link.auth.magic_tokens)
    × (verify marked link_config no_redirect always_globex shown known_accounts
          (fresh_at 20 9 [])
          (codes "tok")
          (codes "globex")
          one_link
        ≡ (err magic_link_invalid, w'))
verify-other_tenant_example =
    verify-other_tenant marked link_config no_redirect always_globex shown known_accounts
      (fresh_at 20 9 []) (codes "tok") (codes "globex") one_link one_link globex named refl refl
      elsewhere

-- Ada has no password, and the user 8 has one.
abbrev no_hooks : SignupHooks
no_hooks = record { has_idp = false; on_signup = none }

abbrev nobody : StaffFunc
nobody user = pure false

abbrev other_password : Credential
other_password = record {
  id = 30;
  user_id = 8;
  password_hash = codes "hash";
  hash_version = 2;
  created_at = 1;
  updated_at = 1;
}

abbrev with_password : World
with_password = record empty_world {
  auth = record no_auth {
    users = ada ∷ [];
    credentials = other_password ∷ [];
    magic_tokens = link ∷ [];
  };
}

abbrev opened : Result MagicLinkVerified × World
opened =
    verify marked link_config no_redirect always_acme shown
      (db_accounts ascii no_hooks false (some nobody)) (fresh_at 20 9 []) (codes " tok") []
      with_password

opened-ok : opened ≡ (ok signed_in, opened.1)
unfolding verify redeem sign_in enter admit account_may_use_magic_link org_filter find_or_create
    is_staff has_password Users.get_by_email_fold Users.get_credential Repo.consume statement
    trim_space is_space to_lower byte_len is_active text_eq
opened-ok = refl

verify-other_password_example : signed_in.user.id ≢ 8
verify-other_password_example =
    verify-other_password marked link_config no_redirect always_acme shown ascii no_hooks false
      (some nobody) 8 (λ t. Obeys-pure _) tt (λ id. Obeys-pure _) refl (fresh_at 20 9 [])
      (codes " tok") [] with_password opened.1 signed_in (λ e. omega arith) refl opened-ok
