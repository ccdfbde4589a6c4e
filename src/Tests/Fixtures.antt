-- ===== src/Tests/Fixtures.antt =====
-- Worlds, keys and users for the tests.
use authpad.Prelude.{ℕ, true, false, none, some, [], ◌∷◌, Text, codes}
use authpad.Prelude.Strings.{Unicode}
use authpad.Crypto.{Crypto, Fresh}
use authpad.Db.Rows.{UserAuth, Organization, Status}
use authpad.Db.World.{World, AuthDb, IdpDb}

abbrev pub ascii : Unicode
ascii = record {
  lower = λ c. c;
  fold = λ c. c;
  upper_letter = λ c. false;
  lower_letter = λ c. false;
  number = λ c. false;
  punct_or_symbol = λ c. false;
}

-- A token's hash is the token behind a mark; a challenge is its verifier.
abbrev pub marked : Crypto
marked = record {
  hash_token = λ t. 1 ∷ t;
  pkce_challenge = λ v. v;
  password_hash = λ p. some (2 ∷ p);
  password_verify = λ p h. some true;
  totp_validate = λ now code secret. false;
}

abbrev pub fresh_at : ℕ → ℕ → Text → Fresh
fresh_at now id token = record { now = now; id = id; token = some token }

abbrev pub no_auth : AuthDb
no_auth = record {
  users = [];
  credentials = [];
  sessions = [];
  factors = [];
  recovery_codes = [];
  reset_tokens = [];
  email_verifications = [];
  magic_tokens = [];
  magic_codes = [];
}

abbrev pub no_idp : IdpDb
no_idp = record {
  profiles = [];
  organizations = [];
  memberships = [];
  invitations = [];
  org_roles = [];
  departments = [];
  levels = [];
  platform_invitations = [];
  roles = [];
  user_roles = [];
}

abbrev pub empty_world : World
empty_world = record { auth = no_auth; idp = no_idp; outbox = []; faults = [] }

abbrev pub ada : UserAuth
ada = record {
  id = 7;
  email = codes "ada@example.org";
  email_verified = true;
  status = Status.active;
  created_at = 1;
  updated_at = 1;
  deleted_at = none;
}

abbrev pub acme : Organization
acme = record {
  id = 3;
  slug = codes "acme";
  name = codes "Acme";
  image_url = [];
  metadata = [];
  created_by = none;
  created_at = 1;
  updated_at = 1;
}
