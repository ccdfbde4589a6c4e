-- ===== src/Tests/Codes.antt =====
-- One-time codes at concrete inputs.
use mathlib.Core.List.{Mem}
use authpad.Prelude.{
  ◌≡◌, ◌≢◌, ◌<◌, ◌≤◌, refl, true, false, Option, none, some, [], ◌∷◌, Text, codes, arith, find,
  count,
}
use authpad.Prelude.Strings.{trim_space, byte_len, is_space, text_eq, to_lower}
use authpad.Db.Rows.{Uuid, MagicLinkCode, Membership, Session, is_active}
use authpad.Db.World.{World, Result, ok, Action, statement}
use authpad.Session.Service.{SessionConfig, issue_session_token}
use authpad.Session.Repo as Sessions
use authpad.User.Repo as Users
use authpad.Redirect.{Url, normalize_origin, origin_of, effective_port}
use authpad.MagicLink.Repo
use authpad.MagicLink.Repo.{exchanges, is_unspent}
use authpad.MagicLink.Service.{valid_code_challenge}
use authpad.MagicLink.Codes.{
  MagicLinkExchange, exchange, settle_code, hand_over, hand_to, active_user, tenant_membership,
  origin_agrees, verifier_agrees, valid_code_verifier, is_malformed,
}
use authpad.MagicLink.Codes.Exchanged.{exchange_sound}
use authpad.MagicLink.Codes.SingleUse.{clean, perform_all, has_code_hash, exchange-once}
use authpad.Tests.Fixtures.{ascii, marked, fresh_at, empty_world, no_auth, ada}

-- `url.Parse`, of the one site.
abbrev site : Text → Option Url
site raw = some (record {
  scheme = codes "https";
  opaque = [];
  has_user = false;
  host = codes "app";
  hostname = codes "app";
  port = [];
  path = [];
  raw_query = [];
  fragment = [];
  text = raw;
})

abbrev session_config : SessionConfig
session_config = record {
  ttl = 1000;
  idle_timeout = 0;
  staff_idle_timeout = 0;
  max_lifetime = 0;
  rotate_interval = 0;
}

abbrev verifier : Text
verifier = codes "aaaaaaaaaaaaaaaaaaaaaaaaaaaaaaaaaaaaaaaaaaa"

abbrev code_row : MagicLinkCode
code_row = record {
  id = 1;
  code_hash = 1 ∷ codes "code";
  session_id = 5;
  organization_id = 3;
  redirect_origin = codes "https://app:443";
  code_challenge = verifier;
  created_at = 10;
  expires_at = 100;
  consumed_at = none;
}

abbrev session : Session
session = record {
  id = 5;
  user_id = 7;
  token_hash = [];
  ip_address = [];
  user_agent = [];
  created_at = 10;
  expires_at = 1010;
  last_active_at = 10;
  revoked = false;
  mfa_pending = false;
  active_organization_id = none;
  staff = false;
}

abbrev one_code : World
one_code = record empty_world {
  auth = record no_auth { users = ada ∷ []; sessions = session ∷ []; magic_codes = code_row ∷ [] };
}

abbrev no_members : Option (Uuid → Uuid → Action (Option Membership))
no_members = none

no_members-reads :
    (lookup : Uuid → Uuid → Action (Option Membership))
    → no_members ≡ some lookup
    → (org user : Uuid) (w : World) → (lookup org user w).1.auth ≡ w.auth
no_members-reads lookup e = cc

abbrev run_exchange : Text → World → Result MagicLinkExchange × World
run_exchange origin =
    exchange ascii site marked session_config no_members (fresh_at 20 9 (codes "new"))
      (codes "code") origin verifier

abbrev exchanged : MagicLinkExchange
exchanged = record {
  session_token = codes "new";
  expires_at = 1010;
  user = ada;
  org_id = none;
  is_member = false;
  role = [];
  mfa_pending = false;
}

run_exchange-ok :
    run_exchange (codes "https://app") one_code
    ≡ (ok exchanged, (run_exchange (codes "https://app") one_code).1)
unfolding exchange settle_code hand_over hand_to active_user tenant_membership origin_agrees
    verifier_agrees valid_code_verifier valid_code_challenge normalize_origin origin_of
    effective_port issue_session_token Sessions.issue_token Users.get_by_id Repo.consume_code
    statement trim_space is_space byte_len text_eq to_lower is_active
run_exchange-ok = refl

exchange-sound_example :
    (r : MagicLinkCode) × Mem r one_code.auth.magic_codes
    × (r.code_hash ≡ marked.hash_token (codes "code"))
    × (is_unspent r.consumed_at ≡ true)
    × (20 < r.expires_at)
    × (normalize_origin ascii site (codes "https://app") ≡ some r.redirect_origin)
    × (marked.pkce_challenge verifier ≡ r.code_challenge)
    × (valid_code_verifier verifier ≡ true)
    × (is_active (exchanged.user).status ≡ true)
exchange-sound_example =
    exchange_sound ascii site marked session_config no_members (fresh_at 20 9 (codes "new"))
      (codes "code") (codes "https://app") verifier one_code
      (run_exchange (codes "https://app") one_code).1 exchanged run_exchange-ok

well_formed :
    is_malformed ascii site marked session_config no_members (codes "code") verifier ≡ false
unfolding byte_len valid_code_verifier
well_formed = refl

unique_code : count (has_code_hash (marked.hash_token (codes "code"))) one_code.auth.magic_codes ≤ 1
unfolding text_eq
unique_code = ground arith

there :
    find (exchanges (marked.hash_token (codes "code")) 20) one_code.auth.magic_codes ≡ some code_row
unfolding text_eq
there = refl

-- The first exchange names a wrong origin.
exchange-once_example :
    exchange ascii site marked session_config no_members
      (fresh_at 30 10 (codes "newer"))
      (codes "code")
      (codes "https://app")
      verifier
      (perform_all ascii site marked session_config no_members no_members-reads
        (clean 5 ∷ [])
        (run_exchange [] one_code).1)
    ≢ (ok exchanged, empty_world)
exchange-once_example =
    exchange-once ascii site marked session_config no_members no_members-reads
      (fresh_at 20 9 (codes "new")) (codes "code") [] verifier one_code code_row (clean 5 ∷ [])
      (fresh_at 30 10 (codes "newer")) (codes "https://app") verifier exchanged empty_world
      well_formed refl unique_code there (tt, tt)
