-- ===== src/Tests/Sessions.antt =====
-- Sessions at concrete inputs.
use mathlib.Core.List.{Mem}
use authpad.Prelude.{
  ℕ, ◌+◌, ◌≡◌, ◌≢◌, ◌<◌, refl, Bool, true, false, none, List, [], ◌∷◌, Text, codes,
}
use authpad.Prelude.Strings.{text_eq, trim_space, is_space, to_lower}
use authpad.Db.Rows.{Uuid, Session, is_locked}
use authpad.Db.World.{World, Result, ok, statement}
use authpad.Session.Repo
use authpad.User.Repo as Users
use authpad.Session.Service.{
  SessionConfig, get_session_by_token, judge, is_idle, is_outlived, reads_locked,
  session_idle_limit, StaffFunc, create_session_with_ttl, session_expiry, effective_ttl,
}
use authpad.Session.Service.Checks.{StaffActive, UserActive, Young, get_session_by_token_sound}
use authpad.Session.Service.{day, rotate_session}
use authpad.Prelude.{◌*◌, Option, some}
use authpad.Tests.Fixtures.{fresh_at}
use authpad.Session.Service.Expiry.{session_expiry-uncapped}
use authpad.Session.Revocation.{
  SessionOp, check, create, perform, perform_all, revoked_for_good, Dead,
}
use authpad.Org.Members.{TenancyConfig, is_staff_member}
use authpad.Org.Repo.{has_active_role_in}
use authpad.User.Roles.{has_role}
use authpad.Org.Staff.{ask_orgs, staff_classifier, staff_classifier-Obeys}
use authpad.Tests.Fixtures.{ascii, marked, empty_world, no_auth, ada}

abbrev config : SessionConfig
config = record {
  ttl = 1000;
  idle_timeout = 50;
  staff_idle_timeout = 20;
  max_lifetime = 500;
  rotate_interval = 0;
}

abbrev session : ℕ → Text → Bool → Session
session id hash revoked = record {
  id = id;
  user_id = 7;
  token_hash = hash;
  ip_address = [];
  user_agent = [];
  created_at = 10;
  expires_at = 1010;
  last_active_at = 10;
  revoked = revoked;
  mfa_pending = false;
  active_organization_id = none;
  staff = false;
}

abbrev live : Session
live = session 5 (1 ∷ codes "live") false

abbrev two_sessions : World
two_sessions = record empty_world {
  auth = record no_auth {
    users = ada ∷ [];
    sessions = live ∷ session 6 (1 ∷ codes "dead") true ∷ [];
  };
}

abbrev run_check : World → Result Session × World
run_check = get_session_by_token marked config (codes "live") 30

run_check-ok : run_check two_sessions ≡ (ok live, (run_check two_sessions).1)
unfolding get_session_by_token judge is_idle is_outlived reads_locked session_idle_limit is_locked
    Repo.get_by_token_hash Repo.update_last_active Users.get_by_id statement text_eq
run_check-ok = refl

get_session_by_token-sound_example :
    Mem live two_sessions.auth.sessions
    × (live.token_hash ≡ marked.hash_token (codes "live"))
    × (live.revoked ≡ false)
    × (30 < live.expires_at)
    × StaffActive config 30 live
    × UserActive config 30 live
    × Young config 30 live
get_session_by_token-sound_example =
    get_session_by_token_sound marked config (codes "live") 30 two_sessions
      (run_check two_sessions).1 live run_check-ok

abbrev tenancy : TenancyConfig
tenancy = record {
  enabled = true;
  allow_create_organization = true;
  require_on_signup = false;
  org_roles = [];
  default_org_role = [];
  max_memberships_per_user = 0;
}

abbrev no_uuid : Text → Option Uuid
no_uuid _ = none

-- The classifier that the server wires.
abbrev wired : StaffFunc
wired = staff_classifier ascii tenancy no_uuid true true (codes "admin") []

-- The token is checked once before, and another session is created.
abbrev before : List SessionOp
before = check (codes "live") 20 ∷ create (fresh_at 25 8 (codes "more")) 7 [] [] 0 ∷ []

abbrev checked_before : World
checked_before = perform_all marked config (some wired) before two_sessions

run_later-ok :
    run_check checked_before
    ≡ (ok (record live { last_active_at = 20 }), (run_check checked_before).1)
unfolding get_session_by_token judge is_idle is_outlived reads_locked session_idle_limit is_locked
    Repo.get_by_token_hash Repo.update_last_active Users.get_by_id statement text_eq perform
    perform_all create_session_with_ttl staff_classifier ask_orgs is_staff_member has_role
    has_active_role_in trim_space is_space to_lower Repo.create session_expiry effective_ttl
run_later-ok = refl

six-Dead : Dead 6 two_sessions.auth.sessions
six-Dead = (refl, refl)

revoked_for_good_example : (record live { last_active_at = 20 }).id ≢ 6
revoked_for_good_example =
    revoked_for_good marked config (some wired) before two_sessions (run_check checked_before).1 6
      (codes "live") 30 (record live { last_active_at = 20 })
      (staff_classifier-Obeys ascii tenancy no_uuid true true (codes "admin") []) six-Dead
      run_later-ok

session_expiry-uncapped_example : session_expiry config 2000 10 ≡ 10 + effective_ttl config 2000
session_expiry-uncapped_example = session_expiry-uncapped config 2000 10

abbrev rotating : SessionConfig
rotating = record config { ttl = 20 * day; rotate_interval = 5 }

abbrev rotation : Result (Option Text × Session) × World
rotation = rotate_session marked rotating (fresh_at 100 9 (codes "new")) live two_sessions

abbrev live_later : Session
live_later = record live { expires_at = 100 + 20 * day }
