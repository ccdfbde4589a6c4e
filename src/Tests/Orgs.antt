-- ===== src/Tests/Orgs.antt =====
-- Organizations at concrete inputs.
use mathlib.Core.List.{Mem}
use authpad.Prelude.{◌≡◌, ◌≤◌, refl, true, Option, none, some, [], ◌∷◌, Text, codes, count, arith}
use authpad.Prelude.Strings.{text_eq, trim_space, is_space, to_lower}
use authpad.Db.Rows.{Uuid, Membership, Invitation, Organization, Status, is_active}
use authpad.Db.World.{World, Result, ok, statement}
use authpad.Org.Repo
use authpad.Org.Repo.{is_of}
use authpad.Org.Members.{TenancyConfig, check_membership_limit}
use authpad.Org.Members.Context.{owners_of}
use authpad.Org.Members.Rows.{Trimmed}
use authpad.Org.Members.Owners.{remove, manage, manage-keeps_owner}
use authpad.Org.Invites.{accept_invite, join, refusal, existing, mark_accepted}
use authpad.Org.Invites.Accepted.{accept_invite_sound}
use authpad.Tests.Fixtures.{ascii, marked, fresh_at, empty_world, no_idp, acme}

abbrev tenancy : TenancyConfig
tenancy = record {
  enabled = true;
  allow_create_organization = true;
  require_on_signup = true;
  org_roles = [];
  default_org_role = [];
  max_memberships_per_user = 0;
}

abbrev no_uuid : Text → Option Uuid
no_uuid _ = none

abbrev member : Uuid → Text → Membership
member user role = record {
  id = user;
  organization_id = 3;
  user_id = user;
  role = role;
  status = Status.active;
  department_id = none;
  level_id = none;
  created_at = 1;
}

abbrev invitation : Invitation
invitation = record {
  id = 1;
  organization_id = 3;
  email = codes "ada@example.org";
  role = codes "member";
  token_hash = 1 ∷ codes "inv";
  payload = [];
  expires_at = 100;
  invited_by = none;
  accepted_at = none;
  revoked_at = none;
  created_at = 1;
}

abbrev acme_world : World
acme_world = record empty_world {
  idp = record no_idp {
    organizations = acme ∷ [];
    memberships = member 7 (codes "owner") ∷ member 8 (codes "Owner") ∷ [];
    invitations = invitation ∷ [];
  };
}

roles-Trimmed : Trimmed ascii tenancy no_uuid acme_world.idp.memberships
unfolding trim_space is_space text_eq
roles-Trimmed = refl

one_each : (org : Uuid) → count (is_of org 8) acme_world.idp.memberships ≤ 1
one_each org = ground arith

owned : 1 ≤ owners_of ascii tenancy no_uuid 3 acme_world
unfolding text_eq to_lower is_active
owned = ground arith

-- The one owner removes the other.
manage-keeps_owner_example :
    1
    ≤ owners_of ascii tenancy no_uuid 3
        (manage ascii tenancy no_uuid (codes "acme") 7 8 remove acme_world)
manage-keeps_owner_example =
    manage-keeps_owner ascii tenancy no_uuid (codes "acme") 7 8 remove acme_world 3 roles-Trimmed
      one_each owned

abbrev no_extras : Text → Option Uuid × Option Uuid
no_extras _ = (none, none)

abbrev run_accept : World → Result (Option Organization) × World
run_accept =
    accept_invite ascii tenancy no_uuid marked 0 none no_extras (fresh_at 20 9 []) (codes "inv ") 12

run_accept-ok : run_accept acme_world ≡ (ok (some acme), (run_accept acme_world).1)
unfolding accept_invite join refusal existing mark_accepted check_membership_limit
    Repo.get_invitation_by_token_hash Repo.add_membership Repo.accept_invitation Repo.get_by_id
    statement trim_space is_space text_eq
run_accept-ok = refl

accept_invite-sound_example :
    (true ≡ true)
    × ((i : Invitation) × Mem i acme_world.idp.invitations
        × (i.token_hash ≡ marked.hash_token (trim_space (codes "inv ")))
        × (i.revoked_at ≡ none)
        × (i.accepted_at ≡ none)
        × (20 ≤ i.expires_at))
accept_invite-sound_example =
    accept_invite_sound ascii tenancy no_uuid marked 0 none no_extras (fresh_at 20 9 [])
      (codes "inv ") 12 acme_world (run_accept acme_world).1 (some acme) run_accept-ok
