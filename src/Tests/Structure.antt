-- ===== src/Tests/Structure.antt =====
-- Making and structuring organizations, at concrete inputs.
use authpad.Prelude.{◌≡◌, ◌⊎◌, refl, true, Option, none, some, [], ◌∷◌, Text, codes}
use authpad.Prelude.Strings.{text_eq, trim_space, is_space, to_lower, equal_fold}
use authpad.Db.Rows.{Uuid, Membership, Organization, OrgName, Status, is_active}
use authpad.Db.World.{World, Result, ok, statement}
use authpad.Org.Repo
use authpad.Org.Names
use authpad.Org.Members.{
  TenancyConfig, owner, admin, check_membership_limit, get_by_slug, require_member, require_role,
}
use authpad.Org.Slug.{is_slug, is_role_name, normalize_slug, trim_left, trim_right, shorten}
use authpad.Org.Slug.Shape.{normalize_slug-is_slug}
use authpad.Org.Structure.{as_role, delete_department, create_role, create_role_for_actor, on_clash}
use authpad.Org.Structure.Managed.{
  MayManage, Detached, Made, delete_department_sound, create_role_for_actor_sound,
}
use authpad.Org.Setup.{
  Joined, create, wanted_slug, make_org, furnish, seed_roles, seed_extra_roles, seed_extra_role,
  seed_role_defs, is_passed_over, found_named, complete_on_signup, new_org,
}
use authpad.Org.Setup.Created.{Founded, IsNew, create_sound}
use authpad.Org.Setup.Signup.{Settled, complete_on_signup-required}
use authpad.Tests.Fixtures.{ascii, marked, fresh_at, empty_world, no_idp, acme}

abbrev tenancy : TenancyConfig
tenancy = record {
  enabled = true;
  allow_create_organization = true;
  require_on_signup = true;
  org_roles = [];
  default_org_role = [];
  max_memberships_per_user = 0;
}

abbrev no_uuid : Text → Option Uuid
no_uuid _ = none

abbrev sales : OrgName
sales = record {
  id = 50;
  organization_id = 3;
  name = codes "Sales";
  description = [];
  created_at = 1;
}

abbrev boss : Membership
boss = record {
  id = 7;
  organization_id = 3;
  user_id = 7;
  role = owner;
  status = Status.active;
  department_id = some 50;
  level_id = none;
  created_at = 1;
}

abbrev structured : World
structured = record empty_world {
  idp = record no_idp {
    organizations = acme ∷ [];
    memberships = boss ∷ [];
    departments = sales ∷ [];
  };
}

normalize_slug-is_slug_example :
    (normalize_slug ascii (codes " -Acme Corp! ") ≡ [])
    ⊎ (is_slug (normalize_slug ascii (codes " -Acme Corp! ")) ≡ true)
normalize_slug-is_slug_example = normalize_slug-is_slug ascii (codes " -Acme Corp! ")

abbrev deleted : Result (Unit {0}) × World
deleted = delete_department ascii tenancy no_uuid (codes "acme") 7 50 structured

deleted-ok : deleted ≡ (ok tt, deleted.1)
unfolding delete_department as_role get_by_slug require_role require_member Repo.get_by_slug
    Repo.get_membership Names.delete_department statement is_active equal_fold text_eq
deleted-ok = refl

delete_department-sound_example :
    (org : Organization) × MayManage ascii tenancy no_uuid
      (owner ∷ admin ∷ [])
      (codes "acme")
      7
      org
      structured
    × Detached ascii tenancy no_uuid org.id 50 deleted.1
delete_department-sound_example =
    delete_department_sound ascii tenancy no_uuid (codes "acme") 7 50 structured deleted.1
      deleted-ok

abbrev auditor : OrgName
auditor = record {
  id = 60;
  organization_id = 3;
  name = codes "auditor";
  description = codes "auditor";
  created_at = 20;
}

abbrev made : Result OrgName × World
made =
    create_role_for_actor ascii tenancy no_uuid (fresh_at 20 60 []) (codes "acme") 7
      (codes " Auditor") [] structured

made-ok : made ≡ (ok auditor, made.1)
unfolding create_role_for_actor create_role as_role get_by_slug require_role require_member on_clash
    Repo.get_by_slug Repo.get_membership Names.create_role statement is_active is_role_name
    equal_fold text_eq trim_space is_space to_lower
made-ok = refl

create_role_for_actor-sound_example :
    (org : Organization) × MayManage ascii tenancy no_uuid
      (owner ∷ [])
      (codes "acme")
      7
      org
      structured
    × (auditor.organization_id ≡ org.id)
    × Made ascii tenancy no_uuid auditor made.1
create_role_for_actor-sound_example =
    create_role_for_actor_sound ascii tenancy no_uuid (fresh_at 20 60 []) (codes "acme") 7
      (codes " Auditor") [] structured made.1 auditor made-ok

abbrev ids : Text → Uuid
ids name = 90

abbrev globex : Organization
globex = new_org (fresh_at 30 4 []) (some 7) (codes "Globex") (codes "globex") (codes "null")

abbrev founded : Result Organization × World
founded =
    create ascii tenancy no_uuid ids (fresh_at 30 4 []) 7 (codes "Globex ") [] (codes "null")
      structured

founded-ok : founded ≡ (ok globex, founded.1)
unfolding create wanted_slug make_org furnish seed_roles seed_extra_roles seed_extra_role
    seed_role_defs is_passed_over check_membership_limit on_clash Repo.create Repo.add_membership
    Names.seed_default_roles statement is_slug normalize_slug trim_left trim_right shorten text_eq
    trim_space is_space to_lower
founded-ok = refl

create-sound_example :
    (tenancy.enabled ≡ true)
    × (tenancy.allow_create_organization ≡ true)
    × (is_slug globex.slug ≡ true)
    × IsNew ascii tenancy no_uuid ids globex structured
    × Founded ascii tenancy no_uuid ids 7 globex founded.1
create-sound_example =
    create_sound ascii tenancy no_uuid ids (fresh_at 30 4 []) 7 (codes "Globex ") [] (codes "null")
      structured founded.1 globex founded-ok

abbrev no_extras : Text → Option Uuid × Option Uuid
no_extras _ = (none, none)

abbrev signed_up : Result (Option Joined) × World
signed_up =
    complete_on_signup ascii tenancy no_uuid ids marked 0 none no_extras (fresh_at 30 4 []) 7
      (codes "Globex ") [] [] structured

signed_up-ok : signed_up ≡ (ok (some (record { org = globex; role = owner })), signed_up.1)
unfolding complete_on_signup found_named create wanted_slug make_org furnish seed_roles
    seed_extra_roles seed_extra_role seed_role_defs is_passed_over check_membership_limit on_clash
    Repo.create Repo.add_membership Names.seed_default_roles statement is_slug normalize_slug
    trim_left trim_right shorten text_eq trim_space is_space to_lower
signed_up-ok = refl

complete_on_signup-required_example :
    Settled ascii tenancy no_uuid ids marked 0 none no_extras 7 []
      (some (record { org = globex; role = owner }))
      structured
      signed_up.1
complete_on_signup-required_example =
    complete_on_signup-required ascii tenancy no_uuid ids marked 0 none no_extras (fresh_at 30 4 [])
      7 (codes "Globex ") [] [] structured signed_up.1
      (some (record { org = globex; role = owner })) refl refl signed_up-ok
