-- ===== src/Org/Structure.antt =====
-- internal/service/org_service.go, lines 221 to 250, 772 to 980: an organization's profile, roles,
-- departments, levels and lists.
pub mod Managed
use authpad.Prelude.{
  ℕ, Bool, true, false, not, Option, none, some, List, [], ◌∷◌, Text, text_eq, ltb, ◌==◌,
  if◌then◌else◌,
}
use authpad.Prelude.Strings.{Unicode, trim_space}
use authpad.Crypto.{Crypto, Fresh}
use authpad.Redirect.{is_empty}
use authpad.Db.Rows.{Uuid, Organization, Membership, Invitation, OrgName}
use authpad.Db.World.{
  World, Result, ok, err, Error, Action, ◌>>=◌, ◌>>◌, pure, raise, or_fail, needs, fail_if,
  tenancy_disabled, org_not_found, invalid_org_role, org_role_exists, org_name_taken,
  org_role_reserved, name_required, invite_invalid, unique_violation,
}
use authpad.Org.Repo
use authpad.Org.Names
use authpad.Org.Slug.{is_role_name}
use authpad.Org.Members.{
  TenancyConfig, owner, admin, trim_lower, get_by_slug, require_member, require_role,
}

-- `isUniqueViolation`
unfoldable pub is_unique_violation : Error → Bool
is_unique_violation unique_violation = true
is_unique_violation _ = false

-- `if isUniqueViolation(err) { return x }`
unfoldable pub on_clash : {A : Type 0} → Error → Action A → Action A
on_clash x m w =
    let (r, w') = m w in
    elim r [ ok a ↦ (ok a, w') | err e ↦ (err (if is_unique_violation e then x else e), w') ]

-- A row of a name, under the id and the instant of the operation.
abbrev pub org_name : Fresh → Uuid → Text → Text → OrgName
org_name fresh org name description = record {
  id = fresh.id;
  organization_id = org;
  name = name;
  description = description;
  created_at = fresh.now;
}

-- An empty text stands for the other one.
abbrev pub or_default : Text → Text → Text
or_default s d = if is_empty s then d else s

-- `CreateDepartment` of the service, for an organization's id.
unfoldable pub create_department : Fresh → Uuid → Text → Action OrgName
create_department fresh org name = do
  fail_if (is_empty (trim_space name)) name_required
  let d = org_name fresh org (trim_space name) []
  on_clash org_name_taken (Names.create_department d)
  pure d

-- `CreateLevel` of the service
unfoldable pub create_level : Fresh → Uuid → Text → Action OrgName
create_level fresh org name = do
  fail_if (is_empty (trim_space name)) name_required
  let l = org_name fresh org (trim_space name) []
  on_clash org_name_taken (Names.create_level l)
  pure l

module _ (u : Unicode) (cfg : TenancyConfig) (parse_uuid : Text → Option Uuid) where
  -- The organization of the slug, whose members the actor is one of.
  unfoldable pub as_member : Text → Uuid → Action Organization
  as_member slug actor = do
    org ← get_by_slug u cfg parse_uuid slug
    require_member u cfg parse_uuid org.id actor
    pure org

  -- The organization of the slug, in which the actor has one of the roles.
  unfoldable pub as_role : List Text → Text → Uuid → Action Organization
  as_role roles slug actor = do
    org ← get_by_slug u cfg parse_uuid slug
    require_role u cfg parse_uuid org.id actor roles
    pure org

  abbrev pub managers : List Text
  managers = owner ∷ admin ∷ []

  -- `Update`; no metadata leaves what is stored.
  unfoldable pub update : Text → Uuid → Text → Text → Option Text → ℕ → Action (Unit {0})
  update slug actor name image_url metadata now = do
    org ← as_role managers slug actor
    Names.update_org slug (if is_empty (trim_space name) then org.name else name)
        (or_default image_url org.image_url) (elim metadata [ none ↦ org.metadata | some m ↦ m ])
        now

  -- `ListMembers`
  unfoldable pub list_members : Text → Uuid → Action (List Membership)
  list_members slug actor = do org ← as_member slug actor; Repo.list_members org.id

  -- `GetByID`
  unfoldable pub get_by_id : Uuid → Action Organization
  get_by_id id = do
    fail_if (not cfg.enabled) tenancy_disabled
    found ← Repo.get_by_id id
    needs found org_not_found

  -- `HasMembership`
  unfoldable pub has_membership : Uuid → Action Bool
  has_membership user =
      if not cfg.enabled then pure false else (Repo.count_memberships user >>= λ n. pure (ltb 0 n))

  -- `CreateRole` of the service
  unfoldable pub create_role : Fresh → Uuid → Text → Text → Action OrgName
  create_role fresh org name description = do
    fail_if (not cfg.enabled) tenancy_disabled
    let role_name = trim_lower u cfg parse_uuid name
    fail_if (text_eq role_name owner) org_role_reserved
    fail_if (not (is_role_name role_name)) invalid_org_role
    let role = org_name fresh org role_name (or_default (trim_space description) role_name)
    on_clash org_role_exists (Names.create_role role)
    pure role

  -- `ListRoles`
  unfoldable pub list_roles : Text → Uuid → Action (List OrgName)
  list_roles slug actor = do org ← as_member slug actor; Names.list_roles org.id

  -- `CreateRoleForActor`
  unfoldable pub create_role_for_actor : Fresh → Text → Uuid → Text → Text → Action OrgName
  create_role_for_actor fresh slug actor name description = do
    org ← as_role (owner ∷ []) slug actor
    create_role fresh org.id name description

  -- `ListDepartments`
  unfoldable pub list_departments : Text → Uuid → Action (List OrgName)
  list_departments slug actor = do org ← as_member slug actor; Names.list_departments org.id

  -- `CreateDepartmentForActor`
  unfoldable pub create_department_for_actor : Fresh → Text → Uuid → Text → Action OrgName
  create_department_for_actor fresh slug actor name = do
    org ← as_role managers slug actor
    create_department fresh org.id name

  -- `DeleteDepartment`
  unfoldable pub delete_department : Text → Uuid → Uuid → Action (Unit {0})
  delete_department slug actor id = do
    org ← as_role managers slug actor
    n ← Names.delete_department org.id id
    fail_if (n == 0) org_not_found

  -- `ListLevels`
  unfoldable pub list_levels : Text → Uuid → Action (List OrgName)
  list_levels slug actor = do org ← as_member slug actor; Names.list_levels org.id

  -- `CreateLevelForActor`
  unfoldable pub create_level_for_actor : Fresh → Text → Uuid → Text → Action OrgName
  create_level_for_actor fresh slug actor name = do
    org ← as_role managers slug actor
    create_level fresh org.id name

  -- `DeleteLevel`
  unfoldable pub delete_level : Text → Uuid → Uuid → Action (Unit {0})
  delete_level slug actor id = do
    org ← as_role managers slug actor
    n ← Names.delete_level org.id id
    fail_if (n == 0) org_not_found

  -- `ListInvitations`
  unfoldable pub list_invitations : Text → Uuid → Action (List Invitation)
  list_invitations slug actor = do org ← as_role managers slug actor; Names.list_invitations org.id
