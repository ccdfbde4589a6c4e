-- ===== src/Org/Members.antt =====
-- internal/service/org_service.go: who may do what in an organization, and its members.
pub mod Context
pub mod Rows
pub mod Owners
use authpad.Prelude.{
  ℕ, Bool, true, false, not, ◌&&◌, ◌||◌, Option, none, some, List, [], ◌∷◌, Text, codes, text_eq,
  ltb, leb, any, keep, map, ◌==◌, if◌then◌else◌,
}
use authpad.Prelude.Strings.{Unicode, trim_space, to_lower, equal_fold}
use authpad.Crypto.{Fresh}
use authpad.Redirect.{is_empty}
use authpad.Db.Rows.{Uuid, Organization, Membership, Status, is_active}
use authpad.Db.World.{
  World, Result, ok, err, Error, Action, ◌>>=◌, ◌>>◌, pure, raise, needs, fail_if, tenancy_disabled,
  org_not_found, not_org_member, org_forbidden, membership_limit, invalid_org_role,
  org_role_reserved, last_owner,
}
use authpad.Session.Repo as Sessions
use authpad.Org.Repo

-- `apptypes.RoleDefinition`
pub record RoleDefinition : Type 0 where
  pub name : Text
  pub description : Text

-- `apptypes.TenancyConfig`, as far as the service reads it.
pub record TenancyConfig : Type 0 where
  pub enabled : Bool
  pub allow_create_organization : Bool
  pub require_on_signup : Bool
  pub org_roles : List RoleDefinition
  pub default_org_role : Text
  pub max_memberships_per_user : ℕ

abbrev pub owner : Text
owner = codes "owner"

abbrev pub admin : Text
admin = codes "admin"

-- What `memberChangeContext` returns.
pub record MemberChange : Type 0 where
  pub org : Organization
  pub actor : Membership
  pub target : Membership
  pub owners : ℕ

-- `uuid.Parse` is a parameter.
module _ (u : Unicode) (cfg : TenancyConfig) (parse_uuid : Text → Option Uuid) where
  -- `strings.ToLower(strings.TrimSpace(s))`
  abbrev pub lower_trim : Text → Text
  lower_trim s = to_lower u (trim_space s)

  -- `strings.TrimSpace(strings.ToLower(s))`
  abbrev pub trim_lower : Text → Text
  trim_lower s = trim_space (to_lower u s)

  -- `HasOrgRole`
  unfoldable pub has_org_role : Uuid → Text → Action Bool
  has_org_role org role =
      if is_empty (trim_lower role) then pure false else Repo.role_exists org (trim_lower role)

  -- `defaultRole`
  unfoldable pub default_role : Text
  default_role =
      if is_empty (trim_lower cfg.default_org_role)
      then codes "member"
      else trim_lower cfg.default_org_role

  -- `checkMembershipLimit`
  unfoldable pub check_membership_limit : Uuid → Action (Unit {0})
  check_membership_limit user =
      if cfg.max_memberships_per_user == 0
      then pure tt
      else (Repo.count_memberships user >>= λ n.
          fail_if (leb cfg.max_memberships_per_user n) membership_limit)

  -- `GetBySlug`
  unfoldable pub get_by_slug : Text → Action Organization
  get_by_slug slug = do
    fail_if (not cfg.enabled) tenancy_disabled
    found ← Repo.get_by_slug slug
    needs found org_not_found

  -- `RequireMember`
  unfoldable pub require_member : Uuid → Uuid → Action Membership
  require_member org user = do
    found ← Repo.get_membership org user
    m ← needs found not_org_member
    fail_if (not (is_active m.status)) not_org_member
    pure m

  -- `RequireRole`
  unfoldable pub require_role : Uuid → Uuid → List Text → Action Membership
  require_role org user allowed = do
    m ← require_member org user
    fail_if (not (any (λ a. equal_fold u m.role a) allowed)) org_forbidden
    pure m

  -- The row that `AddMember` writes: a new one, or the existing one with a new role.
  abbrev membership_row : Fresh → Uuid → Uuid → Text → Option Membership → Membership
  membership_row fresh org user role none = record {
    id = fresh.id;
    organization_id = org;
    user_id = user;
    role = role;
    status = Status.active;
    department_id = none;
    level_id = none;
    created_at = fresh.now;
  }
  membership_row fresh org user role (some m) = record {
    id = m.id;
    organization_id = org;
    user_id = user;
    role = role;
    status = Status.active;
    department_id = m.department_id;
    level_id = m.level_id;
    created_at = m.created_at;
  }

  -- A new member takes a seat.
  unfoldable pub take_seat : Uuid → Option Membership → Action (Unit {0})
  take_seat user none = check_membership_limit user
  take_seat user (some _) = pure tt

  -- `AddMember`
  unfoldable pub add_member : Fresh → Uuid → Uuid → Text → Action (Option Membership)
  add_member fresh org user role = do
    fail_if (not cfg.enabled) tenancy_disabled
    known ← has_org_role org (trim_lower role)
    fail_if (not known) invalid_org_role
    existing ← Repo.get_membership org user
    take_seat user existing
    Repo.add_membership (membership_row fresh org user (trim_lower role) existing)
    Repo.get_membership org user

  -- `memberRoleDecision`: the error, if there is one.
  unfoldable pub member_role_decision : Text → Text → Text → ℕ → Option Error
  member_role_decision actor_role target_role next_role owner_count =
      let actor = lower_trim actor_role in
      let target = lower_trim target_role in
      let next = lower_trim next_role in
      if not (text_eq actor owner) && not (text_eq actor admin)
      then some org_forbidden
      else if text_eq next owner
      then some org_role_reserved
      else if text_eq target owner && not (text_eq next owner) && leb owner_count 1
      then some last_owner
      else if text_eq actor admin
          && (text_eq target owner || text_eq target admin || text_eq next admin)
      then some org_forbidden
      else none

  -- `if err := …; err != nil { return err }`
  abbrev pub refuse_if : Option Error → Action (Unit {0})
  refuse_if none = pure tt
  refuse_if (some e) = raise e

  -- `memberChangeContext`
  unfoldable pub member_change_context : Text → Uuid → Uuid → Action MemberChange
  member_change_context slug actor target = do
    org ← get_by_slug slug
    actor_m ← require_member org.id actor
    target_m ← require_member org.id target
    owners ← Repo.count_active_role u org.id owner
    pure (record { org = org; actor = actor_m; target = target_m; owners = owners })

  -- What `ChangeMemberRole` does in its context.
  unfoldable pub change_role_in : Uuid → Text → MemberChange → Action (Option Membership)
  change_role_in target role change = do
    refuse_if (member_role_decision (change.actor).role (change.target).role role change.owners)
    known ← has_org_role (change.org).id role
    fail_if (not known) invalid_org_role
    Repo.update_membership_role (change.org).id target role
    Repo.get_membership (change.org).id target

  -- `ChangeMemberRole`
  unfoldable pub change_member_role : Text → Uuid → Uuid → Text → Action (Option Membership)
  change_member_role slug actor target role =
      member_change_context slug actor target >>= change_role_in target (lower_trim role)

  -- What `RemoveMember` does in its context.
  unfoldable pub remove_in : Uuid → MemberChange → Action (Unit {0})
  remove_in target change = do
    refuse_if (member_role_decision (change.actor).role (change.target).role [] change.owners)
    n ← Repo.remove_membership (change.org).id target
    fail_if (n == 0) not_org_member

  -- `RemoveMember`
  unfoldable pub remove_member : Text → Uuid → Uuid → Action (Unit {0})
  remove_member slug actor target = member_change_context slug actor target >>= remove_in target

  -- `SetMemberRole`
  unfoldable pub set_member_role : Fresh → Uuid → Uuid → Text → Action (Option Membership)
  set_member_role fresh org user role = require_member org user >> add_member fresh org user role

  -- `IsStaffMember`
  unfoldable pub is_staff_member : Uuid → List Text → Action Bool
  is_staff_member user roles =
      let normalized = keep (λ r. not (is_empty r)) (map lower_trim roles) in
      if not cfg.enabled || is_nil normalized
      then pure false
      else Repo.has_active_role_in u user normalized
    where
      is_nil : List Text → Bool
      is_nil [] = true
      is_nil (_ ∷ _) = false

  -- `ResolveTenant`
  unfoldable pub resolve_tenant : Text → Action (Option Organization)
  resolve_tenant tenant =
      if not cfg.enabled
      then raise tenancy_disabled
      else if is_empty (trim_space tenant)
      then pure none
      else elim (parse_uuid (trim_space tenant)) [
        | some id ↦ Repo.get_by_id id
        | none ↦ Repo.get_by_slug (to_lower u (trim_space tenant))
      ]

  -- `SwitchActive`
  unfoldable pub switch_active : Uuid → Uuid → Uuid → Action (Unit {0})
  switch_active session user org = do
    fail_if (not cfg.enabled) tenancy_disabled
    require_member org user
    Sessions.set_active_organization session (some org)
