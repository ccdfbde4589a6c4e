-- ===== src/User/Roles.antt =====
-- internal/repository/idp/role_repo.go, and the roles of internal/service/idp_service.go. An audit
-- entry is left out.
pub mod Assigned
use authpad.Prelude.{
  Bool, not, ◌&&◌, Option, none, some, List, [], ◌∷◌, Text, text_eq, any, find, keep, update, ◌==◌,
  if◌then◌else◌,
}
use authpad.Prelude.Strings.{Unicode, to_lower, equal_fold, trim_space}
use authpad.Redirect.{is_empty}
use authpad.Db.Rows.{Uuid, Role, UserRole}
use authpad.Db.World.{
  Action, ◌>>=◌, ◌>>◌, pure, needs, fail_if, select, modify, in_idp, or_fail, role_not_allowed,
  role_not_found, name_required,
}
use authpad.Org.Members.{RoleDefinition}

-- `RoleRepo.GetByName`
unfoldable pub get_by_name : Text → Action (Option Role)
get_by_name name = select (λ w. find (λ r. text_eq r.name name) w.idp.roles)

abbrev pub is_assignment : Uuid → Uuid → UserRole → Bool
is_assignment user role r = r.user_id == user && r.role_id == role

-- `RoleRepo.AssignRole`
unfoldable pub assign_role : Uuid → Uuid → Action (Unit {0})
assign_role user role = modify (
    in_idp (λ d. record d {
      user_roles =
          if any (is_assignment user role) d.user_roles
          then d.user_roles
          else record { user_id = user; role_id = role } ∷ d.user_roles;
    }))

-- `RoleRepo.UpsertRole`; `id` is the one that the database draws.
unfoldable pub upsert_role : Uuid → Text → Text → Action (Unit {0})
upsert_role id name description = modify (
    in_idp (λ d. record d {
      roles =
          if any (λ r. text_eq r.name name) d.roles
          then update (λ r. text_eq r.name name) (λ r. record r { description = description })
              d.roles
          else record { id = id; name = name; description = description } ∷ d.roles;
    }))

-- Whether a row assigns a role of the name.
unfoldable pub is_named : Text → List Role → UserRole → Bool
is_named name roles r = any (λ o. o.id == r.role_id && text_eq o.name name) roles

-- `RoleRepo.RevokeRole`
unfoldable pub revoke_role : Uuid → Text → Action (Unit {0})
revoke_role user name = modify (
    in_idp (λ d. record d {
      user_roles = keep (λ r. not (r.user_id == user && is_named name d.roles r)) d.user_roles;
    }))

-- `RoleRepo.HasRole`
unfoldable pub has_role : Uuid → Text → Action Bool
has_role user name =
    select (λ w. any (λ r. r.user_id == user && is_named name w.idp.roles r) w.idp.user_roles)

-- `RoleRepo.Create`
unfoldable pub create : Uuid → Text → Text → Action (Option Role)
create id name description = do upsert_role id name description; get_by_name name

-- `ids` are the ids that the database draws for roles, by name; the hook runs on an assignment.
module _ (u : Unicode) (roles : List RoleDefinition) (ids : Text → Uuid)
    (on_role_assigned : Option (Uuid → Text → Action (Unit {0}))) where
  -- `IdPService.IsAllowedRole`
  unfoldable pub is_allowed_role : Text → Bool
  is_allowed_role name = any (λ r. equal_fold u r.name (trim_space (to_lower u name))) roles

  -- The loop of `IdPService.SeedRoles`.
  unfoldable pub seed_all : List RoleDefinition → Action (Unit {0})
  seed_all [] = pure tt
  seed_all (r ∷ rest) = do
    let name = trim_space (to_lower u r.name)
    (if is_empty name then pure tt else upsert_role (ids name) name r.description)
    seed_all rest

  -- `IdPService.CreateRole`
  unfoldable pub create_role : Text → Text → Action (Option Role)
  create_role name description = do
    let name = trim_space (to_lower u name)
    fail_if (is_empty name) name_required
    create (ids name) name description

  abbrev run_hook : Uuid → Text → Action (Unit {0})
  run_hook user name = elim on_role_assigned [ none ↦ pure tt | some hook ↦ hook user name ]

  -- `IdPService.AssignRoleByName`
  unfoldable pub assign_role_by_name : Uuid → Text → Action (Unit {0})
  assign_role_by_name user name = do
    let name = trim_space (to_lower u name)
    fail_if (not (is_allowed_role name)) role_not_allowed
    found ← or_fail role_not_found (get_by_name name)
    role ← needs found role_not_found
    assign_role user role.id
    run_hook user name

  -- `IdPService.RevokeRoleByName`
  unfoldable pub revoke_role_by_name : Uuid → Text → Action (Unit {0})
  revoke_role_by_name user name = revoke_role user (trim_space (to_lower u name))
