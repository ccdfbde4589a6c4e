-- ===== src/Org/Names.antt =====
-- internal/repository/idp/org_repo.go, lines 194 to 345: the statements on the roles, departments
-- and levels of organizations, and the rest of those on organizations and invitations.
use authpad.Prelude.{
  ℕ, Bool, not, ◌&&◌, ◌||◌, Option, none, some, List, ◌∷◌, Text, codes, text_eq, keep, update, any,
  count, ◌==◌, if◌then◌else◌,
}
use authpad.Db.Rows.{Uuid, Organization, Invitation, OrgName, is_active}
use authpad.Db.World.{ok, Action, statement, select, modify, insert_unless, in_idp}

-- `UNIQUE (organization_id, name)`
abbrev pub is_named : Uuid → Text → OrgName → Bool
is_named org name n = n.organization_id == org && text_eq n.name name

-- The unique indexes of the three tables refuse a row: on ids and on names.
abbrev pub clashes : OrgName → List OrgName → Bool
clashes n ns = any (λ m. m.id == n.id || is_named n.organization_id n.name m) ns

abbrev pub of_org : Uuid → OrgName → Bool
of_org org n = n.organization_id == org

-- `id = $1 AND organization_id = $2`
abbrev pub is_row : Uuid → Uuid → OrgName → Bool
is_row org id n = n.id == id && n.organization_id == org

-- `OrgRepo.Update`
unfoldable pub update_org : Text → Text → Text → Text → ℕ → Action (Unit {0})
update_org slug name image_url metadata now = modify (
    in_idp (λ d. record d {
      organizations =
          update (λ o. text_eq o.slug slug)
            (λ o. record o {
              name = name;
              image_url = image_url;
              metadata = metadata;
              updated_at = now;
            })
            d.organizations;
    }))

-- `OrgRepo.ListForUser`, in the order of the table.
unfoldable pub list_for_user : Uuid → Action (List Organization)
list_for_user user = select (λ w.
    keep
      (λ o.
        any (λ m. m.organization_id == o.id && m.user_id == user && is_active m.status)
          w.idp.memberships)
      w.idp.organizations)

-- `OrgRepo.ListInvitations`, in the order of the table.
unfoldable pub list_invitations : Uuid → Action (List Invitation)
list_invitations org = select (λ w. keep (λ i. i.organization_id == org) w.idp.invitations)

-- `ON CONFLICT (organization_id, name) DO NOTHING`
abbrev pub insert_missing : OrgName → List OrgName → List OrgName
insert_missing n ns = if any (is_named n.organization_id n.name) ns then ns else n ∷ ns

-- The roles that every organization has; `row` makes a role of a name and its description.
abbrev pub with_defaults : (Text → Text → OrgName) → List OrgName → List OrgName
with_defaults row ns = insert_missing (row (codes "member") (codes "Organization member")) (
    insert_missing (row (codes "admin") (codes "Organization admin"))
      (insert_missing (row (codes "owner") (codes "Organization owner")) ns))

-- `OrgRepo.SeedDefaultRoles`
unfoldable pub seed_default_roles : (Text → Text → OrgName) → Action (Unit {0})
seed_default_roles row =
    modify (in_idp (λ d. record d { org_roles = with_defaults row d.org_roles }))

-- `OrgRepo.CreateRole`
unfoldable pub create_role : OrgName → Action (Unit {0})
create_role n =
    insert_unless (λ w. clashes n w.idp.org_roles)
      (in_idp (λ d. record d { org_roles = n ∷ d.org_roles }))

-- `OrgRepo.ListRoles`, in the order of the table.
unfoldable pub list_roles : Uuid → Action (List OrgName)
list_roles org = select (λ w. keep (of_org org) w.idp.org_roles)

-- `OrgRepo.CreateDepartment`
unfoldable pub create_department : OrgName → Action (Unit {0})
create_department n =
    insert_unless (λ w. clashes n w.idp.departments)
      (in_idp (λ d. record d { departments = n ∷ d.departments }))

-- `OrgRepo.ListDepartments`, in the order of the table.
unfoldable pub list_departments : Uuid → Action (List OrgName)
list_departments org = select (λ w. keep (of_org org) w.idp.departments)

-- `ON DELETE SET NULL`
abbrev pub unset : Uuid → Option Uuid → Option Uuid
unset id none = none
unset id (some d) = if d == id then none else some d

-- `OrgRepo.DeleteDepartment`, with the number of rows. Memberships lose a department that is gone.
unfoldable pub delete_department : Uuid → Uuid → Action ℕ
delete_department org id = statement (λ w. (
  ok (count (is_row org id) w.idp.departments),
  in_idp
      (λ d. record d {
        departments = keep (λ n. not (is_row org id n)) d.departments;
        memberships =
            update (λ _. any (is_row org id) d.departments)
              (λ m. record m { department_id = unset id m.department_id }) d.memberships;
      })
      w,
))

-- `OrgRepo.CreateLevel`
unfoldable pub create_level : OrgName → Action (Unit {0})
create_level n =
    insert_unless (λ w. clashes n w.idp.levels) (in_idp (λ d. record d { levels = n ∷ d.levels }))

-- `OrgRepo.ListLevels`, in the order of the table.
unfoldable pub list_levels : Uuid → Action (List OrgName)
list_levels org = select (λ w. keep (of_org org) w.idp.levels)

-- `OrgRepo.DeleteLevel`, with the number of rows. Memberships lose a level that is gone.
unfoldable pub delete_level : Uuid → Uuid → Action ℕ
delete_level org id = statement (λ w. (
  ok (count (is_row org id) w.idp.levels),
  in_idp
      (λ d. record d {
        levels = keep (λ n. not (is_row org id n)) d.levels;
        memberships =
            update (λ _. any (is_row org id) d.levels)
              (λ m. record m { level_id = unset id m.level_id }) d.memberships;
      })
      w,
))
