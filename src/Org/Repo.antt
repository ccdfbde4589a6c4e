-- ===== src/Org/Repo.antt =====
-- internal/repository/idp/org_repo.go: the statements on organizations, memberships and
-- invitations.
use authpad.Prelude.{
  ℕ, Bool, true, false, ◌&&◌, ◌||◌, Option, none, some, List, ◌∷◌, Text, text_eq, find, keep,
  update, any, count, ◌==◌, if◌then◌else◌,
}
use authpad.Prelude.Strings.{Unicode, to_lower}
use authpad.Db.Rows.{Uuid, Organization, Membership, Invitation, Status, is_active}
use authpad.Db.World.{
  ok, err, Action, statement, select, modify, insert_unless, in_idp, invitation_not_pending,
}

-- `OrgRepo.Create`; slugs and ids are unique.
unfoldable pub create : Organization → Action (Unit {0})
create o =
    insert_unless (λ w. any (λ p. p.id == o.id || text_eq p.slug o.slug) w.idp.organizations)
      (in_idp (λ d. record d { organizations = o ∷ d.organizations }))

-- `OrgRepo.GetBySlug`
unfoldable pub get_by_slug : Text → Action (Option Organization)
get_by_slug slug = select (λ w. find (λ o. text_eq o.slug slug) w.idp.organizations)

-- `OrgRepo.GetByID`
unfoldable pub get_by_id : Uuid → Action (Option Organization)
get_by_id id = select (λ w. find (λ o. o.id == id) w.idp.organizations)

-- `organization_id = $1 AND user_id = $2`
abbrev pub is_of : Uuid → Uuid → Membership → Bool
is_of org user m = m.organization_id == org && m.user_id == user

-- `COALESCE(a, b)`
abbrev pub coalesce : Option Uuid → Option Uuid → Option Uuid
coalesce none b = b
coalesce (some a) b = some a

-- `ON CONFLICT (organization_id, user_id) DO UPDATE`
abbrev pub upsert : Membership → List Membership → List Membership
upsert m ms =
    if any (is_of m.organization_id m.user_id) ms
    then update (is_of m.organization_id m.user_id)
        (λ old. record old {
          role = m.role;
          status = m.status;
          department_id = coalesce m.department_id old.department_id;
          level_id = coalesce m.level_id old.level_id;
        })
        ms
    else m ∷ ms

-- `OrgRepo.AddMembership`
unfoldable pub add_membership : Membership → Action (Unit {0})
add_membership m = modify (in_idp (λ d. record d { memberships = upsert m d.memberships }))

-- `OrgRepo.GetMembership`
unfoldable pub get_membership : Uuid → Uuid → Action (Option Membership)
get_membership org user = select (λ w. find (is_of org user) w.idp.memberships)

-- `OrgRepo.CountMemberships`
unfoldable pub count_memberships : Uuid → Action ℕ
count_memberships user =
    select (λ w. count (λ m. m.user_id == user && is_active m.status) w.idp.memberships)

-- `OrgRepo.ListMembers`, in the order of the table.
unfoldable pub list_members : Uuid → Action (List Membership)
list_members org =
    select (λ w. keep (λ m. m.organization_id == org && is_active m.status) w.idp.memberships)

-- `OrgRepo.CreateInvitation`; token hashes are unique.
unfoldable pub create_invitation : Invitation → Action (Unit {0})
create_invitation i =
    insert_unless (λ w. any (λ j. text_eq j.token_hash i.token_hash) w.idp.invitations)
      (in_idp (λ d. record d { invitations = i ∷ d.invitations }))

-- `OrgRepo.GetInvitationByTokenHash`
unfoldable pub get_invitation_by_token_hash : Text → Action (Option Invitation)
get_invitation_by_token_hash h = select (λ w. find (λ i. text_eq i.token_hash h) w.idp.invitations)

abbrev is_null : Option ℕ → Bool
is_null none = true
is_null (some _) = false

-- `id = $1 AND accepted_at IS NULL AND revoked_at IS NULL`
abbrev pub is_pending : Uuid → Invitation → Bool
is_pending id i = i.id == id && is_null i.accepted_at && is_null i.revoked_at

-- `OrgRepo.AcceptInvitation`: an error where no row is pending.
unfoldable pub accept_invitation : Uuid → ℕ → Action (Unit {0})
accept_invitation id now = statement (λ w. (
  if any (is_pending id) w.idp.invitations then ok tt else err invitation_not_pending,
  in_idp
      (λ d. record d {
        invitations =
            update (is_pending id) (λ i. record i { accepted_at = some now }) d.invitations;
      })
      w,
))

-- `OrgRepo.RevokeInvitation`
unfoldable pub revoke_invitation : Uuid → ℕ → Action (Unit {0})
revoke_invitation id now = modify (
    in_idp (λ d. record d {
      invitations = update (is_pending id) (λ i. record i { revoked_at = some now }) d.invitations;
    }))

-- `OrgRepo.RoleExists`
unfoldable pub role_exists : Uuid → Text → Action Bool
role_exists org name =
    select (λ w. any (λ r. r.organization_id == org && text_eq r.name name) w.idp.org_roles)

-- `OrgRepo.DepartmentExists`
unfoldable pub department_exists : Uuid → Uuid → Action Bool
department_exists org id =
    select (λ w. any (λ d. d.id == id && d.organization_id == org) w.idp.departments)

-- `OrgRepo.LevelExists`
unfoldable pub level_exists : Uuid → Uuid → Action Bool
level_exists org id = select (λ w. any (λ d. d.id == id && d.organization_id == org) w.idp.levels)

-- `organization_id = $1 AND user_id = $2 AND status = 'active'`
abbrev pub is_active_of : Uuid → Uuid → Membership → Bool
is_active_of org user m = is_of org user m && is_active m.status

-- `OrgRepo.UpdateMembershipRole`
unfoldable pub update_membership_role : Uuid → Uuid → Text → Action (Unit {0})
update_membership_role org user role = modify (
    in_idp (λ d. record d {
      memberships = update (is_active_of org user) (λ m. record m { role = role }) d.memberships;
    }))

-- `OrgRepo.RemoveMembership`, with the number of rows.
unfoldable pub remove_membership : Uuid → Uuid → Action ℕ
remove_membership org user = statement (λ w. (
  ok (count (is_active_of org user) w.idp.memberships),
  in_idp
      (λ d. record d {
        memberships =
            update (is_active_of org user) (λ m. record m { status = Status.removed })
              d.memberships;
      })
      w,
))

-- `lower` of the database is `strings.ToLower` of the program.
module _ (u : Unicode) where
  -- An active membership in the organization with the role, in whatever case.
  abbrev pub has_role : Uuid → Text → Membership → Bool
  has_role org role m =
      m.organization_id == org
      && is_active m.status
      && text_eq (to_lower u m.role) (to_lower u role)

  -- `OrgRepo.CountActiveRole`
  unfoldable pub count_active_role : Uuid → Text → Action ℕ
  count_active_role org role = select (λ w. count (has_role org role) w.idp.memberships)

  -- `OrgRepo.HasActiveRoleIn`
  unfoldable pub has_active_role_in : Uuid → List Text → Action Bool
  has_active_role_in user roles = select (λ w.
      any
        (λ m.
          m.user_id == user && is_active m.status && any (λ r. text_eq (to_lower u m.role) r) roles)
        w.idp.memberships)
