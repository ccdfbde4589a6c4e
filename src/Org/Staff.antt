-- ===== src/Org/Staff.antt =====
-- `staffClassifier` of internal/server/server.go: whom the sessions take for staff.
use authpad.Prelude.{Bool, true, false, not, ◌&&◌, Option, some, List, [], ◌∷◌, Text, if◌then◌else◌}
use authpad.Prelude.Strings.{Unicode, to_lower}
use authpad.Redirect.{is_empty}
use authpad.Db.Rows.{Uuid}
use authpad.Db.World.{◌>>=◌, pure}
use authpad.Db.Rules.{Obeys, Obeys-if, Obeys-bind, Obeys-pure, Obeys-select}
use authpad.Session.Service.{StaffFunc, session_is_staff}
use authpad.Session.Revocation.{same_sessions}
use authpad.User.Roles
use authpad.Org.Repo
use authpad.Org.Members.{TenancyConfig, owner, admin, is_staff_member}

-- Whether there is a service of identities and one of organizations, the name of the role of
-- administrators, and `TenancyConfig.StaffOrgRoles`.
module _ (u : Unicode) (cfg : TenancyConfig) (parse_uuid : Text → Option Uuid)
    (has_idp has_orgs : Bool) (admin_role : Text) (staff_roles : List Text) where
  abbrev or_managers : List Text → List Text
  or_managers [] = owner ∷ admin ∷ []
  or_managers (r ∷ rs) = r ∷ rs

  -- The members that the organizations take for staff.
  unfoldable pub ask_orgs : StaffFunc
  ask_orgs user =
      if has_orgs
      then is_staff_member u cfg parse_uuid user (or_managers staff_roles)
      else pure false

  -- `staffClassifier`; `IdPService.HasRole` lowers the name.
  unfoldable pub staff_classifier : StaffFunc
  staff_classifier user =
      if has_idp && not (is_empty admin_role)
      then (Roles.has_role user (to_lower u admin_role) >>= λ b.
          if b then pure true else ask_orgs user)
      else ask_orgs user

  is_staff_member-Obeys :
      (user : Uuid) (roles : List Text)
      → Obeys same_sessions (is_staff_member u cfg parse_uuid user roles)
  unfolding is_staff_member Repo.has_active_role_in
  is_staff_member-Obeys user roles = Obeys-if _ (Obeys-pure false) (Obeys-select _)

  ask_orgs-Obeys : (user : Uuid) → Obeys same_sessions (ask_orgs user)
  unfolding ask_orgs
  ask_orgs-Obeys user = Obeys-if _ (is_staff_member-Obeys user _) (Obeys-pure false)

  -- The classifier writes no sessions.
  pub staff_classifier-Obeys :
      (user : Uuid) → Obeys same_sessions (session_is_staff (some staff_classifier) user)
  unfolding staff_classifier Roles.has_role
  staff_classifier-Obeys user =
      Obeys-if _
        (Obeys-bind (Obeys-select _) (λ b. Obeys-if b (Obeys-pure true) (ask_orgs-Obeys user)))
        (ask_orgs-Obeys user)
