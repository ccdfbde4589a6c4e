-- ===== src/User/Roles/Assigned.antt =====
-- What the assignment of a role leaves.
use authpad.Prelude.{
  ◌≡◌, refl, true, false, not, ◌&&◌, none, some, List, [], ◌∷◌, Text, text_eq, any, find, ◌==◌,
  if◌then◌else◌, arith,
}
use authpad.Prelude.Strings.{Unicode, to_lower, trim_space}
use authpad.Db.Rows.{Uuid, Role, UserRole}
use authpad.Db.World.{World, ok}
use authpad.Db.Success.{Ensures, Ensures-modify, ensures}
use authpad.Org.Members.{RoleDefinition}
use authpad.User.Roles.{
  get_by_name, assign_role, assign_role_by_name, is_allowed_role, is_assignment, is_named,
}

-- The user has a role of the name.
abbrev pub HasRole : Uuid → Text → World → Type 0
HasRole user name w =
    any (λ r. r.user_id == user && is_named name w.idp.roles r) w.idp.user_roles ≡ true

any-found :
    (name : Text) (roles : List Role) (role : Role)
    → find (λ r. text_eq r.name name) roles ≡ some role
    → any (λ o. o.id == role.id && text_eq o.name name) roles ≡ true
any-found name [] role h = cc
any-found name (o ∷ roles) role h = ground (arith, any-found name roles role)

any-assigned :
    (user : Uuid) (name : Text) (roles : List Role) (role : Role) (rows : List UserRole)
    → find (λ r. text_eq r.name name) roles ≡ some role
    → any (is_assignment user role.id) rows ≡ true
    → any (λ r. r.user_id == user && is_named name roles r) rows ≡ true
unfolding is_named
any-assigned user name roles role [] found h = h
any-assigned user name roles role (r ∷ rows) found h =
    ground (arith, any-found name roles role found, any-assigned user name roles role rows found)

-- The row is there after the statement, whether it was there before or not.
assign_role-Ensures :
    {w : World} {Q : Unit {0} → World → Type 0} (user role : Uuid)
    → ((w' : World)
        → w'.idp.roles ≡ w.idp.roles
        → any (is_assignment user role) w'.idp.user_roles ≡ true
        → Q tt w')
    → Ensures w Q (assign_role user role)
unfolding assign_role
assign_role-Ensures {w} user role q = Ensures-modify _ (q _ refl (there w.idp.user_roles))
  where
    there :
        (rows : List UserRole)
        → any (is_assignment user role) (
            if any (is_assignment user role) rows
            then rows
            else record { user_id = user; role_id = role } ∷ rows)
          ≡ true
    there rows = ground arith

module _ (u : Unicode) (roles : List RoleDefinition) (ids : Text → Uuid) where
  assign_role_by_name-Ensures :
      {w : World} {Q : Unit {0} → World → Type 0} (user : Uuid) (name : Text)
      → ((role : Role) (w2 : World)
          → not (is_allowed_role u roles ids none (trim_space (to_lower u name))) ≡ false
          → find (λ r. text_eq r.name (trim_space (to_lower u name))) w.idp.roles ≡ some role
          → w2.idp.roles ≡ w.idp.roles
          → any (is_assignment user role.id) w2.idp.user_roles ≡ true
          → Q tt w2)
      → Ensures w Q (assign_role_by_name u roles ids none user name)
  unfolding assign_role_by_name get_by_name
  assign_role_by_name-Ensures user name done = search (ensures, assign_role-Ensures, done) depth 15

  -- AssignRoleByName, without a hook, succeeds only for a role of the configuration; afterwards the
  -- user has a role of the name.
  pub assign_role_by_name_sound :
      (user : Uuid) (name : Text) (w w' : World)
      → assign_role_by_name u roles ids none user name w ≡ (ok tt, w')
      → (is_allowed_role u roles ids none (trim_space (to_lower u name)) ≡ true)
        × HasRole user (trim_space (to_lower u name)) w'
  assign_role_by_name_sound user name w w' =
      let sound : Ensures w
          (λ _ w2.
            (is_allowed_role u roles ids none (trim_space (to_lower u name)) ≡ true)
            × HasRole user (trim_space (to_lower u name)) w2)
          (assign_role_by_name u roles ids none user name) =
        assign_role_by_name-Ensures user name (λ role w2 allowed found same there. (
          ground arith,
          rw same (any-assigned user _ w.idp.roles role w2.idp.user_roles found there),
        )) in
      sound.run tt w'
