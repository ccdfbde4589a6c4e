-- ===== src/Org/Structure/Managed.antt =====
-- Who changes the structure of an organization, and what a deletion leaves.
use mathlib.Core.List.{Mem, mem-cons}
use mathlib.Core.Logic.Or
use authpad.Prelude.{
  ℕ, ◌≡◌, refl, Bool, true, false, not, Option, none, some, List, [], ◌∷◌, Text, text_eq, any, all,
  find, ◌==◌, arith, Bool-cases, inl, inr,
}
use authpad.Prelude.Strings.{Unicode, equal_fold, trim_space}
use authpad.Prelude.Tables.{all-keep_self, all-update_written, count-any}
use authpad.Crypto.{Fresh}
use authpad.Db.Rows.{Uuid, Organization, Membership, OrgName, is_active}
use authpad.Db.World.{World, Result, Error, Action, ok, err}
use authpad.Db.Success.{Ensures, ensures, Ensures-stated, Ensures-insert}
use authpad.Org.Repo
use authpad.Org.Repo.{is_of}
use authpad.Org.Names
use authpad.Org.Names.{is_row, unset}
use authpad.Org.Members.{
  TenancyConfig, owner, admin, trim_lower, get_by_slug, require_member, require_role,
}
use authpad.Org.Structure.{
  as_role, delete_department, on_clash, org_name, or_default, create_role, create_role_for_actor,
}
use authpad.Org.Slug.{is_role_name}

-- The membership is in the department.
abbrev pub refers : Uuid → Option Uuid → Bool
refers id none = false
refers id (some d) = d == id

unset_lem : (id : Uuid) (o : Option Uuid) → refers id (unset id o) ≡ false
unset_lem id none = refl
unset_lem id (some d) = elim (Bool-cases (d == id)) [
  | inl same ↦ rw same refl
  | inr other ↦ rw other other
]

pub Ensures-on_clash :
    {A : Type 0} {w : World} {Q : A → World → Type 0} (x : Error) (m : Action A)
    → Ensures w Q m
    → Ensures w Q (on_clash x m)
unfolding on_clash
Ensures-on_clash {A} {w} {Q} x m h = record { run = λ a w' r. go (m w) a w' (h.run a w') r }
  where
    go :
        (p : Result A × World) (a : A) (w' : World)
        → (p ≡ (ok a, w') → Q a w')
        → on_clash x (λ _. p) w ≡ (ok a, w')
        → Q a w'
    go (ok b, w1) a w' h r = h r
    go (err e, w1) a w' h r = cc

module _ (u : Unicode) (cfg : TenancyConfig) (parse_uuid : Text → Option Uuid) where
  -- The actor has, as an active member, one of the roles in the organization of the slug.
  abbrev pub MayManage : List Text → Text → Uuid → Organization → World → Type 0
  MayManage roles slug actor org w =
      (cfg.enabled ≡ true)
      × (find (λ o. text_eq o.slug slug) w.idp.organizations ≡ some org)
      × ((m : Membership) × (find (is_of org.id actor) w.idp.memberships ≡ some m)
          × (is_active m.status ≡ true)
          × (any (λ a. equal_fold u m.role a) roles ≡ true))

  as_role-Ensures :
      {Q : Organization → World → Type 0} (roles : List Text) (slug : Text) (actor : Uuid)
      (w : World)
      → ((org : Organization) (w' : World)
          → MayManage roles slug actor org w
          → w'.idp ≡ w.idp
          → Q org w')
      → Ensures w Q (as_role u cfg parse_uuid roles slug actor)
  unfolding as_role get_by_slug require_role require_member Repo.get_by_slug Repo.get_membership
  as_role-Ensures {Q} roles slug actor w k =
      let done : (org : Organization) (m : Membership) (w' : World)
          → not cfg.enabled ≡ false
          → find (λ o. text_eq o.slug slug) w.idp.organizations ≡ some org
          → find (is_of org.id actor) w.idp.memberships ≡ some m
          → not (is_active m.status) ≡ false
          → not (any (λ a. equal_fold u m.role a) roles) ≡ false
          → w'.idp ≡ w.idp
          → Q org w' =
        λ org m w' on found member working allowed same.
          k org w' (ground arith, found, (m, member, ground arith, ground arith)) same in
      search (ensures, done) depth 20

  -- The department is gone, and no membership is in it.
  abbrev pub Detached : Uuid → Uuid → World → Type 0
  Detached org id w =
      (all (λ n. not (is_row org id n)) w.idp.departments ≡ true)
      × (all (λ m. not (refers id m.department_id)) w.idp.memberships ≡ true)

  delete-Ensures :
      {Q : ℕ → World → Type 0} (org id : Uuid) (w : World)
      → ((n : ℕ) (w' : World) → ((n == 0) ≡ false → Detached org id w') → Q n w')
      → Ensures w Q (Names.delete_department org id)
  unfolding Names.delete_department
  delete-Ensures org id w k = Ensures-stated _ _ (
      k _ _ (λ some_gone. (
        all-keep_self _ w.idp.departments,
        all-update_written _ (λ _. any (is_row org id) w.idp.departments) _ w.idp.memberships
            (λ m e. ground (arith, unset_lem id m.department_id))
            (λ m e. absurd (ground (arith, count-any (is_row org id) w.idp.departments))),
      )))

  -- DeleteDepartment succeeds only for an active owner or admin of the organization of the slug;
  -- afterwards the organization does not have the department and no membership is in it.
  pub delete_department_sound :
      (slug : Text) (actor id : Uuid) (w w' : World)
      → delete_department u cfg parse_uuid slug actor id w ≡ (ok tt, w')
      → ((org : Organization) × MayManage (owner ∷ admin ∷ []) slug actor org w
          × Detached org.id id w')
  unfolding delete_department
  delete_department_sound slug actor id w w' =
      let sound : Ensures w
          (λ _ w2.
            (o : Organization) × MayManage (owner ∷ admin ∷ []) slug actor o w
            × Detached o.id id w2)
          (delete_department u cfg parse_uuid slug actor id) =
        search (ensures, as_role-Ensures, delete-Ensures) depth 20 in
      sound.run tt w'

  -- What a role that was made is.
  abbrev pub Made : OrgName → World → Type 0
  Made role w =
      (is_role_name role.name ≡ true) × (text_eq role.name owner ≡ false) × Mem role w.idp.org_roles

  insert_role-Ensures :
      {Q : Unit {0} → World → Type 0} (n : OrgName) (w : World)
      → ((w' : World) → Mem n w'.idp.org_roles → Q tt w')
      → Ensures w Q (Names.create_role n)
  unfolding Names.create_role
  insert_role-Ensures n w k = Ensures-insert _ _ (λ free. k _ (mem-cons.1 (Or.inl refl)))

  create_role-Ensures :
      {Q : OrgName → World → Type 0} (fresh : Fresh) (org : Uuid) (name description : Text)
      (w : World)
      → ((role : OrgName) (w' : World) → Made role w' → role.organization_id ≡ org → Q role w')
      → Ensures w Q (create_role u cfg parse_uuid fresh org name description)
  unfolding create_role
  create_role-Ensures {Q} fresh org name description w k =
      let role_name = trim_lower u cfg parse_uuid name in
      let role = org_name fresh org role_name (or_default (trim_space description) role_name) in
      let done : (w' : World)
          → text_eq role_name owner ≡ false
          → not (is_role_name role_name) ≡ false
          → Mem role w'.idp.org_roles
          → Q role w' =
        λ w' other fits stored. k role w' (ground arith, other, stored) refl in
      search (ensures, Ensures-on_clash, insert_role-Ensures, done) depth 20

  -- CreateRoleForActor succeeds only for an active owner; the role is stored in the organization of
  -- the slug, its name matches orgRolePattern, and it is not the name of the owner role.
  pub create_role_for_actor_sound :
      (fresh : Fresh) (slug : Text) (actor : Uuid) (name description : Text) (w w' : World)
      (role : OrgName)
      → create_role_for_actor u cfg parse_uuid fresh slug actor name description w ≡ (ok role, w')
      → ((org : Organization) × MayManage (owner ∷ []) slug actor org w
          × (role.organization_id ≡ org.id)
          × Made role w')
  unfolding create_role_for_actor
  create_role_for_actor_sound fresh slug actor name description w w' role =
      let done : (org : Organization) (r : OrgName) (w2 : World)
          → MayManage (owner ∷ []) slug actor org w
          → Made r w2
          → r.organization_id ≡ org.id
          → ((o : Organization) × MayManage (owner ∷ []) slug actor o w
              × (r.organization_id ≡ o.id)
              × Made r w2) =
        λ org r w2 may made inside. (org, may, inside, made) in
      let sound : Ensures w
          (λ r w2.
            (o : Organization) × MayManage (owner ∷ []) slug actor o w
            × (r.organization_id ≡ o.id)
            × Made r w2)
          (create_role_for_actor u cfg parse_uuid fresh slug actor name description) =
        search (ensures, as_role-Ensures, create_role-Ensures, done) depth 20 in
      sound.run role w'
