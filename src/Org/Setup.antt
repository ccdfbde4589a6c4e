-- ===== src/Org/Setup.antt =====
-- internal/service/org_service.go, lines 54 to 64, 98 to 155 and 601 to 770: making an organization,
-- on request, on demand and on signup.
pub mod Created
pub mod Signup
use authpad.Prelude.{
  ℕ, Bool, true, false, not, ◌||◌, Option, none, some, List, [], ◌∷◌, Text, codes, text_eq, ◌==◌,
  if◌then◌else◌,
}
use authpad.Prelude.Strings.{Unicode, trim_space}
use authpad.Crypto.{Crypto, Fresh}
use authpad.Redirect.{is_empty}
use authpad.Db.Rows.{Uuid, Organization, Membership, OrgName, Status}
use authpad.Db.World.{
  World, Result, ok, err, Error, Action, ◌>>=◌, ◌>>◌, pure, raise, attempt, needs, fail_if,
  tenancy_disabled, org_create_disabled, invalid_slug, org_required, name_required, nil_dereference,
}
use authpad.Org.Repo
use authpad.Org.Names
use authpad.Org.Slug.{is_slug, is_role_name, normalize_slug}
use authpad.Org.Structure.{on_clash, or_default, is_unique_violation}
use authpad.Org.Members.{
  TenancyConfig, RoleDefinition, owner, admin, trim_lower, default_role, check_membership_limit,
}
use authpad.Org.Invites.{accept_invite}

-- `if err != nil && !isUniqueViolation(err) { return err }`
unfoldable pub unless_clash : Action (Unit {0}) → Action (Unit {0})
unless_clash m w =
    let (r, w') = m w in
    elim r [ ok a ↦ (ok a, w') | err e ↦ (if is_unique_violation e then ok tt else err e, w') ]

-- What a signup returns of its organization: it and the role in it.
pub record Joined : Type 0 where
  pub org : Organization
  pub role : Text

-- An active owner.
abbrev pub owner_row : Fresh → Uuid → Uuid → Membership
owner_row fresh org user = record {
  id = fresh.id;
  organization_id = org;
  user_id = user;
  role = owner;
  status = Status.active;
  department_id = none;
  level_id = none;
  created_at = fresh.now;
}

-- The row of a new organization.
abbrev pub new_org : Fresh → Option Uuid → Text → Text → Text → Organization
new_org fresh created_by name slug metadata = record {
  id = fresh.id;
  slug = slug;
  name = name;
  image_url = [];
  metadata = metadata;
  created_by = created_by;
  created_at = fresh.now;
  updated_at = fresh.now;
}

-- `ids` are the ids that the roles of an organization get, by name.
module _ (u : Unicode) (cfg : TenancyConfig) (parse_uuid : Text → Option Uuid)
    (ids : Text → Uuid) where
  abbrev pub role_row : Fresh → Uuid → Text → Text → OrgName
  role_row fresh org name description = record {
    id = ids name;
    organization_id = org;
    name = name;
    description = description;
    created_at = fresh.now;
  }

  -- `seedRoleDefs`; the three default roles are passed over by the loop.
  unfoldable pub seed_role_defs : List RoleDefinition
  seed_role_defs = elim cfg.org_roles [
    | [] ↦
        record { name = owner; description = codes "Organization owner" }
        ∷ record { name = admin; description = codes "Organization admin" }
        ∷ record { name = codes "member"; description = codes "Organization member" }
        ∷ []
    | def ∷ defs ↦ def ∷ defs
  ]

  -- A role that the loop of `seedExtraRoles` passes over.
  unfoldable pub is_passed_over : Text → Bool
  is_passed_over name =
      is_empty name
      || text_eq name owner
      || text_eq name admin
      || text_eq name (codes "member")
      || not (is_role_name name)

  -- One round of the loop.
  unfoldable pub seed_extra_role : Fresh → Uuid → RoleDefinition → Action (Unit {0})
  seed_extra_role fresh org def =
      let name = trim_lower u cfg parse_uuid def.name in
      if is_passed_over name
      then pure tt
      else unless_clash (
          Names.create_role
            (role_row fresh org name (or_default (trim_space def.description) name)))

  -- `seedExtraRoles`
  unfoldable pub seed_extra_roles : Fresh → Uuid → List RoleDefinition → Action (Unit {0})
  seed_extra_roles fresh org [] = pure tt
  seed_extra_roles fresh org (def ∷ defs) = do
    seed_extra_role fresh org def
    seed_extra_roles fresh org defs

  -- `SeedDefaultRoles` and `seedExtraRoles`
  unfoldable pub seed_roles : Fresh → Uuid → Action (Unit {0})
  seed_roles fresh org = do
    Names.seed_default_roles (role_row fresh org)
    seed_extra_roles fresh org seed_role_defs

  -- The slug that `Create` takes: the one that is given, or one made of the name.
  unfoldable pub wanted_slug : Text → Text → Text
  wanted_slug name slug =
      or_default (trim_lower u cfg parse_uuid slug) (normalize_slug u (trim_space name))

  -- The roles and the owner of a new organization.
  unfoldable pub furnish : Fresh → Uuid → Organization → Action Organization
  furnish fresh user org = do
    seed_roles fresh org.id
    Repo.add_membership (owner_row fresh org.id user)
    pure org

  -- `Create` of a name and a slug that are right; `metadata` is what `json.Marshal` returns.
  unfoldable pub make_org : Fresh → Uuid → Text → Text → Text → Action Organization
  make_org fresh user name slug metadata = do
    let org = new_org fresh (some user) name slug (or_default metadata (codes "{}"))
    on_clash invalid_slug (Repo.create org)
    furnish fresh user org

  -- `Create`
  unfoldable pub create : Fresh → Uuid → Text → Text → Text → Action Organization
  create fresh user name slug metadata = do
    fail_if (not cfg.enabled) tenancy_disabled
    fail_if (not cfg.allow_create_organization) org_create_disabled
    check_membership_limit u cfg parse_uuid user
    fail_if (is_empty (trim_space name)) name_required
    fail_if (not (is_slug (wanted_slug name slug))) invalid_slug
    make_org fresh user (trim_space name) (wanted_slug name slug) metadata

  -- The organization that another request has made meanwhile. The service goes on with the nil
  -- pointer where there is none.
  unfoldable pub after_clash : Text → Organization → Result (Unit {0}) → Action Organization
  after_clash slug org (ok _) = pure org
  after_clash slug org (err e) =
      if is_unique_violation e
      then (Repo.get_by_slug slug >>= λ again. needs again nil_dereference)
      else raise e

  -- The organization of the slug, made where it is missing.
  unfoldable pub find_or_make :
      Fresh → Text → Text → Uuid → Option Organization → Action Organization
  find_or_make fresh slug name created_by (some org) = pure org
  find_or_make fresh slug name created_by none = do
    let org =
        new_org fresh (if created_by == 0 then none else some created_by) name slug (codes "{}")
    made ← attempt (Repo.create org)
    after_clash slug org made

  -- The owner that `Ensure` adds, unless it is given the nil id.
  unfoldable pub add_owner : Fresh → Uuid → Uuid → Action (Unit {0})
  add_owner fresh org created_by =
      if created_by == 0 then pure tt else Repo.add_membership (owner_row fresh org created_by)

  -- `Ensure`
  unfoldable pub ensure : Fresh → Text → Text → Uuid → Action Organization
  ensure fresh slug name created_by = do
    fail_if (not cfg.enabled) tenancy_disabled
    let wanted = trim_lower u cfg parse_uuid slug
    fail_if (not (is_slug wanted)) invalid_slug
    found ← Repo.get_by_slug wanted
    org ← find_or_make fresh wanted (or_default (trim_space name) wanted) created_by found
    seed_roles fresh org.id
    add_owner fresh org.id created_by
    pure org

  -- The hooks and parameters of `AcceptInvite`.
  module _ (c : Crypto) (invitation_ttl : ℕ) (policy : Option (Uuid → Text → Text → Text → Bool))
      (extras : Text → Option Uuid × Option Uuid) where
    abbrev role_or : Text → Result (Option Membership) → Text
    role_or d (ok (some m)) = m.role
    role_or d _ = d

    -- Joining by an invitation, in `CompleteOnSignup`.
    unfoldable pub join_invited : Fresh → Uuid → Text → Action (Option Joined)
    join_invited fresh user token = do
      joined ← accept_invite u cfg parse_uuid c invitation_ttl policy extras fresh token user
      org ← needs joined nil_dereference
      m ← attempt (Repo.get_membership org.id user)
      pure (some (record { org = org; role = role_or (default_role u cfg parse_uuid) m }))

    -- Without an invitation, in `CompleteOnSignup`.
    unfoldable pub found_named : Fresh → Uuid → Text → Text → Action (Option Joined)
    found_named fresh user name slug =
        if is_empty name
        then (if cfg.require_on_signup then raise org_required else pure none)
        else if not cfg.allow_create_organization
        then (if cfg.require_on_signup then raise org_required else pure none)
        else (create fresh user name slug (codes "null") >>= λ org.
            pure (some (record { org = org; role = owner })))

    -- `CompleteOnSignup`
    unfoldable pub complete_on_signup : Fresh → Uuid → Text → Text → Text → Action (Option Joined)
    complete_on_signup fresh user name slug token =
        if not cfg.enabled
        then pure none
        else if is_empty (trim_space token)
        then found_named fresh user (trim_space name) slug
        else join_invited fresh user (trim_space token)
