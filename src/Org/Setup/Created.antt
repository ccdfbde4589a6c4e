-- ===== src/Org/Setup/Created.antt =====
-- What `Create` leaves: the organization, its default roles and its owner.
use mathlib.Core.List.{Mem, mem-cons}
use mathlib.Core.Logic.Or
use authpad.Prelude.{
  ◌≡◌, ◌==◌, ◌||◌, text_eq, refl, ap, ◌∙◌, Bool, true, false, not, Option, some, List, [], ◌∷◌,
  Text, codes, text_eq_refl, any, find, update, arith, Bool-cases, inl, inr,
}
use authpad.Prelude.Strings.{Unicode, trim_space}
use authpad.Prelude.Tables.{find-update, any-find, find_holds}
use authpad.Crypto.{Fresh}
use authpad.Db.Rows.{Uuid, Organization, Membership, OrgName, Status, is_active}
use authpad.Db.World.{World, Result, ok, err, Action, invalid_slug, ◌>>◌, pure, tick}
use authpad.Db.Rules.{Law, Obeys, Obeys-statement, Obeys-bind, Obeys-pure, Obeys-if, Obeys-run}
use authpad.Db.Success.{
  Ensures, ensures, Ensures-bind, Ensures-insert, Ensures-modify, Ensures-pure, Ensures-weaken,
}
use authpad.Org.Repo
use authpad.Org.Repo.{is_of, upsert}
use authpad.Org.Names
use authpad.Org.Names.{is_named, insert_missing, clashes, with_defaults}
use authpad.Org.Slug.{is_slug}
use authpad.Org.Structure.Managed.{Ensures-on_clash}
use authpad.Org.Structure.{on_clash, or_default}
use authpad.Org.Members.{TenancyConfig, RoleDefinition, owner, admin, check_membership_limit}
use authpad.Org.Setup.{
  unless_clash, role_row, seed_extra_role, seed_extra_roles, seed_roles, make_org, create,
  owner_row, furnish, new_org, wanted_slug, seed_role_defs,
}

abbrev pub HasName : Uuid → Text → World → Type 0
HasName org name w = any (is_named org name) w.idp.org_roles ≡ true

-- The organization has the roles that none goes without.
abbrev pub HasDefaults : Uuid → World → Type 0
HasDefaults org w = HasName org owner w × HasName org admin w × HasName org (codes "member") w

-- The user is an active owner of the organization.
abbrev pub IsOwner : Uuid → Uuid → World → Type 0
IsOwner org user w =
    (m : Membership) × (find (is_of org user) w.idp.memberships ≡ some m)
    × (m.role ≡ owner)
    × (is_active m.status ≡ true)

-- What seeding roles does: no organization changes and no role of a name goes away.
abbrev only_roles : Law
only_roles = record {
  Rel = λ w w'.
      (w'.idp.organizations ≡ w.idp.organizations)
      × ((org : Uuid) (name : Text) → HasName org name w → HasName org name w');
  here = λ w. (refl, λ org name h. h);
  then_ = λ u v w (s, k) (s', k'). (s' ∙ s, λ org name h. k' org name (k org name h));
  ticks = λ w. (refl, λ org name h. h);
}

any-insert_missing :
    (p : OrgName → Bool) (n : OrgName) (ns : List OrgName)
    → any p ns ≡ true
    → any p (insert_missing n ns) ≡ true
any-insert_missing p n ns h = elim (Bool-cases (any (is_named n.organization_id n.name) ns)) [
  | inl there ↦ rw there h
  | inr missing ↦ rw missing (ground arith)
]

-- A role is there once it is inserted where it is missing.
insert_missing_lem :
    (n : OrgName) (ns : List OrgName)
    → any (is_named n.organization_id n.name) (insert_missing n ns) ≡ true
insert_missing_lem n ns = elim (Bool-cases (any (is_named n.organization_id n.name) ns)) [
  | inl there ↦ rw there there
  | inr missing ↦ rw missing (ground (arith, text_eq_refl n.name))
]

create_role-Obeys : (n : OrgName) → Obeys only_roles (Names.create_role n)
unfolding Names.create_role
create_role-Obeys n = Obeys-statement _ (λ w. elim (Bool-cases (clashes n w.idp.org_roles)) [
  | inl clash ↦ rw clash (refl, λ org name h. h)
  | inr free ↦ rw free (refl, λ org name h. ground arith)
])

Obeys-unless_clash : {l : Law} {m : Action (Unit {0})} → Obeys l m → Obeys l (unless_clash m)
unfolding unless_clash
Obeys-unless_clash {l} {m} h = record { run = λ w. go w (m w).1 (m w).0 (h.run w) }
  where
    go :
        (w w' : World) (r : Result (Unit {0}))
        → l.Rel w w'
        → l.Rel w (unless_clash (λ _. (r, w')) w).1
    go w w' (ok a) h = h
    go w w' (err e) h = h

module _ (u : Unicode) (cfg : TenancyConfig) (parse_uuid : Text → Option Uuid)
    (ids : Text → Uuid) where
  seed_extra_role-Obeys :
      (fresh : Fresh) (org : Uuid) (def : RoleDefinition)
      → Obeys only_roles (seed_extra_role u cfg parse_uuid ids fresh org def)
  unfolding seed_extra_role
  seed_extra_role-Obeys fresh org def =
      Obeys-if _ (Obeys-pure tt) (Obeys-unless_clash (create_role-Obeys _))

  seed_extra_roles-Obeys :
      (fresh : Fresh) (org : Uuid) (defs : List RoleDefinition)
      → Obeys only_roles (seed_extra_roles u cfg parse_uuid ids fresh org defs)
  unfolding seed_extra_roles
  seed_extra_roles-Obeys fresh org [] = Obeys-pure tt
  seed_extra_roles-Obeys fresh org (def ∷ defs) =
      Obeys-bind (seed_extra_role-Obeys fresh org def) (λ _. seed_extra_roles-Obeys fresh org defs)

  with_defaults-HasDefaults :
      (fresh : Fresh) (org : Uuid) (ns : List OrgName)
      → (any (is_named org owner) (with_defaults (role_row u cfg parse_uuid ids fresh org) ns)
          ≡ true)
        × (any (is_named org admin) (with_defaults (role_row u cfg parse_uuid ids fresh org) ns)
            ≡ true)
        × (any
              (is_named org (codes "member"))
              (with_defaults (role_row u cfg parse_uuid ids fresh org) ns)
            ≡ true)
  with_defaults-HasDefaults fresh org ns =
      let member =
        role_row u cfg parse_uuid ids fresh org (codes "member") (codes "Organization member") in
      let manager = role_row u cfg parse_uuid ids fresh org admin (codes "Organization admin") in
      let first = role_row u cfg parse_uuid ids fresh org owner (codes "Organization owner") in
      let ns1 = insert_missing first ns in
      let ns2 = insert_missing manager ns1 in
      (
        any-insert_missing (is_named org owner) member ns2
            (any-insert_missing (is_named org owner) manager ns1 (insert_missing_lem first ns)),
        any-insert_missing (is_named org admin) member ns2 (insert_missing_lem manager ns1),
        insert_missing_lem member ns2,
      )

  seed_default_roles-Ensures :
      {Q : Unit {0} → World → Type 0} (fresh : Fresh) (org : Uuid) (w : World)
      → ((w' : World) → w'.idp.organizations ≡ w.idp.organizations → HasDefaults org w' → Q tt w')
      → Ensures w Q (Names.seed_default_roles (role_row u cfg parse_uuid ids fresh org))
  unfolding Names.seed_default_roles
  seed_default_roles-Ensures fresh org w k =
      Ensures-modify _ (k _ refl (with_defaults-HasDefaults fresh org w.idp.org_roles))

  seed_roles-Ensures :
      {Q : Unit {0} → World → Type 0} (fresh : Fresh) (org : Uuid) (w : World)
      → ((w' : World) → w'.idp.organizations ≡ w.idp.organizations → HasDefaults org w' → Q tt w')
      → Ensures w Q (seed_roles u cfg parse_uuid ids fresh org)
  unfolding seed_roles
  seed_roles-Ensures {Q} fresh org w k =
      let defs = seed_role_defs u cfg parse_uuid ids in
      Ensures-bind (Names.seed_default_roles (role_row u cfg parse_uuid ids fresh org))
        (λ _. seed_extra_roles u cfg parse_uuid ids fresh org defs)
        (seed_default_roles-Ensures fresh org w (λ w1 same defaults. record {
          run = λ a w' ran.
              let (still, kept) = Obeys-run (seed_extra_roles-Obeys fresh org defs) w1 ran in
              k w' (still ∙ same) (
                kept org owner defaults.0,
                kept org admin defaults.1,
                kept org (codes "member") defaults.2,
              );
        }))

-- What `AddMembership` makes of an existing row.
abbrev promoted : Membership → Membership
promoted m = record m {
  role = owner;
  status = Status.active;
  department_id = m.department_id;
  level_id = m.level_id;
}

upsert-IsOwner :
    (fresh : Fresh) (org user : Uuid) (ms : List Membership)
    → (m : Membership) × (find (is_of org user) (upsert (owner_row fresh org user) ms) ≡ some m)
      × (m.role ≡ owner)
      × (is_active m.status ≡ true)
unfolding is_active
upsert-IsOwner fresh org user ms = elim (Bool-cases (any (is_of org user) ms)) [
  | inl there ↦
      let (m, found) = any-find (is_of org user) ms there in
      let holds = find_holds (is_of org user) ms found in
      let kept = find-update (is_of org user) (is_of org user) promoted ms (λ x. refl) found in
      let now_owner : find (is_of org user) (update (is_of org user) promoted ms)
          ≡ some (promoted m) =
        rw holds at kept in
      rw there (promoted m, now_owner, refl, refl)
  | inr missing ↦ rw missing (owner_row fresh org user, ground arith, refl, refl)
]

module _ (u : Unicode) (cfg : TenancyConfig) (parse_uuid : Text → Option Uuid)
    (ids : Text → Uuid) where
  -- What a successful `Create` leaves.
  abbrev pub Founded : Uuid → Organization → World → Type 0
  Founded user org w = Mem org w.idp.organizations × HasDefaults org.id w × IsOwner org.id user w

  -- No organization has the id or the slug.
  abbrev pub IsNew : Organization → World → Type 0
  IsNew org w = any (λ p. p.id == org.id || text_eq p.slug org.slug) w.idp.organizations ≡ false

  insert-Ensures :
      {Q : Unit {0} → World → Type 0} (org : Organization) (w : World)
      → ((w' : World) → IsNew org w → Mem org w'.idp.organizations → Q tt w')
      → Ensures w Q (Repo.create org)
  unfolding Repo.create
  insert-Ensures org w k = Ensures-insert _ _ (λ free. k _ free (mem-cons.1 (Or.inl refl)))

  add_owner-Ensures :
      {Q : Unit {0} → World → Type 0} (fresh : Fresh) (user : Uuid) (org : Organization) (w : World)
      → Mem org w.idp.organizations
      → HasDefaults org.id w
      → ((w' : World) → Founded user org w' → Q tt w')
      → Ensures w Q (Repo.add_membership (owner_row fresh org.id user))
  unfolding Repo.add_membership
  add_owner-Ensures fresh user org w stored defaults k =
      Ensures-modify _ (k _ (stored, defaults, upsert-IsOwner fresh org.id user w.idp.memberships))

  furnish-Ensures :
      (fresh : Fresh) (user : Uuid) (org : Organization) (w : World)
      → Mem org w.idp.organizations
      → Ensures w
          (λ o w'. (o ≡ org) × Founded user o w')
          (furnish u cfg parse_uuid ids fresh user org)
  unfolding furnish
  furnish-Ensures fresh user org w stored =
      Ensures-bind (seed_roles u cfg parse_uuid ids fresh org.id)
        (λ _. Repo.add_membership (owner_row fresh org.id user) >> pure org)
        (seed_roles-Ensures u cfg parse_uuid ids fresh org.id w (λ w1 same defaults.
          Ensures-bind (Repo.add_membership (owner_row fresh org.id user)) (λ _. pure org)
            (add_owner-Ensures fresh user org w1 (rw same stored) defaults
              (λ w' founded. Ensures-pure org (refl, founded)))))

  make_org-Ensures :
      (fresh : Fresh) (user : Uuid) (name slug metadata : Text) (w : World)
      → Ensures w
          (λ org w'. (org.slug ≡ slug) × IsNew org w × Founded user org w')
          (make_org u cfg parse_uuid ids fresh user name slug metadata)
  unfolding make_org
  make_org-Ensures fresh user name slug metadata w =
      let org = new_org fresh (some user) name slug (or_default metadata (codes "{}")) in
      Ensures-bind (on_clash invalid_slug (Repo.create org))
        (λ _. furnish u cfg parse_uuid ids fresh user org)
        (Ensures-on_clash invalid_slug (Repo.create org) (
          insert-Ensures org w (λ w1 free stored.
            Ensures-weaken (λ o w'. (o ≡ org) × Founded user o w') _
              (λ o w' (same, founded). (ap (λ p. p.slug) same, rw same free, founded))
              (furnish-Ensures fresh user org w1 stored))))

  -- The limit of memberships leaves the user a seat.
  check_membership_limit-Ensures :
      {Q : Unit {0} → World → Type 0} (user : Uuid) (w : World)
      → ((w' : World) → w'.idp.organizations ≡ w.idp.organizations → Q tt w')
      → Ensures w Q (check_membership_limit u cfg parse_uuid user)
  unfolding check_membership_limit Repo.count_memberships
  check_membership_limit-Ensures {Q} user w k =
      let kept : Q tt w = k w refl in
      let read : Q tt (tick w) = k (tick w) refl in search (ensures, kept, read) depth 12

  pub create-Ensures :
      (fresh : Fresh) (user : Uuid) (name slug metadata : Text) (w : World)
      → Ensures w
          (λ org w'.
            (cfg.enabled ≡ true)
            × (cfg.allow_create_organization ≡ true)
            × (is_slug org.slug ≡ true)
            × IsNew org w
            × Founded user org w')
          (create u cfg parse_uuid ids fresh user name slug metadata)
  unfolding create
  create-Ensures fresh user name slug metadata w =
      let done : (w1 : World)
          → w1.idp.organizations ≡ w.idp.organizations
          → not cfg.enabled ≡ false
          → not cfg.allow_create_organization ≡ false
          → not (is_slug (wanted_slug u cfg parse_uuid ids name slug)) ≡ false
          → Ensures w1
              (λ org w'.
                (cfg.enabled ≡ true)
                × (cfg.allow_create_organization ≡ true)
                × (is_slug org.slug ≡ true)
                × IsNew org w
                × Founded user org w')
              (make_org u cfg parse_uuid ids fresh user (trim_space name)
                (wanted_slug u cfg parse_uuid ids name slug) metadata) =
        λ w1 unread on allowed fits.
          Ensures-weaken
            (λ org w'.
              (org.slug ≡ wanted_slug u cfg parse_uuid ids name slug)
              × IsNew org w1
              × Founded user org w')
            _
            (λ org w' (same, free, founded).
              (ground arith, ground arith, rw same (ground arith), rw unread at free, founded))
            (make_org-Ensures fresh user (trim_space name)
              (wanted_slug u cfg parse_uuid ids name slug) metadata w1) in
      search (ensures, check_membership_limit-Ensures, done) depth 15

  -- A successful Create: tenancy and the creation of organizations are enabled, the slug matches
  -- slugPattern, no organization had the id or the slug, and the organization is stored with the
  -- roles owner, admin and member and with the user as an active owner.
  pub create_sound :
      (fresh : Fresh) (user : Uuid) (name slug metadata : Text) (w w' : World) (org : Organization)
      → create u cfg parse_uuid ids fresh user name slug metadata w ≡ (ok org, w')
      → (cfg.enabled ≡ true)
        × (cfg.allow_create_organization ≡ true)
        × (is_slug org.slug ≡ true)
        × IsNew org w
        × Founded user org w'
  create_sound fresh user name slug metadata w w' org =
      (create-Ensures fresh user name slug metadata w).run org w'
