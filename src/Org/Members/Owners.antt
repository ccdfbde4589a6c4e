-- ===== src/Org/Members/Owners.antt =====
-- An organization does not lose its last owner to a change of role or a removal.
use authpad.Prelude.{
  ℕ, ◌≡◌, ◌≤◌, ◌∙◌, refl, false, not, ◌&&◌, Option, none, some, List, [], Text, text_eq, find,
  update, count, leb, ◌==◌, arith, Bool-cases, Option-cases, inl, inr,
}
use authpad.Prelude.Strings.{Unicode}
use authpad.Db.Rows.{Uuid, Membership, Status}
use authpad.Db.World.{
  World, Result, ok, err, Action, statement, tick, ◌>>=◌, fail_if, is_due, ◌>>◌, invalid_org_role,
  not_org_member,
}
use authpad.Db.Rules.{Obeys, Obeys-select, Obeys-fail_if, Obeys-run}
use authpad.Org.Repo
use authpad.Org.Repo.{is_of, is_active_of, has_role}
use authpad.Org.Members.{
  TenancyConfig, MemberChange, owner, member_change_context, member_role_decision, change_role_in,
  change_member_role, remove_in, remove_member, has_org_role, lower_trim,
}
use authpad.Org.Members.Context.{
  same_members, owners_of, context-Obeys, has_org_role-Obeys, member_change_context-eq-ok,
}
use authpad.Org.Members.Rows.{Trimmed, update-owners}

module _ (u : Unicode) (cfg : TenancyConfig) (parse_uuid : Text → Option Uuid) where
  -- From a table of memberships, the call leads to one where the organization has an owner.
  record Leads (ms : List Membership) (o : Uuid) {A : Type 0} (m : Action A) : Type 0 where
    run : (w : World) → w.idp.memberships ≡ ms → 1 ≤ owners_of u cfg parse_uuid o (m w).1

  Leads-read :
      (ms : List Membership) (o : Uuid) {A B : Type 0} (m : Action A) (f : A → Action B)
      → Obeys same_members m
      → 1 ≤ count (has_role u o owner) ms
      → ((a : A) → Leads ms o (f a))
      → Leads ms o (m >>= f)
  Leads-read ms o {A} {B} m f reads some_ k = record {
    run = λ w e. go (m w).0 (m w).1 (reads.run w ∙ e);
  }
    where
      go :
          (r : Result A) (w' : World)
          → w'.idp.memberships ≡ ms
          → 1 ≤ owners_of u cfg parse_uuid o (◌>>=◌ (λ _. (r, w')) f w').1
      go (ok a) w' e = (k a).run w' e
      go (err x) w' e = rw e some_

  Leads-then :
      (ms : List Membership) (o : Uuid) {A B : Type 0} (m : Action A) (f : A → Action B)
      → Leads ms o m
      → ((a : A) → Obeys same_members (f a))
      → Leads ms o (m >>= f)
  Leads-then ms o {A} {B} m f leads reads = record {
    run = λ w e. go (m w).0 (m w).1 (leads.run w e);
  }
    where
      go :
          (r : Result A) (w' : World)
          → 1 ≤ owners_of u cfg parse_uuid o w'
          → 1 ≤ owners_of u cfg parse_uuid o (◌>>=◌ (λ _. (r, w')) f w').1
      go (ok a) w' s = rw ((reads a).run w') s
      go (err x) w' s = s

  Leads-statement :
      (ms : List Membership) (o : Uuid) {A : Type 0} (m : Action A)
      → 1 ≤ count (has_role u o owner) ms
      → ((w : World) → w.idp.memberships ≡ ms → 1 ≤ owners_of u cfg parse_uuid o (m w).1)
      → Leads ms o (statement m)
  unfolding statement
  Leads-statement ms o m some_ k = record {
    run = λ w e. elim (Bool-cases (is_due w.faults)) [
      | inl due ↦ rw due (rw e some_)
      | inr fine ↦ rw fine (k (tick w) e)
    ];
  }

  -- A decision that lets the target be changed, where it is the last owner, is none.
  decision-safe :
      (a t next : Text) (n : ℕ)
      → text_eq (lower_trim u cfg parse_uuid next) owner ≡ false
      → member_role_decision u cfg parse_uuid a t next n ≡ none
      → text_eq (lower_trim u cfg parse_uuid t) owner && leb n 1 ≡ false
  unfolding member_role_decision
  decision-safe a t next n other h = ground arith

  decision-next :
      (a t next : Text) (n : ℕ)
      → member_role_decision u cfg parse_uuid a t next n ≡ none
      → text_eq (lower_trim u cfg parse_uuid next) owner ≡ false
  unfolding member_role_decision
  decision-next a t next n h = ground arith

  module _ (target : Uuid) (ch : MemberChange) (ms : List Membership) (o : Uuid)
      (found : find (is_of (ch.org).id target) ms ≡ some ch.target)
      (owners : ch.owners ≡ count (has_role u (ch.org).id owner) ms)
      (trimmed : Trimmed u cfg parse_uuid ms) (unique : count (is_of (ch.org).id target) ms ≤ 1)
      (some_ : 1 ≤ count (has_role u o owner) ms) where
    allowed-owners :
        (role : Text) (f : Membership → Membership)
        → ((x : Membership) → (f x).organization_id ≡ x.organization_id)
        → member_role_decision u cfg parse_uuid (ch.actor).role (ch.target).role role ch.owners
          ≡ none
        → 1 ≤ count (has_role u o owner) (update (is_active_of (ch.org).id target) f ms)
    allowed-owners role f keeps allowed =
        let next = decision-next (ch.actor).role (ch.target).role role ch.owners allowed in
        let safe = decision-safe (ch.actor).role (ch.target).role role ch.owners next allowed in
        update-owners u cfg parse_uuid (ch.org).id target f ms ch.target keeps trimmed unique found
          (rw owners at safe) o some_

    update_role-Leads :
        (role : Text)
        → member_role_decision u cfg parse_uuid (ch.actor).role (ch.target).role role ch.owners
          ≡ none
        → Leads ms o (
            Repo.update_membership_role (ch.org).id target role
            >> Repo.get_membership (ch.org).id target)
    unfolding Repo.update_membership_role Repo.get_membership
    update_role-Leads role allowed =
        Leads-then ms o (Repo.update_membership_role (ch.org).id target role)
          (λ _. Repo.get_membership (ch.org).id target)
          (Leads-statement ms o _ some_
            (λ w e. rw e (allowed-owners role (λ m. record m { role = role }) (λ x. refl) allowed)))
          (λ _. Obeys-select _)

    change_role_in-Leads :
        (role : Text) → Leads ms o (change_role_in u cfg parse_uuid target role ch)
    unfolding change_role_in
    change_role_in-Leads role =
        let write =
          Repo.update_membership_role (ch.org).id target role
          >> Repo.get_membership (ch.org).id target in
        elim (Option-cases
          (member_role_decision u cfg parse_uuid (ch.actor).role (ch.target).role role ch.owners)) [
            | inl allowed ↦ rw allowed (
                Leads-read ms o (has_org_role u cfg parse_uuid (ch.org).id role)
                  (λ known. fail_if (not known) invalid_org_role >> write)
                  (has_org_role-Obeys u cfg parse_uuid (ch.org).id role) some_
                  (λ known.
                    Leads-read ms o (fail_if (not known) invalid_org_role) (λ _. write)
                      (Obeys-fail_if _ _) some_ (λ _. update_role-Leads role allowed)))
            | inr (e, refused) ↦ rw refused (record { run = λ w s. rw s some_ })
          ]

    remove_in-Leads : Leads ms o (remove_in u cfg parse_uuid target ch)
    unfolding remove_in Repo.remove_membership
    remove_in-Leads =
        elim (Option-cases
          (member_role_decision u cfg parse_uuid (ch.actor).role (ch.target).role [] ch.owners)) [
            | inl allowed ↦ rw allowed (
                Leads-then ms o (Repo.remove_membership (ch.org).id target)
                  (λ n. fail_if (n == 0) not_org_member)
                  (Leads-statement ms o _ some_ (λ w e. rw e (
                    allowed-owners [] (λ m. record m { status = Status.removed }) (λ x. refl)
                      allowed)))
                  (λ _. Obeys-fail_if _ _))
            | inr (e, refused) ↦ rw refused (record { run = λ w s. rw s some_ })
          ]

  in_context :
      (slug : Text) (actor target : Uuid) (w : World) (o : Uuid)
      → 1 ≤ owners_of u cfg parse_uuid o w
      → {A : Type 0} (f : MemberChange → Action A)
      → ((ch : MemberChange)
          → find (is_of (ch.org).id target) w.idp.memberships ≡ some ch.target
          → ch.owners ≡ owners_of u cfg parse_uuid (ch.org).id w
          → Leads w.idp.memberships o (f ch))
      → 1
        ≤ owners_of u cfg parse_uuid o
            ((member_change_context u cfg parse_uuid slug actor target >>= f) w).1
  in_context slug actor target w o some_ {A} f k = go (ctx w).0 (ctx w).1 refl
    where
      ctx : Action MemberChange
      ctx = member_change_context u cfg parse_uuid slug actor target

      go :
          (r : Result MemberChange) (w' : World)
          → member_change_context u cfg parse_uuid slug actor target w ≡ (r, w')
          → 1 ≤ owners_of u cfg parse_uuid o (◌>>=◌ (λ _. (r, w')) f w).1
      go (ok ch) w' e =
          let (found, owners, same) =
            member_change_context-eq-ok u cfg parse_uuid slug actor target w w' ch e in
          (k ch found owners).run w' same
      go (err x) w' e =
          let same = Obeys-run (context-Obeys u cfg parse_uuid slug actor target) w e in
          rw same some_

  -- What a manager does to a member; roles come from the caller.
  pub data MemberOp : Type 0 where
    change : Text → MemberOp
    remove : MemberOp

  pub manage : Text → Uuid → Uuid → MemberOp → World → World
  manage slug actor target (change role) w =
      (change_member_role u cfg parse_uuid slug actor target role w).1
  manage slug actor target remove w = (remove_member u cfg parse_uuid slug actor target w).1

  -- No organization loses its last owner when a manager changes a member's role or removes a
  -- member, whatever the call returns: one with an owner still has one. Roles are stored without
  -- spaces around them, and the target has at most one membership in an organization.
  pub manage-keeps_owner :
      (slug : Text) (actor target : Uuid) (op : MemberOp) (w : World) (o : Uuid)
      → Trimmed u cfg parse_uuid w.idp.memberships
      → ((org : Uuid) → count (is_of org target) w.idp.memberships ≤ 1)
      → 1 ≤ owners_of u cfg parse_uuid o w
      → 1 ≤ owners_of u cfg parse_uuid o (manage slug actor target op w)
  unfolding manage change_member_role remove_member
  manage-keeps_owner slug actor target (change role) w o trimmed unique some_ =
      in_context slug actor target w o some_
        (change_role_in u cfg parse_uuid target (lower_trim u cfg parse_uuid role))
        (λ ch found owners.
          change_role_in-Leads target ch w.idp.memberships o found owners trimmed
            (unique (ch.org).id) some_ (lower_trim u cfg parse_uuid role))
  manage-keeps_owner slug actor target remove w o trimmed unique some_ =
      in_context slug actor target w o some_ (remove_in u cfg parse_uuid target) (λ ch found owners.
        remove_in-Leads target ch w.idp.memberships o found owners trimmed (unique (ch.org).id)
          some_)
