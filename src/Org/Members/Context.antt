-- ===== src/Org/Members/Context.antt =====
-- What the context of a change of a member has read: it writes no membership.
use authpad.Prelude.{
  ℕ, ◌≡◌, ◌∙◌, sym, refl, Option, some, Text, find, count, arith, Option-cases, inl, inr,
}
use authpad.Prelude.Strings.{Unicode}
use authpad.Db.Rows.{Uuid, Organization, Membership}
use authpad.Db.World.{World, ok, Action, statement, ◌>>=◌, pure}
use authpad.Db.Rules.{Law, Obeys, obeys, >>=-eq-ok, Obeys-run}
use authpad.Org.Repo
use authpad.Org.Repo.{is_of, is_active_of, has_role}
use authpad.Org.Members.{
  TenancyConfig, MemberChange, owner, get_by_slug, require_member, member_change_context,
  has_org_role,
}

abbrev pub same_members : Law
same_members = record {
  Rel = λ w w'. w'.idp.memberships ≡ w.idp.memberships;
  here = λ w. refl;
  then_ = λ u v w h k. k ∙ h;
  ticks = λ w. refl;
}

module _ (u : Unicode) (cfg : TenancyConfig) (parse_uuid : Text → Option Uuid) where
  -- The owners of the organization in this world.
  abbrev pub owners_of : Uuid → World → ℕ
  owners_of org w = count (has_role u org owner) w.idp.memberships

  get_by_slug-Obeys : (slug : Text) → Obeys same_members (get_by_slug u cfg parse_uuid slug)
  unfolding get_by_slug Repo.get_by_slug
  get_by_slug-Obeys slug = search obeys

  require_member-Obeys :
      (org user : Uuid) → Obeys same_members (require_member u cfg parse_uuid org user)
  unfolding require_member Repo.get_membership
  require_member-Obeys org user = search obeys

  pub context-Obeys :
      (slug : Text) (actor target : Uuid)
      → Obeys same_members (member_change_context u cfg parse_uuid slug actor target)
  unfolding member_change_context Repo.count_active_role
  context-Obeys slug actor target = search (obeys, get_by_slug-Obeys, require_member-Obeys) depth 12

  pub has_org_role-Obeys :
      (org : Uuid) (role : Text) → Obeys same_members (has_org_role u cfg parse_uuid org role)
  unfolding has_org_role Repo.role_exists
  has_org_role-Obeys org role = search obeys

  require_member-eq-ok :
      (org user : Uuid) (w w' : World) (m : Membership)
      → require_member u cfg parse_uuid org user w ≡ (ok m, w')
      → find (is_of org user) w.idp.memberships ≡ some m
  unfolding require_member Repo.get_membership statement
  require_member-eq-ok org user w w' m h =
      elim (Option-cases (find (is_of org user) w.idp.memberships)) [
        | inl nobody ↦ absurd (ground arith)
        | inr (n, found) ↦ let same : n ≡ m = ground arith in rw same at found
      ]

  count_active_role-eq-ok :
      (org : Uuid) (w w' : World) (n : ℕ)
      → Repo.count_active_role u org owner w ≡ (ok n, w')
      → n ≡ owners_of org w
  unfolding Repo.count_active_role statement
  count_active_role-eq-ok org w w' n h = ground arith

  read-context :
      (target : Uuid) (o : Organization) (a t : Membership) (n : ℕ) (w w1 w2 w3 w4 w' : World)
      (ch : MemberChange)
      → pure (record { org = o; actor = a; target = t; owners = n }) w4 ≡ (ok ch, w')
      → w1.idp.memberships ≡ w.idp.memberships
      → w2.idp.memberships ≡ w1.idp.memberships
      → w3.idp.memberships ≡ w2.idp.memberships
      → find (is_of o.id target) w2.idp.memberships ≡ some t
      → n ≡ owners_of o.id w3
      → (find (is_of (ch.org).id target) w.idp.memberships ≡ some ch.target)
        × (ch.owners ≡ owners_of (ch.org).id w)
  read-context target o a t n w w1 w2 w3 w4 w' ch h s1 s2 s3 found owners =
      let is_ch : record { org = o; actor = a; target = t; owners = n } ≡ ch = cc in
      let s : w2.idp.memberships ≡ w.idp.memberships = s2 ∙ s1 in
      let s' : w3.idp.memberships ≡ w.idp.memberships = s3 ∙ s in
      rw (sym is_ch) (rw s at found, rw s' at owners)

  -- What the context of a change has read.
  pub member_change_context-eq-ok :
      (slug : Text) (actor target : Uuid) (w w' : World) (ch : MemberChange)
      → member_change_context u cfg parse_uuid slug actor target w ≡ (ok ch, w')
      → (find (is_of (ch.org).id target) w.idp.memberships ≡ some ch.target)
        × (ch.owners ≡ owners_of (ch.org).id w)
        × (w'.idp.memberships ≡ w.idp.memberships)
  unfolding member_change_context
  member_change_context-eq-ok slug actor target w w' ch h =
      let same = Obeys-run (context-Obeys slug actor target) w h in
      let answer : Organization → Membership → Membership → ℕ → Action MemberChange =
        λ o a t n. pure (record { org = o; actor = a; target = t; owners = n }) in
      let after_target : Organization → Membership → Membership → Action MemberChange =
        λ o a t. Repo.count_active_role u o.id owner >>= answer o a t in
      let after_actor : Organization → Membership → Action MemberChange =
        λ o a. require_member u cfg parse_uuid o.id target >>= after_target o a in
      let after_org : Organization → Action MemberChange =
        λ o. require_member u cfg parse_uuid o.id actor >>= after_actor o in
      let (o, w1, org, h) = >>=-eq-ok (get_by_slug u cfg parse_uuid slug) after_org w h in
      let (a, w2, by, h) =
        >>=-eq-ok (require_member u cfg parse_uuid o.id actor) (after_actor o) w1 h in
      let (t, w3, of_, h) =
        >>=-eq-ok (require_member u cfg parse_uuid o.id target) (after_target o a) w2 h in
      let (n, w4, counted, h) =
        >>=-eq-ok (Repo.count_active_role u o.id owner) (answer o a t) w3 h in
      let same1 = Obeys-run (get_by_slug-Obeys slug) w org in
      let same2 = Obeys-run (require_member-Obeys o.id actor) w1 by in
      let same3 = Obeys-run (require_member-Obeys o.id target) w2 of_ in
      let found = require_member-eq-ok o.id target w2 w3 t of_ in
      let owners = count_active_role-eq-ok o.id w3 w4 n counted in
      let (is_of_target, counts) =
        read-context target o a t n w w1 w2 w3 w4 w' ch h same1 same2 same3 found owners in
      (is_of_target, counts, same)
