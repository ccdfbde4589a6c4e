-- ===== src/Org/Members/Rows.antt =====
-- What an update of one member's active rows does to the number of owners.
use authpad.Prelude.{
  ◌≡◌, ◌≤◌, refl, true, false, ◌&&◌, Option, some, List, Text, text_eq, text_eq_iff, find, all,
  update, count, leb, ◌==◌, arith, Bool-cases, inl, inr,
}
use authpad.Prelude.Strings.{Unicode, trim_space, to_lower}
use authpad.Prelude.Tables.{find-all}
use authpad.Db.Rows.{Uuid, Membership}
use authpad.Org.Repo.{is_of, is_active_of, has_role}
use authpad.Org.Members.{TenancyConfig, owner, lower_trim}
use authpad.Prelude.Counts.{count-update_one, count-update_uncounted, count-update_apart}

module _ (u : Unicode) (cfg : TenancyConfig) (parse_uuid : Text → Option Uuid) where
  -- Roles are stored without spaces around them.
  abbrev pub Trimmed : List Membership → Type 0
  Trimmed ms = all (λ m. text_eq (trim_space m.role) m.role) ms ≡ true

  owner-lower : to_lower u owner ≡ owner
  unfolding to_lower
  owner-lower = refl

  counted-owner :
      (org : Uuid) (m : Membership)
      → text_eq (trim_space m.role) m.role ≡ true
      → has_role u org owner m ≡ true
      → text_eq (lower_trim u cfg parse_uuid m.role) owner ≡ true
  counted-owner org m trimmed counted =
      let same = (text_eq_iff (trim_space m.role) m.role).0 trimmed in
      let reads : text_eq (to_lower u m.role) (to_lower u owner) ≡ true = ground arith in
      rw same (rw owner-lower at reads)

  -- An update of the rows of one member that are active leaves an owner, where the member is no
  -- owner or is not the only one.
  pub update-owners :
      (org user : Uuid) (f : Membership → Membership) (ms : List Membership) (m : Membership)
      → ((x : Membership) → (f x).organization_id ≡ x.organization_id)
      → Trimmed ms
      → count (is_of org user) ms ≤ 1
      → find (is_of org user) ms ≡ some m
      → text_eq (lower_trim u cfg parse_uuid m.role) owner
          && leb (count (has_role u org owner) ms) 1
        ≡ false
      → (o : Uuid) → 1 ≤ count (has_role u o owner) ms
      → 1 ≤ count (has_role u o owner) (update (is_active_of org user) f ms)
  update-owners org user f ms m keeps trimmed unique found safe o some_ =
      elim (Bool-cases (o == org)) [
        | inl this ↦
            let e : o ≡ org = ground arith in
            elim (Bool-cases (has_role u org owner m)) [
              | inl counted ↦
                  let is_owner = counted-owner org m (find-all _ _ ms trimmed found) counted in
                  let two : 2 ≤ count (has_role u org owner) ms = ground arith in
                  let left =
                    count-update_one (has_role u org owner) (is_active_of org user) (is_of org user)
                      f (λ x a. ground arith) ms unique in
                  rw e (omega arith)
              | inr free ↦
                  let left =
                    count-update_uncounted (has_role u org owner) (is_active_of org user)
                      (is_of org user) f (λ x a. ground arith) ms unique found free in
                  let before = rw e at some_ in rw e (omega arith)
            ]
        | inr apart ↦
            rw
              (count-update_apart (has_role u o owner) (is_active_of org user) f ms
                (λ x a. ground arith) (λ x a. ground (arith, keeps x)))
              some_
      ]
