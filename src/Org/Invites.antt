-- ===== src/Org/Invites.antt =====
-- internal/service/org_service.go, lines 408 to 553: invitations to an organization.
use authpad.Prelude.{
  ℕ, ◌+◌, ◌*◌, Bool, true, false, not, ◌&&◌, ◌||◌, Option, none, some, List, [], ◌∷◌, Text, codes,
  text_eq, ltb, ◌==◌, if◌then◌else◌,
}
use authpad.Prelude.Strings.{Unicode, trim_space}
use authpad.Crypto.{Crypto, Fresh}
use authpad.Redirect.{is_empty}
use authpad.Session.Service.{day}
use authpad.Db.Rows.{Uuid, Organization, Membership, Invitation, Status}
use authpad.Db.World.{
  World, Result, ok, err, Error, Action, ◌>>=◌, ◌>>◌, pure, raise, attempt, or_fail, needs, fail_if,
  tenancy_disabled, invalid_org_role, org_forbidden, email_required, entropy_failure,
  invite_invalid, invite_revoked, invite_used, invitation_not_pending, hook_refused,
}
use authpad.Org.Repo
use authpad.Org.Members.{
  TenancyConfig, owner, admin, lower_trim, trim_lower, has_org_role, default_role, get_by_slug,
  require_role, check_membership_limit,
}
pub mod Accepted

-- `uuid.Parse`, the hook `OrgInvitePolicy` where one is set, and what `extrasFromPayload` reads.
module _ (u : Unicode) (cfg : TenancyConfig) (parse_uuid : Text → Option Uuid) (c : Crypto)
    (invitation_ttl : ℕ) (policy : Option (Uuid → Text → Text → Text → Bool))
    (extras : Text → Option Uuid × Option Uuid) where
  -- The check of the acting member, who is missing in an invitation of the platform.
  unfoldable pub check_actor : Uuid → Option Uuid → Bool → Action (Unit {0})
  check_actor org actor false = pure tt
  check_actor org none true = raise org_forbidden
  check_actor org (some a) true =
      if a == 0
      then raise org_forbidden
      else (require_role u cfg parse_uuid org a (owner ∷ admin ∷ []) >> pure tt)

  abbrev actor_id : Option Uuid → Uuid
  actor_id none = 0
  actor_id (some a) = a

  -- Whether the policy refuses the invitation.
  abbrev refused : Option Uuid → Text → Text → Text → Bool
  refused actor slug email role = elim policy [
    | none ↦ false
    | some allows ↦ not (allows (actor_id actor) slug email role)
  ]

  -- `invite`: the token and the row.
  unfoldable pub invite :
      Fresh → Text → Option Uuid → Text → Text → Text → Bool → Action (Text × Invitation)
  invite fresh slug actor email role payload checked = do
    org ← get_by_slug u cfg parse_uuid slug
    check_actor org.id actor checked
    let email = lower_trim u cfg parse_uuid email
    fail_if (is_empty email) email_required
    let asked = trim_lower u cfg parse_uuid role
    let role = if is_empty asked then default_role u cfg parse_uuid else asked
    known ← has_org_role u cfg parse_uuid org.id role
    fail_if (not known || text_eq role owner) invalid_org_role
    fail_if (refused actor org.slug email role) hook_refused
    token ← needs fresh.token entropy_failure
    let row : Invitation = record {
      id = fresh.id;
      organization_id = org.id;
      email = email;
      role = role;
      token_hash = c.hash_token token;
      payload = payload;
      expires_at = fresh.now + (if invitation_ttl == 0 then 7 * day else invitation_ttl);
      invited_by = actor;
      accepted_at = none;
      revoked_at = none;
      created_at = fresh.now;
    }
    Repo.create_invitation row
    pure (token, row)

  -- What refuses an invitation that was found.
  unfoldable pub refusal : Invitation → ℕ → Option Error
  refusal i now = elim (i.revoked_at) [
    | some _ ↦ some invite_revoked
    | none ↦ elim (i.accepted_at) [
      | some _ ↦ some invite_used
      | none ↦ if ltb i.expires_at now then some invite_invalid else none
    ]
  ]

  abbrev pub refuse_if : Option Error → Action (Unit {0})
  refuse_if none = pure tt
  refuse_if (some e) = raise e

  -- A department or a level of the payload that does not exist is dropped.
  unfoldable pub existing : (Uuid → Action Bool) → Option Uuid → Action (Option Uuid)
  existing test none = pure none
  existing test (some id) = test id >>= λ there. pure (if there then some id else none)

  abbrev as_used : Error → Error
  as_used invitation_not_pending = invite_used
  as_used e = e

  -- The invitation is marked, at most once.
  unfoldable pub mark_accepted : Uuid → ℕ → Action (Unit {0})
  mark_accepted id now w =
      let (r, w') = Repo.accept_invitation id now w in
      elim r [ ok a ↦ (ok a, w') | err e ↦ (err (as_used e), w') ]

  -- What `AcceptInvite` does with an invitation that nothing refuses.
  unfoldable pub join : Fresh → Uuid → Invitation → Action (Option Organization)
  join fresh user i = do
    check_membership_limit u cfg parse_uuid user
    department ← existing (Repo.department_exists i.organization_id) (extras i.payload).0
    level ← existing (Repo.level_exists i.organization_id) (extras i.payload).1
    Repo.add_membership (record {
      id = fresh.id;
      organization_id = i.organization_id;
      user_id = user;
      role = i.role;
      status = Status.active;
      department_id = department;
      level_id = level;
      created_at = fresh.now;
    })
    mark_accepted i.id fresh.now
    Repo.get_by_id i.organization_id

  -- `AcceptInvite`
  unfoldable pub accept_invite : Fresh → Text → Uuid → Action (Option Organization)
  accept_invite fresh raw user = do
    fail_if (not cfg.enabled) tenancy_disabled
    found ←
        or_fail invite_invalid (Repo.get_invitation_by_token_hash (c.hash_token (trim_space raw)))
    i ← needs found invite_invalid
    refuse_if (refusal i fresh.now)
    join fresh user i

  -- `RevokeInvite`
  unfoldable pub revoke_invite : Text → Uuid → Uuid → ℕ → Action (Unit {0})
  revoke_invite slug actor id now = do
    org ← get_by_slug u cfg parse_uuid slug
    require_role u cfg parse_uuid org.id actor (owner ∷ admin ∷ [])
    Repo.revoke_invitation id now

  -- `PeekInvitation`
  unfoldable pub peek_invitation : Text → ℕ → Action (Invitation × Option Organization)
  peek_invitation raw now = do
    fail_if (not cfg.enabled) tenancy_disabled
    found ←
        or_fail invite_invalid (Repo.get_invitation_by_token_hash (c.hash_token (trim_space raw)))
    i ← needs found invite_invalid
    refuse_if (refusal i now)
    org ← Repo.get_by_id i.organization_id
    pure (i, org)
