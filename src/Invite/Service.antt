-- ===== src/Invite/Service.antt =====
-- internal/service/invite_service.go: issuing, checking, revoking and redeeming invitations to the
-- platform.
use authpad.Prelude.{
  ℕ, ◌+◌, ◌*◌, Bool, true, false, not, ◌&&◌, Option, none, some, List, [], ◌∷◌, Text, codes, ltb,
  ◌==◌, if◌then◌else◌,
}
use authpad.Prelude.Strings.{Unicode, to_lower, trim_space}
use authpad.Prelude.Dict.{Dict, insert}
use authpad.Redirect.{is_empty}
use authpad.Crypto.{Crypto, Fresh}
use authpad.Db.Rows.{Uuid, PlatformInvitation}
use authpad.Db.World.{
  ok, err, Error, Action, ◌>>=◌, ◌>>◌, pure, raise, attempt, or_fail, needs, fail_if,
  email_required, entropy_failure, invite_invalid, invite_revoked, invite_used,
  invitation_not_pending, hook_refused,
}
use authpad.Session.Service.{SessionConfig, StaffFunc, day}
use authpad.Password.Service.{PasswordConfig}
use authpad.Profile.{Value, ProfileField}
use authpad.Org.Members.{RoleDefinition}
use authpad.User.Account.{SignupHooks, rollback_user, rollback_profile, or_undo}
use authpad.User.Roles.{assign_role_by_name}
use authpad.User.Signup.{CreateAccountRequest, CreateAccountResult, create_account}
use authpad.Invite.Repo

-- What refuses an invitation that was found, in `Validate`.
unfoldable pub refusal : PlatformInvitation → ℕ → Option Error
refusal i now = elim (i.revoked_at) [
  | some _ ↦ some invite_revoked
  | none ↦ elim (i.redeemed_at) [
    | some _ ↦ some invite_used
    | none ↦ if ltb i.expires_at now then some invite_invalid else none
  ]
]

abbrev pub unless_refused : Option Error → PlatformInvitation → Action PlatformInvitation
unless_refused none i = pure i
unless_refused (some e) i = raise e

-- `for k, v := range m { profile[k] = v }`
unfoldable pub merge : Dict Value → Dict Value → Dict Value
merge [] profile = profile
merge ((k, v) ∷ m) profile = merge m (insert k v profile)

-- The error that `Redeem` returns of `MarkRedeemed`.
abbrev pub as_used : Error → Error
as_used invitation_not_pending = invite_used
as_used e = e

unfoldable pub mark_used : Uuid → Uuid → ℕ → Action (Unit {0})
mark_used id user now w =
    let (r, w') = Repo.mark_redeemed id user now w in
    elim r [ ok a ↦ (ok a, w') | err e ↦ (err (as_used e), w') ]

module _ (u : Unicode) (c : Crypto) where
  -- `Validate`
  unfoldable pub validate : Text → ℕ → Action PlatformInvitation
  validate raw now = do
    found ← or_fail invite_invalid (Repo.get_by_token_hash (c.hash_token (trim_space raw)))
    i ← needs found invite_invalid
    unless_refused (refusal i now) i

  -- Issuing, with the hook `InvitePolicy` where one is set and what `json.Marshal` returns.
  module _ (ttl : ℕ) (policy : Option (Uuid → Text → Text → Bool)) where
    abbrev is_refused : Uuid → Text → Text → Bool
    is_refused actor email role = elim policy [
      | none ↦ false
      | some allows ↦ not (allows actor email role)
    ]

    -- `Issue`
    unfoldable pub issue : Fresh → Uuid → Text → Text → Text → Action (Text × PlatformInvitation)
    issue fresh actor email role payload = do
      let email = to_lower u (trim_space email)
      let role = trim_space (to_lower u role)
      fail_if (is_empty email) email_required
      fail_if (is_refused actor email role) hook_refused
      token ← needs fresh.token entropy_failure
      let row : PlatformInvitation = record {
        id = fresh.id;
        email = email;
        role = role;
        payload = if is_empty payload then codes "{}" else payload;
        token_hash = c.hash_token token;
        expires_at = fresh.now + (if ttl == 0 then 7 * day else ttl);
        invited_by = some actor;
        redeemed_at = none;
        redeemed_user_id = none;
        revoked_at = none;
        created_at = fresh.now;
      }
      Repo.create row
      pure (token, row)

-- `unmarshal` is what `json.Unmarshal` makes of a payload.
module _ (letter_or_number : ℕ → Bool) (is_uri is_address : Text → Bool) (u : Unicode) (c : Crypto)
    (fields : List ProfileField) (passwords : PasswordConfig) (sessions : SessionConfig)
    (staff : Option StaffFunc) (hooks : SignupHooks) (roles : List RoleDefinition)
    (ids : Text → Uuid) (on_role_assigned : Option (Uuid → Text → Action (Unit {0})))
    (unmarshal : Text → Dict Value) where
  -- The rollback of a new account in `Redeem`.
  unfoldable pub undo_redeem : Uuid → Action (Unit {0})
  undo_redeem user =
      rollback_user user
      >> (if hooks.has_idp then attempt (rollback_profile user) >> pure tt else pure tt)

  -- The role of the invitation, where it has one.
  unfoldable pub give_role : Uuid → Text → Action (Unit {0})
  give_role user role =
      if not (is_empty role) && hooks.has_idp
      then or_undo (undo_redeem user) (assign_role_by_name u roles ids on_role_assigned user role)
      else pure tt

  -- The request that `Redeem` makes of an invitation.
  unfoldable pub request_of : PlatformInvitation → Text → Text → Dict Value → CreateAccountRequest
  request_of i name password extra = record {
    email = i.email;
    password = password;
    profile = merge extra (merge (unmarshal i.payload) ((codes "name", Value.string name) ∷ []));
    email_verified = true;
    skip_session = false;
  }

  -- The account of an invitation that was checked.
  unfoldable pub open_account :
      Fresh → PlatformInvitation → CreateAccountRequest → Text → Text → Action CreateAccountResult
  open_account fresh i req ip_address user_agent = do
    result ←
        create_account letter_or_number is_uri is_address u c fields passwords sessions staff hooks
          fresh req ip_address user_agent
    give_role result.user_id i.role
    or_undo (undo_redeem result.user_id) (mark_used i.id result.user_id fresh.now)
    pure result

  -- `Redeem`
  unfoldable pub redeem :
      Fresh → Text → Text → Text → Dict Value → Text → Text → Action CreateAccountResult
  redeem fresh raw name password extra ip_address user_agent = do
    i ← validate u c raw fresh.now
    open_account fresh i (request_of i name password extra) ip_address user_agent
