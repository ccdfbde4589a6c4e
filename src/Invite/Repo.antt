-- ===== src/Invite/Repo.antt =====
-- internal/repository/idp/invitation_repo.go.
use authpad.Prelude.{
  ℕ, Bool, true, false, ◌&&◌, Option, none, some, ◌∷◌, Text, text_eq, any, find, update, ◌==◌,
  if◌then◌else◌,
}
use authpad.Db.Rows.{Uuid, PlatformInvitation}
use authpad.Db.World.{
  ok, err, Action, statement, select, modify, insert_unless, in_idp, invitation_not_pending,
}

-- `InvitationRepo.Create`
unfoldable pub create : PlatformInvitation → Action (Unit {0})
create i =
    insert_unless (λ w. any (λ r. text_eq r.token_hash i.token_hash) w.idp.platform_invitations)
      (in_idp (λ d. record d { platform_invitations = i ∷ d.platform_invitations }))

-- `InvitationRepo.GetByTokenHash`
unfoldable pub get_by_token_hash : Text → Action (Option PlatformInvitation)
get_by_token_hash h = select (λ w. find (λ i. text_eq i.token_hash h) w.idp.platform_invitations)

-- `InvitationRepo.GetByID`
unfoldable pub get_by_id : Uuid → Action (Option PlatformInvitation)
get_by_id id = select (λ w. find (λ i. i.id == id) w.idp.platform_invitations)

abbrev is_null : Option ℕ → Bool
is_null none = true
is_null (some _) = false

-- The row that `Revoke` and `MarkRedeemed` update.
unfoldable pub is_pending : Uuid → PlatformInvitation → Bool
is_pending id i = i.id == id && is_null i.revoked_at && is_null i.redeemed_at

-- `InvitationRepo.Revoke`
unfoldable pub revoke : Uuid → ℕ → Action (Unit {0})
revoke id now = modify (
    in_idp (λ d. record d {
      platform_invitations =
          update (is_pending id) (λ i. record i { revoked_at = some now }) d.platform_invitations;
    }))

-- `InvitationRepo.MarkRedeemed`
unfoldable pub mark_redeemed : Uuid → Uuid → ℕ → Action (Unit {0})
mark_redeemed id user now = statement (λ w. (
  if any (is_pending id) w.idp.platform_invitations then ok tt else err invitation_not_pending,
  in_idp
      (λ d. record d {
        platform_invitations =
            update (is_pending id)
              (λ i. record i { redeemed_at = some now; redeemed_user_id = some user })
              d.platform_invitations;
      })
      w,
))
