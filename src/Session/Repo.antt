-- ===== src/Session/Repo.antt =====
-- internal/repository/auth/session_repo.go: the statements on the table of sessions.
use mathlib.Core.Option
use authpad.Prelude.{
  ℕ, Bool, true, not, ◌&&◌, ◌||◌, Option, List, ◌∷◌, Text, text_eq, find, keep, update, any, count,
  ltb, ◌==◌,
}
use authpad.Db.Rows.{Uuid, Session}
use authpad.Db.World.{World, ok, Action, statement, select, modify, insert_unless, in_auth}

-- `UPDATE sessions SET f WHERE p`
abbrev pub update_sessions : (Session → Bool) → (Session → Session) → World → World
update_sessions p f = in_auth (λ d. record d { sessions = update p f d.sessions })

abbrev pub has_id : Uuid → Session → Bool
has_id id s = s.id == id

abbrev pub revoke : Session → Session
revoke s = record s { revoked = true }

-- `revoked = false AND expires_at > NOW()`
abbrev pub is_live : ℕ → Session → Bool
is_live now s = not s.revoked && ltb now s.expires_at

-- `SessionRepo.Create`; ids and token hashes are unique.
unfoldable pub create : Session → Action (Unit {0})
create s =
    insert_unless
      (λ w. any (λ t. has_id s.id t || text_eq t.token_hash s.token_hash) w.auth.sessions)
      (in_auth (λ d. record d { sessions = s ∷ d.sessions }))

-- `SessionRepo.GetByTokenHash`
unfoldable pub get_by_token_hash : Text → ℕ → Action (Option Session)
get_by_token_hash h now =
    select (λ w. find (λ s. text_eq s.token_hash h && is_live now s) w.auth.sessions)

-- `SessionRepo.UpdateLastActive`
unfoldable pub update_last_active : Uuid → ℕ → Action (Unit {0})
update_last_active id now =
    modify (update_sessions (has_id id) (λ s. record s { last_active_at = now }))

-- `SessionRepo.RevokeByID`
unfoldable pub revoke_by_id : Uuid → Action (Unit {0})
revoke_by_id id = modify (update_sessions (has_id id) revoke)

-- `SessionRepo.RevokeAllForUser`, with the number of rows.
unfoldable pub revoke_all_for_user : Uuid → Action ℕ
revoke_all_for_user user = statement (λ w. (
  ok (count (λ s. s.user_id == user) w.auth.sessions),
  update_sessions (λ s. s.user_id == user) revoke w,
))

abbrev pub is_other : Uuid → Uuid → Session → Bool
is_other user kept s = s.user_id == user && not (s.id == kept) && not s.revoked

-- `SessionRepo.RevokeOthersForUser`
unfoldable pub revoke_others_for_user : Uuid → Uuid → Action ℕ
revoke_others_for_user user kept = statement (λ w. (
  ok (count (is_other user kept) w.auth.sessions),
  update_sessions (is_other user kept) revoke w,
))

-- `SessionRepo.ListByUserID`, in the order of the table.
unfoldable pub list_by_user_id : Uuid → ℕ → Action (List Session)
list_by_user_id user now =
    select (λ w. keep (λ s. s.user_id == user && is_live now s) w.auth.sessions)

-- `SessionRepo.RotateToken`
unfoldable pub rotate_token : Uuid → Text → ℕ → ℕ → Action (Unit {0})
rotate_token id h expires_at now = modify (
    update_sessions (λ s. has_id id s && not s.revoked)
      (λ s. record s { token_hash = h; expires_at = expires_at; last_active_at = now }))

-- `SessionRepo.SetMFAPending`
unfoldable pub set_mfa_pending : Uuid → Bool → Action (Unit {0})
set_mfa_pending id pending =
    modify (update_sessions (has_id id) (λ s. record s { mfa_pending = pending }))

-- `SessionRepo.SetActiveOrganization`
unfoldable pub set_active_organization : Uuid → Option Uuid → Action (Unit {0})
set_active_organization id org =
    modify (update_sessions (has_id id) (λ s. record s { active_organization_id = org }))

-- What `IssueToken` returns of the row.
pub record Issued : Type 0 where
  pub user_id : Uuid
  pub expires_at : ℕ
  pub mfa_pending : Bool

abbrev pub issued : Session → Issued
issued s = record { user_id = s.user_id; expires_at = s.expires_at; mfa_pending = s.mfa_pending }

-- `SessionRepo.IssueToken`
unfoldable pub issue_token : Uuid → Text → ℕ → Action (Option Issued)
issue_token id h now = statement (λ w. (
  ok (Option.map issued (find (λ s. has_id id s && is_live now s) w.auth.sessions)),
  update_sessions (λ s. has_id id s && is_live now s)
      (λ s. record s { token_hash = h; last_active_at = now }) w,
))
