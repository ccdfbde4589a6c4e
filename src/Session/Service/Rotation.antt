-- ===== src/Session/Service/Rotation.antt =====
-- What the rotation of a token does to the lifetime of its session.
use authpad.Prelude.{ℕ, Bool, not, ◌||◌, List, Text, ◌==◌}
use authpad.Crypto.{Crypto}
use authpad.Db.Rows.{Uuid, Session, UserAuth, is_locked}
use authpad.Db.World.{World}
use authpad.Session.Repo
use authpad.User.Repo as Users

-- The row after a rotation.
abbrev pub rotated : Session → Text → ℕ → ℕ → Session
rotated s h expires_at now = record s {
  token_hash = h;
  expires_at = expires_at;
  last_active_at = now;
}

-- No user of the id is locked.
abbrev pub unlocked : Uuid → UserAuth → Bool
unlocked id u = not (u.id == id) || not (is_locked u.status)
