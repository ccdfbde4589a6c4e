-- ===== src/Session/Service/Checks.antt =====
-- What a session token buys: `GetSessionByToken`.
use mathlib.Core.List.{Mem}
use authpad.Prelude.{
  ℕ, ◌+◌, ◌*◌, ◌<◌, ◌≤◌, ◌⊎◌, true, ◌≡◌, Option-cases, inl, inr, false, ◌&&◌, find, arith, Text,
  text_eq, text_eq_iff,
}
use authpad.Prelude.Tables.{find_holds, find_mem}
use authpad.Crypto.{Crypto}
use authpad.Db.Rows.{Session}
use authpad.Db.World.{World, ok, statement}
use authpad.Session.Repo
use authpad.Session.Repo.{is_live}
use authpad.Session.Service.{
  SessionConfig, day, session_idle_limit, is_idle, is_outlived, get_session_by_token,
}

-- The session counts as one that remembers its user: it expires 20 days after its creation, or
-- later, whether it was created or rotated to do so.
abbrev pub Remembered : Session → Type 0
Remembered s = s.created_at + 20 * day ≤ s.expires_at

-- Staff were active within their own window, where it is set.
abbrev pub StaffActive : SessionConfig → ℕ → Session → Type 0
StaffActive cfg now s =
    (s.staff ≡ false)
    ⊎ (cfg.staff_idle_timeout ≡ 0)
    ⊎ (now ≤ s.last_active_at + cfg.staff_idle_timeout)

-- Others were active within the window for all, where it is set and they are not remembered.
abbrev pub UserActive : SessionConfig → ℕ → Session → Type 0
UserActive cfg now s =
    ((s.staff ≡ true) × (0 < cfg.staff_idle_timeout))
    ⊎ Remembered s
    ⊎ (cfg.idle_timeout ≡ 0)
    ⊎ (now ≤ s.last_active_at + cfg.idle_timeout)

-- The session is not older than the maximal lifetime, where it is set and nobody is remembered.
abbrev pub Young : SessionConfig → ℕ → Session → Type 0
Young cfg now s = Remembered s ⊎ (cfg.max_lifetime ≡ 0) ⊎ (now ≤ s.created_at + cfg.max_lifetime)

is_idle_lem :
    (cfg : SessionConfig) (now : ℕ) (s : Session)
    → is_idle cfg now s ≡ false
    → StaffActive cfg now s × UserActive cfg now s
unfolding is_idle session_idle_limit
is_idle_lem cfg now s h = (ground arith, ground arith)

is_outlived_lem :
    (cfg : SessionConfig) (now : ℕ) (s : Session) → is_outlived cfg now s ≡ false → Young cfg now s
unfolding is_outlived
is_outlived_lem cfg now s h = ground arith

module _ (c : Crypto) (cfg : SessionConfig) where
  -- A token is accepted only for a session of the table that has the token's hash and is neither
  -- revoked nor expired. Staff with a window of their own were active within it; other sessions
  -- were active within the idle window, unless they expire 20 days or more after their creation;
  -- with that exception no session is older than the maximal lifetime. A timeout of zero is none.
  pub get_session_by_token_sound :
      (token : Text) (now : ℕ) (w w' : World) (s : Session)
      → get_session_by_token c cfg token now w ≡ (ok s, w')
      → Mem s w.auth.sessions
        × (s.token_hash ≡ c.hash_token token)
        × (s.revoked ≡ false)
        × (now < s.expires_at)
        × StaffActive cfg now s
        × UserActive cfg now s
        × Young cfg now s
  unfolding get_session_by_token Repo.get_by_token_hash statement
  get_session_by_token_sound token now w w' s h =
      elim (Option-cases
        (find (λ t. text_eq t.token_hash (c.hash_token token) && is_live now t) w.auth.sessions)) [
          | inl nothing ↦ absurd (ground arith)
          | inr (sess, found) ↦
              let passed : (s ≡ sess)
                  × (is_idle cfg now sess ≡ false)
                  × (is_outlived cfg now sess ≡ false) =
                ground arith in
              let held =
                find_holds (λ t. text_eq t.token_hash (c.hash_token token) && is_live now t)
                  w.auth.sessions found in
              let (staff, user) = is_idle_lem cfg now sess passed.1 in
              rw passed.0 (
                find_mem _ w.auth.sessions found,
                ground (arith, text_eq_iff sess.token_hash (c.hash_token token)),
                ground arith,
                ground arith,
                staff,
                user,
                is_outlived_lem cfg now sess passed.2,
              )
        ]
