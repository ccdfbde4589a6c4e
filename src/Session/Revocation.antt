-- ===== src/Session/Revocation.antt =====
-- Revoked sessions, under what the service does with sessions: internal/service/auth_service.go.
use authpad.Prelude.{
  ℕ, ◌≡◌, ◌≢◌, ◌∙◌, refl, Bool, true, false, not, ◌||◌, Option, List, [], ◌∷◌, Text, any, all,
  update, arith, Bool-cases, inl, inr, text_eq,
}
use authpad.Prelude.Tables.{all_of_mem, any-or_left, all-update, any-update}
use authpad.Crypto.{Crypto, Fresh}
use authpad.Db.Rows.{Uuid, Session}
use authpad.Db.World.{World, Action, ok, modify}
use authpad.Db.Rules.{
  Law, Obeys, Obeys-select, Obeys-statement, Obeys-bind, Obeys-needs, Obeys-pure, obeys,
}
use authpad.Session.Repo
use authpad.Session.Repo.{has_id, revoke, update_sessions}
use authpad.Session.Service.{
  SessionConfig, StaffFunc, session_is_staff, create_session_with_ttl, get_session_by_token,
  rotate_session, issue_session_token,
}
use authpad.Session.Service.Checks.{get_session_by_token_sound}
use authpad.User.Repo as User

-- There is a session with the id, and it is revoked.
abbrev pub Dead : Uuid → List Session → Type 0
Dead id ss = (any (has_id id) ss ≡ true) × (all (λ s. not (has_id id s) || s.revoked) ss ≡ true)

abbrev pub stays_dead : Law
stays_dead = record {
  Rel = λ w w'. (id : Uuid) → Dead id w.auth.sessions → Dead id w'.auth.sessions;
  here = λ w id h. h;
  then_ = λ u v w h k id d. k id (h id d);
  ticks = λ w id h. h;
}

-- An update that writes neither ids nor a `false` into `revoked`.
update-Dead :
    (id : Uuid) (p : Session → Bool) (f : Session → Session) (ss : List Session)
    → ((s : Session) → (f s).id ≡ s.id)
    → ((s : Session) → s.revoked ≡ true → (f s).revoked ≡ true)
    → Dead id ss
    → Dead id (update p f ss)
update-Dead id p f ss same keeps (there, dead) = (
  any-update (has_id id) p f ss (λ s. ground (arith, same s)) ∙ there,
  all-update (λ s. not (has_id id s) || s.revoked) p f ss (λ s h. ground (arith, same s, keeps s))
      dead,
)

update_sessions-Obeys :
    (p : Session → Bool) (f : Session → Session)
    → ((s : Session) → (f s).id ≡ s.id)
    → ((s : Session) → s.revoked ≡ true → (f s).revoked ≡ true)
    → Obeys stays_dead (modify (update_sessions p f))
update_sessions-Obeys p f same keeps =
    Obeys-statement _ (λ w id d. update-Dead id p f w.auth.sessions same keeps d)

insert-Dead :
    (id : Uuid) (s : Session) (ss : List Session)
    → any (λ t. has_id s.id t || text_eq t.token_hash s.token_hash) ss ≡ false
    → Dead id ss
    → Dead id (s ∷ ss)
insert-Dead id s ss free (there, dead) =
    let other : any (has_id s.id) ss ≡ false =
      any-or_left (has_id s.id) (λ t. text_eq t.token_hash s.token_hash) ss free in
    let ne : s.id ≢ id = λ e. cc (rw e at other) in ground arith

create-Obeys : (s : Session) → Obeys stays_dead (Repo.create s)
unfolding Repo.create
create-Obeys s = Obeys-statement _ (λ w id d.
    elim (Bool-cases
      (any (λ t. has_id s.id t || text_eq t.token_hash s.token_hash) w.auth.sessions)) [
        | inl clash ↦ rw clash d
        | inr free ↦ rw free (insert-Dead id s w.auth.sessions free d)
      ])

update_last_active-Obeys : (id : Uuid) (now : ℕ) → Obeys stays_dead (Repo.update_last_active id now)
unfolding Repo.update_last_active
update_last_active-Obeys id now = update_sessions-Obeys _ _ (λ s. refl) (λ s d. d)

revoke_by_id-Obeys : (id : Uuid) → Obeys stays_dead (Repo.revoke_by_id id)
unfolding Repo.revoke_by_id
revoke_by_id-Obeys id = update_sessions-Obeys _ _ (λ s. refl) (λ s d. refl)

revoke_all_for_user-Obeys : (user : Uuid) → Obeys stays_dead (Repo.revoke_all_for_user user)
unfolding Repo.revoke_all_for_user
revoke_all_for_user-Obeys user =
    Obeys-statement _
      (λ w id d. update-Dead id _ revoke w.auth.sessions (λ s. refl) (λ s h. refl) d)

revoke_others_for_user-Obeys :
    (user kept : Uuid) → Obeys stays_dead (Repo.revoke_others_for_user user kept)
unfolding Repo.revoke_others_for_user
revoke_others_for_user-Obeys user kept =
    Obeys-statement _
      (λ w id d. update-Dead id _ revoke w.auth.sessions (λ s. refl) (λ s h. refl) d)

rotate_token-Obeys :
    (id : Uuid) (h : Text) (expires_at now : ℕ)
    → Obeys stays_dead (Repo.rotate_token id h expires_at now)
unfolding Repo.rotate_token
rotate_token-Obeys id h expires_at now = update_sessions-Obeys _ _ (λ s. refl) (λ s d. d)

issue_token-Obeys : (id : Uuid) (h : Text) (now : ℕ) → Obeys stays_dead (Repo.issue_token id h now)
unfolding Repo.issue_token
issue_token-Obeys id h now =
    Obeys-statement _ (λ w i d. update-Dead i _ _ w.auth.sessions (λ s. refl) (λ s r. r) d)

set_mfa_pending-Obeys : (id : Uuid) (b : Bool) → Obeys stays_dead (Repo.set_mfa_pending id b)
unfolding Repo.set_mfa_pending
set_mfa_pending-Obeys id b = update_sessions-Obeys _ _ (λ s. refl) (λ s d. d)

set_active_organization-Obeys :
    (id : Uuid) (org : Option Uuid) → Obeys stays_dead (Repo.set_active_organization id org)
unfolding Repo.set_active_organization
set_active_organization-Obeys id org = update_sessions-Obeys _ _ (λ s. refl) (λ s d. d)

get_by_token_hash-Obeys : (h : Text) (now : ℕ) → Obeys stays_dead (Repo.get_by_token_hash h now)
unfolding Repo.get_by_token_hash
get_by_token_hash-Obeys h now = Obeys-select _

get_by_id-Obeys : (id : Uuid) → Obeys stays_dead (User.get_by_id id)
unfolding User.get_by_id
get_by_id-Obeys id = Obeys-select _

-- What the service does with sessions on behalf of a request.
pub data SessionOp : Type 0 where
  create : Fresh → Uuid → Text → Text → ℕ → SessionOp
  check : Text → ℕ → SessionOp
  rotate : Fresh → Session → SessionOp
  issue : Fresh → Uuid → SessionOp
  revoke_one : Uuid → SessionOp
  revoke_user : Uuid → SessionOp
  revoke_others : Uuid → Uuid → SessionOp
  set_pending : Uuid → Bool → SessionOp
  set_organization : Uuid → Option Uuid → SessionOp

-- The call leaves the table of sessions as it was.
abbrev pub same_sessions : Law
same_sessions = record {
  Rel = λ w w'. w'.auth.sessions ≡ w.auth.sessions;
  here = λ w. refl;
  then_ = λ u v w h k. k ∙ h;
  ticks = λ w. refl;
}

dead_of_same : {A : Type 0} {m : Action A} → Obeys same_sessions m → Obeys stays_dead m
dead_of_same o = record { run = λ w id d. rw (o.run w) d }

module _ (c : Crypto) (cfg : SessionConfig) (staff : Option StaffFunc) where
  unfoldable pub perform : SessionOp → World → World
  perform (create fresh user ip ua ttl) w =
      (create_session_with_ttl c cfg staff fresh user ip ua ttl w).1
  perform (check token now) w = (get_session_by_token c cfg token now w).1
  perform (rotate fresh s) w = (rotate_session c cfg fresh s w).1
  perform (issue fresh id) w = (issue_session_token c cfg fresh id w).1
  perform (revoke_one id) w = (Repo.revoke_by_id id w).1
  perform (revoke_user user) w = (Repo.revoke_all_for_user user w).1
  perform (revoke_others user kept) w = (Repo.revoke_others_for_user user kept w).1
  perform (set_pending id b) w = (Repo.set_mfa_pending id b w).1
  perform (set_organization id org) w = (Repo.set_active_organization id org w).1

  unfoldable pub perform_all : List SessionOp → World → World
  perform_all [] w = w
  perform_all (op ∷ ops) w = perform_all ops (perform op w)

  ruleset statements = (
    obeys, create-Obeys, update_last_active-Obeys, revoke_by_id-Obeys, rotate_token-Obeys,
    issue_token-Obeys, get_by_token_hash-Obeys, get_by_id-Obeys,
  )

  create_session-Obeys :
      ((user : Uuid) → Obeys same_sessions (session_is_staff staff user))
      → (fresh : Fresh) (user : Uuid) (ip ua : Text) (ttl : ℕ)
      → Obeys stays_dead (create_session_with_ttl c cfg staff fresh user ip ua ttl)
  unfolding create_session_with_ttl
  create_session-Obeys reads fresh user ip ua ttl = Obeys-bind (Obeys-needs _ _) (λ _.
      Obeys-bind (dead_of_same (reads user)) (λ _. Obeys-bind (create-Obeys _) (λ _. Obeys-pure _)))

  get_session_by_token-Obeys :
      (token : Text) (now : ℕ) → Obeys stays_dead (get_session_by_token c cfg token now)
  unfolding get_session_by_token
  get_session_by_token-Obeys token now = search statements depth 12

  rotate_session-Obeys :
      (fresh : Fresh) (s : Session) → Obeys stays_dead (rotate_session c cfg fresh s)
  unfolding rotate_session
  rotate_session-Obeys fresh s = search statements

  issue_session_token-Obeys :
      (fresh : Fresh) (id : Uuid) → Obeys stays_dead (issue_session_token c cfg fresh id)
  unfolding issue_session_token
  issue_session_token-Obeys fresh id = search statements

  perform-Dead :
      ((user : Uuid) → Obeys same_sessions (session_is_staff staff user))
      → (op : SessionOp) (w : World) (id : Uuid) → Dead id w.auth.sessions
      → Dead id (perform op w).auth.sessions
  unfolding perform
  perform-Dead reads (create fresh user ip ua ttl) w =
      (create_session-Obeys reads fresh user ip ua ttl).run w
  perform-Dead reads (check token now) w = (get_session_by_token-Obeys token now).run w
  perform-Dead reads (rotate fresh s) w = (rotate_session-Obeys fresh s).run w
  perform-Dead reads (issue fresh id) w = (issue_session_token-Obeys fresh id).run w
  perform-Dead reads (revoke_one id) w = (revoke_by_id-Obeys id).run w
  perform-Dead reads (revoke_user user) w = (revoke_all_for_user-Obeys user).run w
  perform-Dead reads (revoke_others user kept) w = (revoke_others_for_user-Obeys user kept).run w
  perform-Dead reads (set_pending id b) w = (set_mfa_pending-Obeys id b).run w
  perform-Dead reads (set_organization id org) w = (set_active_organization-Obeys id org).run w

  perform_all-Dead :
      ((user : Uuid) → Obeys same_sessions (session_is_staff staff user))
      → (ops : List SessionOp) (w : World) (id : Uuid) → Dead id w.auth.sessions
      → Dead id (perform_all ops w).auth.sessions
  unfolding perform_all
  perform_all-Dead reads [] w id d = d
  perform_all-Dead reads (op ∷ ops) w id d =
      perform_all-Dead reads ops (perform op w) id (perform-Dead reads op w id d)

  -- Once all rows of a session id are revoked no token is accepted for it again, whatever sequence
  -- of session operations runs in between, failed statements included. The sessions that are
  -- created ask any classifier of staff that does not write sessions.
  pub revoked_for_good :
      (ops : List SessionOp) (w w' : World) (id : Uuid) (token : Text) (now : ℕ) (s : Session)
      → ((user : Uuid) → Obeys same_sessions (session_is_staff staff user))
      → Dead id w.auth.sessions
      → get_session_by_token c cfg token now (perform_all ops w) ≡ (ok s, w')
      → s.id ≢ id
  revoked_for_good ops w w' id token now s reads d h same =
      let (_, dead) = perform_all-Dead reads ops w id d in
      let (found, _, live, _, _, _, _) =
        get_session_by_token_sound c cfg token now (perform_all ops w) w' s h in
      let gone = all_of_mem _ (perform_all ops w).auth.sessions dead found in ground arith
