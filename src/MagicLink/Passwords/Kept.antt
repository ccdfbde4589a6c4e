-- ===== src/MagicLink/Passwords/Kept.antt =====
-- What `FindOrCreate` of internal/service/magic_link_service.go does to the passwords of others.
use authpad.Prelude.{
  ℕ, ◌≡◌, ◌≢◌, Bool, true, not, Option, none, some, List, [], ◌∷◌, Text, any, keep, arith, ◌==◌,
}
use authpad.Prelude.Strings.{Unicode}
use authpad.Crypto.{Fresh}
use authpad.Db.Rows.{Uuid, UserAuth, Credential}
use authpad.Db.World.{World, Result, Action, ok, err, pure}
use authpad.Db.Rules.{
  Law, Obeys, Obeys-statement, Obeys-select, Obeys-bind, Obeys-pure, Obeys-raise, Obeys-if,
  Obeys-attempt, Obeys-option, obeys,
}
use authpad.Session.Service.{StaffFunc}
use authpad.User.Repo as Users
use authpad.User.Repo.{is_present}
use authpad.User.Account.{
  SignupHooks, create_user_auth, rollback_user, rollback_profile, create_profile, or_undo,
  undo_signup, run_signup_hook, create_passwordless_account,
}
use authpad.MagicLink.Accounts.{as_existing, find_or_create, provision, settle}

-- The user has a password.
abbrev pub HasPassword : Uuid → World → Type 0
HasPassword user w = any (λ k. k.user_id == user) w.auth.credentials ≡ true

-- The call leaves the user the password.
abbrev pub keeps_password : Uuid → Law
keeps_password user = record {
  Rel = λ w w'. HasPassword user w → HasPassword user w';
  here = λ w h. h;
  then_ = λ u v w k l h. l (k h);
  ticks = λ w h. h;
}

any-keep_others :
    (user other : Uuid) (ks : List Credential)
    → other ≢ user
    → any (λ k. k.user_id == user) ks ≡ true
    → any (λ k. k.user_id == user) (keep (λ k. not (k.user_id == other)) ks) ≡ true
any-keep_others user other [] ne h = h
any-keep_others user other (k ∷ ks) ne h = ground (arith, any-keep_others user other ks ne)

-- A failed step is undone.
or_undo-Obeys :
    {l : Law} {A : Type 0} (undo : Action (Unit {0})) (m : Action A)
    → Obeys l undo
    → Obeys l m
    → Obeys l (or_undo undo m)
unfolding or_undo
or_undo-Obeys {l} {A} undo m k h = record { run = λ w. go w (m w).0 (m w).1 (h.run w) }
  where
    go :
        (w : World) (r : Result A) (w' : World)
        → l.Rel w w'
        → l.Rel w (or_undo undo (λ _. (r, w')) w).1
    go w (ok a) w' s = s
    go w (err e) w' s = l.then_ w w' _ s (k.run w')

module _ (user : Uuid) (id : Uuid) (other : id ≢ user) where
  delete_credentials-Obeys : Obeys (keeps_password user) (Users.delete_credentials id)
  unfolding Users.delete_credentials
  delete_credentials-Obeys =
      Obeys-statement _ (λ w h. any-keep_others user id w.auth.credentials other h)

  delete-Obeys : Obeys (keeps_password user) (Users.delete id)
  unfolding Users.delete
  delete-Obeys = Obeys-statement _ (λ w h. any-keep_others user id w.auth.credentials other h)

  rollback_user-Obeys : Obeys (keeps_password user) (rollback_user id)
  unfolding rollback_user
  rollback_user-Obeys = search (obeys, delete_credentials-Obeys, delete-Obeys)

  rollback_profile-Obeys : Obeys (keeps_password user) (rollback_profile id)
  unfolding rollback_profile
  rollback_profile-Obeys = Obeys-statement _ (λ w h. h)

  create_profile-Obeys : (name : Text) → Obeys (keeps_password user) (create_profile id name)
  unfolding create_profile
  create_profile-Obeys name = Obeys-statement _ (λ w h. ground arith)

  create_user_auth-Obeys :
      (email : Text) (now : ℕ) → Obeys (keeps_password user) (create_user_auth id email now)
  unfolding create_user_auth Users.create
  create_user_auth-Obeys email now = Obeys-statement _ (λ w h. ground arith)

  set_email_verified-Obeys :
      (now : ℕ) → Obeys (keeps_password user) (Users.set_email_verified id now)
  unfolding Users.set_email_verified
  set_email_verified-Obeys now = Obeys-statement _ (λ w h. h)

  undo_signup-Obeys : (hooks : SignupHooks) → Obeys (keeps_password user) (undo_signup hooks id)
  unfolding undo_signup
  undo_signup-Obeys hooks = search (obeys, rollback_profile-Obeys, rollback_user-Obeys)

-- The hook on signup, where there is one, leaves the user the password.
abbrev pub HookKeeps : Uuid → Option (Uuid → Text → Action (Unit {0})) → Type 0
HookKeeps user none = Unit
HookKeeps user (some hook) =
    (id : Uuid) (email : Text) → Obeys (keeps_password user) (hook id email)

hook-Obeys :
    (user : Uuid) (o : Option (Uuid → Text → Action (Unit {0}))) (undo : Action (Unit {0}))
    (id : Uuid) (email : Text)
    → HookKeeps user o
    → Obeys (keeps_password user) undo
    → Obeys
        (keeps_password user)
        (elim o [ none ↦ pure tt | some hook ↦ or_undo undo (hook id email) ])
hook-Obeys user none undo id email h k = Obeys-pure tt
hook-Obeys user (some hook) undo id email h k = or_undo-Obeys undo (hook id email) k (h id email)

module _ (u : Unicode) (hooks : SignupHooks) (disable_public_signup : Bool)
    (guards : Option StaffFunc) (user : Uuid) (hook_keeps : HookKeeps user hooks.on_signup) where
  run_signup_hook-Obeys :
      (id : Uuid) (email : Text)
      → id ≢ user
      → Obeys (keeps_password user) (run_signup_hook hooks id email)
  unfolding run_signup_hook
  run_signup_hook-Obeys id email other =
      hook-Obeys user hooks.on_signup (undo_signup hooks id) id email hook_keeps
        (undo_signup-Obeys user id other hooks)

  create_passwordless_account-Obeys :
      (fresh : Fresh) (email : Text)
      → fresh.id ≢ user
      → Obeys (keeps_password user) (create_passwordless_account hooks fresh email)
  unfolding create_passwordless_account
  create_passwordless_account-Obeys fresh email other =
      Obeys-bind (create_user_auth-Obeys user fresh.id other email fresh.now) (λ _.
        Obeys-bind
          (Obeys-if hooks.has_idp
            (or_undo-Obeys _ _ (rollback_user-Obeys user fresh.id other)
              (create_profile-Obeys user fresh.id other _))
            (Obeys-pure tt))
          (λ _.
            Obeys-bind (Obeys-attempt (set_email_verified-Obeys user fresh.id other fresh.now))
              (λ _.
                Obeys-bind (run_signup_hook-Obeys fresh.id email other)
                  (λ _. Obeys-pure fresh.id))))

  get_by_email_fold-Obeys :
      (email : Text) → Obeys (keeps_password user) (Users.get_by_email_fold u email)
  unfolding Users.get_by_email_fold
  get_by_email_fold-Obeys email = Obeys-select _

  settle-Obeys :
      (email : Text) (r : Result Uuid)
      → Obeys (keeps_password user) (settle u hooks disable_public_signup guards email r)
  unfolding settle Users.get_by_id
  settle-Obeys email (ok id) = Obeys-bind (Obeys-select _) (λ _. Obeys-pure _)
  settle-Obeys email (err e) =
      Obeys-bind (Obeys-attempt (get_by_email_fold-Obeys email)) (λ again. existing again)
    where
      existing : (r : Result (Option UserAuth)) → Obeys (keeps_password user) (as_existing e r)
      existing (ok (some v)) = Obeys-pure _
      existing (ok none) = Obeys-raise e
      existing (err x) = Obeys-raise e

  pub find_or_create-Obeys :
      (fresh : Fresh) (email : Text)
      → fresh.id ≢ user
      → Obeys
          (keeps_password user)
          (find_or_create u hooks disable_public_signup guards fresh email)
  unfolding find_or_create provision
  find_or_create-Obeys fresh email other =
      let made = create_passwordless_account-Obeys fresh email other in
      Obeys-bind (get_by_email_fold-Obeys email) (λ known.
        Obeys-option known
          (Obeys-if disable_public_signup (Obeys-pure none)
            (Obeys-bind (Obeys-attempt made) (λ r. settle-Obeys email r)))
          (λ v. Obeys-pure _))
