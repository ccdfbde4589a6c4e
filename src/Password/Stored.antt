-- ===== src/Password/Stored.antt =====
-- What `SetPassword` and `ResetPassword` store, and that it signs in.
use authpad.Prelude.{
  ℕ, ◌-◌, ◌≤◌, ◌≡◌, refl, ◌∙◌, Bool, true, false, not, ◌&&◌, ◌||◌, Option, none, some, [], ◌∷◌,
  Text, ltb, find, all, update, ◌==◌, arith, text_eq,
}
use authpad.Prelude.Strings.{Unicode}
use authpad.Crypto.{Crypto, Fresh}
use authpad.Db.Rows.{
  Status, is_locked, is_active, Uuid, UserAuth, Session, Credential, is_active, is_locked,
}
use authpad.Db.World.{World, ok, statement, tick, in_auth}
use authpad.Db.Success.{Ensures, ensures, Ensures-weaken, Ensures-stated}
use authpad.Session.Repo.{update_sessions, is_other, revoke}
use authpad.Session.Repo as Sessions
use authpad.User.Repo as Users
use authpad.User.Repo.{has_id, is_present}
use authpad.Prelude.Tables.{find-update, all-update_written}
use authpad.Password.Policy.{PasswordPolicy, validate_password_policy}
use authpad.Password.Service.{
  PasswordConfig, credential, set_password, replace_password, create_credential, validate_password,
  add_password, change_password, write_password, set_valid_password, is_right,
  password_set_max_session_age,
}

abbrev pub credential_of : Uuid → World → Option Credential
credential_of user w = find (λ cr. cr.user_id == user) w.auth.credentials

abbrev pub user_of : Uuid → World → Option UserAuth
user_of id w = find (λ v. has_id id v && is_present v) w.auth.users

-- The user signs in with the password.
pub record Stores (c : Crypto) (user : Uuid) (password : Text) (w : World) : Type 0 where
  pub row : Credential
  pub found : credential_of user w ≡ some row
  pub right : c.password_verify password row.password_hash ≡ some true

-- What `SetPassword` asks of its caller: the current password, or, where there is none, a verified
-- address and a session of the last 30 minutes.
abbrev pub Admitted : Crypto → Fresh → Session → Text → UserAuth → Option Credential → Bool → Type 0
Admitted c fresh sess current user none created =
    (user.email_verified ≡ true)
    × (fresh.now - sess.created_at ≤ password_set_max_session_age)
    × (created ≡ true)
Admitted c fresh sess current user (some cr) created =
    (is_right (c.password_verify current cr.password_hash) ≡ true) × (created ≡ false)

-- No other session of the user is live.
abbrev pub Alone : Session → World → Type 0
Alone sess w =
    all (λ s. not (s.user_id == sess.user_id) || s.id == sess.id || s.revoked) w.auth.sessions
    ≡ true

module _ (u : Unicode) (c : Crypto) (cfg : PasswordConfig)
    (verifies : (p h : Text) → c.password_hash p ≡ some h → c.password_verify p h ≡ some true) where
  pub validate_password_policy-Ensures :
      {w : World} {Q : Unit {0} → World → Type 0} (policy : PasswordPolicy) (p : Text)
      → Q tt w
      → Ensures w Q (validate_password_policy u policy p)
  unfolding validate_password_policy
  validate_password_policy-Ensures policy p q = search ensures depth 12

  stored :
      (now : ℕ) (user : Uuid) (cred : Credential) (new h : Text) (w : World)
      → credential_of user w ≡ some cred
      → c.password_hash new ≡ some h
      → Stores c user new (
          in_auth
            (λ d. record d {
              credentials =
                  update
                    (λ c. c.id == cred.id)
                    (λ c. record c { password_hash = h; hash_version = 2; updated_at = now })
                    d.credentials;
            })
            (tick w))
  stored now user cred new h w has hashed =
      let kept =
        find-update (λ cr. cr.user_id == user) (λ cr. cr.id == cred.id)
          (λ cr. record cr { password_hash = h; hash_version = 2; updated_at = now })
          w.auth.credentials (λ cr. refl) has in
      record {
        row = record cred { password_hash = h; hash_version = 2; updated_at = now };
        found = kept ∙ ground arith;
        right = verifies new h hashed;
      }

  pub replace_password-Ensures :
      {Q : Unit {0} → World → Type 0} (now : ℕ) (user : Uuid) (cred : Credential) (new : Text)
      (w : World)
      → credential_of user w ≡ some cred
      → ((w' : World) → Stores c user new w' → Q tt w')
      → Ensures w Q (replace_password u c cfg now cred new)
  unfolding replace_password Users.update_hash
  replace_password-Ensures now user cred new w has k = search (ensures, stored)

  inserted :
      (fresh : Fresh) (user : Uuid) (new h : Text) (w : World)
      → c.password_hash new ≡ some h
      → Stores c user new (
          in_auth
            (λ d. record d { credentials = credential fresh user h 2 ∷ d.credentials })
            (tick w))
  inserted fresh user new h w hashed = record {
    row = credential fresh user h 2;
    found = ground arith;
    right = verifies new h hashed;
  }

  pub create_credential-Ensures :
      {Q : Unit {0} → World → Type 0} (fresh : Fresh) (user : Uuid) (new : Text) (w : World)
      → ((w' : World) → Stores c user new w' → Q tt w')
      → Ensures w Q (create_credential u c cfg fresh user new)
  unfolding create_credential Users.create_credential
  create_credential-Ensures fresh user new w k =
      search (validate_password_policy-Ensures, ensures, inserted) depth 12

  add_password-Ensures :
      (fresh : Fresh) (sess : Session) (user : UserAuth) (current new : Text) (w : World)
      → Ensures w
          (λ created w'.
            Admitted c fresh sess current user none created × Stores c sess.user_id new w')
          (add_password u c cfg fresh sess user new)
  unfolding add_password
  add_password-Ensures fresh sess user current new w =
      let done : (w' : World)
          → not user.email_verified ≡ false
          → ltb password_set_max_session_age (fresh.now - sess.created_at) ≡ false
          → Stores c sess.user_id new w'
          → Admitted c fresh sess current user none true × Stores c sess.user_id new w' =
        λ w' proven recent s. ((ground arith, ground arith, refl), s) in
      search (ensures, create_credential-Ensures, done) depth 12

  change_password-Ensures :
      (fresh : Fresh) (sess : Session) (user : UserAuth) (cred : Credential) (current new : Text)
      (w : World)
      → credential_of sess.user_id w ≡ some cred
      → Ensures w
          (λ created w'.
            Admitted c fresh sess current user (some cred) created × Stores c sess.user_id new w')
          (change_password u c cfg fresh.now cred current new)
  unfolding change_password
  change_password-Ensures fresh sess user cred current new w has =
      let done : (w' : World)
          → not (is_right (c.password_verify current cred.password_hash)) ≡ false
          → Stores c sess.user_id new w'
          → Admitted c fresh sess current user (some cred) false × Stores c sess.user_id new w' =
        λ w' right s. ((ground arith, refl), s) in
      search (ensures, replace_password-Ensures fresh.now sess.user_id cred new w has, done) depth
        12

  write_password-Ensures :
      {Q : Bool → World → Type 0} (fresh : Fresh) (sess : Session) (user : UserAuth)
      (current new : Text) (o : Option Credential) (w : World)
      → credential_of sess.user_id w ≡ o
      → ((created : Bool) (w' : World)
          → Admitted c fresh sess current user o created
          → Stores c sess.user_id new w'
          → Q created w')
      → Ensures w Q (write_password u c cfg fresh sess user current new o)
  unfolding write_password
  write_password-Ensures {Q} fresh sess user current new none w has k =
      Ensures-weaken _ Q (λ b w' (a, s). k b w' a s)
        (add_password-Ensures fresh sess user current new w)
  write_password-Ensures {Q} fresh sess user current new (some cred) w has k =
      Ensures-weaken _ Q (λ b w' (a, s). k b w' a s)
        (change_password-Ensures fresh sess user cred current new w has)

  -- What a successful SetPassword has asked and done.
  abbrev pub Changed : Fresh → Session → Text → Text → World → Bool → World → Type 0
  Changed fresh sess current new w created w' =
      (user : UserAuth) × (user_of sess.user_id w ≡ some user)
      × (is_active user.status ≡ true)
      × Admitted c fresh sess current user (credential_of sess.user_id w) created
      × Stores c sess.user_id new w'
      × Alone sess w'

  revoke_others-Ensures :
      {Q : ℕ → World → Type 0} (sess : Session) (new : Text) (w : World)
      → Stores c sess.user_id new w
      → ((n : ℕ) (w' : World) → Stores c sess.user_id new w' → Alone sess w' → Q n w')
      → Ensures w Q (Sessions.revoke_others_for_user sess.user_id sess.id)
  unfolding Sessions.revoke_others_for_user
  revoke_others-Ensures sess new w s k = Ensures-stated _ _ (
      k _ _ (record { row = s.row; found = s.found; right = s.right })
        (all-update_written _ (is_other sess.user_id sess.id) revoke w.auth.sessions
          (λ t other. ground arith) (λ t kept. ground arith)))

  changed :
      (fresh : Fresh) (sess : Session) (current new : Text) (w w' : World) (created : Bool)
      (user : UserAuth)
      → user_of sess.user_id w ≡ some user
      → not (is_active user.status) ≡ false
      → Admitted c fresh sess current user (credential_of sess.user_id w) created
      → Stores c sess.user_id new w'
      → Alone sess w'
      → Changed fresh sess current new w created w'
  changed fresh sess current new w w' created user present working a s alone =
      (user, present, ground arith, a, s, alone)

  set_valid_password-Ensures :
      (fresh : Fresh) (sess : Session) (current new : Text) (w : World)
      → Ensures w
          (Changed fresh sess current new w)
          (set_valid_password u c cfg fresh sess current new)
  unfolding set_valid_password Users.get_by_id Users.get_credential
  set_valid_password-Ensures fresh sess current new w =
      search (ensures, write_password-Ensures, revoke_others-Ensures, changed) depth 15

  -- SetPassword succeeds only for an active user who presents the current password or, having none,
  -- has a verified address and a session of the last 30 minutes. Afterwards the new password has
  -- the stored hash and every other session of the user is revoked.
  pub set_password_sound :
      (fresh : Fresh) (sess : Session) (current new : Text) (w w' : World) (created : Bool)
      → set_password u c cfg fresh sess current new w ≡ (ok created, w')
      → Changed fresh sess current new w created w'
  unfolding set_password
  set_password_sound fresh sess current new w w' created =
      let set : Ensures w (Changed fresh sess current new w)
          (set_password u c cfg fresh sess current new) =
        search (ensures, validate_password_policy-Ensures, set_valid_password-Ensures) in
      set.run created w'

-- No later statement fails.
abbrev pub reliable : World → World
reliable w = record w { faults = [] }

active_unlocked : (s : Status) → is_active s ≡ true → is_locked s ≡ false
unfolding is_active is_locked
active_unlocked Status.active h = refl
active_unlocked Status.suspended h = cc
active_unlocked Status.pending_deletion h = cc
active_unlocked Status.locked h = cc
active_unlocked Status.deleted h = cc
active_unlocked Status.removed h = cc
active_unlocked (Status.other t) h = cc

module _ (u : Unicode) (c : Crypto) (cfg : PasswordConfig) where
  pub Stores-validate_password :
      (user : UserAuth) (email password : Text) (w : World)
      → Stores c user.id password w
      → find (λ v. text_eq v.email email && is_present v) w.auth.users ≡ some user
      → is_active user.status ≡ true
      → (cfg.require_verification && not user.email_verified) ≡ false
      → (validate_password u c cfg email password (reliable w)).0 ≡ ok user
  unfolding validate_password Users.get_by_email Users.get_credential statement
  Stores-validate_password user email password w s known working proven =
      let free = active_unlocked user.status working in
      rw (known, s.found, s.right, free, working, proven) refl

  -- A password that SetPassword has stored signs its user in, where the user is active and, if that
  -- is required, verified, and no statement of the sign-in fails. `PasswordService.Verify` accepts a
  -- password for its hash.
  pub set_password-validate_password :
      ((p h : Text) → c.password_hash p ≡ some h → c.password_verify p h ≡ some true)
      → (fresh : Fresh) (sess : Session) (current new email : Text) (w w' : World) (created : Bool)
        (user : UserAuth)
      → set_password u c cfg fresh sess current new w ≡ (ok created, w')
      → find (λ v. text_eq v.email email && is_present v) w'.auth.users ≡ some user
      → user.id ≡ sess.user_id
      → is_active user.status ≡ true
      → (cfg.require_verification && not user.email_verified) ≡ false
      → (validate_password u c cfg email new (reliable w')).0 ≡ ok user
  set_password-validate_password verifies fresh sess current new email w w' created user set known
        same working proven =
      let (_, _, _, _, s, _) =
        set_password_sound u c cfg verifies fresh sess current new w w' created set in
      Stores-validate_password user email new w' (rw same s) known working proven
