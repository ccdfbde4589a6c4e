-- ===== src/Password/SingleUse.antt =====
-- A reset token resets a password once.
use authpad.Prelude.{
  ℕ, ◌≡◌, ◌≢◌, ◌≤◌, true, ◌||◌, Option, none, some, List, [], ◌∷◌, Text, text_eq_iff, All, any,
  count, ◌==◌, arith, Bool-cases, inl, inr,
}
use authpad.Prelude.Strings.{Unicode}
use authpad.Prelude.Tables.{all-keep, find_holds, find-all, count-none}
use authpad.Crypto.{Crypto, Fresh}
use authpad.Db.Rows.{Uuid, UserAuth, Session, Credential, PasswordResetToken}
use authpad.Db.World.{World, ok}
use authpad.Db.Rules.{Law, Obeys, Obeys-statement, Obeys-select, obeys, Obeys-needed}
use authpad.Session.Repo as Sessions
use authpad.User.Repo as Users
use authpad.Password.Repo
use authpad.Password.Repo.{has_token_hash, resets}
use authpad.Password.Policy.{validate_password_policy}
use authpad.Password.Service.{
  PasswordConfig, store_password, reset_password, set_password, set_valid_password, write_password,
  add_password, change_password, replace_password, create_credential, create_password_reset_token,
  offer_reset, make_reset_token,
}
use authpad.Password.Reset.{Gone, reset_password_sound}

abbrev stays_gone : Text → Law
stays_gone h = record {
  Rel = λ w w'. Gone h w → Gone h w';
  here = λ w g. g;
  then_ = λ u v w k l g. l (k g);
  ticks = λ w g. g;
}

module _ (h : Text) where
  update_hash-Obeys :
      (id : Uuid) (k : Text) (v now : ℕ) → Obeys (stays_gone h) (Users.update_hash id k v now)
  unfolding Users.update_hash
  update_hash-Obeys id k v now = Obeys-statement _ (λ w g. g)

  insert_credential-Obeys : (cr : Credential) → Obeys (stays_gone h) (Users.create_credential cr)
  unfolding Users.create_credential
  insert_credential-Obeys cr = Obeys-statement _ (λ w g.
      elim (Bool-cases (any (λ d. d.user_id == cr.user_id) w.auth.credentials)) [
        | inl clash ↦ rw clash g
        | inr free ↦ rw free g
      ])

  get_by_id-Obeys : (id : Uuid) → Obeys (stays_gone h) (Users.get_by_id id)
  unfolding Users.get_by_id
  get_by_id-Obeys id = Obeys-select _

  get_by_email-Obeys : (email : Text) → Obeys (stays_gone h) (Users.get_by_email email)
  unfolding Users.get_by_email
  get_by_email-Obeys email = Obeys-select _

  get_credential-Obeys : (id : Uuid) → Obeys (stays_gone h) (Users.get_credential id)
  unfolding Users.get_credential
  get_credential-Obeys id = Obeys-select _

  get_by_token_hash-Obeys :
      (k : Text) (now : ℕ) → Obeys (stays_gone h) (Repo.get_by_token_hash k now)
  unfolding Repo.get_by_token_hash
  get_by_token_hash-Obeys k now = Obeys-select _

  delete_by_id-Obeys : (id : Uuid) → Obeys (stays_gone h) (Repo.delete_by_id id)
  unfolding Repo.delete_by_id
  delete_by_id-Obeys id = Obeys-statement _ (λ w g. all-keep _ _ w.auth.reset_tokens g)

  delete_expired-Obeys : (before : ℕ) → Obeys (stays_gone h) (Repo.delete_expired before)
  unfolding Repo.delete_expired
  delete_expired-Obeys before = Obeys-statement _ (λ w g. all-keep _ _ w.auth.reset_tokens g)

  revoke_others-Obeys :
      (user kept : Uuid) → Obeys (stays_gone h) (Sessions.revoke_others_for_user user kept)
  unfolding Sessions.revoke_others_for_user
  revoke_others-Obeys user kept = Obeys-statement _ (λ w g. g)

  create-Obeys : (t : PasswordResetToken) → t.token_hash ≢ h → Obeys (stays_gone h) (Repo.create t)
  unfolding Repo.create
  create-Obeys t other = Obeys-statement _ (λ w g.
      elim (Bool-cases
        (any (λ r. r.id == t.id || has_token_hash t.token_hash r) w.auth.reset_tokens)) [
          | inl clash ↦ rw clash g
          | inr free ↦ rw free (ground (arith, text_eq_iff t.token_hash h))
        ])

ruleset statements = (
  obeys, update_hash-Obeys, insert_credential-Obeys, get_by_id-Obeys, get_by_email-Obeys,
  get_credential-Obeys, get_by_token_hash-Obeys, delete_by_id-Obeys, delete_expired-Obeys,
  revoke_others-Obeys, create-Obeys,
)

-- What happens to reset tokens and passwords.
pub data PasswordOp : Type 0 where
  request : Fresh → Text → PasswordOp
  reset : Fresh → Text → Text → PasswordOp
  change : Fresh → Session → Text → Text → PasswordOp
  clean : ℕ → PasswordOp

module _ (u : Unicode) (c : Crypto) (cfg : PasswordConfig) where
  validate_password_policy-Obeys :
      (h password : Text) → Obeys (stays_gone h) (validate_password_policy u cfg.policy password)
  unfolding validate_password_policy
  validate_password_policy-Obeys h password = search statements depth 12

  create_credential-Obeys :
      (h : Text) (fresh : Fresh) (user : Uuid) (new : Text)
      → Obeys (stays_gone h) (create_credential u c cfg fresh user new)
  unfolding create_credential
  create_credential-Obeys h fresh user new =
      search (statements, validate_password_policy-Obeys) depth 12

  replace_password-Obeys :
      (h : Text) (now : ℕ) (cred : Credential) (new : Text)
      → Obeys (stays_gone h) (replace_password u c cfg now cred new)
  unfolding replace_password
  replace_password-Obeys h now cred new = search statements

  store_password-Obeys :
      (h : Text) (fresh : Fresh) (user : Uuid) (new : Text) (o : Option Credential)
      → Obeys (stays_gone h) (store_password u c cfg fresh user new o)
  unfolding store_password
  store_password-Obeys h fresh user new none = search (statements, create_credential-Obeys) depth 12
  store_password-Obeys h fresh user new (some cred) = search (statements, replace_password-Obeys)

  write_password-Obeys :
      (h : Text) (fresh : Fresh) (sess : Session) (user : UserAuth) (current new : Text)
      (o : Option Credential)
      → Obeys (stays_gone h) (write_password u c cfg fresh sess user current new o)
  unfolding write_password add_password change_password
  write_password-Obeys h fresh sess user current new none =
      search (statements, create_credential-Obeys) depth 12
  write_password-Obeys h fresh sess user current new (some cred) =
      search (statements, replace_password-Obeys) depth 12

  set_password-Obeys :
      (h : Text) (fresh : Fresh) (sess : Session) (current new : Text)
      → Obeys (stays_gone h) (set_password u c cfg fresh sess current new)
  unfolding set_password set_valid_password
  set_password-Obeys h fresh sess current new =
      search (statements, validate_password_policy-Obeys, write_password-Obeys) depth 15

  reset_password-Obeys :
      (h : Text) (fresh : Fresh) (token new : Text)
      → Obeys (stays_gone h) (reset_password u c cfg fresh token new)
  unfolding reset_password
  reset_password-Obeys h fresh token new =
      search (statements, validate_password_policy-Obeys, store_password-Obeys) depth 15

  -- The token of the request is drawn anew.
  make_reset_token-Obeys :
      (h : Text) (fresh : Fresh) (user : Uuid)
      → ((t : Text) → fresh.token ≡ some t → c.hash_token t ≢ h)
      → Obeys (stays_gone h) (make_reset_token u c cfg fresh user)
  unfolding make_reset_token
  make_reset_token-Obeys h fresh user other = search (Obeys-needed, statements, other) depth 12

  offer_reset-Obeys :
      (h : Text) (fresh : Fresh) (o : Option UserAuth)
      → ((t : Text) → fresh.token ≡ some t → c.hash_token t ≢ h)
      → Obeys (stays_gone h) (offer_reset u c cfg fresh o)
  unfolding offer_reset
  offer_reset-Obeys h fresh none other = search statements
  offer_reset-Obeys h fresh (some user) other =
      search (statements, make_reset_token-Obeys, other) depth 12

  request-Obeys :
      (h : Text) (fresh : Fresh) (email : Text)
      → ((t : Text) → fresh.token ≡ some t → c.hash_token t ≢ h)
      → Obeys (stays_gone h) (create_password_reset_token u c cfg fresh email)
  unfolding create_password_reset_token
  request-Obeys h fresh email other = search (statements, offer_reset-Obeys, other) depth 12

  pub perform : PasswordOp → World → World
  perform (request fresh email) w = (create_password_reset_token u c cfg fresh email w).1
  perform (reset fresh token new) w = (reset_password u c cfg fresh token new w).1
  perform (change fresh sess current new) w = (set_password u c cfg fresh sess current new w).1
  perform (clean before) w = (Repo.delete_expired before w).1

  pub perform_all : List PasswordOp → World → World
  perform_all [] w = w
  perform_all (op ∷ ops) w = perform_all ops (perform op w)

  -- The operation does not draw a token of the hash.
  abbrev pub Avoids : Text → PasswordOp → Type 0
  Avoids h (request fresh _) = (t : Text) → fresh.token ≡ some t → c.hash_token t ≢ h
  Avoids h _ = Unit

  perform-Gone :
      (h : Text) (op : PasswordOp) (w : World) → Avoids h op → Gone h w → Gone h (perform op w)
  unfolding perform
  perform-Gone h (request fresh email) w other = (request-Obeys h fresh email other).run w
  perform-Gone h (reset fresh token new) w _ = (reset_password-Obeys h fresh token new).run w
  perform-Gone h (change fresh sess current new) w _ =
      (set_password-Obeys h fresh sess current new).run w
  perform-Gone h (clean before) w _ = (delete_expired-Obeys h before).run w

  perform_all-Gone :
      (h : Text) (ops : List PasswordOp) (w : World)
      → All (Avoids h) ops
      → Gone h w
      → Gone h (perform_all ops w)
  unfolding perform_all
  perform_all-Gone h [] w a g = g
  perform_all-Gone h (op ∷ ops) w (other, a) g =
      perform_all-Gone h ops (perform op w) a (perform-Gone h op w other g)

  -- A reset token resets once: after a successful ResetPassword, whatever requests, resets,
  -- changes and deletions follow (failed statements included), no ResetPassword of the token
  -- succeeds. The token had at most one row and is not drawn again, and `PasswordService.Verify`
  -- accepts a password for its hash.
  pub reset_password-once :
      ((p h : Text) → c.password_hash p ≡ some h → c.password_verify p h ≡ some true)
      → (fresh later : Fresh) (token new new' : Text) (w w1 w2 : World) (ops : List PasswordOp)
      → count (has_token_hash (c.hash_token token)) w.auth.reset_tokens ≤ 1
      → reset_password u c cfg fresh token new w ≡ (ok tt, w1)
      → All (Avoids (c.hash_token token)) ops
      → reset_password u c cfg later token new' (perform_all ops w1) ≢ (ok tt, w2)
  reset_password-once verifies fresh later token new new' w w1 w2 ops unique first a again =
      let (_, _, _, gone) =
        reset_password_sound u c cfg verifies fresh token new w w1 unique first in
      let still = perform_all-Gone (c.hash_token token) ops w1 a gone in
      let (t, found, _, _) =
        reset_password_sound u c cfg verifies later token new' (perform_all ops w1) w2
          (count-none _ (perform_all ops w1).auth.reset_tokens still) again in
      let absent = find-all _ _ (perform_all ops w1).auth.reset_tokens still found in
      let present = find_holds _ (perform_all ops w1).auth.reset_tokens found in ground arith
