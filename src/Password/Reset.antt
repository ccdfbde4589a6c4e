-- ===== src/Password/Reset.antt =====
-- Reset tokens: what `ResetPassword` asks and does, and that a token resets once.
use authpad.Prelude.{
  ℕ, ◌≡◌, ◌≤◌, refl, ◌∙◌, true, not, Option, none, some, Text, find, all, count, any, ◌==◌, arith,
  Bool-cases, inl, inr,
}
use authpad.Prelude.Strings.{Unicode}
use authpad.Prelude.Tables.{all-keep_unique}
use authpad.Crypto.{Crypto, Fresh}
use authpad.Db.Rows.{Uuid, Credential, PasswordResetToken}
use authpad.Db.World.{World, ok}
use authpad.Db.Rules.{Law, Obeys, Obeys-statement, Obeys-select, obeys}
use authpad.Db.Success.{Ensures, ensures, Ensures-modify, Ensures-Obeys}
use authpad.User.Repo as Users
use authpad.Password.Repo
use authpad.Password.Repo.{has_token_hash, resets}
use authpad.Password.Policy.{validate_password_policy}
use authpad.Password.Service.{
  PasswordConfig, store_password, reset_password, replace_password, create_credential,
}
use authpad.Password.Stored.{
  Stores, credential_of, create_credential-Ensures, replace_password-Ensures,
  validate_password_policy-Ensures,
}

-- No row has the hash.
abbrev pub Gone : Text → World → Type 0
Gone h w = all (λ t. not (has_token_hash h t)) w.auth.reset_tokens ≡ true

abbrev same_tokens : Law
same_tokens = record {
  Rel = λ w w'. w'.auth.reset_tokens ≡ w.auth.reset_tokens;
  here = λ w. refl;
  then_ = λ u v w h k. k ∙ h;
  ticks = λ w. refl;
}

update_hash-Obeys :
    (id : Uuid) (h : Text) (v now : ℕ) → Obeys same_tokens (Users.update_hash id h v now)
unfolding Users.update_hash
update_hash-Obeys id h v now = Obeys-statement _ (λ w. refl)

insert_credential-Obeys : (cr : Credential) → Obeys same_tokens (Users.create_credential cr)
unfolding Users.create_credential
insert_credential-Obeys cr = Obeys-statement _ (λ w.
    elim (Bool-cases (any (λ d. d.user_id == cr.user_id) w.auth.credentials)) [
      | inl clash ↦ rw clash refl
      | inr free ↦ rw free refl
    ])

get_by_id-Obeys : (id : Uuid) → Obeys same_tokens (Users.get_by_id id)
unfolding Users.get_by_id
get_by_id-Obeys id = Obeys-select _

module _ (u : Unicode) (c : Crypto) (cfg : PasswordConfig)
    (verifies : (p h : Text) → c.password_hash p ≡ some h → c.password_verify p h ≡ some true) where
  store_password-Obeys :
      (fresh : Fresh) (user : Uuid) (new : Text) (o : Option Credential)
      → Obeys same_tokens (store_password u c cfg fresh user new o)
  unfolding store_password replace_password create_credential validate_password_policy
  store_password-Obeys fresh user new none =
      search (obeys, insert_credential-Obeys, get_by_id-Obeys) depth 15
  store_password-Obeys fresh user new (some cred) = search (obeys, update_hash-Obeys) depth 12

  store_password-Ensures :
      {Q : Unit {0} → World → Type 0} (fresh : Fresh) (user : Uuid) (new : Text)
      (o : Option Credential) (w : World)
      → credential_of user w ≡ o
      → ((w' : World) → w'.auth.reset_tokens ≡ w.auth.reset_tokens → Stores c user new w' → Q tt w')
      → Ensures w Q (store_password u c cfg fresh user new o)
  unfolding store_password Users.get_by_id
  store_password-Ensures fresh user new none w has k =
      Ensures-Obeys same_tokens (store_password-Obeys fresh user new none)
        (search (ensures, create_credential-Ensures u c cfg verifies, k) depth 12)
  store_password-Ensures fresh user new (some cred) w has k =
      Ensures-Obeys same_tokens (store_password-Obeys fresh user new (some cred))
        (search (replace_password-Ensures u c cfg verifies fresh.now user cred new w has, k))

  delete_by_id-Ensures :
      {Q : Unit {0} → World → Type 0} (h new : Text) (now : ℕ) (t : PasswordResetToken)
      (w w0 : World)
      → find (resets h now) w0.auth.reset_tokens ≡ some t
      → count (has_token_hash h) w0.auth.reset_tokens ≤ 1
      → w.auth.reset_tokens ≡ w0.auth.reset_tokens
      → Stores c t.user_id new w
      → ((w' : World) → Stores c t.user_id new w' → Gone h w' → Q tt w')
      → Ensures w Q (Repo.delete_by_id t.id)
  unfolding Repo.delete_by_id
  delete_by_id-Ensures h new now t w w0 found unique same s k =
      let gone =
        all-keep_unique (has_token_hash h) (resets h now) (λ r. not (r.id == t.id))
          (λ r. ground arith) w0.auth.reset_tokens unique found (ground arith) in
      Ensures-modify _
        (k _ (record { row = s.row; found = s.found; right = s.right }) (rw same gone))

  -- What a successful ResetPassword rests on and leaves.
  abbrev pub WasReset : Text → Text → ℕ → World → World → Type 0
  WasReset token new now w w' =
      (t : PasswordResetToken) × (find (resets (c.hash_token token) now) w.auth.reset_tokens
        ≡ some t)
      × Stores c t.user_id new w'
      × Gone (c.hash_token token) w'

  reset_password-Ensures :
      (fresh : Fresh) (token new : Text) (w : World)
      → count (has_token_hash (c.hash_token token)) w.auth.reset_tokens ≤ 1
      → Ensures w
          (λ _ w'. WasReset token new fresh.now w w')
          (reset_password u c cfg fresh token new)
  unfolding reset_password Repo.get_by_token_hash Users.get_credential
  reset_password-Ensures fresh token new w unique =
      let done : (t : PasswordResetToken) (w1 w' : World)
          → find (resets (c.hash_token token) fresh.now) w.auth.reset_tokens ≡ some t
          → Stores c t.user_id new w'
          → Gone (c.hash_token token) w'
          → WasReset token new fresh.now w w' =
        λ t w1 w' found s gone. (t, found, s, gone) in
      search
        (
          ensures,
          validate_password_policy-Ensures u c cfg verifies,
          store_password-Ensures,
          delete_by_id-Ensures,
          done,
        )
        depth 15

  -- A successful ResetPassword rests on an unexpired row of the token and leaves the new password
  -- with the row's user and no row of the token, where the token had at most one row.
  -- `PasswordService.Verify` accepts a password for its hash.
  pub reset_password_sound :
      (fresh : Fresh) (token new : Text) (w w' : World)
      → count (has_token_hash (c.hash_token token)) w.auth.reset_tokens ≤ 1
      → reset_password u c cfg fresh token new w ≡ (ok tt, w')
      → WasReset token new fresh.now w w'
  reset_password_sound fresh token new w w' unique =
      (reset_password-Ensures fresh token new w unique).run tt w'
