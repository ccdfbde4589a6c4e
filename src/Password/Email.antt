-- ===== src/Password/Email.antt =====
-- The proof of an address: `CreateEmailVerificationToken` and `VerifyEmail`.
use mathlib.Core.Option
use authpad.Prelude.{
  ℕ, ◌+◌, ◌≡◌, refl, true, not, ◌||◌, some, List, [], ◌∷◌, Text, find, all, keep, ◌==◌, arith,
  Option-cases, inl, inr,
}
use authpad.Prelude.Strings.{Unicode, trim_space}
use authpad.Prelude.Tables.{all-update_written}
use authpad.Crypto.{Crypto, Fresh}
use authpad.Db.Rows.{Uuid, EmailVerification}
use authpad.Db.World.{World, ok}
use authpad.Db.Success.{Ensures, ensures, Ensures-modify, Ensures-bind, Ensures-insert}
use authpad.User.Repo as Users
use authpad.User.Repo.{has_id}
use authpad.Password.Repo
use authpad.Password.Repo.{verifies}
use authpad.Password.Service.{
  PasswordConfig, create_email_verification_token, verify_email, email_verification_ttl,
}

abbrev pub verifications_of : Uuid → World → List EmailVerification
verifications_of user w = keep (λ v. v.user_id == user) w.auth.email_verifications

keep-not :
    (user : Uuid) (vs : List EmailVerification)
    → keep (λ v. v.user_id == user) (keep (λ v. not (v.user_id == user)) vs) ≡ []
keep-not user [] = refl
keep-not user (v ∷ vs) = ground (arith, keep-not user vs)

clear-Ensures :
    {Q : Unit {0} → World → Type 0} (user : Uuid) (w : World)
    → ((w' : World) → verifications_of user w' ≡ [] → Q tt w')
    → Ensures w Q (Repo.delete_verifications user)
unfolding Repo.delete_verifications
clear-Ensures user w k = Ensures-modify _ (k _ (keep-not user w.auth.email_verifications))

insert-Ensures :
    {Q : Unit {0} → World → Type 0} (v : EmailVerification) (w : World)
    → verifications_of v.user_id w ≡ []
    → ((w' : World) → verifications_of v.user_id w' ≡ v ∷ [] → Q tt w')
    → Ensures w Q (Repo.insert_verification v)
unfolding Repo.insert_verification
insert-Ensures v w empty k = Ensures-insert _ _ (λ free. k _ (ground arith))

create_verification-Ensures :
    {Q : Unit {0} → World → Type 0} (v : EmailVerification) (w : World)
    → ((w' : World) → verifications_of v.user_id w' ≡ v ∷ [] → Q tt w')
    → Ensures w Q (Repo.create_verification v)
unfolding Repo.create_verification
create_verification-Ensures v w k = search (Ensures-bind, clear-Ensures, insert-Ensures, k)

-- Every row of the user says that the address is verified.
abbrev pub Proven : Uuid → World → Type 0
Proven user w = all (λ v. not (has_id user v) || v.email_verified) w.auth.users ≡ true

module _ (u : Unicode) (c : Crypto) (cfg : PasswordConfig) where
  -- What a successful VerifyEmail rests on and leaves.
  abbrev pub Verified : ℕ → Text → World → World → Type 0
  Verified now token w w' =
      (v : EmailVerification) × (find (verifies (c.hash_token (trim_space token)) now)
          w.auth.email_verifications
        ≡ some v)
      × Proven v.user_id w'
      × (verifications_of v.user_id w' ≡ [])

  set_email_verified-Ensures :
      {Q : Unit {0} → World → Type 0} (user : Uuid) (now : ℕ) (w : World)
      → ((w' : World) → Proven user w' → Q tt w')
      → Ensures w Q (Users.set_email_verified user now)
  unfolding Users.set_email_verified
  set_email_verified-Ensures user now w k = Ensures-modify _ (
      k _ (
        all-update_written _ (has_id user) _ w.auth.users (λ v e. ground arith)
          (λ v e. ground arith)))

  delete_verifications-Ensures :
      {Q : Unit {0} → World → Type 0} (user : Uuid) (w : World)
      → Proven user w
      → ((w' : World) → Proven user w' → verifications_of user w' ≡ [] → Q tt w')
      → Ensures w Q (Repo.delete_verifications user)
  unfolding Repo.delete_verifications
  delete_verifications-Ensures user w p k =
      Ensures-modify _ (k _ p (keep-not user w.auth.email_verifications))

  finish :
      (now : ℕ) (token : Text) (user : Uuid) (w w' : World)
      → Option.map
          (λ v. v.user_id)
          (find (verifies (c.hash_token (trim_space token)) now) w.auth.email_verifications)
        ≡ some user
      → Proven user w'
      → verifications_of user w' ≡ []
      → Verified now token w w'
  finish now token user w w' mapped p gone =
      elim (Option-cases
        (find (verifies (c.hash_token (trim_space token)) now) w.auth.email_verifications)) [
          | inl nothing ↦ absurd (cc (rw nothing at mapped))
          | inr (v, found) ↦
              let same : v.user_id ≡ user = cc (rw found at mapped) in
              (v, found, rw same p, rw same gone)
        ]

  -- A successful VerifyEmail rests on an unexpired row of the trimmed token; afterwards the address
  -- of the row's user is verified and no token is left with the user.
  pub verify_email_sound :
      (now : ℕ) (token : Text) (w w' : World)
      → verify_email u c cfg now token w ≡ (ok tt, w')
      → Verified now token w w'
  unfolding verify_email Repo.get_verification_by_token_hash
  verify_email_sound now token w w' =
      let sound : Ensures w (λ _ w'. Verified now token w w') (verify_email u c cfg now token) =
        search (ensures, set_email_verified-Ensures, delete_verifications-Ensures, finish) depth
          15 in
      sound.run tt w'

  create_email_verification_token-Ensures :
      (fresh : Fresh) (user : Uuid) (w : World)
      → Ensures w
          (λ token w'.
            verifications_of user w'
            ≡ record {
              user_id = user;
              token_hash = c.hash_token token;
              expires_at = fresh.now + email_verification_ttl;
            }
              ∷ [])
          (create_email_verification_token u c cfg fresh user)
  unfolding create_email_verification_token
  create_email_verification_token-Ensures fresh user w =
      search (ensures, create_verification-Ensures) depth 12

  -- CreateEmailVerificationToken leaves one token with the user, the one it returns: an older one
  -- no longer verifies.
  pub create_email_verification_token-latest :
      (fresh : Fresh) (user : Uuid) (token : Text) (w w' : World)
      → create_email_verification_token u c cfg fresh user w ≡ (ok token, w')
      → verifications_of user w'
        ≡ record {
          user_id = user;
          token_hash = c.hash_token token;
          expires_at = fresh.now + email_verification_ttl;
        }
          ∷ []
  create_email_verification_token-latest fresh user token w w' =
      (create_email_verification_token-Ensures fresh user w).run token w'
