-- ===== src/MagicLink/Passwords/Created.antt =====
-- Whom `FindOrCreate` of internal/service/magic_link_service.go creates.
use authpad.Prelude.{
  ◌≡◌, ◌⊎◌, refl, ap, Bool-cases, Bool, false, ◌&&◌, Option, none, some, List, [], ◌∷◌, Text, find,
  arith, inl, inr, if◌then◌else◌,
}
use authpad.Prelude.Strings.{Unicode}
use authpad.Crypto.{Fresh}
use authpad.Db.Rows.{Uuid, UserAuth}
use authpad.Db.World.{World, Result, ok, err, pure, attempt}
use authpad.Db.Rules.{Yields, yields}
use authpad.Db.Success.{
  Ensures, Ensures-any, Ensures-bind, Ensures-pure, Ensures-raise, Ensures-attempt, Ensures-if,
  Ensures-select,
}
use authpad.Session.Service.{StaffFunc}
use authpad.User.Repo as Users
use authpad.User.Repo.{is_present}
use authpad.User.Account.{SignupHooks, create_passwordless_account}
use authpad.MagicLink.Accounts.{Found, as_created, as_existing, find_or_create, provision, settle}

module _ (u : Unicode) (hooks : SignupHooks) (disable_public_signup : Bool)
    (guards : Option StaffFunc) where
  -- A user who is created has the new id.
  abbrev pub NewId : Uuid → Option Found → Type 0
  NewId id none = Unit
  NewId id (some found) = (found.created ≡ false) ⊎ (found.user.id ≡ id)

  create_passwordless_account-Yields :
      (fresh : Fresh) (email : Text)
      → Yields (λ id. id ≡ fresh.id) (create_passwordless_account hooks fresh email)
  unfolding create_passwordless_account
  create_passwordless_account-Yields fresh email = search yields depth 12

  as_created-NewId :
      (id : Uuid) (us : List UserAuth)
      → NewId id (as_created (find (λ v. Users.has_id id v && is_present v) us))
  as_created-NewId id [] = tt
  as_created-NewId id (v ∷ us) = elim (Bool-cases (Users.has_id id v && is_present v)) [
    | inl here ↦ rw here (inr (ground arith))
    | inr other ↦ rw other (as_created-NewId id us)
  ]

  settle-Ensures :
      {w : World} (id : Uuid) (email : Text) (r : Result Uuid)
      → ((i : Uuid) → r ≡ ok i → i ≡ id)
      → Ensures w (λ o _. NewId id o) (settle u hooks disable_public_signup guards email r)
  unfolding settle Users.get_by_id
  settle-Ensures {w} id email (ok i) same =
      Ensures-bind (Users.get_by_id i) (λ o. pure (as_created o))
        (Ensures-select _ (Ensures-pure _ (rw (same i refl) (as_created-NewId id w.auth.users))))
  settle-Ensures {w} id email (err e) same =
      Ensures-bind (attempt (Users.get_by_email_fold u email)) (λ again. as_existing e again)
        (Ensures-any _ (λ again w'. existing again))
    where
      existing :
          {w' : World} (r : Result (Option UserAuth))
          → Ensures w' (λ o _. NewId id o) (as_existing e r)
      existing (ok (some v)) = Ensures-pure _ (inl refl)
      existing (ok none) = Ensures-raise e
      existing (err x) = Ensures-raise e

  provision-Ensures :
      {w : World} (fresh : Fresh) (email : Text)
      → Ensures w
          (λ o _. NewId fresh.id o)
          (provision u hooks disable_public_signup guards fresh email)
  unfolding provision
  provision-Ensures {w} fresh email =
      Ensures-bind (attempt (create_passwordless_account hooks fresh email))
        (settle u hooks disable_public_signup guards email)
        (Ensures-attempt
          (record {
            run = λ id w' e.
                let new =
                  (create_passwordless_account-Yields fresh email).run w id (ap (λ p. p.0) e) in
                settle-Ensures fresh.id email (ok id) (λ i same. ground arith);
          })
          (λ e w' _. settle-Ensures fresh.id email (err e) (λ i same. absurd (cc))))

  pub find_or_create-Ensures :
      {w : World} (fresh : Fresh) (email : Text)
      → Ensures w
          (λ o _. NewId fresh.id o)
          (find_or_create u hooks disable_public_signup guards fresh email)
  unfolding find_or_create
  find_or_create-Ensures {w} fresh email =
      Ensures-bind (Users.get_by_email_fold u email) _ (Ensures-any _ (λ known w'. found known))
    where
      found :
          {w' : World} (o : Option UserAuth)
          → Ensures w'
              (λ o _. NewId fresh.id o)
              (elim o [
                | none ↦
                    if disable_public_signup
                    then pure none
                    else provision u hooks disable_public_signup guards fresh email
                | some user ↦ pure (some (record { user = user; created = false }))
              ])
      found none =
          Ensures-if disable_public_signup (λ _. Ensures-pure none tt)
            (λ _. provision-Ensures fresh email)
      found (some v) = Ensures-pure _ (inl refl)
