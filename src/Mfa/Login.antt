-- ===== src/Mfa/Login.antt =====
-- What `VerifyLoginCode` accepts.
use mathlib.Core.List.{Mem, mem-cons}
use mathlib.Core.Logic.Or
use authpad.Prelude.{
  if◌then◌else◌, ℕ, ◌≡◌, ◌⊎◌, inl, inr, refl, ◌∙◌, Bool, true, false, not, ◌&&◌, Option, none, some,
  List, [], ◌∷◌, Text, text_eq, map, keep, any, find, ◌==◌, arith, Bool-cases,
}
use authpad.Prelude.Strings.{trim_space}
use authpad.Crypto.{Crypto}
use authpad.Db.Rows.{Uuid, Factor}
use authpad.Db.World.{World, Result, Error, ok, err, attempt, pure, in_auth, statement}
use authpad.Db.Rules.{Law, Obeys, Obeys-statement, Obeys-select, obeys, Obeys-run}
use authpad.Db.Success.{Ensures, ensures, Ensures-attempt}
use authpad.Mfa.Repo
use authpad.Mfa.Repo.{is_usable, listed}
use authpad.Mfa.Service.{
  verify_totp, recover, verify_code, verify_login_code, chosen, accepts, or_recover, is_totp,
  use_recovery_code,
}

abbrev same_codes : Law
same_codes = record {
  Rel = λ w w'. w'.auth.recovery_codes ≡ w.auth.recovery_codes;
  here = λ w. refl;
  then_ = λ u v w h k. k ∙ h;
  ticks = λ w. refl;
}

get_factor-Obeys : (id : Uuid) → Obeys same_codes (Repo.get_factor id)
unfolding Repo.get_factor
get_factor-Obeys id = Obeys-select _

mark_verified-Obeys : (id : Uuid) → Obeys same_codes (Repo.mark_verified id)
unfolding Repo.mark_verified
mark_verified-Obeys id = Obeys-statement _ (λ w. refl)

module _ (c : Crypto) (now : ℕ) (user : Uuid) (code : Text) where
  -- The user has a recovery code left that is this one.
  abbrev pub Recoverable : World → Type 0
  Recoverable w = any (is_usable user (c.hash_token code)) w.auth.recovery_codes ≡ true

  -- What a code is accepted for: the chosen factor's secret, the empty secret where no factor is
  -- chosen, or a recovery code.
  abbrev pub Accepted : Option Uuid → World → Type 0
  Accepted (some id) w =
      ((f : Factor) × (find (λ g. g.id == id) w.auth.factors ≡ some f)
        × (f.user_id ≡ user)
        × (is_totp f.factor_type ≡ true)
        × (c.totp_validate now code f.secret_enc ≡ true))
      ⊎ Recoverable w
  Accepted none w =
      ((f : Factor) × Mem f w.auth.factors
        × (f.user_id ≡ user)
        × (f.verified ≡ true)
        × (is_totp f.factor_type ≡ true)
        × (c.totp_validate now code [] ≡ true))
      ⊎ Recoverable w

  verify_totp-Obeys : (id : Uuid) → Obeys same_codes (verify_totp c now user id code)
  unfolding verify_totp
  verify_totp-Obeys id = search (obeys, get_factor-Obeys, mark_verified-Obeys) depth 12

  recover-Ensures :
      {Q : Unit {0} → World → Type 0} (w : World)
      → (Recoverable w → (w' : World) → Q tt w')
      → Ensures w Q (recover c user code)
  unfolding recover use_recovery_code Repo.use_recovery_code
  recover-Ensures {Q} w k =
      let done : (w' : World)
          → not (any (is_usable user (c.hash_token code)) w.auth.recovery_codes) ≡ false
          → Q tt w' =
        λ w' left. k (ground arith) w' in
      search (ensures, done) depth 12

  verify_totp-Ensures :
      {Q : Unit {0} → World → Type 0} (id : Uuid) (w : World)
      → ((f : Factor)
          → find (λ g. g.id == id) w.auth.factors ≡ some f
          → f.user_id ≡ user
          → is_totp f.factor_type ≡ true
          → c.totp_validate now code f.secret_enc ≡ true
          → (w' : World) → Q tt w')
      → Ensures w Q (verify_totp c now user id code)
  unfolding verify_totp Repo.get_factor Repo.mark_verified
  verify_totp-Ensures {Q} id w k =
      let done : (f : Factor) (w' : World)
          → find (λ g. g.id == id) w.auth.factors ≡ some f
          → not (f.user_id == user) ≡ false
          → not (is_totp f.factor_type) ≡ false
          → not (c.totp_validate now code f.secret_enc) ≡ false
          → Q tt w' =
        λ f w' found own totp valid. k f found (ground arith) (ground arith) (ground arith) w' in
      search (ensures, done) depth 15

  attempt_totp-Ensures :
      {Q : Result (Unit {0}) → World → Type 0} (id : Uuid) (w : World)
      → ((f : Factor)
          → find (λ g. g.id == id) w.auth.factors ≡ some f
          → f.user_id ≡ user
          → is_totp f.factor_type ≡ true
          → c.totp_validate now code f.secret_enc ≡ true
          → (w' : World) → Q (ok tt) w')
      → ((e : Error) (w' : World) → w'.auth.recovery_codes ≡ w.auth.recovery_codes → Q (err e) w')
      → Ensures w Q (attempt (verify_totp c now user id code))
  attempt_totp-Ensures {Q} id w k l =
      Ensures-attempt (verify_totp-Ensures {Q = λ a w'. Q (ok a) w'} id w k)
        (λ e w' ran. l e w' (Obeys-run (verify_totp-Obeys id) w ran))

  accepted_listed :
      (fs : List Factor)
      → any (accepts c now code) (map listed (keep (λ f. f.user_id == user) fs)) ≡ true
      → (f : Factor) × Mem f fs
        × (f.user_id ≡ user)
        × (f.verified ≡ true)
        × (is_totp f.factor_type ≡ true)
        × (c.totp_validate now code [] ≡ true)
  unfolding accepts listed
  accepted_listed [] h = cc
  accepted_listed (f ∷ fs) h = elim (Bool-cases (f.user_id == user)) [
    | inl own ↦
        elim (Bool-cases (f.verified && is_totp f.factor_type && c.totp_validate now code [])) [
          | inl passes ↦
              (f, mem-cons.1 (Or.inl refl), ground arith, ground arith, ground arith, ground arith)
          | inr fails ↦
              let (g, stored, own', verified, totp, valid) = accepted_listed fs (ground arith) in
              (g, mem-cons.1 (Or.inr stored), own', verified, totp, valid)
        ]
    | inr other ↦
        let (g, stored, own', verified, totp, valid) = accepted_listed fs (ground arith) in
        (g, mem-cons.1 (Or.inr stored), own', verified, totp, valid)
  ]

  verify_code-Ensures :
      (o : Option Uuid) (w : World)
      → Ensures w (λ _ w'. Accepted o w) (verify_code c now user o code)
  unfolding verify_code or_recover Repo.list_factors
  verify_code-Ensures (some id) w =
      let by_factor : (f : Factor)
          → find (λ g. g.id == id) w.auth.factors ≡ some f
          → f.user_id ≡ user
          → is_totp f.factor_type ≡ true
          → c.totp_validate now code f.secret_enc ≡ true
          → Accepted (some id) w =
        λ f found own totp valid. inl (f, found, own, totp, valid) in
      let by_code : (w' : World)
          → w'.auth.recovery_codes ≡ w.auth.recovery_codes
          → Recoverable w'
          → Accepted (some id) w =
        λ w' same left. inr (rw same at left) in
      search (ensures, attempt_totp-Ensures, recover-Ensures, by_factor, by_code) depth 15
  verify_code-Ensures none w =
      let by_factor : any (accepts c now code)
              (map listed (keep (λ f. f.user_id == user) w.auth.factors))
            ≡ true
          → Accepted none w =
        λ h. inl (accepted_listed w.auth.factors h) in
      let by_code : Recoverable w → Accepted none w = λ left. inr left in
      search (ensures, recover-Ensures, by_factor, by_code) depth 15

module _ (c : Crypto) where
  -- VerifyLoginCode
  pub verify_login_code_sound :
      (now : ℕ) (user : Uuid) (factor : Option Uuid) (code : Text) (w w' : World)
      → verify_login_code c now user factor code w ≡ (ok tt, w')
      → Accepted c now user (trim_space code) (chosen factor) w
  unfolding verify_login_code
  verify_login_code_sound now user factor code w w' =
      let sound : Ensures w (λ _ w'. Accepted c now user (trim_space code) (chosen factor) w)
          (verify_login_code c now user factor code) =
        search (ensures, verify_code-Ensures) in
      sound.run tt w'

-- The world with other secrets in the table of factors.
abbrev with_secret : (Text → Text) → Factor → Factor
with_secret g f = record f { secret_enc = g f.secret_enc }

abbrev pub with_secrets : (Text → Text) → World → World
with_secrets g = in_auth (λ d. record d { factors = map (with_secret g) d.factors })

module _ (c : Crypto) (g : Text → Text) where
  listed_secrets :
      (user : Uuid) (fs : List Factor)
      → map listed (keep (λ f. f.user_id == user) (map (with_secret g) fs))
        ≡ map listed (keep (λ f. f.user_id == user) fs)
  unfolding listed
  listed_secrets user [] = refl
  listed_secrets user (f ∷ fs) = ground (arith, listed_secrets user fs)

  recover-secrets :
      (user : Uuid) (code : Text) (w : World)
      → (recover c user code (with_secrets g w)).0 ≡ (recover c user code w).0
  unfolding recover use_recovery_code Repo.use_recovery_code statement
  recover-secrets user code w = go w.faults
    where
      go :
          (faults : List Bool)
          → (recover c user code (with_secrets g (record w { faults = faults }))).0
            ≡ (recover c user code (record w { faults = faults })).0
      go [] = refl
      go (true ∷ faults) = refl
      go (false ∷ faults) = refl

  verify_code-secrets :
      (now : ℕ) (user : Uuid) (code : Text) (w : World)
      → (verify_code c now user none code (with_secrets g w)).0
        ≡ (verify_code c now user none code w).0
  unfolding verify_code Repo.list_factors statement
  verify_code-secrets now user code w = go w.faults
    where
      either :
          (w : World) (b : Bool)
          → ((if b then pure tt else recover c user code) (with_secrets g w)).0
            ≡ ((if b then pure tt else recover c user code) w).0
      either w true = refl
      either w false = recover-secrets user code w

      passing : (w : World) → Bool
      passing w =
          any (accepts c now code) (map listed (keep (λ f. f.user_id == user) w.auth.factors))

      ran :
          (w : World)
          → ((if passing (with_secrets g w) then pure tt else recover c user code)
              (with_secrets g w)).0
            ≡ ((if passing w then pure tt else recover c user code) w).0
      ran w = rw (listed_secrets user w.auth.factors) (either w (passing w))

      go :
          (faults : List Bool)
          → (verify_code c now user none code (with_secrets g (record w { faults = faults }))).0
            ≡ (verify_code c now user none code (record w { faults = faults })).0
      go [] = ran (record w { faults = [] })
      go (true ∷ faults) = refl
      go (false ∷ faults) = ran (record w { faults = faults })

  -- Without a chosen factor VerifyLoginCode does not depend on the secrets of the factors.
  pub verify_login_code-secrets :
      (now : ℕ) (user : Uuid) (code : Text) (w : World)
      → (verify_login_code c now user none code (with_secrets g w)).0
        ≡ (verify_login_code c now user none code w).0
  unfolding verify_login_code chosen
  verify_login_code-secrets now user code w = elim (Bool-cases (text_eq (trim_space code) [])) [
    | inl blank ↦ rw blank refl
    | inr given ↦ rw given (verify_code-secrets now user (trim_space code) w)
  ]
