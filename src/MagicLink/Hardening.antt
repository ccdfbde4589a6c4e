-- ===== src/MagicLink/Hardening.antt =====
-- What `TakeOver` leaves of an account that somebody else may have prepared.
use authpad.Prelude.{
  ℕ, ◌≡◌, refl, Bool, true, not, ◌&&◌, ◌||◌, Option, none, some, List, [], ◌∷◌, all, any, map, keep,
  ◌==◌, arith,
}
use authpad.Prelude.Strings.{Unicode}
use authpad.Prelude.Tables.{all-update_written, all-keep_self}
use authpad.Db.Rows.{Uuid, Factor}
use authpad.Db.World.{World, ok, guards_unwired}
use authpad.Db.Success.{
  Ensures, Ensures-raise, Ensures-bind, Ensures-modify, Ensures-pure, Ensures-select,
  Ensures-stated,
}
use authpad.Session.Repo as Sessions
use authpad.Session.Repo.{revoke}
use authpad.Session.Service.{StaffFunc}
use authpad.User.Repo as Users
use authpad.User.Repo.{has_id}
use authpad.User.Account.{SignupHooks}
use authpad.Mfa.Repo as Mfa
use authpad.Mfa.Repo.{listed}
use authpad.MagicLink.Accounts.{take_over, harden, delete_factors}

-- No session, password, factor or recovery code of before is left, and the address is verified.
abbrev pub Hardened : Uuid → World → Type 0
Hardened user w =
    (all (λ s. not (s.user_id == user) || s.revoked) w.auth.sessions ≡ true)
    × (all (λ cr. not (cr.user_id == user)) w.auth.credentials ≡ true)
    × (all (λ f. not (f.user_id == user)) w.auth.factors ≡ true)
    × (all (λ r. not (r.user_id == user)) w.auth.recovery_codes ≡ true)
    × (all (λ v. not (has_id user v) || v.email_verified) w.auth.users ≡ true)

abbrev is_in : List Factor → Factor → Bool
is_in fs g = any (λ f. f.id == g.id) fs

-- Every factor of the user is in the list.
abbrev Covered : Uuid → List Factor → List Factor → Type 0
Covered user fs gs = all (λ g. not (g.user_id == user) || is_in fs g) gs ≡ true

Covered-listed :
    (user : Uuid) (fs gs : List Factor)
    → ((g : Factor)
        → is_in (map listed (keep (λ f. f.user_id == user) gs)) g ≡ true
        → is_in fs g ≡ true)
    → Covered user fs gs
unfolding listed
Covered-listed user fs [] k = refl
Covered-listed user fs (g ∷ gs) k =
    ground (arith, k g, Covered-listed user fs gs (λ h m. k h (ground arith)))

delete-Covered :
    (user : Uuid) (f : Factor) (fs gs : List Factor)
    → Covered user (f ∷ fs) gs
    → Covered user fs (keep (λ g. not (g.id == f.id && g.user_id == user)) gs)
delete-Covered user f fs [] h = refl
delete-Covered user f fs (g ∷ gs) h = ground (arith, delete-Covered user f fs gs)

Covered-nil :
    (user : Uuid) (gs : List Factor)
    → Covered user [] gs
    → all (λ f. not (f.user_id == user)) gs ≡ true
Covered-nil user [] h = refl
Covered-nil user (g ∷ gs) h = ground (arith, Covered-nil user gs)

module _ (user : Uuid) where
  -- The account's state after each of the statements.
  abbrev Revoked : World → Type 0
  Revoked w = all (λ s. not (s.user_id == user) || s.revoked) w.auth.sessions ≡ true

  abbrev Locked : World → Type 0
  Locked w = Revoked w × (all (λ cr. not (cr.user_id == user)) w.auth.credentials ≡ true)

  abbrev Bare : World → Type 0
  Bare w = Locked w × (all (λ f. not (f.user_id == user)) w.auth.factors ≡ true)

  abbrev Stripped : World → Type 0
  Stripped w = Bare w × (all (λ r. not (r.user_id == user)) w.auth.recovery_codes ≡ true)

  revoke-Ensures :
      {Q : ℕ → World → Type 0} (w : World)
      → ((n : ℕ) (w' : World) → Revoked w' → Q n w')
      → Ensures w Q (Sessions.revoke_all_for_user user)
  unfolding Sessions.revoke_all_for_user
  revoke-Ensures w k = Ensures-stated _ _ (
      k _ _ (
        all-update_written _ (λ s. s.user_id == user) revoke w.auth.sessions (λ s e. ground arith)
          (λ s e. ground arith)))

  delete_credentials-Ensures :
      {Q : Unit {0} → World → Type 0} (w : World)
      → Revoked w
      → ((w' : World) → Locked w' → Q tt w')
      → Ensures w Q (Users.delete_credentials user)
  unfolding Users.delete_credentials
  delete_credentials-Ensures w h k = Ensures-modify _ (k _ (h, all-keep_self _ w.auth.credentials))

  list_factors-Ensures :
      {Q : List Factor → World → Type 0} (w : World)
      → Locked w
      → ((fs : List Factor) (w' : World) → Locked w' → Covered user fs w'.auth.factors → Q fs w')
      → Ensures w Q (Mfa.list_factors user)
  unfolding Mfa.list_factors
  list_factors-Ensures w h k =
      Ensures-select _ (k _ _ h (Covered-listed user _ w.auth.factors (λ g m. m)))

  delete_factor-Ensures :
      {Q : Unit {0} → World → Type 0} (f : Factor) (fs : List Factor) (w : World)
      → Locked w
      → Covered user (f ∷ fs) w.auth.factors
      → ((w' : World) → Locked w' → Covered user fs w'.auth.factors → Q tt w')
      → Ensures w Q (Mfa.delete_factor f.id user)
  unfolding Mfa.delete_factor
  delete_factor-Ensures f fs w h covered k =
      Ensures-modify _ (k _ h (delete-Covered user f fs w.auth.factors covered))

  delete_factors-Ensures :
      {Q : Unit {0} → World → Type 0} (fs : List Factor) (w : World)
      → Locked w
      → Covered user fs w.auth.factors
      → ((w' : World) → Bare w' → Q tt w')
      → Ensures w Q (delete_factors user fs)
  unfolding delete_factors
  delete_factors-Ensures [] w h covered k =
      Ensures-pure tt (k w (h, Covered-nil user w.auth.factors covered))
  delete_factors-Ensures (f ∷ fs) w h covered k =
      Ensures-bind (Mfa.delete_factor f.id user) (λ _. delete_factors user fs)
        (delete_factor-Ensures f fs w h covered
          (λ w1 h1 rest. delete_factors-Ensures fs w1 h1 rest k))

  delete_recovery_codes-Ensures :
      {Q : Unit {0} → World → Type 0} (w : World)
      → Bare w
      → ((w' : World) → Stripped w' → Q tt w')
      → Ensures w Q (Mfa.delete_recovery_codes user)
  unfolding Mfa.delete_recovery_codes
  delete_recovery_codes-Ensures w h k =
      Ensures-modify _ (k _ (h, all-keep_self _ w.auth.recovery_codes))

  set_email_verified-Ensures :
      (now : ℕ) (w : World)
      → Stripped w
      → Ensures w (λ _ w'. Hardened user w') (Users.set_email_verified user now)
  unfolding Users.set_email_verified
  set_email_verified-Ensures now w (((revoked, gone), bare), spent) = Ensures-modify _ (
    revoked,
    gone,
    bare,
    spent,
    all-update_written _ (has_id user) _ w.auth.users (λ v e. ground arith) (λ v e. ground arith),
  )

module _ (u : Unicode) (hooks : SignupHooks) (disable_public_signup : Bool)
    (guards : Option StaffFunc) where
  harden-Ensures :
      (user : Uuid) (now : ℕ) (w : World)
      → Ensures w (λ _ w'. Hardened user w') (harden u hooks disable_public_signup guards user now)
  unfolding harden
  harden-Ensures user now w =
      search
        (
          Ensures-bind, revoke-Ensures, delete_credentials-Ensures, list_factors-Ensures,
          delete_factors-Ensures, delete_recovery_codes-Ensures, set_email_verified-Ensures,
        )
        depth 15

module _ (u : Unicode) (hooks : SignupHooks) (disable_public_signup : Bool) where
  take_over-Ensures :
      (o : Option StaffFunc) (user : Uuid) (now : ℕ) (w : World)
      → Ensures w (λ _ w'. Hardened user w') (take_over u hooks disable_public_signup o user now)
  unfolding take_over
  take_over-Ensures none user now w = Ensures-raise guards_unwired
  take_over-Ensures (some staff) user now w =
      harden-Ensures u hooks disable_public_signup (some staff) user now w

  -- After a successful TakeOver no session of the user is live, no password, factor or recovery code
  -- of the user is left, and the address is verified.
  pub take_over-Hardened :
      (guards : Option StaffFunc) (user : Uuid) (now : ℕ) (w w' : World)
      → take_over u hooks disable_public_signup guards user now w ≡ (ok tt, w')
      → Hardened user w'
  take_over-Hardened guards user now w w' = (take_over-Ensures guards user now w).run tt w'
