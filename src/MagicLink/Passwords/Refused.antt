-- ===== src/MagicLink/Passwords/Refused.antt =====
-- Whom `Verify` of internal/service/magic_link_service.go signs in, where accounts with a password
-- are not allowed.
use authpad.Prelude.{
  ℕ, ◌≡◌, ◌≢◌, sym, ◌∙◌, Bool, true, false, Option, none, some, List, [], ◌∷◌, Text, any, find,
  is_some, arith, ◌==◌, ◌||◌, ltb, inl, inr, if◌then◌else◌,
}
use authpad.Prelude.Strings.{Unicode, trim_space, byte_len}
use authpad.Crypto.{Crypto, Fresh}
use authpad.Db.Rows.{Uuid, Organization, Credential, MagicLinkToken}
use authpad.Db.World.{
  World, Action, ok, pure, ◌>>=◌, ◌>>◌, or_fail, needs, fail_if, magic_link_invalid,
}
use authpad.Db.Rules.{Obeys, Obeys-statement, Obeys-raise, Obeys-run, obeys}
use authpad.Db.Success.{
  Ensures, Ensures-any, Ensures-Obeys, Ensures-or_fail, Ensures-needs, Ensures-fail_if,
  Ensures-bind, Ensures-pure, Ensures-raise, Ensures-select,
}
use authpad.Session.Service.{StaffFunc}
use authpad.User.Repo as Users
use authpad.User.Repo.{is_present}
use authpad.User.Account.{SignupHooks}
use authpad.MagicLink.Repo
use authpad.MagicLink.Accounts.{Found, is_staff, has_password, db_accounts, MagicLinkAccounts}
use authpad.MagicLink.Service.{
  MagicLinkConfig, MagicLinkVerified, verify, redeem, sign_in, org_filter,
}
use authpad.MagicLink.Service.Redeemed.{SignedIn, MayUse, Entitled, sign_in-Ensures}
use authpad.MagicLink.Passwords.Kept.{HasPassword, keeps_password, HookKeeps, find_or_create-Obeys}
use authpad.MagicLink.Passwords.Created.{NewId, find_or_create-Ensures}

-- The classifier of staff, where one is wired, leaves the user the password.
abbrev pub StaffKeeps : Uuid → Option StaffFunc → Type 0
StaffKeeps user none = Unit
StaffKeeps user (some staff) = (id : Uuid) → Obeys (keeps_password user) (staff id)

module _ (u : Unicode) (hooks : SignupHooks) (disable_public_signup : Bool) (user : Uuid) where
  is_staff-Obeys :
      (guards : Option StaffFunc) (id : Uuid)
      → StaffKeeps user guards
      → Obeys (keeps_password user) (is_staff u hooks disable_public_signup guards id)
  unfolding is_staff
  is_staff-Obeys none id k = Obeys-raise _
  is_staff-Obeys (some staff) id k = k id

  is_some-find :
      (ks : List Credential)
      → any (λ k. k.user_id == user) ks ≡ true
      → is_some (find (λ k. k.user_id == user) ks) ≡ true
  is_some-find [] h = h
  is_some-find (k ∷ ks) h = ground (arith, is_some-find ks)

  has_password-Ensures :
      {w : World} (guards : Option StaffFunc)
      → HasPassword user w
      → Ensures w (λ b _. b ≡ true) (has_password u hooks disable_public_signup guards user)
  unfolding has_password Users.get_credential
  has_password-Ensures none h = Ensures-raise _
  has_password-Ensures {w} (some staff) h =
      Ensures-bind (Users.get_credential user) (λ k. pure (is_some k))
        (Ensures-select _ (Ensures-pure _ (is_some-find w.auth.credentials h)))

consume-Obeys :
    (user : Uuid) (h : Text) (org : Option Uuid) (now : ℕ)
    → Obeys (keeps_password user) (Repo.consume h org now)
unfolding Repo.consume
consume-Obeys user h org now = Obeys-statement _ (λ w k. k)

module _ (c : Crypto) (cfg : MagicLinkConfig) (redirect_ok : Text → Bool)
    (resolve_tenant : Text → Action (Option Organization)) (show_id : Uuid → Text) (u : Unicode)
    (hooks : SignupHooks) (disable_public_signup : Bool) (guards : Option StaffFunc) (user : Uuid)
    (tenants : (t : Text) → Obeys (keeps_password user) (resolve_tenant t))
    (hook_keeps : HookKeeps user hooks.on_signup) (staff_keeps : StaffKeeps user guards)
    (refuses : cfg.allow_password_accounts ≡ false) where
  abbrev backend : MagicLinkAccounts
  backend = db_accounts u hooks disable_public_signup guards

  org_filter-Obeys :
      (t : Text)
      → Obeys (keeps_password user) (org_filter c cfg redirect_ok resolve_tenant show_id backend t)
  unfolding org_filter
  org_filter-Obeys [] = search obeys
  org_filter-Obeys (x ∷ t) = search (obeys, tenants) depth 12

  -- A user who has a password may not use a link.
  not_allowed :
      (w w' : World)
      → HasPassword user w
      → MayUse c cfg redirect_ok resolve_tenant show_id backend user w w'
      → false ≡ true
  not_allowed w w' has (w1, staff, inl (allowed, _)) = sym refuses ∙ allowed
  not_allowed w w' has (w1, staff, inr answered) =
      let still : HasPassword user w1 =
        Obeys-run (is_staff-Obeys u hooks disable_public_signup user guards user staff_keeps) w
          staff has in
      (has_password-Ensures u hooks disable_public_signup user guards still).run false w' answered

  Entitled-other :
      (fresh : Fresh) (found : Found) (w w' : World)
      → fresh.id ≢ user
      → HasPassword user w
      → NewId u hooks disable_public_signup guards fresh.id (some found)
      → Entitled c cfg redirect_ok resolve_tenant show_id backend found fresh.now w w'
      → found.user.id ≢ user
  Entitled-other fresh found w w' other has (inl known) (inl (created, _)) same =
      cc (sym known ∙ created)
  Entitled-other fresh found w w' other has (inr new) (inl (created, _)) same =
      other (sym new ∙ same)
  Entitled-other fresh found w w' other has new (inr (w1, may, _)) same =
      cc (not_allowed w w1 has (rw same at may))

  -- Whom a sign-in is for, where the user has a password when it starts.
  SignedIn-other :
      (fresh : Fresh) (t : MagicLinkToken) (v : MagicLinkVerified) (w w' : World)
      → fresh.id ≢ user
      → HasPassword user w
      → SignedIn c cfg redirect_ok resolve_tenant show_id backend fresh t v w w'
      → v.user.id ≢ user
  SignedIn-other fresh t v w w' other has signed same =
      let (found, w1, w2, resolved, made, entitled, _, same_user, _, _, _) = signed in
      let has1 : HasPassword user w1 =
        Obeys-run (tenants (show_id t.organization_id)) w resolved has in
      let has2 : HasPassword user w2 =
        Obeys-run
          (find_or_create-Obeys u hooks disable_public_signup guards user hook_keeps fresh t.email
            other)
          w1 made has1 in
      let new : NewId u hooks disable_public_signup guards fresh.id (some found) =
        (find_or_create-Ensures u hooks disable_public_signup guards fresh t.email).run (some found)
          w2 made in
      Entitled-other fresh found w2 w' other has2 new entitled (sym same_user ∙ same)

  redeem-Ensures :
      {w : World} (fresh : Fresh) (token : Text) (org : Option Uuid)
      → fresh.id ≢ user
      → HasPassword user w
      → Ensures w
          (λ v _. v.user.id ≢ user)
          (redeem c cfg redirect_ok resolve_tenant show_id backend fresh token org)
  unfolding redeem
  redeem-Ensures fresh token org other has =
      let consume = Repo.consume (c.hash_token token) org fresh.now in
      let enter_by : MagicLinkToken → Action MagicLinkVerified =
        sign_in c cfg redirect_ok resolve_tenant show_id backend fresh in
      Ensures-bind (or_fail magic_link_invalid consume)
        (λ o. needs o magic_link_invalid >>= enter_by)
        (Ensures-or_fail magic_link_invalid consume (
          Ensures-Obeys (keeps_password user)
            (consume-Obeys user (c.hash_token token) org fresh.now)
            (Ensures-any consume (λ o w1 kept. Ensures-bind (needs o magic_link_invalid) enter_by (
              Ensures-needs o magic_link_invalid (λ link _.
                sign_in-Ensures c cfg redirect_ok resolve_tenant show_id backend fresh link
                  (λ v w' signed. SignedIn-other fresh link v w1 w' other (kept has) signed)))))))

  -- Where accounts with a password are not allowed, no link signs in to an account that has one
  -- when the link is opened, failed statements included. The new account's id is another's, and
  -- tenants, the classifier of staff and the hook on signup leave the user the password.
  pub verify-other_password :
      (fresh : Fresh) (raw tenant : Text) (w w' : World) (v : MagicLinkVerified)
      → fresh.id ≢ user
      → HasPassword user w
      → verify c cfg redirect_ok resolve_tenant show_id backend fresh raw tenant w ≡ (ok v, w')
      → v.user.id ≢ user
  unfolding verify
  verify-other_password fresh raw tenant w w' v other has =
      let asked = if byte_len (trim_space tenant) == 0 then [] else tenant in
      let filter = org_filter c cfg redirect_ok resolve_tenant show_id backend asked in
      let next : Option Uuid → Action MagicLinkVerified =
        redeem c cfg redirect_ok resolve_tenant show_id backend fresh (trim_space raw) in
      let long = byte_len (trim_space raw) == 0 || ltb 256 (byte_len (trim_space raw)) in
      let sound : Ensures w (λ v _. v.user.id ≢ user)
          (fail_if long magic_link_invalid >> (filter >>= next)) =
        Ensures-bind (fail_if long magic_link_invalid) (λ _. filter >>= next)
          (Ensures-fail_if long magic_link_invalid (λ _. Ensures-bind filter next (
            Ensures-Obeys (keeps_password user) (org_filter-Obeys asked) (
              Ensures-any filter
                (λ org w1 kept. redeem-Ensures fresh (trim_space raw) org other (kept has)))))) in
      sound.run v w'
