-- ===== src/MagicLink/Service/Redeemed.antt =====
-- What redeeming a link does to the table of links, and to whom it signs in.
use authpad.Prelude.{
  ℕ, ◌≡◌, ◌⊎◌, refl, Bool, true, false, not, Option, some, [], Text, arith, Bool-cases, inl, inr,
  if◌then◌else◌,
}
use authpad.Crypto.{Crypto, Fresh}
use authpad.Db.Rows.{Uuid, UserAuth, Organization, MagicLinkToken, is_active}
use authpad.Db.World.{World, ok, Action, magic_link_invalid, or_fail, fail_if, pure, ◌>>=◌, ◌>>◌}
use authpad.Db.Success.{
  Ensures, ensures, Ensures-ran, Ensures-bind, Ensures-or_fail, Ensures-fail_if, Ensures-if,
  Ensures-pure,
}
use authpad.MagicLink.Accounts.{Found, MagicLinkAccounts}
use authpad.MagicLink.Service.{
  MagicLinkConfig, MagicLinkVerified, sign_in, admit, enter, verified, account_may_use_magic_link,
}

module _ (c : Crypto) (cfg : MagicLinkConfig) (redirect_ok : Text → Bool)
    (resolve_tenant : Text → Action (Option Organization)) (show_id : Uuid → Text)
    (accounts : MagicLinkAccounts) where
  -- The user is asked about in a run that starts in `w` and ends in `w'`: is no staff, and has no
  -- password unless those are allowed.
  abbrev pub MayUse : Uuid → World → World → Type 0
  MayUse user w w' =
      (w1 : World) × (accounts.is_staff user w ≡ (ok false, w1))
      × (((cfg.allow_password_accounts ≡ true) × (w' ≡ w1))
          ⊎ (accounts.has_password user w1 ≡ (ok false, w')))

  -- What entitles a request to an account, in a run from `w` to `w'`: it is new; or first it is no
  -- staff account and has no password unless those are allowed, and then it was verified before or
  -- is taken over.
  abbrev pub Entitled : Found → ℕ → World → World → Type 0
  Entitled found now w w' =
      ((found.created ≡ true) × (w' ≡ w))
      ⊎ ((w1 : World) × MayUse found.user.id w w1
          × (((found.user.email_verified ≡ true) × (w' ≡ w1))
              ⊎ (accounts.take_over found.user.id now w1 ≡ (ok tt, w'))))

  -- What a sign-in with the link rests on, in the run from `w`, in which the link is consumed, to
  -- `w'`: the tenant of the link, the account that its address leads to, and what entitles to it.
  abbrev pub SignedIn : Fresh → MagicLinkToken → MagicLinkVerified → World → World → Type 0
  SignedIn fresh t v w w' =
      (found : Found) × (w1 : World) × (w2 : World) × (resolve_tenant (show_id t.organization_id) w
        ≡ (ok (some v.organization), w1))
      × (accounts.find_or_create fresh t.email w1 ≡ (ok (some found), w2))
      × Entitled found fresh.now w2 w'
      × (is_active found.user.status ≡ true)
      × (v.user.id ≡ found.user.id)
      × (v.created ≡ found.created)
      × (v.code_challenge ≡ t.code_challenge)
      × ((v.redirect_to ≡ [])
          ⊎ ((v.redirect_to ≡ t.redirect_to) × (redirect_ok t.redirect_to ≡ true)))

  kept_redirect :
      (r : Text)
      → ((if redirect_ok r then r else []) ≡ [])
        ⊎ (((if redirect_ok r then r else []) ≡ r) × (redirect_ok r ≡ true))
  kept_redirect r = elim (Bool-cases (redirect_ok r)) [
    | inl permitted ↦ rw permitted (inr (refl, refl))
    | inr refused ↦ rw refused (inl refl)
  ]

  is_staff-Ensures :
      {w : World} {Q : Bool → World → Type 0} (user : Uuid)
      → ((b : Bool) (w' : World) → accounts.is_staff user w ≡ (ok b, w') → Q b w')
      → Ensures w Q (accounts.is_staff user)
  is_staff-Ensures user k = Ensures-ran _ k

  has_password-Ensures :
      {w : World} {Q : Bool → World → Type 0} (user : Uuid)
      → ((b : Bool) (w' : World) → accounts.has_password user w ≡ (ok b, w') → Q b w')
      → Ensures w Q (accounts.has_password user)
  has_password-Ensures user k = Ensures-ran _ k

  account_may_use_magic_link-Ensures :
      {w : World} {Q : Unit {0} → World → Type 0} (user : UserAuth)
      → ((w' : World) → MayUse user.id w w' → Q tt w')
      → Ensures w Q
          (account_may_use_magic_link c cfg redirect_ok resolve_tenant show_id accounts user)
  unfolding account_may_use_magic_link
  account_may_use_magic_link-Ensures {w} {Q} user done =
      let unasked : (b : Bool) (w1 : World)
          → accounts.is_staff user.id w ≡ (ok b, w1)
          → b ≡ false
          → cfg.allow_password_accounts ≡ true
          → Q tt w1 =
        λ b w1 ran no allowed. done w1 (w1, rw no at ran, inl (allowed, refl)) in
      let asked : (b : Bool) (w1 : World) (p : Bool) (w2 : World)
          → accounts.is_staff user.id w ≡ (ok b, w1)
          → b ≡ false
          → accounts.has_password user.id w1 ≡ (ok p, w2)
          → p ≡ false
          → Q tt w2 =
        λ b w1 p w2 ran no answered none. done w2 (w1, rw no at ran, inr (rw none at answered)) in
      search (ensures, is_staff-Ensures, has_password-Ensures, unasked, asked) depth 20

  admit-Ensures :
      {w : World} {Q : UserAuth → World → Type 0} (found : Found) (now : ℕ)
      → ((user : UserAuth) (w' : World)
          → Entitled found now w w'
          → user.id ≡ found.user.id
          → Q user w')
      → Ensures w Q (admit c cfg redirect_ok resolve_tenant show_id accounts found now)
  unfolding admit
  admit-Ensures {w} found now done =
      let hardened : UserAuth = record (found.user) { email_verified = true } in
      let take : Action UserAuth =
        or_fail magic_link_invalid (accounts.take_over found.user.id now) >> pure hardened in
      let rest : Unit {0} → Action UserAuth =
        λ _. if found.user.email_verified then pure found.user else take in
      let old : Action UserAuth =
        account_may_use_magic_link c cfg redirect_ok resolve_tenant show_id accounts found.user
        >>= rest in
      Ensures-if found.created {m = pure found.user} {n = old}
        (λ new. Ensures-pure found.user (done found.user w (inl (new, refl)) refl))
        (λ _.
          Ensures-bind
            (account_may_use_magic_link c cfg redirect_ok resolve_tenant show_id accounts
              found.user)
            rest
            (account_may_use_magic_link-Ensures found.user (λ w1 may.
              Ensures-if found.user.email_verified {m = pure found.user} {n = take}
                (λ before.
                  Ensures-pure found.user
                    (done found.user w1 (inr (w1, may, inl (before, refl))) refl))
                (λ _.
                  Ensures-bind (or_fail magic_link_invalid (accounts.take_over found.user.id now))
                    (λ _. pure hardened)
                    (Ensures-or_fail magic_link_invalid (accounts.take_over found.user.id now) (
                      Ensures-ran (accounts.take_over found.user.id now) (λ _ w2 taken.
                        Ensures-pure hardened
                          (done hardened w2 (inr (w1, may, inr taken)) refl))))))))

  enter-Ensures :
      {w : World} {Q : MagicLinkVerified → World → Type 0} (fresh : Fresh) (t : MagicLinkToken)
      (org : Organization) (found : Found)
      → ((v : MagicLinkVerified) (w' : World)
          → v.organization ≡ org
          → Entitled found fresh.now w w'
          → is_active found.user.status ≡ true
          → v.user.id ≡ found.user.id
          → v.created ≡ found.created
          → v.code_challenge ≡ t.code_challenge
          → (v.redirect_to ≡ [])
            ⊎ ((v.redirect_to ≡ t.redirect_to) × (redirect_ok t.redirect_to ≡ true))
          → Q v w')
      → Ensures w Q (enter c cfg redirect_ok resolve_tenant show_id accounts fresh t org found)
  unfolding enter
  enter-Ensures {w} {Q} fresh t org found done =
      let answer : UserAuth → Action MagicLinkVerified = λ user.
        pure (verified c cfg redirect_ok resolve_tenant show_id accounts t org found user) in
      let inside : Action MagicLinkVerified =
        admit c cfg redirect_ok resolve_tenant show_id accounts found fresh.now >>= answer in
      Ensures-bind (fail_if (not (is_active found.user.status)) magic_link_invalid) (λ _. inside)
        (Ensures-fail_if (not (is_active found.user.status)) magic_link_invalid (λ alive.
          Ensures-bind (admit c cfg redirect_ok resolve_tenant show_id accounts found fresh.now)
            answer
            (admit-Ensures found fresh.now (λ user w1 entitled same.
              Ensures-pure
                (verified c cfg redirect_ok resolve_tenant show_id accounts t org found user)
                (done (verified c cfg redirect_ok resolve_tenant show_id accounts t org found user)
                  w1 refl entitled (ground arith) same refl refl (kept_redirect t.redirect_to))))))

  resolve-Ensures :
      {w : World} {Q : Option Organization → World → Type 0} (tenant : Text)
      → ((o : Option Organization) (w' : World) → resolve_tenant tenant w ≡ (ok o, w') → Q o w')
      → Ensures w Q (resolve_tenant tenant)
  resolve-Ensures tenant k = Ensures-ran _ k

  find_or_create-Ensures :
      {w : World} {Q : Option Found → World → Type 0} (fresh : Fresh) (email : Text)
      → ((o : Option Found) (w' : World)
          → accounts.find_or_create fresh email w ≡ (ok o, w')
          → Q o w')
      → Ensures w Q (accounts.find_or_create fresh email)
  find_or_create-Ensures fresh email k = Ensures-ran _ k

  pub sign_in-Ensures :
      {w : World} {Q : MagicLinkVerified → World → Type 0} (fresh : Fresh) (t : MagicLinkToken)
      → ((v : MagicLinkVerified) (w' : World) → SignedIn fresh t v w w' → Q v w')
      → Ensures w Q (sign_in c cfg redirect_ok resolve_tenant show_id accounts fresh t)
  unfolding sign_in
  sign_in-Ensures {w} {Q} fresh t k =
      let done : (o : Option Organization) (w1 : World) (org : Organization) (a : Option Found)
            (w2 : World) (found : Found) (v : MagicLinkVerified) (w' : World)
          → resolve_tenant (show_id t.organization_id) w ≡ (ok o, w1)
          → o ≡ some org
          → accounts.find_or_create fresh t.email w1 ≡ (ok a, w2)
          → a ≡ some found
          → v.organization ≡ org
          → Entitled found fresh.now w2 w'
          → is_active found.user.status ≡ true
          → v.user.id ≡ found.user.id
          → v.created ≡ found.created
          → v.code_challenge ≡ t.code_challenge
          → (v.redirect_to ≡ [])
            ⊎ ((v.redirect_to ≡ t.redirect_to) × (redirect_ok t.redirect_to ≡ true))
          → Q v w' =
        λ o w1 org a w2 found v w' at_tenant is_org at_account is_found same_org entitled alive same
            created challenge redirect.
          let tenant : resolve_tenant (show_id t.organization_id) w
              ≡ (ok (some v.organization), w1) =
            rw same_org (rw is_org at at_tenant) in
          k v w' (
            found,
            w1,
            w2,
            tenant,
            rw is_found at at_account,
            entitled,
            alive,
            same,
            created,
            challenge,
            redirect,
          ) in
      search (ensures, resolve-Ensures, find_or_create-Ensures, enter-Ensures, done) depth 20
