-- ===== src/MagicLink/Service/Signed.antt =====
-- What a redeemed link was, and what is left of it.
use mathlib.Core.List.{Mem}
use authpad.Prelude.{
  ℕ, ◌≡◌, ◌≤◌, ◌<◌, ◌∙◌, refl, Bool, true, false, not, ◌||◌, Option, some, none, [], ◌∷◌, Text,
  text_eq, text_eq_iff, find, count, all, ltb, arith, Bool-cases, Option-cases, inl, inr, ◌==◌,
  if◌then◌else◌, sym,
}
use authpad.Prelude.Strings.{byte_len, trim_space}
use authpad.Prelude.Tables.{all-update_unique, find_holds, find_mem}
use authpad.Crypto.{Crypto, Fresh}
use authpad.Db.Rows.{Uuid, UserAuth, Organization, MagicLinkToken}
use authpad.Db.World.{
  World, Action, ok, err, statement, tick, is_due, db_failure, magic_link_invalid, or_fail, needs,
  ◌>>=◌,
}
use authpad.Db.Rules.{Law, Obeys, obeys, >>=-ok, >>=-eq-ok, or_fail-ok}
use authpad.Db.Success.{Ensures}
use authpad.MagicLink.Repo
use authpad.MagicLink.Repo.{redeems, is_unspent, fits}
use authpad.MagicLink.Accounts.{Found, MagicLinkAccounts}
use authpad.MagicLink.Service.{
  MagicLinkConfig, MagicLinkVerified, verify, redeem, sign_in, enter, org_filter, admit,
  account_may_use_magic_link,
}
use authpad.MagicLink.Service.Redeemed.{SignedIn, sign_in-Ensures}

abbrev pub has_hash : Text → MagicLinkToken → Bool
has_hash h t = text_eq t.token_hash h

-- No row of the hash can be redeemed.
abbrev pub Spent : Text → World → Type 0
Spent h w =
    all (λ t. not (has_hash h t) || not (is_unspent t.consumed_at)) w.auth.magic_tokens ≡ true

-- The call leaves the table of links as it was.
abbrev pub same_links : Law
same_links = record {
  Rel = λ w w'. w'.auth.magic_tokens ≡ w.auth.magic_tokens;
  here = λ w. refl;
  then_ = λ u v w h k. k ∙ h;
  ticks = λ w. refl;
}

consume-eq :
    (h : Text) (org : Option Uuid) (now : ℕ) (w : World) (t : MagicLinkToken)
    → is_due w.faults ≡ false
    → find (redeems h org now) w.auth.magic_tokens ≡ some t
    → (Repo.consume h org now w ≡ (ok (some t), (Repo.consume h org now w).1))
      × (count (has_hash h) w.auth.magic_tokens ≤ 1 → Spent h (Repo.consume h org now w).1)
unfolding Repo.consume statement
consume-eq h org now w t fine found = rw fine (
  rw found refl,
  λ unique.
      all-update_unique (has_hash h) (redeems h org now) (λ t. not (is_unspent t.consumed_at)) _
        (λ t e. ground arith) w.auth.magic_tokens (λ t. refl) unique found,
)

consume-due :
    (h : Text) (org : Option Uuid) (now : ℕ) (w : World)
    → is_due w.faults ≡ true
    → Repo.consume h org now w ≡ (err db_failure, tick w)
unfolding Repo.consume statement
consume-due h org now w due = rw due refl

consume-none :
    (h : Text) (org : Option Uuid) (now : ℕ) (w : World)
    → is_due w.faults ≡ false
    → find (redeems h org now) w.auth.magic_tokens ≡ none
    → Repo.consume h org now w ≡ (ok none, (Repo.consume h org now w).1)
unfolding Repo.consume statement
consume-none h org now w fine nothing = rw fine (rw nothing refl)

module _ (c : Crypto) (cfg : MagicLinkConfig) (redirect_ok : Text → Bool)
    (resolve_tenant : Text → Action (Option Organization)) (show_id : Uuid → Text)
    (accounts : MagicLinkAccounts) where
  -- The tenants and the accounts do not write links.
  pub record Apart : Type 0 where
    pub tenants : (t : Text) → Obeys same_links (resolve_tenant t)
    pub finds :
        (fresh : Fresh) (email : Text) → Obeys same_links (accounts.find_or_create fresh email)
    pub staff : (user : Uuid) → Obeys same_links (accounts.is_staff user)
    pub password : (user : Uuid) → Obeys same_links (accounts.has_password user)
    pub takes : (user : Uuid) (now : ℕ) → Obeys same_links (accounts.take_over user now)

  module _ (apart : Apart) where
    pub org_filter-Obeys :
        (t : Text)
        → Obeys same_links (org_filter c cfg redirect_ok resolve_tenant show_id accounts t)
    unfolding org_filter
    org_filter-Obeys [] = search obeys
    org_filter-Obeys (x ∷ t) = search (obeys, apart.tenants) depth 12

    may_use-Obeys :
        (user : UserAuth)
        → Obeys same_links
            (account_may_use_magic_link c cfg redirect_ok resolve_tenant show_id accounts user)
    unfolding account_may_use_magic_link
    may_use-Obeys user = search (obeys, apart.staff, apart.password) depth 12

    enter-Obeys :
        (fresh : Fresh) (t : MagicLinkToken) (org : Organization) (found : Found)
        → Obeys same_links
            (enter c cfg redirect_ok resolve_tenant show_id accounts fresh t org found)
    unfolding enter admit
    enter-Obeys fresh t org found = search (obeys, apart.takes, may_use-Obeys) depth 12

    pub sign_in-Obeys :
        (fresh : Fresh) (t : MagicLinkToken)
        → Obeys same_links (sign_in c cfg redirect_ok resolve_tenant show_id accounts fresh t)
    unfolding sign_in
    sign_in-Obeys fresh t = search (obeys, apart.tenants, apart.finds, enter-Obeys) depth 12

    abbrev SignedFrom : Fresh → MagicLinkToken → World → MagicLinkVerified → World → Type 0
    SignedFrom fresh t w v w' =
        SignedIn c cfg redirect_ok resolve_tenant show_id accounts fresh t v w w'

    sign_in-SignedFrom :
        (fresh : Fresh) (t : MagicLinkToken) (w : World)
        → Ensures w
            (SignedFrom fresh t w)
            (sign_in c cfg redirect_ok resolve_tenant show_id accounts fresh t)
    sign_in-SignedFrom fresh t w =
        sign_in-Ensures c cfg redirect_ok resolve_tenant show_id accounts fresh t
          (λ v w' signed. signed)

    redeem-settles :
        (fresh : Fresh) (token : Text) (org : Option Uuid) (w w1 : World) (t : MagicLinkToken)
        → Repo.consume (c.hash_token token) org fresh.now w ≡ (ok (some t), w1)
        → redeem c cfg redirect_ok resolve_tenant show_id accounts fresh token org w
          ≡ sign_in c cfg redirect_ok resolve_tenant show_id accounts fresh t w1
    unfolding redeem
    redeem-settles fresh token org w w1 t consumed =
        >>=-ok (or_fail magic_link_invalid (Repo.consume (c.hash_token token) org fresh.now))
          (λ o.
            needs o magic_link_invalid
            >>= sign_in c cfg redirect_ok resolve_tenant show_id accounts fresh)
          w
          (or_fail-ok magic_link_invalid (Repo.consume (c.hash_token token) org fresh.now) w
            consumed)

    -- What a successful redemption read, and what it leaves.
    redeem_sound :
        (fresh : Fresh) (token : Text) (org : Option Uuid) (w w' : World) (v : MagicLinkVerified)
        → redeem c cfg redirect_ok resolve_tenant show_id accounts fresh token org w ≡ (ok v, w')
        → (t : MagicLinkToken) × (find
              (redeems (c.hash_token token) org fresh.now)
              w.auth.magic_tokens
            ≡ some t)
          × ((w1 : World) × (Repo.consume (c.hash_token token) org fresh.now w ≡ (ok (some t), w1))
              × SignedIn c cfg redirect_ok resolve_tenant show_id accounts fresh t v w1 w')
          × (count (has_hash (c.hash_token token)) w.auth.magic_tokens ≤ 1
              → Spent (c.hash_token token) w')
    unfolding redeem
    redeem_sound fresh token org w w' v h = elim (Bool-cases (is_due w.faults)) [
      | inl due ↦ absurd (ground (arith, consume-due (c.hash_token token) org fresh.now w))
      | inr fine ↦
          elim (Option-cases
            (find (redeems (c.hash_token token) org fresh.now) w.auth.magic_tokens)) [
              | inl nothing ↦
                  absurd (ground (arith, consume-none (c.hash_token token) org fresh.now w))
              | inr (t, found) ↦
                  let (consumed, spent) =
                    consume-eq (c.hash_token token) org fresh.now w t fine found in
                  let w1 = (Repo.consume (c.hash_token token) org fresh.now w).1 in
                  let entered : sign_in c cfg redirect_ok resolve_tenant show_id accounts fresh t w1
                      ≡ (ok v, w') =
                    sym (redeem-settles fresh token org w w1 t consumed) ∙ h in
                  let same = (sign_in-Obeys fresh t).run w1 in
                  (
                    t,
                    found,
                    (w1, consumed, (sign_in-SignedFrom fresh t w1).run v w' entered),
                    λ unique.
                        let kept : w'.auth.magic_tokens ≡ w1.auth.magic_tokens =
                          rw entered at same in
                        rw kept (spent unique),
                  )
            ]
    ]

    -- The tenant that a request asks for; a blank one asks for none.
    abbrev pub asked : Text → Text
    asked tenant = if byte_len (trim_space tenant) == 0 then [] else tenant

    -- The run of a redemption from `w` to `w'`: the tenant that is asked for, the statement that
    -- consumes the link, and what the sign-in rests on, each in the world that the one before left.
    abbrev pub Ran :
        Fresh → Text → Text → MagicLinkToken → MagicLinkVerified → World → World → Type 0
    Ran fresh raw tenant t v w w' =
        (org : Option Uuid) × (w1 : World) × (w2 : World) × (org_filter c cfg redirect_ok
            resolve_tenant show_id accounts (asked tenant) w
          ≡ (ok org, w1))
        × (Repo.consume (c.hash_token (trim_space raw)) org fresh.now w1 ≡ (ok (some t), w2))
        × SignedIn c cfg redirect_ok resolve_tenant show_id accounts fresh t v w2 w'

    verify-eq-ok :
        (fresh : Fresh) (raw tenant : Text) (w w' : World) (v : MagicLinkVerified)
        → verify c cfg redirect_ok resolve_tenant show_id accounts fresh raw tenant w ≡ (ok v, w')
        → (org : Option Uuid) × (w1 : World) × (org_filter c cfg redirect_ok resolve_tenant show_id
              accounts
              (asked tenant)
              w
            ≡ (ok org, w1))
          × (w1.auth.magic_tokens ≡ w.auth.magic_tokens)
          × (redeem c cfg redirect_ok resolve_tenant show_id accounts fresh (trim_space raw) org w1
              ≡ (ok v, w'))
    unfolding verify
    verify-eq-ok fresh raw tenant w w' v h =
        let next : Option Uuid → Action MagicLinkVerified =
          redeem c cfg redirect_ok resolve_tenant show_id accounts fresh (trim_space raw) in
        elim (Bool-cases (byte_len (trim_space raw) == 0 || ltb 256 (byte_len (trim_space raw)))) [
          | inl refused ↦ absurd (ground arith)
          | inr open_ ↦
              let (org, w1, resolved, redeemed) =
                >>=-eq-ok
                  (org_filter c cfg redirect_ok resolve_tenant show_id accounts (asked tenant)) next
                  w (rw open_ at h) in
              let same = (org_filter-Obeys (asked tenant)).run w in
              (org, w1, resolved, rw resolved at same, redeemed)
        ]

    -- A link signs in only where the table has an unspent and unexpired row of the token's hash. In
    -- that run, after the row is consumed, the row's tenant is resolved and its address leads to an
    -- account that is active, and that is new, or that is then found to be no staff, and after that
    -- to have no password (unless the configuration allows one), and that was verified before or is
    -- taken over last. The redirect handed on is the row's where the allowlist still permits it, or
    -- none. Tenants and accounts do not write links.
    pub verify_sound :
        (fresh : Fresh) (raw tenant : Text) (w w' : World) (v : MagicLinkVerified)
        → verify c cfg redirect_ok resolve_tenant show_id accounts fresh raw tenant w ≡ (ok v, w')
        → ((t : MagicLinkToken) × Mem t w.auth.magic_tokens
            × (t.token_hash ≡ c.hash_token (trim_space raw))
            × (is_unspent t.consumed_at ≡ true)
            × (fresh.now < t.expires_at)
            × Ran fresh raw tenant t v w w')
    verify_sound fresh raw tenant w w' v h =
        let (org, w1, filtered, same, redeemed) = verify-eq-ok fresh raw tenant w w' v h in
        let (t, found, (w2, consumed, signed), _) =
          redeem_sound fresh (trim_space raw) org w1 w' v redeemed in
        let found = rw same at found in
        let row =
          find_holds (redeems (c.hash_token (trim_space raw)) org fresh.now) w.auth.magic_tokens
            found in
        let ran : Ran fresh raw tenant t v w w' = (org, w1, w2, filtered, consumed, signed) in
        let hash : t.token_hash ≡ c.hash_token (trim_space raw) =
          ground (arith, text_eq_iff t.token_hash (c.hash_token (trim_space raw))) in
        let unspent : is_unspent t.consumed_at ≡ true = ground arith in
        let early : fresh.now < t.expires_at = ground arith in
        (t, find_mem _ w.auth.magic_tokens found, hash, unspent, early, ran)

    pub verify-Spent :
        (fresh : Fresh) (raw tenant : Text) (w w' : World) (v : MagicLinkVerified)
        → verify c cfg redirect_ok resolve_tenant show_id accounts fresh raw tenant w ≡ (ok v, w')
        → count (has_hash (c.hash_token (trim_space raw))) w.auth.magic_tokens ≤ 1
        → Spent (c.hash_token (trim_space raw)) w'
    verify-Spent fresh raw tenant w w' v h unique =
        let (org, w1, _, same, redeemed) = verify-eq-ok fresh raw tenant w w' v h in
        let (t, found, _, spent) = redeem_sound fresh (trim_space raw) org w1 w' v redeemed in
        spent (rw same unique)
