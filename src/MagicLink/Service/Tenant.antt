-- ===== src/MagicLink/Service/Tenant.antt =====
-- A link presented for another tenant.
use authpad.Prelude.{
  ℕ, ◌⊎◌, ◌≡◌, ◌∙◌, ap, refl, Bool, true, false, not, ◌&&◌, ◌||◌, Option, none, some, [], ◌∷◌, Text,
  all, arith, Bool-cases, inl, inr, ◌==◌, ltb,
}
use authpad.Prelude.Strings.{byte_len, trim_space}
use authpad.Prelude.Tables.{find-none, update_none, all-weaken}
use authpad.Crypto.{Crypto, Fresh}
use authpad.Db.Rows.{Uuid, Organization, MagicLinkToken}
use authpad.Db.World.{
  World, Action, ok, err, statement, tick, is_due, db_failure, magic_link_invalid, or_fail, needs,
  pure, ◌>>=◌,
}
use authpad.Db.Rules.{>>=-ok}
use authpad.MagicLink.Repo
use authpad.MagicLink.Repo.{redeems}
use authpad.MagicLink.Accounts.{MagicLinkAccounts}
use authpad.MagicLink.Service.{
  MagicLinkConfig, MagicLinkVerified, verify, redeem, sign_in, org_filter,
}
use authpad.MagicLink.Service.Signed.{has_hash}

-- A consumption that no row fits changes no row.
consume_nothing :
    (h : Text) (org : Option Uuid) (w : World) (now : ℕ)
    → all (λ t. not (redeems h org now t)) w.auth.magic_tokens ≡ true
    → (w' : World) × (w'.auth.magic_tokens ≡ w.auth.magic_tokens)
      × ((Repo.consume h org now w ≡ (ok none, w'))
          ⊎ (Repo.consume h org now w ≡ (err db_failure, w')))
unfolding Repo.consume statement
consume_nothing h org w now nothing = elim (Bool-cases (is_due w.faults)) [
  | inl due ↦ (tick w, refl, inr (rw due refl))
  | inr fine ↦ (
    (Repo.consume h org now w).1,
    rw fine (update_none (redeems h org now) _ w.auth.magic_tokens nothing),
    inl (rw fine (rw (find-none (redeems h org now) w.auth.magic_tokens nothing) refl)),
  )
]

module _ (c : Crypto) (cfg : MagicLinkConfig) (redirect_ok : Text → Bool)
    (resolve_tenant : Text → Action (Option Organization)) (show_id : Uuid → Text)
    (accounts : MagicLinkAccounts) where
  redeem_nothing :
      (fresh : Fresh) (token : Text) (org : Option Uuid) (w : World)
      → all (λ t. not (redeems (c.hash_token token) org fresh.now t)) w.auth.magic_tokens ≡ true
      → (w' : World) × (w'.auth.magic_tokens ≡ w.auth.magic_tokens)
        × (redeem c cfg redirect_ok resolve_tenant show_id accounts fresh token org w
            ≡ (err magic_link_invalid, w'))
  unfolding redeem
  redeem_nothing fresh token org w nothing =
      let next : Option MagicLinkToken → Action MagicLinkVerified = λ o.
        needs o magic_link_invalid
        >>= sign_in c cfg redirect_ok resolve_tenant show_id accounts fresh in
      let (w', same, ran) = consume_nothing (c.hash_token token) org w fresh.now nothing in
      (
        w',
        same,
        elim ran [
          | inl none_found ↦ ap (λ p. ◌>>=◌ (or_fail magic_link_invalid (λ _. p)) next w) none_found
          | inr failed ↦ ap (λ p. ◌>>=◌ (or_fail magic_link_invalid (λ _. p)) next w) failed
        ],
      )

  org_filter-eq :
      (tenant : Text) (w w1 : World) (o : Organization)
      → (byte_len (trim_space tenant) == 0) ≡ false
      → resolve_tenant tenant w ≡ (ok (some o), w1)
      → org_filter c cfg redirect_ok resolve_tenant show_id accounts tenant w ≡ (ok (some o.id), w1)
  unfolding org_filter trim_space byte_len
  org_filter-eq [] w w1 o named found = cc
  org_filter-eq (x ∷ tenant) w w1 o named found =
      ap
        (λ p.
          ◌>>=◌ (or_fail magic_link_invalid (λ _. p))
            (λ r. needs r magic_link_invalid >>= λ org. pure (some org.id)) w)
        found

  -- A link that is presented for another tenant than its own is refused and stays as it was: where
  -- the tenant resolves to an organization that no link of the token's hash is issued for, the
  -- redemption fails and the table of links is unchanged. Resolving a tenant writes no link.
  pub verify-other_tenant :
      (fresh : Fresh) (raw tenant : Text) (w w1 : World) (o : Organization)
      → (byte_len (trim_space tenant) == 0) ≡ false
      → resolve_tenant tenant w ≡ (ok (some o), w1)
      → w1.auth.magic_tokens ≡ w.auth.magic_tokens
      → all
          (λ t. not (has_hash (c.hash_token (trim_space raw)) t && t.organization_id == o.id))
          w.auth.magic_tokens
        ≡ true
      → (w' : World) × (w'.auth.magic_tokens ≡ w.auth.magic_tokens)
        × (verify c cfg redirect_ok resolve_tenant show_id accounts fresh raw tenant w
            ≡ (err magic_link_invalid, w'))
  unfolding verify
  verify-other_tenant fresh raw tenant w w1 o named found same apart =
      let h = c.hash_token (trim_space raw) in
      let nothing : all (λ t. not (redeems h (some o.id) fresh.now t)) w1.auth.magic_tokens ≡ true =
        rw same (
          all-weaken (λ t. not (has_hash h t && t.organization_id == o.id)) _ w.auth.magic_tokens
            (λ t e. ground arith) apart) in
      let (w', kept, refused) = redeem_nothing fresh (trim_space raw) (some o.id) w1 nothing in
      let filtered = org_filter-eq tenant w w1 o named found in
      elim (Bool-cases (byte_len (trim_space raw) == 0 || ltb 256 (byte_len (trim_space raw)))) [
        | inl malformed ↦ (w, refl, rw malformed refl)
        | inr open_ ↦ (
          w',
          kept ∙ same,
          rw (open_, named)
              (>>=-ok (org_filter c cfg redirect_ok resolve_tenant show_id accounts tenant)
                  (redeem c cfg redirect_ok resolve_tenant show_id accounts fresh (trim_space raw))
                  w filtered
                ∙ refused),
        )
      ]
