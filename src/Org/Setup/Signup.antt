-- ===== src/Org/Setup/Signup.antt =====
-- Where a signup has to bring an organization it does.
use authpad.Prelude.{
  ℕ, ◌≡◌, ◌⊎◌, inl, inr, refl, Bool, true, false, not, Option, none, some, Text, codes, arith,
  if◌then◌else◌,
}
use authpad.Prelude.Strings.{Unicode, trim_space}
use authpad.Crypto.{Crypto, Fresh}
use authpad.Redirect.{is_empty}
use authpad.Db.Rows.{Uuid}
use authpad.Db.World.{World, ok, pure, raise, org_required}
use authpad.Db.Success.{
  Ensures, ensures, Ensures-any, Ensures-bind, Ensures-pure, Ensures-raise, Ensures-weaken,
  Ensures-if,
}
use authpad.Org.Members.{TenancyConfig, owner}
use authpad.Org.Setup.{Joined, create, join_invited, found_named, complete_on_signup}
use authpad.Org.Setup.Created.{Founded, IsNew, create-Ensures}

module _ (u : Unicode) (cfg : TenancyConfig) (parse_uuid : Text → Option Uuid) (ids : Text → Uuid)
    (c : Crypto) (invitation_ttl : ℕ) (policy : Option (Uuid → Text → Text → Text → Bool))
    (extras : Text → Option Uuid × Option Uuid) where
  -- The signup has an organization; without an invitation none had its id or its slug in `w`, and
  -- the user owns it in `w'`.
  abbrev pub Settled : Uuid → Text → Option Joined → World → World → Type 0
  Settled user token o w w' =
      (j : Joined) × (o ≡ some j)
      × ((is_empty (trim_space token) ≡ false)
          ⊎ (IsNew u cfg parse_uuid ids j.org w
              × Founded u cfg parse_uuid ids user j.org w'
              × (j.role ≡ owner)))

  join_invited-Ensures :
      (fresh : Fresh) (user : Uuid) (token : Text) (w : World)
      → is_empty (trim_space token) ≡ false
      → Ensures w
          (λ o w'. Settled user token o w w')
          (join_invited u cfg parse_uuid ids c invitation_ttl policy extras fresh user
            (trim_space token))
  unfolding join_invited
  join_invited-Ensures fresh user token w given =
      let done : (j : Joined) (w' : World) → Settled user token (some j) w w' =
        λ j w'. (j, refl, inl given) in
      search (ensures, Ensures-any, done) depth 12

  refused-Ensures :
      (user : Uuid) (token : Text) (w : World)
      → cfg.require_on_signup ≡ true
      → Ensures w
          (λ o w'. Settled user token o w w')
          (if cfg.require_on_signup then raise org_required else pure none)
  refused-Ensures user token w required = rw required (Ensures-raise org_required)

  found_named-Ensures :
      (fresh : Fresh) (user : Uuid) (name slug token : Text) (w : World)
      → cfg.require_on_signup ≡ true
      → Ensures w
          (λ o w'. Settled user token o w w')
          (found_named u cfg parse_uuid ids c invitation_ttl policy extras fresh user name slug)
  unfolding found_named
  found_named-Ensures fresh user name slug token w required =
      let refused = refused-Ensures user token w required in
      Ensures-if (is_empty name) (λ _. refused)
        (λ _.
          Ensures-if (not cfg.allow_create_organization) (λ _. refused)
            (λ _.
              Ensures-bind (create u cfg parse_uuid ids fresh user name slug (codes "null"))
                (λ org. pure (some (record { org = org; role = owner })))
                (Ensures-weaken _ _
                  (λ org w' (_, _, _, free, founded).
                    Ensures-pure _
                      (record { org = org; role = owner }, refl, inr (free, founded, refl)))
                  (create-Ensures u cfg parse_uuid ids fresh user name slug (codes "null") w))))

  -- Where tenancy is enabled and a signup needs an organization, a successful CompleteOnSignup
  -- returns one; without an invitation no organization had its id or its slug before, it has its
  -- roles, and the user owns it.
  pub complete_on_signup-required :
      (fresh : Fresh) (user : Uuid) (name slug token : Text) (w w' : World) (o : Option Joined)
      → cfg.enabled ≡ true
      → cfg.require_on_signup ≡ true
      → complete_on_signup u cfg parse_uuid ids c invitation_ttl policy extras fresh user name slug
          token w
        ≡ (ok o, w')
      → Settled user token o w w'
  unfolding complete_on_signup
  complete_on_signup-required fresh user name slug token w w' o on required =
      let settled : Ensures w (λ o w'. Settled user token o w w')
          (complete_on_signup u cfg parse_uuid ids c invitation_ttl policy extras fresh user name
            slug token) =
        Ensures-if (not cfg.enabled) (λ off. absurd (ground arith))
          (λ _.
            Ensures-if (is_empty (trim_space token))
              (λ _. found_named-Ensures fresh user (trim_space name) slug token w required)
              (λ given. join_invited-Ensures fresh user token w given)) in
      settled.run o w'
