-- ===== src/Org/Invites/Accepted.antt =====
-- What an accepted invitation was.
use mathlib.Core.List.{Mem}
use authpad.Prelude.{
  ℕ, ◌≡◌, ◌≤◌, Bool, true, Option, none, Text, text_eq, text_eq_iff, find, arith, Option-cases, inl,
  inr,
}
use authpad.Prelude.Strings.{Unicode, trim_space}
use authpad.Prelude.Tables.{find_holds, find_mem}
use authpad.Crypto.{Crypto, Fresh}
use authpad.Db.Rows.{Uuid, Organization, Invitation}
use authpad.Db.World.{World, ok, statement}
use authpad.Org.Repo
use authpad.Org.Members.{TenancyConfig}
use authpad.Org.Invites.{refusal, accept_invite}

module _ (u : Unicode) (cfg : TenancyConfig) (parse_uuid : Text → Option Uuid) (c : Crypto)
    (invitation_ttl : ℕ) (policy : Option (Uuid → Text → Text → Text → Bool))
    (extras : Text → Option Uuid × Option Uuid) where
  refusal-eq-none :
      (i : Invitation) (now : ℕ)
      → refusal u cfg parse_uuid c invitation_ttl policy extras i now ≡ none
      → (i.revoked_at ≡ none) × (i.accepted_at ≡ none) × (now ≤ i.expires_at)
  unfolding refusal
  refusal-eq-none i now h = ground arith

  -- An invitation is accepted only where tenancy is enabled and the table has an invitation of the
  -- token's hash that is neither revoked nor accepted nor expired.
  pub accept_invite_sound :
      (fresh : Fresh) (raw : Text) (user : Uuid) (w w' : World) (o : Option Organization)
      → accept_invite u cfg parse_uuid c invitation_ttl policy extras fresh raw user w ≡ (ok o, w')
      → (cfg.enabled ≡ true)
        × ((i : Invitation) × Mem i w.idp.invitations
            × (i.token_hash ≡ c.hash_token (trim_space raw))
            × (i.revoked_at ≡ none)
            × (i.accepted_at ≡ none)
            × (fresh.now ≤ i.expires_at))
  unfolding accept_invite Repo.get_invitation_by_token_hash statement
  accept_invite_sound fresh raw user w w' o h =
      elim (Option-cases
        (find (λ i. text_eq i.token_hash (c.hash_token (trim_space raw))) w.idp.invitations)) [
          | inl nothing ↦ absurd (ground arith)
          | inr (i, found) ↦
              let passed : (cfg.enabled ≡ true)
                  × (refusal u cfg parse_uuid c invitation_ttl policy extras i fresh.now ≡ none) =
                ground arith in
              let pending = refusal-eq-none i fresh.now passed.1 in
              let held = find_holds _ w.idp.invitations found in
              (
                passed.0,
                (
                  i,
                  find_mem _ w.idp.invitations found,
                  (text_eq_iff i.token_hash (c.hash_token (trim_space raw))).0 held,
                  pending.0,
                  pending.1,
                  pending.2,
                ),
              )
        ]
