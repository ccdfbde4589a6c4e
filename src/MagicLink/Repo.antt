-- ===== src/MagicLink/Repo.antt =====
-- internal/repository/auth/magic_link_repo.go and magic_link_code_repo.go: the statements on the
-- tables of links and codes.
use authpad.Prelude.{
  ℕ, Bool, true, false, not, ◌&&◌, Option, none, some, ◌∷◌, Text, text_eq, find, keep, update, any,
  count, ltb, ◌==◌,
}
use authpad.Db.Rows.{Uuid, MagicLinkToken, MagicLinkCode}
use authpad.Db.World.{ok, Action, statement, insert_unless, in_auth}

-- `consumed_at IS NULL`
abbrev pub is_unspent : Option ℕ → Bool
is_unspent none = true
is_unspent (some _) = false

-- `$2::uuid IS NULL OR organization_id = $2::uuid`
abbrev pub fits : Option Uuid → Uuid → Bool
fits none org = true
fits (some id) org = org == id

-- The rows that `MagicLinkRepo.Consume` marks.
abbrev pub redeems : Text → Option Uuid → ℕ → MagicLinkToken → Bool
redeems h org now t =
    text_eq t.token_hash h
    && is_unspent t.consumed_at
    && ltb now t.expires_at
    && fits org t.organization_id

-- `MagicLinkRepo.Create`; token hashes are unique.
unfoldable pub create : MagicLinkToken → Action (Unit {0})
create t =
    insert_unless (λ w. any (λ r. text_eq r.token_hash t.token_hash) w.auth.magic_tokens)
      (in_auth (λ d. record d { magic_tokens = t ∷ d.magic_tokens }))

-- `MagicLinkRepo.Consume`
unfoldable pub consume : Text → Option Uuid → ℕ → Action (Option MagicLinkToken)
consume h org now = statement (λ w. (
  ok (find (redeems h org now) w.auth.magic_tokens),
  in_auth
      (λ d. record d {
        magic_tokens =
            update (redeems h org now) (λ t. record t { consumed_at = some now }) d.magic_tokens;
      })
      w,
))

-- `MagicLinkRepo.DeleteExpired`
unfoldable pub delete_expired : ℕ → Action ℕ
delete_expired before = statement (λ w. (
  ok (count (λ t. ltb t.expires_at before) w.auth.magic_tokens),
  in_auth
      (λ d. record d { magic_tokens = keep (λ t. not (ltb t.expires_at before)) d.magic_tokens }) w,
))

-- The rows that `MagicLinkCodeRepo.Consume` marks.
abbrev pub exchanges : Text → ℕ → MagicLinkCode → Bool
exchanges h now c = text_eq c.code_hash h && is_unspent c.consumed_at && ltb now c.expires_at

-- `MagicLinkCodeRepo.Create`; code hashes are unique.
unfoldable pub create_code : MagicLinkCode → Action (Unit {0})
create_code c =
    insert_unless (λ w. any (λ r. text_eq r.code_hash c.code_hash) w.auth.magic_codes)
      (in_auth (λ d. record d { magic_codes = c ∷ d.magic_codes }))

-- `MagicLinkCodeRepo.Consume`
unfoldable pub consume_code : Text → ℕ → Action (Option MagicLinkCode)
consume_code h now = statement (λ w. (
  ok (find (exchanges h now) w.auth.magic_codes),
  in_auth
      (λ d. record d {
        magic_codes =
            update (exchanges h now) (λ c. record c { consumed_at = some now }) d.magic_codes;
      })
      w,
))

-- `MagicLinkCodeRepo.DeleteExpired`
unfoldable pub delete_expired_codes : ℕ → Action ℕ
delete_expired_codes before = statement (λ w. (
  ok (count (λ c. ltb c.expires_at before) w.auth.magic_codes),
  in_auth (λ d. record d { magic_codes = keep (λ c. not (ltb c.expires_at before)) d.magic_codes })
      w,
))
