-- ===== src/MagicLink/Codes/Exchanged.antt =====
-- What a successful exchange of a one-time code rests on.
use mathlib.Core.List.{Mem}
use authpad.Prelude.{
  ◌≡◌, ◌<◌, refl, true, Option, some, none, Text, text_eq_iff, find, arith, Option-cases, inl, inr,
}
use authpad.Prelude.Strings.{Unicode}
use authpad.Prelude.Tables.{find_holds, find_mem}
use authpad.Crypto.{Crypto, Fresh}
use authpad.Db.Rows.{Uuid, UserAuth, Membership, MagicLinkCode, is_active}
use authpad.Db.World.{World, Result, Action, ok, err, statement}
use authpad.Db.Rules.{Yields, yields}
use authpad.Session.Repo as Sessions
use authpad.Session.Service.{SessionConfig}
use authpad.Redirect.{Url, normalize_origin}
use authpad.MagicLink.Repo
use authpad.MagicLink.Repo.{exchanges, is_unspent}
use authpad.MagicLink.Codes.{
  MagicLinkExchange, exchange, settle_code, origin_agrees, verifier_agrees, valid_code_verifier,
  hand_over, hand_to, active_user,
}

module _ (u : Unicode) (parse : Text → Option Url) (c : Crypto) (cfg : SessionConfig)
    (members : Option (Uuid → Uuid → Action (Option Membership))) where
  origin_agrees_sound :
      (o : Option Text) (r : MagicLinkCode)
      → origin_agrees u parse c cfg members o r ≡ true
      → o ≡ some r.redirect_origin
  unfolding origin_agrees
  origin_agrees_sound none r h = cc
  origin_agrees_sound (some o) r h = let e = (text_eq_iff o r.redirect_origin).0 h in cc

  verifier_agrees_sound :
      (v : Text) (r : MagicLinkCode)
      → verifier_agrees u parse c cfg members v r ≡ true
      → c.pkce_challenge v ≡ r.code_challenge
  unfolding verifier_agrees
  verifier_agrees_sound v r h = (text_eq_iff (c.pkce_challenge v) r.code_challenge).0 (ground arith)

  active_user-eq-some :
      (r : Result (Option UserAuth)) (user : UserAuth)
      → active_user u parse c cfg members r ≡ some user
      → is_active user.status ≡ true
  unfolding active_user
  active_user-eq-some (ok (some x)) user h = ground arith
  active_user-eq-some (ok none) user h = cc
  active_user-eq-some (err e) user h = cc

  hand_to-Yields :
      (r : MagicLinkCode) (token : Text) (live : Sessions.Issued) (o : Option UserAuth)
      → ((user : UserAuth) → o ≡ some user → is_active user.status ≡ true)
      → Yields
          (λ x. is_active (x.user).status ≡ true)
          (hand_to u parse c cfg members r token live o)
  unfolding hand_to
  hand_to-Yields r token live none k = search yields
  hand_to-Yields r token live (some user) k = let active = k user refl in search yields

  hand_over-Yields :
      (r : MagicLinkCode) (token : Text) (live : Sessions.Issued)
      → Yields
          (λ x. is_active (x.user).status ≡ true)
          (hand_over u parse c cfg members r token live)
  unfolding hand_over
  hand_over-Yields r token live = search (yields, hand_to-Yields, active_user-eq-some)

  -- The user that is handed over is active.
  exchange-Yields :
      (fresh : Fresh) (code redirect_origin verifier : Text)
      → Yields
          (λ x. is_active (x.user).status ≡ true)
          (exchange u parse c cfg members fresh code redirect_origin verifier)
  unfolding exchange settle_code
  exchange-Yields fresh code redirect_origin verifier = search (yields, hand_over-Yields) depth 12

  -- A code is exchanged only where the table has an unspent and unexpired row of its hash, whose
  -- origin is the normalised origin of the request and whose challenge is the one of the verifier;
  -- the verifier is well-formed, and the user whom the session is handed to is active.
  pub exchange_sound :
      (fresh : Fresh) (code redirect_origin verifier : Text) (w w' : World) (x : MagicLinkExchange)
      → exchange u parse c cfg members fresh code redirect_origin verifier w ≡ (ok x, w')
      → ((r : MagicLinkCode) × Mem r w.auth.magic_codes
          × (r.code_hash ≡ c.hash_token code)
          × (is_unspent r.consumed_at ≡ true)
          × (fresh.now < r.expires_at)
          × (normalize_origin u parse redirect_origin ≡ some r.redirect_origin)
          × (c.pkce_challenge verifier ≡ r.code_challenge)
          × (valid_code_verifier verifier ≡ true)
          × (is_active (x.user).status ≡ true))
  unfolding exchange settle_code Repo.consume_code statement
  exchange_sound fresh code redirect_origin verifier w w' x h =
      let active = (exchange-Yields fresh code redirect_origin verifier).run w x (cc) in
      elim (Option-cases (find (exchanges (c.hash_token code) fresh.now) w.auth.magic_codes)) [
        | inl nothing ↦ absurd (ground arith)
        | inr (r, found) ↦
            let passed : (origin_agrees u parse c cfg members
                    (normalize_origin u parse redirect_origin) r
                  ≡ true)
                × (verifier_agrees u parse c cfg members verifier r ≡ true)
                × (valid_code_verifier verifier ≡ true) =
              ground arith in
            let row =
              find_holds (exchanges (c.hash_token code) fresh.now) w.auth.magic_codes found in
            (
              r,
              find_mem _ w.auth.magic_codes found,
              ground (arith, text_eq_iff r.code_hash (c.hash_token code)),
              ground arith,
              ground arith,
              origin_agrees_sound _ r passed.0,
              verifier_agrees_sound verifier r passed.1,
              passed.2,
              active,
            )
      ]
