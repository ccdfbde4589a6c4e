-- ===== src/MagicLink/Codes/SingleUse.antt =====
-- A one-time code is burned by the first exchange that reaches it, failed or not.
use authpad.Prelude.{
  ℕ, ◌≡◌, ◌≢◌, ◌≤◌, refl, Bool, true, false, not, ◌||◌, Option, some, none, List, [], ◌∷◌, Text,
  text_eq, text_eq_iff, find, count, all, All, arith, Bool-cases, Option-cases, inl, inr, any,
}
use authpad.Prelude.Strings.{Unicode}
use authpad.Prelude.Tables.{all-update, all-update_unique, all-keep, all_of_mem}
use authpad.Crypto.{Crypto, Fresh}
use authpad.Db.Rows.{Uuid, UserAuth, Membership, MagicLinkCode}
use authpad.Db.World.{World, Action, ok, statement, is_due, magic_code_invalid, or_fail}
use authpad.Db.Rules.{
  Law, Obeys, Obeys-statement, Obeys-select, obeys, >>=-ok, or_fail-ok, Obeys-pure, Obeys-needed,
}
use authpad.Session.Repo as Sessions
use authpad.User.Repo as Users
use authpad.Session.Service.{SessionConfig, issue_session_token}
use authpad.Redirect.{Url}
use authpad.MagicLink.Repo
use authpad.MagicLink.Repo.{exchanges, is_unspent}
use authpad.MagicLink.Codes.{
  MagicLinkExchange, exchange, settle_code, hand_over, hand_to, tenant_membership, create_code,
  is_malformed,
}
use authpad.MagicLink.Codes.Exchanged.{exchange_sound}

abbrev pub has_code_hash : Text → MagicLinkCode → Bool
has_code_hash h r = text_eq r.code_hash h

-- No row of the hash can be exchanged.
abbrev pub SpentCode : Text → World → Type 0
SpentCode h w =
    all (λ r. not (has_code_hash h r) || not (is_unspent r.consumed_at)) w.auth.magic_codes ≡ true

abbrev stays_spent : Text → Law
stays_spent h = record {
  Rel = λ w w'. SpentCode h w → SpentCode h w';
  here = λ w s. s;
  then_ = λ u v w k l s. l (k s);
  ticks = λ w s. s;
}

consume_code-Obeys : (h k : Text) (now : ℕ) → Obeys (stays_spent h) (Repo.consume_code k now)
unfolding Repo.consume_code
consume_code-Obeys h k now =
    Obeys-statement _
      (λ w s. all-update _ (exchanges k now) _ w.auth.magic_codes (λ r e. ground arith) s)

consume_code-burns :
    (h : Text) (now : ℕ) (w : World) (r : MagicLinkCode)
    → is_due w.faults ≡ false
    → count (has_code_hash h) w.auth.magic_codes ≤ 1
    → find (exchanges h now) w.auth.magic_codes ≡ some r
    → (Repo.consume_code h now w ≡ (ok (some r), (Repo.consume_code h now w).1))
      × SpentCode h (Repo.consume_code h now w).1
unfolding Repo.consume_code statement
consume_code-burns h now w r fine unique found = rw fine (
  rw found refl,
  all-update_unique (has_code_hash h) (exchanges h now) (λ t. not (is_unspent t.consumed_at)) _
      (λ t e. ground arith) w.auth.magic_codes (λ t. refl) unique found,
)

delete_expired_codes-Obeys :
    (h : Text) (now : ℕ) → Obeys (stays_spent h) (Repo.delete_expired_codes now)
unfolding Repo.delete_expired_codes
delete_expired_codes-Obeys h now = Obeys-statement _ (λ w s. all-keep _ _ w.auth.magic_codes s)

create_code-Obeys :
    (h : Text) (r : MagicLinkCode) → r.code_hash ≢ h → Obeys (stays_spent h) (Repo.create_code r)
unfolding Repo.create_code
create_code-Obeys h r other = Obeys-statement _ (λ w s.
    elim (Bool-cases (any (λ t. text_eq t.code_hash r.code_hash) w.auth.magic_codes)) [
      | inl clash ↦ rw clash s
      | inr free ↦ rw free (ground (arith, text_eq_iff r.code_hash h))
    ])

issue_token-Obeys :
    (h : Text) (id : Uuid) (k : Text) (now : ℕ)
    → Obeys (stays_spent h) (Sessions.issue_token id k now)
unfolding Sessions.issue_token
issue_token-Obeys h id k now = Obeys-statement _ (λ w s. s)

revoke_by_id-Obeys : (h : Text) (id : Uuid) → Obeys (stays_spent h) (Sessions.revoke_by_id id)
unfolding Sessions.revoke_by_id
revoke_by_id-Obeys h id = Obeys-statement _ (λ w s. s)

get_by_id-Obeys : (h : Text) (id : Uuid) → Obeys (stays_spent h) (Users.get_by_id id)
unfolding Users.get_by_id
get_by_id-Obeys h id = Obeys-select _

ruleset statements = (
  obeys, consume_code-Obeys, delete_expired_codes-Obeys, create_code-Obeys, issue_token-Obeys,
  revoke_by_id-Obeys, get_by_id-Obeys,
)

module _ (u : Unicode) (parse : Text → Option Url) (c : Crypto) (cfg : SessionConfig)
    (members : Option (Uuid → Uuid → Action (Option Membership)))
    (reads : (lookup : Uuid → Uuid → Action (Option Membership))
      → members ≡ some lookup
      → (org user : Uuid) (w : World) → (lookup org user w).1.auth ≡ w.auth) where
  issue_session_token-Obeys :
      (h : Text) (fresh : Fresh) (id : Uuid)
      → Obeys (stays_spent h) (issue_session_token c cfg fresh id)
  unfolding issue_session_token
  issue_session_token-Obeys h fresh id = search statements

  tenant_membership-Obeys :
      (h : Text) (org user : Uuid)
      → Obeys (stays_spent h) (tenant_membership u parse c cfg members org user)
  unfolding tenant_membership
  tenant_membership-Obeys h org user = elim (Option-cases members) [
    | inl unwired ↦ rw unwired (Obeys-pure none)
    | inr (lookup, wired) ↦ rw wired (record { run = λ w s. rw (reads lookup wired org user w) s })
  ]

  hand_to-Obeys :
      (h : Text) (r : MagicLinkCode) (token : Text) (live : Sessions.Issued) (o : Option UserAuth)
      → Obeys (stays_spent h) (hand_to u parse c cfg members r token live o)
  unfolding hand_to
  hand_to-Obeys h r token live none = search statements
  hand_to-Obeys h r token live (some user) = search (statements, tenant_membership-Obeys)

  settle_code-Obeys :
      (h : Text) (fresh : Fresh) (redirect_origin verifier : Text) (o : Option MagicLinkCode)
      → Obeys (stays_spent h) (settle_code u parse c cfg members fresh redirect_origin verifier o)
  unfolding settle_code hand_over
  settle_code-Obeys h fresh redirect_origin verifier o =
      search (statements, hand_to-Obeys, issue_session_token-Obeys) depth 12

  exchange-Obeys :
      (h : Text) (fresh : Fresh) (code redirect_origin verifier : Text)
      → Obeys (stays_spent h) (exchange u parse c cfg members fresh code redirect_origin verifier)
  unfolding exchange
  exchange-Obeys h fresh code redirect_origin verifier =
      search (statements, settle_code-Obeys) depth 12

  exchange-settles :
      (fresh : Fresh) (code redirect_origin verifier : Text) (w w1 : World) (r : MagicLinkCode)
      → is_malformed u parse c cfg members code verifier ≡ false
      → Repo.consume_code (c.hash_token code) fresh.now w ≡ (ok (some r), w1)
      → exchange u parse c cfg members fresh code redirect_origin verifier w
        ≡ settle_code u parse c cfg members fresh redirect_origin verifier (some r) w1
  unfolding exchange
  exchange-settles fresh code redirect_origin verifier w w1 r well consumed = rw well (
      >>=-ok (or_fail magic_code_invalid (Repo.consume_code (c.hash_token code) fresh.now))
        (settle_code u parse c cfg members fresh redirect_origin verifier) w
        (or_fail-ok magic_code_invalid (Repo.consume_code (c.hash_token code) fresh.now) w
          consumed))

  -- An exchange that reaches the one row of its code burns it, whatever else it finds.
  exchange-burns :
      (fresh : Fresh) (code redirect_origin verifier : Text) (w : World) (r : MagicLinkCode)
      → is_malformed u parse c cfg members code verifier ≡ false
      → is_due w.faults ≡ false
      → count (has_code_hash (c.hash_token code)) w.auth.magic_codes ≤ 1
      → find (exchanges (c.hash_token code) fresh.now) w.auth.magic_codes ≡ some r
      → SpentCode
          (c.hash_token code)
          (exchange u parse c cfg members fresh code redirect_origin verifier w).1
  exchange-burns fresh code redirect_origin verifier w r well fine unique found =
      let (consumed, spent) =
        consume_code-burns (c.hash_token code) fresh.now w r fine unique found in
      rw (exchange-settles fresh code redirect_origin verifier w _ r well consumed) (
        (settle_code-Obeys (c.hash_token code) fresh redirect_origin verifier (some r)).run _ spent)

  -- What happens to codes: a redeemed link makes one, a site exchanges one, old ones are deleted.
  -- A request makes its code from a random token.
  pub data CodeOp : Type 0 where
    make : Fresh → Uuid → Uuid → Text → Text → CodeOp
    redeem : Fresh → Text → Text → Text → CodeOp
    clean : ℕ → CodeOp

  pub perform : CodeOp → World → World
  perform (make fresh session org url challenge) w =
      (create_code u parse c cfg members fresh session org url challenge w).1
  perform (redeem fresh code redirect_origin verifier) w =
      (exchange u parse c cfg members fresh code redirect_origin verifier w).1
  perform (clean before) w = (Repo.delete_expired_codes before w).1

  pub perform_all : List CodeOp → World → World
  perform_all [] w = w
  perform_all (op ∷ ops) w = perform_all ops (perform op w)

  -- The operation does not draw the code again.
  abbrev pub Avoids : Text → CodeOp → Type 0
  Avoids code (make fresh _ _ _ _) =
      (t : Text) → fresh.token ≡ some t → c.hash_token t ≢ c.hash_token code
  Avoids code _ = Unit

  make-Obeys :
      (code : Text) (fresh : Fresh) (session org : Uuid) (url challenge : Text)
      → ((t : Text) → fresh.token ≡ some t → c.hash_token t ≢ c.hash_token code)
      → Obeys
          (stays_spent (c.hash_token code))
          (create_code u parse c cfg members fresh session org url challenge)
  unfolding create_code
  make-Obeys code fresh session org url challenge other =
      search (Obeys-needed, statements, other) depth 12

  perform_all-SpentCode :
      (code : Text) (ops : List CodeOp) (w : World)
      → All (Avoids code) ops
      → SpentCode (c.hash_token code) w
      → SpentCode (c.hash_token code) (perform_all ops w)
  unfolding perform_all perform
  perform_all-SpentCode code [] w a s = s
  perform_all-SpentCode code (make fresh session org url challenge ∷ ops) w (other, a) s =
      perform_all-SpentCode code ops _ a
        ((make-Obeys code fresh session org url challenge other).run w s)
  perform_all-SpentCode code (redeem fresh k origin verifier ∷ ops) w (_, a) s =
      perform_all-SpentCode code ops _ a
        ((exchange-Obeys (c.hash_token code) fresh k origin verifier).run w s)
  perform_all-SpentCode code (clean before ∷ ops) w (_, a) s =
      perform_all-SpentCode code ops _ a
        ((delete_expired_codes-Obeys (c.hash_token code) before).run w s)

  -- The first exchange that reaches the one live row of a code burns the code, whether it succeeds
  -- or not (the origin or the verifier may be wrong): after any further code operations, none of
  -- which draws the code again, every exchange of it fails.
  pub exchange-once :
      (fresh : Fresh) (code redirect_origin verifier : Text) (w : World) (r : MagicLinkCode)
      (ops : List CodeOp) (later : Fresh) (origin' verifier' : Text) (x : MagicLinkExchange)
      (w' : World)
      → is_malformed u parse c cfg members code verifier ≡ false
      → is_due w.faults ≡ false
      → count (has_code_hash (c.hash_token code)) w.auth.magic_codes ≤ 1
      → find (exchanges (c.hash_token code) fresh.now) w.auth.magic_codes ≡ some r
      → All (Avoids code) ops
      → exchange u parse c cfg members later code origin' verifier'
          (perform_all ops (exchange u parse c cfg members fresh code redirect_origin verifier w).1)
        ≢ (ok x, w')
  exchange-once fresh code redirect_origin verifier w r ops later origin' verifier' x w' well fine
        unique found a h =
      let w1 = (exchange u parse c cfg members fresh code redirect_origin verifier w).1 in
      let spent =
        perform_all-SpentCode code ops w1 a
          (exchange-burns fresh code redirect_origin verifier w r well fine unique found) in
      let (row, stored, same, unspent, _, _, _, _, _) =
        exchange_sound u parse c cfg members later code origin' verifier' (perform_all ops w1) w' x
          h in
      let gone = all_of_mem _ (perform_all ops w1).auth.magic_codes spent stored in
      ground (arith, text_eq_iff row.code_hash (c.hash_token code))
