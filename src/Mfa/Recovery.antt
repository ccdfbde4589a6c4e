-- ===== src/Mfa/Recovery.antt =====
-- Recovery codes: each works once, and a new set replaces the old one.
use authpad.Prelude.{
  ℕ, zero, suc, ◌≡◌, ◌≢◌, refl, sym, ap, Bool, true, false, not, ◌||◌, Option, none, some, List, [],
  ◌∷◌, Text, text_eq_iff, length, all, All, any, keep, ◌==◌, arith,
}
use authpad.Prelude.Tables.{all-update, all-update_written, all-keep, any_witness, all_of_mem}
use authpad.Crypto.{Crypto}
use authpad.Db.Rows.{Uuid, RecoveryCode}
use authpad.Db.World.{
  World, Result, Error, ok, err, Action, attempt, statement, is_due, entropy_failure, needs, ◌>>=◌,
  ◌>>◌, pure,
}
use authpad.Db.Rules.{
  Law, Obeys, Obeys-statement, Obeys-select, Obeys-needed, Obeys-bind, Obeys-pure, obeys,
}
use authpad.Db.Success.{
  Ensures, Ensures-attempt, Ensures-modify, Ensures-stated, Ensures-pure, Ensures-bind,
  Ensures-needs,
}
use authpad.Mfa.Repo
use authpad.Mfa.Repo.{is_code_of, is_usable}
use authpad.Mfa.Service.{
  verify_totp, recover, verify_code, verify_login_code, or_recover, use_recovery_code, make_codes,
  generate_recovery_codes, code_count,
}

-- Every row of the user's code has been used.
abbrev pub UsedUp : Uuid → Text → World → Type 0
UsedUp user h w = all (λ r. not (is_code_of user h r) || r.used) w.auth.recovery_codes ≡ true

abbrev stays_used : Uuid → Text → Law
stays_used user h = record {
  Rel = λ w w'. UsedUp user h w → UsedUp user h w';
  here = λ w s. s;
  then_ = λ u v w k l s. l (k s);
  ticks = λ w s. s;
}

module _ (user : Uuid) (h : Text) where
  use_recovery_code-Obeys :
      (user' : Uuid) (h' : Text) → Obeys (stays_used user h) (Repo.use_recovery_code user' h')
  unfolding Repo.use_recovery_code
  use_recovery_code-Obeys user' h' =
      Obeys-statement _
        (λ w s. all-update _ (is_usable user' h') _ w.auth.recovery_codes (λ r e. ground arith) s)

  create_recovery_code-Obeys :
      (user' : Uuid) (h' : Text)
      → h' ≢ h
      → Obeys (stays_used user h) (Repo.create_recovery_code user' h')
  unfolding Repo.create_recovery_code
  create_recovery_code-Obeys user' h' other =
      Obeys-statement _ (λ w s. ground (arith, text_eq_iff h' h))

  delete_recovery_codes-Obeys :
      (user' : Uuid) → Obeys (stays_used user h) (Repo.delete_recovery_codes user')
  unfolding Repo.delete_recovery_codes
  delete_recovery_codes-Obeys user' =
      Obeys-statement _ (λ w s. all-keep _ _ w.auth.recovery_codes s)

  get_factor-Obeys : (id : Uuid) → Obeys (stays_used user h) (Repo.get_factor id)
  unfolding Repo.get_factor
  get_factor-Obeys id = Obeys-select _

  list_factors-Obeys : (user' : Uuid) → Obeys (stays_used user h) (Repo.list_factors user')
  unfolding Repo.list_factors
  list_factors-Obeys user' = Obeys-select _

  mark_verified-Obeys : (id : Uuid) → Obeys (stays_used user h) (Repo.mark_verified id)
  unfolding Repo.mark_verified
  mark_verified-Obeys id = Obeys-statement _ (λ w s. s)

ruleset statements = (
  obeys, use_recovery_code-Obeys, create_recovery_code-Obeys, delete_recovery_codes-Obeys,
  get_factor-Obeys, list_factors-Obeys, mark_verified-Obeys,
)

-- What happens to recovery codes.
pub data MfaOp : Type 0 where
  spend : Uuid → Text → MfaOp
  generate : (ℕ → Option Text) → Uuid → ℕ → MfaOp
  login : ℕ → Uuid → Option Uuid → Text → MfaOp

module _ (c : Crypto) where
  -- The loop after a code is drawn.
  make_next : (ℕ → Option Text) → Uuid → ℕ → ℕ → Text → Action (List Text)
  make_next draw user i n code =
      Repo.create_recovery_code user (c.hash_token code)
      >> (make_codes c draw user (suc i) n >>= λ rest. pure (code ∷ rest))

  verify_totp-Obeys :
      (user : Uuid) (h : Text) (now : ℕ) (user' id : Uuid) (code : Text)
      → Obeys (stays_used user h) (verify_totp c now user' id code)
  unfolding verify_totp
  verify_totp-Obeys user h now user' id code = search statements depth 12

  recover-Obeys :
      (user : Uuid) (h : Text) (user' : Uuid) (code : Text)
      → Obeys (stays_used user h) (recover c user' code)
  unfolding recover use_recovery_code
  recover-Obeys user h user' code = search statements

  or_recover-Obeys :
      (user : Uuid) (h : Text) (user' : Uuid) (code : Text) (r : Result (Unit {0}))
      → Obeys (stays_used user h) (or_recover c user' code r)
  unfolding or_recover
  or_recover-Obeys user h user' code (ok _) = search statements
  or_recover-Obeys user h user' code (err _) = search (statements, recover-Obeys)

  verify_code-Obeys :
      (user : Uuid) (h : Text) (now : ℕ) (user' : Uuid) (o : Option Uuid) (code : Text)
      → Obeys (stays_used user h) (verify_code c now user' o code)
  unfolding verify_code
  verify_code-Obeys user h now user' none code = search (statements, recover-Obeys)
  verify_code-Obeys user h now user' (some id) code =
      search (statements, verify_totp-Obeys, or_recover-Obeys)

  login-Obeys :
      (user : Uuid) (h : Text) (now : ℕ) (user' : Uuid) (factor : Option Uuid) (code : Text)
      → Obeys (stays_used user h) (verify_login_code c now user' factor code)
  unfolding verify_login_code
  login-Obeys user h now user' factor code = search (statements, verify_code-Obeys)

  make_next-Obeys :
      (user : Uuid) (h : Text) (draw : ℕ → Option Text) (user' : Uuid) (i n : ℕ) (code : Text)
      → c.hash_token code ≢ h
      → Obeys (stays_used user h) (make_codes c draw user' (suc i) n)
      → Obeys (stays_used user h) (make_next draw user' i n code)
  unfolding make_next
  make_next-Obeys user h draw user' i n code other rest =
      Obeys-bind (create_recovery_code-Obeys user h user' (c.hash_token code) other)
        (λ _. Obeys-bind rest (λ cs. Obeys-pure (code ∷ cs)))

  make_codes-Obeys :
      (user : Uuid) (h : Text) (draw : ℕ → Option Text) (user' : Uuid)
      → ((i : ℕ) (t : Text) → draw i ≡ some t → c.hash_token t ≢ h)
      → (i n : ℕ) → Obeys (stays_used user h) (make_codes c draw user' i n)
  unfolding make_codes make_next
  make_codes-Obeys user h draw user' other i zero = search statements
  make_codes-Obeys user h draw user' other i (suc n) =
      let rest = make_codes-Obeys user h draw user' other (suc i) n in
      Obeys-needed (draw i) entropy_failure (make_next draw user' i n)
        (λ code drawn. make_next-Obeys user h draw user' i n code (other i code drawn) rest)

  generate-Obeys :
      (user : Uuid) (h : Text) (draw : ℕ → Option Text) (user' : Uuid) (n : ℕ)
      → ((i : ℕ) (t : Text) → draw i ≡ some t → c.hash_token t ≢ h)
      → Obeys (stays_used user h) (generate_recovery_codes c draw user' n)
  unfolding generate_recovery_codes
  generate-Obeys user h draw user' n other = search (statements, make_codes-Obeys, other) depth 12

  pub perform : MfaOp → World → World
  perform (spend user code) w = (use_recovery_code c user code w).1
  perform (generate draw user n) w = (generate_recovery_codes c draw user n w).1
  perform (login now user factor code) w = (verify_login_code c now user factor code w).1

  pub perform_all : List MfaOp → World → World
  perform_all [] w = w
  perform_all (op ∷ ops) w = perform_all ops (perform op w)

  -- The operation does not draw a code of the hash.
  abbrev pub Avoids : Text → MfaOp → Type 0
  Avoids h (generate draw _ _) = (i : ℕ) (t : Text) → draw i ≡ some t → c.hash_token t ≢ h
  Avoids h _ = Unit

  perform-UsedUp :
      (user : Uuid) (h : Text) (op : MfaOp) (w : World)
      → Avoids h op
      → UsedUp user h w
      → UsedUp user h (perform op w)
  unfolding perform use_recovery_code
  perform-UsedUp user h (spend user' code) w _ =
      (use_recovery_code-Obeys user h user' (c.hash_token code)).run w
  perform-UsedUp user h (generate draw user' n) w other =
      (generate-Obeys user h draw user' n other).run w
  perform-UsedUp user h (login now user' factor code) w _ =
      (login-Obeys user h now user' factor code).run w

  perform_all-UsedUp :
      (user : Uuid) (h : Text) (ops : List MfaOp) (w : World)
      → All (Avoids h) ops
      → UsedUp user h w
      → UsedUp user h (perform_all ops w)
  unfolding perform_all
  perform_all-UsedUp user h [] w a s = s
  perform_all-UsedUp user h (op ∷ ops) w (other, a) s =
      perform_all-UsedUp user h ops (perform op w) a (perform-UsedUp user h op w other s)

  use_recovery_code-UsedUp :
      (user : Uuid) (code : Text) (w : World)
      → Ensures w
          (λ used w'.
            (used ≡ any (is_usable user (c.hash_token code)) w.auth.recovery_codes)
            × UsedUp user (c.hash_token code) w')
          (use_recovery_code c user code)
  unfolding use_recovery_code Repo.use_recovery_code
  use_recovery_code-UsedUp user code w = Ensures-stated _ _ (
    refl,
    all-update_written _ (is_usable user (c.hash_token code)) _ w.auth.recovery_codes
        (λ r e. ground arith) (λ r e. ground arith),
  )

  -- A recovery code works once: after it has been presented, whatever the answer, no attempt to
  -- spend it succeeds after any spending, logins and generations (failed statements included) that
  -- draw no code of its hash.
  pub use_recovery_code-once :
      (user : Uuid) (code : Text) (w w1 w2 : World) (used : Bool) (ops : List MfaOp)
      → use_recovery_code c user code w ≡ (ok used, w1)
      → All (Avoids (c.hash_token code)) ops
      → use_recovery_code c user code (perform_all ops w1) ≢ (ok true, w2)
  use_recovery_code-once user code w w1 w2 used ops first a again =
      let (_, spent) = (use_recovery_code-UsedUp user code w).run used w1 first in
      let still = perform_all-UsedUp user (c.hash_token code) ops w1 a spent in
      let (left, _) = (use_recovery_code-UsedUp user code (perform_all ops w1)).run true w2 again in
      let (r, stored, usable) =
        any_witness (is_usable user (c.hash_token code)) (perform_all ops w1).auth.recovery_codes
          (sym left) in
      let gone = all_of_mem _ (perform_all ops w1).auth.recovery_codes still stored in ground arith

-- The codes of the user.
abbrev pub codes_of : Uuid → World → List RecoveryCode
codes_of user w = keep (λ r. r.user_id == user) w.auth.recovery_codes

module _ (c : Crypto) where
  -- The rows of codes, the last one first, before other rows.
  unfoldable pub fresh_rows : Uuid → List Text → List RecoveryCode → List RecoveryCode
  fresh_rows user [] rs = rs
  fresh_rows user (code ∷ cs) rs =
      fresh_rows user cs
        (record { user_id = user; code_hash = c.hash_token code; used = false } ∷ rs)

  create_recovery_code-Ensures :
      {Q : Unit {0} → World → Type 0} (user : Uuid) (h : Text) (w : World)
      → ((w' : World)
          → codes_of user w'
            ≡ record { user_id = user; code_hash = h; used = false } ∷ codes_of user w
          → Q tt w')
      → Ensures w Q (Repo.create_recovery_code user h)
  unfolding Repo.create_recovery_code
  create_recovery_code-Ensures user h w k = Ensures-modify _ (k _ (ground arith))

  make_codes-Ensures :
      {Q : List Text → World → Type 0} (draw : ℕ → Option Text) (user : Uuid) (i n : ℕ) (w : World)
      → ((cs : List Text) (w' : World)
          → length cs ≡ n
          → codes_of user w' ≡ fresh_rows user cs (codes_of user w)
          → Q cs w')
      → Ensures w Q (make_codes c draw user i n)
  unfolding make_codes fresh_rows make_next
  make_codes-Ensures draw user i zero w k = Ensures-pure [] (k [] w refl refl)
  make_codes-Ensures {Q} draw user i (suc n) w k =
      Ensures-bind (needs (draw i) entropy_failure) (make_next c draw user i n) (
        Ensures-needs (draw i) entropy_failure (λ code drawn.
          Ensures-bind (Repo.create_recovery_code user (c.hash_token code))
            (λ _. make_codes c draw user (suc i) n >>= λ cs. pure (code ∷ cs))
            (create_recovery_code-Ensures user (c.hash_token code) w (λ w1 stored.
              Ensures-bind (make_codes c draw user (suc i) n) (λ cs. pure (code ∷ cs))
                (make_codes-Ensures draw user (suc i) n w1 (λ cs w' made kept.
                  Ensures-pure (code ∷ cs)
                    (k (code ∷ cs) w' (ap suc made) (rw stored at kept))))))))

  keep-not :
      (user : Uuid) (rs : List RecoveryCode)
      → keep (λ r. r.user_id == user) (keep (λ r. not (r.user_id == user)) rs) ≡ []
  keep-not user [] = refl
  keep-not user (r ∷ rs) = ground (arith, keep-not user rs)

  delete_recovery_codes-works :
      (user : Uuid) (e : Error) (w w' : World)
      → is_due w.faults ≡ false
      → Repo.delete_recovery_codes user w ≢ (err e, w')
  unfolding Repo.delete_recovery_codes statement
  delete_recovery_codes-works user e w w' fine failed = cc (rw fine at failed)

  delete_recovery_codes-Ensures :
      {Q : Result (Unit {0}) → World → Type 0} (user : Uuid) (w : World)
      → is_due w.faults ≡ false
      → ((r : Result (Unit {0})) (w' : World) → codes_of user w' ≡ [] → Q r w')
      → Ensures w Q (attempt (Repo.delete_recovery_codes user))
  unfolding Repo.delete_recovery_codes
  delete_recovery_codes-Ensures user w fine k =
      Ensures-attempt (Ensures-modify _ (k (ok tt) _ (keep-not user w.auth.recovery_codes)))
        (λ e w' failed. absurd (delete_recovery_codes-works user e w w' fine failed))

  -- GenerateRecoveryCodes returns the number of codes that is asked for, 8 where none is, and leaves
  -- the user with exactly these codes, unused, where the old codes could be deleted.
  pub generate_recovery_codes-replaces :
      (draw : ℕ → Option Text) (user : Uuid) (n : ℕ) (w w' : World) (cs : List Text)
      → is_due w.faults ≡ false
      → generate_recovery_codes c draw user n w ≡ (ok cs, w')
      → (length cs ≡ code_count n) × (codes_of user w' ≡ fresh_rows user cs [])
  unfolding generate_recovery_codes
  generate_recovery_codes-replaces draw user n w w' cs fine =
      let replaced : Ensures w
          (λ cs w'. (length cs ≡ code_count n) × (codes_of user w' ≡ fresh_rows user cs []))
          (generate_recovery_codes c draw user n) =
        Ensures-bind (attempt (Repo.delete_recovery_codes user))
          (λ _. make_codes c draw user 0 (code_count n))
          (delete_recovery_codes-Ensures user w fine (λ _ w1 none_left.
            make_codes-Ensures draw user 0 (code_count n) w1
              (λ cs w' made kept. (made, rw none_left at kept)))) in
      replaced.run cs w'
