-- ===== src/MagicLink/Service/SingleUse.antt =====
-- A link signs in at most once.
use authpad.Prelude.{
  ℕ, ◌≡◌, ◌≢◌, ◌≤◌, Bool, Option, List, [], ◌∷◌, Text, text_eq, text_eq_iff, count, All, arith,
  Bool-cases, inl, inr, any,
}
use authpad.Prelude.Strings.{trim_space}
use authpad.Prelude.Tables.{all-update, all_of_mem, all-keep}
use authpad.Crypto.{Crypto, Fresh}
use authpad.Db.Rows.{Uuid, Organization, MagicLinkToken}
use authpad.Db.World.{World, Action, ok}
use authpad.Db.Rules.{Law, Obeys, Obeys-statement, obeys}
use authpad.MagicLink.Repo
use authpad.MagicLink.Repo.{redeems, is_unspent, fits}
use authpad.MagicLink.Accounts.{MagicLinkAccounts}
use authpad.MagicLink.Service.{MagicLinkConfig, MagicLinkVerified, verify, redeem}
use authpad.MagicLink.Service.Signed.{
  same_links, has_hash, Spent, Apart, org_filter-Obeys, sign_in-Obeys, verify_sound, verify-Spent,
}

module _ (c : Crypto) (cfg : MagicLinkConfig) (redirect_ok : Text → Bool)
    (resolve_tenant : Text → Action (Option Organization)) (show_id : Uuid → Text)
    (accounts : MagicLinkAccounts) where
  module _ (apart : Apart c cfg redirect_ok resolve_tenant show_id accounts) where
    stays_spent : Text → Law
    stays_spent h = record {
      Rel = λ w w'. Spent h w → Spent h w';
      here = λ w s. s;
      then_ = λ u v w k l s. l (k s);
      ticks = λ w s. s;
    }

    spent_of_same :
        {A : Type 0} (h : Text) {m : Action A} → Obeys same_links m → Obeys (stays_spent h) m
    unfolding stays_spent
    spent_of_same h o = record { run = λ w s. rw (o.run w) s }

    consume-Obeys :
        (h k : Text) (org : Option Uuid) (now : ℕ) → Obeys (stays_spent h) (Repo.consume k org now)
    unfolding Repo.consume stays_spent
    consume-Obeys h k org now =
        Obeys-statement _
          (λ w s. all-update _ (redeems k org now) _ w.auth.magic_tokens (λ t e. ground arith) s)

    create-Obeys :
        (h : Text) (t : MagicLinkToken) → t.token_hash ≢ h → Obeys (stays_spent h) (Repo.create t)
    unfolding Repo.create stays_spent
    create-Obeys h t other = Obeys-statement _ (λ w s.
        elim (Bool-cases (any (λ r. text_eq r.token_hash t.token_hash) w.auth.magic_tokens)) [
          | inl clash ↦ rw clash s
          | inr free ↦ rw free (ground (arith, text_eq_iff t.token_hash h))
        ])

    delete_expired-Obeys : (h : Text) (now : ℕ) → Obeys (stays_spent h) (Repo.delete_expired now)
    unfolding Repo.delete_expired stays_spent
    delete_expired-Obeys h now = Obeys-statement _ (λ w s. all-keep _ _ w.auth.magic_tokens s)

    verify-Obeys :
        (h : Text) (fresh : Fresh) (raw tenant : Text)
        → Obeys
            (stays_spent h)
            (verify c cfg redirect_ok resolve_tenant show_id accounts fresh raw tenant)
    unfolding verify redeem
    verify-Obeys h fresh raw tenant =
        search
          (
            obeys,
            spent_of_same,
            (org_filter-Obeys c cfg redirect_ok resolve_tenant show_id accounts apart),
            (sign_in-Obeys c cfg redirect_ok resolve_tenant show_id accounts apart),
            consume-Obeys,
          )
          depth 14

    -- What happens to links: a request issues one, somebody redeems one, old ones are deleted.
    pub data LinkOp : Type 0 where
      issue : MagicLinkToken → LinkOp
      open_link : Fresh → Text → Text → LinkOp
      clean : ℕ → LinkOp

    pub perform : LinkOp → World → World
    perform (issue t) w = (Repo.create t w).1
    perform (open_link fresh raw tenant) w =
        (verify c cfg redirect_ok resolve_tenant show_id accounts fresh raw tenant w).1
    perform (clean before) w = (Repo.delete_expired before w).1

    pub perform_all : List LinkOp → World → World
    perform_all [] w = w
    perform_all (op ∷ ops) w = perform_all ops (perform op w)

    -- The operation issues no link of the hash.
    abbrev pub Avoids : Text → LinkOp → Type 0
    Avoids h (issue t) = t.token_hash ≢ h
    Avoids h _ = Unit

    perform_all-Spent :
        (h : Text) (ops : List LinkOp) (w : World)
        → All (Avoids h) ops
        → Spent h w
        → Spent h (perform_all ops w)
    unfolding perform_all perform stays_spent
    perform_all-Spent h [] w a s = s
    perform_all-Spent h (issue t ∷ ops) w (other, a) s =
        perform_all-Spent h ops _ a ((create-Obeys h t other).run w s)
    perform_all-Spent h (open_link fresh raw tenant ∷ ops) w (_, a) s =
        perform_all-Spent h ops _ a ((verify-Obeys h fresh raw tenant).run w s)
    perform_all-Spent h (clean before ∷ ops) w (_, a) s =
        perform_all-Spent h ops _ a ((delete_expired-Obeys h before).run w s)

    -- A link that has signed somebody in signs nobody in again: after any further link operations,
    -- failed statements included and none of which issues a link of the same hash, every redemption
    -- of its token fails. The table has at most one row of the hash to begin with.
    pub verify-once :
        (fresh : Fresh) (raw tenant : Text) (w w1 : World) (v : MagicLinkVerified)
        (ops : List LinkOp) (later : Fresh) (tenant' : Text) (v' : MagicLinkVerified) (w' : World)
        → verify c cfg redirect_ok resolve_tenant show_id accounts fresh raw tenant w ≡ (ok v, w1)
        → count (has_hash (c.hash_token (trim_space raw))) w.auth.magic_tokens ≤ 1
        → All (Avoids (c.hash_token (trim_space raw))) ops
        → verify c cfg redirect_ok resolve_tenant show_id accounts later raw tenant'
            (perform_all ops w1)
          ≢ (ok v', w')
    verify-once fresh raw tenant w w1 v ops later tenant' v' w' first unique avoid h =
        let spent = perform_all-Spent _ ops w1 avoid (
          verify-Spent c cfg redirect_ok resolve_tenant show_id accounts apart fresh raw tenant w w1
            v first unique) in
        let (t, stored, same, unspent, _, _) =
          verify_sound c cfg redirect_ok resolve_tenant show_id accounts apart later raw tenant'
            (perform_all ops w1) w' v' h in
        let gone = all_of_mem _ (perform_all ops w1).auth.magic_tokens spent stored in
        ground (arith, text_eq_iff t.token_hash (c.hash_token (trim_space raw)))
