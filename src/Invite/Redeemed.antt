-- ===== src/Invite/Redeemed.antt =====
-- What a redeemed invitation was, and that it is marked.
use mathlib.Core.List.{Mem}
use authpad.Prelude.{
  ℕ, ◌≡◌, ◌≤◌, refl, sym, ap, Bool, true, false, not, ◌&&◌, Option, none, some, List, [], ◌∷◌, Text,
  text_eq, text_eq_iff, all, any, find, update, arith, ◌==◌, if◌then◌else◌,
}
use authpad.Prelude.Strings.{Unicode, trim_space}
use authpad.Prelude.Dict.{Dict}
use authpad.Prelude.Tables.{find_holds, find_mem}
use authpad.Crypto.{Crypto, Fresh}
use authpad.Db.Rows.{Uuid, PlatformInvitation}
use authpad.Db.World.{World, Result, Error, ok, err, Action, tick, invitation_not_pending}
use authpad.Db.Success.{
  Ensures, Ensures-any, Ensures-bind, Ensures-pure, Ensures-raise, Ensures-statement,
  Ensures-weaken, ensures,
}
use authpad.Session.Service.{SessionConfig, StaffFunc}
use authpad.Password.Service.{PasswordConfig}
use authpad.Profile.{Value, ProfileField}
use authpad.Org.Members.{RoleDefinition}
use authpad.User.Account.{SignupHooks, or_undo}
use authpad.User.Signup.{CreateAccountRequest, CreateAccountResult, create_account}
use authpad.Invite.Repo
use authpad.Invite.Repo.{is_pending}
use authpad.Invite.Service.{
  refusal, unless_refused, validate, as_used, mark_used, give_role, request_of, open_account,
  redeem,
}

abbrev pub holds : Option ℕ → ℕ → Bool
holds none n = false
holds (some m) n = m == n

-- A row of the id records the user and the instant, and no row of the id is pending.
abbrev pub Marked : Uuid → Uuid → ℕ → World → Type 0
Marked id user now w =
    (any (λ i. i.id == id && holds i.redeemed_user_id user && holds i.redeemed_at now)
        w.idp.platform_invitations
      ≡ true)
    × (all (λ i. not (is_pending id i)) w.idp.platform_invitations ≡ true)

-- An invitation of the token that is neither revoked nor redeemed nor expired.
abbrev pub Open : Text → ℕ → PlatformInvitation → World → Type 0
Open h now i w =
    Mem i w.idp.platform_invitations
    × (i.token_hash ≡ h)
    × (i.revoked_at ≡ none)
    × (i.redeemed_at ≡ none)
    × (now ≤ i.expires_at)

refusal-eq-none :
    (i : PlatformInvitation) (now : ℕ)
    → refusal i now ≡ none
    → (i.revoked_at ≡ none) × (i.redeemed_at ≡ none) × (now ≤ i.expires_at)
unfolding refusal
refusal-eq-none i now h = ground arith

unless_refused-Ensures :
    {w : World} {Q : PlatformInvitation → World → Type 0} (o : Option Error)
    (i : PlatformInvitation)
    → (o ≡ none → Q i w)
    → Ensures w Q (unless_refused o i)
unless_refused-Ensures none i q = Ensures-pure i (q refl)
unless_refused-Ensures (some e) i q = Ensures-raise e

validate-Ensures :
    {w : World} {Q : PlatformInvitation → World → Type 0} (u : Unicode) (c : Crypto) (raw : Text)
    (now : ℕ)
    → ((i : PlatformInvitation) → Open (c.hash_token (trim_space raw)) now i w → Q i (tick w))
    → Ensures w Q (validate u c raw now)
unfolding validate Repo.get_by_token_hash
validate-Ensures {w} {Q} u c raw now q =
    let opened : (i : PlatformInvitation)
        → find (λ r. text_eq r.token_hash (c.hash_token (trim_space raw)))
            w.idp.platform_invitations
          ≡ some i
        → refusal i now ≡ none
        → Q i (tick w) =
      λ i found free.
        let held = find_holds _ w.idp.platform_invitations found in
        let (unrevoked, unredeemed, unexpired) = refusal-eq-none i now free in
        q i (
          find_mem _ w.idp.platform_invitations found,
          (text_eq_iff i.token_hash (c.hash_token (trim_space raw))).0 held,
          unrevoked,
          unredeemed,
          unexpired,
        ) in
    search (ensures, unless_refused-Ensures, opened) depth 12

-- A step that can be undone has succeeded where the whole has.
or_undo-Ensures :
    {A : Type 0} {w : World} {Q : A → World → Type 0} (undo : Action (Unit {0})) (m : Action A)
    → Ensures w Q m
    → Ensures w Q (or_undo undo m)
unfolding or_undo
or_undo-Ensures {A} {w} {Q} undo m h = record { run = λ a w' r. go (m w) a w' (h.run a w') r }
  where
    go :
        (p : Result A × World) (a : A) (w' : World)
        → (p ≡ (ok a, w') → Q a w')
        → or_undo undo (λ _. p) w ≡ (ok a, w')
        → Q a w'
    go (ok b, w2) a w' k r = k r
    go (err e, w2) a w' k r = cc

all-unpending :
    (id user : Uuid) (now : ℕ) (rows : List PlatformInvitation)
    → all
        (λ i. not (is_pending id i))
        (update
          (is_pending id)
          (λ i. record i { redeemed_at = some now; redeemed_user_id = some user })
          rows)
      ≡ true
unfolding is_pending
all-unpending id user now [] = refl
all-unpending id user now (i ∷ rows) = ground (arith, all-unpending id user now rows)

any-recorded :
    (id user : Uuid) (now : ℕ) (rows : List PlatformInvitation)
    → any (is_pending id) rows ≡ true
    → any
        (λ i. i.id == id && holds i.redeemed_user_id user && holds i.redeemed_at now)
        (update
          (is_pending id)
          (λ i. record i { redeemed_at = some now; redeemed_user_id = some user })
          rows)
      ≡ true
unfolding is_pending
any-recorded id user now [] h = h
any-recorded id user now (i ∷ rows) h = ground (arith, any-recorded id user now rows)

-- The statement on the row.
mark_redeemed-Ensures :
    {w : World} (id user : Uuid) (now : ℕ)
    → Ensures w (λ _ w'. Marked id user now w') (Repo.mark_redeemed id user now)
unfolding Repo.mark_redeemed
mark_redeemed-Ensures {w} id user now = Ensures-statement _ (λ a w' e.
    let there : any (is_pending id) w.idp.platform_invitations ≡ true =
      go (any (is_pending id) w.idp.platform_invitations) a (ap (λ p. p.0) e) in
    rw (sym (ap (λ p. p.1) e)) (any-recorded id user now _ there, all-unpending id user now _))
  where
    go : (b : Bool) (a : Unit) → (if b then ok tt else err invitation_not_pending) ≡ ok a → b ≡ true
    go true a e = refl
    go false a e = cc

-- The result of `mark_used`, of that of the statement.
abbrev relabelled : Result (Unit {0}) × World → Result (Unit {0}) × World
relabelled (r, w') = elim r [ ok a ↦ (ok a, w') | err e ↦ (err (as_used e), w') ]

mark_used-Ensures :
    {w : World} (id user : Uuid) (now : ℕ)
    → Ensures w (λ _ w'. Marked id user now w') (mark_used id user now)
unfolding mark_used
mark_used-Ensures {w} id user now = record {
  run = λ a w' e.
      go (Repo.mark_redeemed id user now w) a w' ((mark_redeemed-Ensures id user now).run a w') e;
}
  where
    go :
        (p : Result (Unit {0}) × World) (a : Unit) (w' : World)
        → (p ≡ (ok a, w') → Marked id user now w')
        → relabelled p ≡ (ok a, w')
        → Marked id user now w'
    go (ok b, w2) a w' k r = k r
    go (err e, w2) a w' k r = cc

module _ (letter_or_number : ℕ → Bool) (is_uri is_address : Text → Bool) (u : Unicode) (c : Crypto)
    (fields : List ProfileField) (passwords : PasswordConfig) (sessions : SessionConfig)
    (staff : Option StaffFunc) (hooks : SignupHooks) (roles : List RoleDefinition)
    (ids : Text → Uuid) (on_role_assigned : Option (Uuid → Text → Action (Unit {0})))
    (unmarshal : Text → Dict Value) where
  create_account-Ensures :
      {w : World} {Q : CreateAccountResult → World → Type 0} (fresh : Fresh)
      (req : CreateAccountRequest) (ip_address user_agent : Text)
      → ((r : CreateAccountResult) (w' : World) → Q r w')
      → Ensures w Q (
          create_account letter_or_number is_uri is_address u c fields passwords sessions staff
            hooks fresh req ip_address user_agent)
  create_account-Ensures fresh req ip_address user_agent q = Ensures-any _ q

  give_role-Ensures :
      {w : World} {Q : Unit {0} → World → Type 0} (user : Uuid) (role : Text)
      → ((w' : World) → Q tt w')
      → Ensures w Q (
          give_role letter_or_number is_uri is_address u c fields passwords sessions staff hooks
            roles ids on_role_assigned unmarshal user role)
  give_role-Ensures user role q = Ensures-any _ (λ _ w'. q w')

  mark-Ensures :
      {w : World} {Q : Unit {0} → World → Type 0} (undo : Action (Unit {0})) (id user : Uuid)
      (now : ℕ)
      → ((w' : World) → Marked id user now w' → Q tt w')
      → Ensures w Q (or_undo undo (mark_used id user now))
  mark-Ensures undo id user now q =
      or_undo-Ensures undo _
        (Ensures-weaken _ _ (λ _ w' marked. q w' marked) (mark_used-Ensures id user now))

  open_account-Ensures :
      {w : World} (fresh : Fresh) (i : PlatformInvitation) (req : CreateAccountRequest)
      (ip_address user_agent : Text)
      → Ensures w
          (λ r w'. Marked i.id r.user_id fresh.now w')
          (open_account letter_or_number is_uri is_address u c fields passwords sessions staff hooks
            roles ids on_role_assigned unmarshal fresh i req ip_address user_agent)
  unfolding open_account
  open_account-Ensures fresh i req ip_address user_agent =
      search (Ensures-bind, Ensures-pure, create_account-Ensures, give_role-Ensures, mark-Ensures)
        depth 12

  -- Redeem succeeds only for a stored invitation of the token that is neither revoked nor redeemed
  -- nor expired; afterwards a row of its id records the new user and the instant, and no row of its
  -- id is pending.
  pub redeem_sound :
      (fresh : Fresh) (raw name password : Text) (extra : Dict Value) (ip_address user_agent : Text)
      (w w' : World) (r : CreateAccountResult)
      → redeem letter_or_number is_uri is_address u c fields passwords sessions staff hooks roles
          ids on_role_assigned unmarshal fresh raw name password extra ip_address user_agent w
        ≡ (ok r, w')
      → ((i : PlatformInvitation) × Open (c.hash_token (trim_space raw)) fresh.now i w
          × Marked i.id r.user_id fresh.now w')
  unfolding redeem
  redeem_sound fresh raw name password extra ip_address user_agent w w' r =
      let sound : Ensures w
          (λ s w2.
            (i : PlatformInvitation) × Open (c.hash_token (trim_space raw)) fresh.now i w
            × Marked i.id s.user_id fresh.now w2)
          (redeem letter_or_number is_uri is_address u c fields passwords sessions staff hooks roles
            ids on_role_assigned unmarshal fresh raw name password extra ip_address user_agent) =
        Ensures-bind _ _ (
          validate-Ensures u c raw fresh.now (λ i opened.
            Ensures-weaken _ _ (λ s w2 marked. (i, opened, marked))
              (open_account-Ensures fresh i
                (request_of letter_or_number is_uri is_address u c fields passwords sessions staff
                  hooks roles ids on_role_assigned unmarshal i name password extra)
                ip_address user_agent))) in
      sound.run r w'
