-- ===== src/Db/Success.antt =====
-- A program logic for calls that succeed: `Ensures w Q m` says that a run of `m` from the world `w`
-- that returns a value leaves the value and the world after it with `Q`. Each rule takes the first
-- call of a chain off; a call that fails has nothing to show.
use authpad.Prelude.{◌≡◌, refl, sym, Bool, true, false, Option, none, some, if◌then◌else◌}
use authpad.Db.Rules.{Law, Obeys, Obeys-run}
use authpad.Db.World.{
  World, Result, Error, Action, ok, err, ◌>>=◌, select, modify, insert_unless, statement, tick,
  or_fail, needs, fail_if, is_due, db_failure, unique_violation, raise, pure, attempt,
}

pub record Ensures {A : Type 0} (w : World) (Q : A → World → Type 0) (m : Action A) : Type 0 where
  pub run : (a : A) (w' : World) → m w ≡ (ok a, w') → Q a w'

module _ {A : Type 0} {w : World} {Q : A → World → Type 0} where
  pub Ensures-pure : (a : A) → Q a w → Ensures w Q (pure a)
  Ensures-pure a q = record { run = λ b w' h. go b w' (cc) (cc) }
    where
      go : (b : A) (w' : World) → a ≡ b → w ≡ w' → Q b w'
      go b w' same still = rw (sym same, sym still) q

  pub Ensures-raise : (e : Error) → Ensures w Q (raise e)
  Ensures-raise e = record { run = λ a w' h. cc }

  pub Ensures-if :
      (b : Bool) {m n : Action A}
      → (b ≡ true → Ensures w Q m)
      → (b ≡ false → Ensures w Q n)
      → Ensures w Q (if b then m else n)
  Ensures-if true h k = h refl
  Ensures-if false h k = k refl

  pub Ensures-option :
      {B : Type 0} (o : Option B) {m : Action A} {n : B → Action A}
      → (o ≡ none → Ensures w Q m)
      → ((b : B) → o ≡ some b → Ensures w Q (n b))
      → Ensures w Q (elim o [ none ↦ m | some b ↦ n b ])
  Ensures-option none h k = h refl
  Ensures-option (some b) h k = k b refl

  -- A call, by what it ensures.
  pub Ensures-bind :
      {B : Type 0} (m : Action B) (k : B → Action A)
      → Ensures w (λ b w'. Ensures w' Q (k b)) m
      → Ensures w Q (m >>= k)
  Ensures-bind {B} m k h = record { run = λ a w' e. go (m w) refl a w' e }
    where
      go :
          (p : Result B × World)
          → m w ≡ p
          → (a : A) (w' : World) → ◌>>=◌ (λ _. p) k w ≡ (ok a, w')
          → Q a w'
      go (ok b, w1) ran a w' e = (h.run b w1 ran).run a w' e
      go (err x, w1) ran a w' e = cc

  pub Ensures-or_fail : (e : Error) (m : Action A) → Ensures w Q m → Ensures w Q (or_fail e m)
  Ensures-or_fail e m h = record { run = λ a w' r. go (m w) a w' (h.run a w') r }
    where
      go :
          (p : Result A × World) (a : A) (w' : World)
          → (p ≡ (ok a, w') → Q a w')
          → or_fail e (λ _. p) w ≡ (ok a, w')
          → Q a w'
      go (ok b, w1) a w' h r = h r
      go (err x, w1) a w' h r = cc

  pub Ensures-needs :
      (o : Option A) (e : Error) → ((a : A) → o ≡ some a → Q a w) → Ensures w Q (needs o e)
  Ensures-needs none e h = Ensures-raise e
  Ensures-needs (some a) e h = Ensures-pure a (h a refl)

  pub Ensures-statement :
      (m : Action A)
      → ((a : A) (w' : World) → m (tick w) ≡ (ok a, w') → Q a w')
      → Ensures w Q (statement m)
  unfolding statement
  Ensures-statement m h = record { run = λ a w' e. go (is_due w.faults) a w' e }
    where
      go :
          (due : Bool) (a : A) (w' : World)
          → (if due then (err db_failure, tick w) else m (tick w)) ≡ (ok a, w')
          → Q a w'
      go true a w' e = cc
      go false a w' e = h a w' e

  -- A statement whose result is known.
  pub Ensures-stated :
      (f : World → A) (g : World → World)
      → Q (f (tick w)) (g (tick w))
      → Ensures w Q (statement (λ w. (ok (f w), g w)))
  Ensures-stated f g q = Ensures-statement _ (λ a w' e. go a w' (cc) (cc))
    where
      go : (a : A) (w' : World) → f (tick w) ≡ a → g (tick w) ≡ w' → Q a w'
      go a w' same moved = rw (sym same, sym moved) q

  pub Ensures-select : (f : World → A) → Q (f (tick w)) (tick w) → Ensures w Q (select f)
  Ensures-select f q = Ensures-stated f (λ w. w) q

module _ {w : World} {Q : Unit {0} → World → Type 0} where
  pub Ensures-modify : (f : World → World) → Q tt (f (tick w)) → Ensures w Q (modify f)
  Ensures-modify f q = Ensures-stated (λ w. tt) f q

  pub Ensures-insert :
      (clash : World → Bool) (f : World → World)
      → (clash (tick w) ≡ false → Q tt (f (tick w)))
      → Ensures w Q (insert_unless clash f)
  Ensures-insert clash f q = Ensures-statement _ (λ a w' e. go (clash (tick w)) a w' e q)
    where
      go :
          (b : Bool) (a : Unit) (w' : World)
          → ◌≡◌ {A = Result (Unit {0}) × World}
              (if b then (err unique_violation, tick w) else (ok tt, f (tick w)))
              (ok a, w')
          → (b ≡ false → Q tt (f (tick w)))
          → Q a w'
      go true a w' e q = cc
      go false a w' e q = let moved : f (tick w) ≡ w' = cc in rw moved at (q refl)

  pub Ensures-fail_if : (b : Bool) (e : Error) → (b ≡ false → Q tt w) → Ensures w Q (fail_if b e)
  Ensures-fail_if b e q = record { run = λ a w' h. go b a w' h q }
    where
      go :
          (b : Bool) (a : Unit) (w' : World)
          → fail_if b e w ≡ (ok a, w')
          → (b ≡ false → Q tt w)
          → Q a w'
      go true a w' h q = cc
      go false a w' h q = let still : w ≡ w' = cc in rw still at (q refl)

-- A statement whose failure the caller passes over.
pub Ensures-attempt-select :
    {A : Type 0} {w : World} {Q : Result A → World → Type 0} (f : World → A)
    → Q (err db_failure) (tick w)
    → Q (ok (f (tick w))) (tick w)
    → Ensures w Q (attempt (select f))
unfolding statement
Ensures-attempt-select {A} {w} {Q} f q q' = record { run = λ r w' h. go (is_due w.faults) r w' h }
  where
    go :
        (due : Bool) (r : Result A) (w' : World)
        → attempt (λ _. if due then (err db_failure, tick w) else (ok (f (tick w)), tick w)) w
          ≡ (ok r, w')
        → Q r w'
    go true r w' h = (Ensures-pure {Q = λ r w'. Q r w'} (err db_failure) q).run r w' h
    go false r w' h = (Ensures-pure {Q = λ r w'. Q r w'} (ok (f (tick w))) q').run r w' h

pub ruleset ensures = (
  Ensures-bind, Ensures-fail_if, Ensures-needs, Ensures-or_fail, Ensures-attempt-select,
  Ensures-select, Ensures-modify, Ensures-insert, Ensures-stated, Ensures-pure, Ensures-raise,
  Ensures-if, Ensures-option,
)

-- A weaker postcondition.
pub Ensures-weaken :
    {A : Type 0} {w : World} (P Q : A → World → Type 0) {m : Action A}
    → ((a : A) (w' : World) → P a w' → Q a w')
    → Ensures w P m
    → Ensures w Q m
Ensures-weaken P Q k h = record { run = λ a w' e. k a w' (h.run a w' e) }

-- What a call does to the world, success or not, holds of its successes.
pub Ensures-Obeys :
    {A : Type 0} {w : World} {Q : A → World → Type 0} (l : Law) {m : Action A}
    → Obeys l m
    → Ensures w (λ a w'. l.Rel w w' → Q a w') m
    → Ensures w Q m
Ensures-Obeys l o h = record { run = λ a w' e. h.run a w' e (Obeys-run o _ e) }

-- A call whose failure the caller passes over.
pub Ensures-attempt :
    {A : Type 0} {w : World} {Q : Result A → World → Type 0} {m : Action A}
    → Ensures w (λ a w'. Q (ok a) w') m
    → ((e : Error) (w' : World) → m w ≡ (err e, w') → Q (err e) w')
    → Ensures w Q (attempt m)
Ensures-attempt {A} {w} {Q} {m} h k = record { run = λ r w' e. go (m w) refl r w' e }
  where
    go :
        (p : Result A × World)
        → m w ≡ p
        → (r : Result A) (w' : World) → attempt (λ _. p) w ≡ (ok r, w')
        → Q r w'
    go (ok a, w1) done r w' e =
        (Ensures-pure {Q = λ r w'. Q r w'} (ok a) (h.run a w1 done)).run r w' e
    go (err x, w1) done r w' e =
        (Ensures-pure {Q = λ r w'. Q r w'} (err x) (k x w1 done)).run r w' e

-- A call, of which nothing but its run is known.
pub Ensures-ran :
    {A : Type 0} {w : World} {Q : A → World → Type 0} (m : Action A)
    → ((a : A) (w' : World) → m w ≡ (ok a, w') → Q a w')
    → Ensures w Q m
Ensures-ran m k = record { run = k }

-- A call of which nothing is asked.
pub Ensures-any :
    {A : Type 0} {w : World} {Q : A → World → Type 0} (m : Action A)
    → ((a : A) (w' : World) → Q a w')
    → Ensures w Q m
Ensures-any m k = record { run = λ a w' e. k a w' }
