-- ===== src/Db/Rules.antt =====
-- Proof rules for calls: a relation between the world before and the world after a call, whatever
-- the call returns, and the parts of a call that succeeded.
use authpad.Prelude.{
  sym, ap, Bool, true, false, Option, none, some, ◌≡◌, refl, Bool-cases, inl, inr, if◌then◌else◌,
  arith,
}
use authpad.Db.World.{
  World, Result, ok, err, Action, ◌>>=◌, attempt, or_fail, statement, tick, is_due, Error, needs,
  select, pure, raise, fail_if,
}

-- What calls may do to the world: a reflexive and transitive relation that does not read the
-- schedule of faults.
pub record Law : Type 1 where
  pub Rel : World → World → Type 0
  pub here : (w : World) → Rel w w
  pub then_ : (u v w : World) → Rel u v → Rel v w → Rel u w
  pub ticks : (w : World) → Rel w (tick w)

-- Whatever the call returns, the worlds before and after it are so related.
pub record Obeys (l : Law) {A : Type 0} (m : Action A) : Type 0 where
  pub run : (w : World) → l.Rel w (m w).1

module _ {l : Law} where
  bind_rel :
      {A B : Type 0} (f : A → Action B) (w w' : World) (r : Result A)
      → l.Rel w w'
      → ((a : A) → Obeys l (f a))
      → l.Rel w (◌>>=◌ (λ _. (r, w')) f w).1
  bind_rel f w w' (ok a) h k = l.then_ w w' (f a w').1 h ((k a).run w')
  bind_rel f w w' (err e) h k = h

  pub Obeys-bind :
      {A B : Type 0} {m : Action A} {f : A → Action B}
      → Obeys l m
      → ((a : A) → Obeys l (f a))
      → Obeys l (m >>= f)
  Obeys-bind {m} {f} h k = record { run = λ w. bind_rel f w (m w).1 (m w).0 (h.run w) k }

  pub Obeys-or_fail : {A : Type 0} (e : Error) {m : Action A} → Obeys l m → Obeys l (or_fail e m)
  Obeys-or_fail {A} e {m} h = record { run = λ w. go w (m w).1 (m w).0 (h.run w) }
    where
      go : (w w' : World) (r : Result A) → l.Rel w w' → l.Rel w (or_fail e (λ _. (r, w')) w).1
      go w w' (ok a) h = h
      go w w' (err _) h = h

  pub Obeys-statement :
      {A : Type 0} (m : Action A) → ((w : World) → l.Rel w (m w).1) → Obeys l (statement m)
  unfolding statement
  Obeys-statement m h = record { run = λ w. runs w }
    where
      runs : (w : World) → l.Rel w (statement m w).1
      runs w = elim (Bool-cases (is_due w.faults)) [
        | inl due ↦ rw due (l.ticks w)
        | inr fine ↦ rw fine (l.then_ w (tick w) (m (tick w)).1 (l.ticks w) (h (tick w)))
      ]

  pub Obeys-select : {A : Type 0} (f : World → A) → Obeys l (select f)
  Obeys-select f = Obeys-statement _ (λ w. l.here w)

  pub Obeys-pure : {A : Type 0} (a : A) → Obeys l (pure a)
  Obeys-pure a = record { run = l.here }

  pub Obeys-raise : {A : Type 0} (e : Error) → Obeys l (raise {A = A} e)
  Obeys-raise e = record { run = l.here }

  pub Obeys-fail_if : (c : Bool) (e : Error) → Obeys l (fail_if c e)
  Obeys-fail_if c e = record { run = l.here }

  pub Obeys-if :
      {A : Type 0} (c : Bool) {m n : Action A}
      → Obeys l m
      → Obeys l n
      → Obeys l (if c then m else n)
  Obeys-if true h k = h
  Obeys-if false h k = k

  pub Obeys-needs : {A : Type 0} (o : Option A) (e : Error) → Obeys l (needs o e)
  Obeys-needs none e = Obeys-raise e
  Obeys-needs (some a) e = Obeys-pure a

  pub Obeys-needed :
      {A B : Type 0} (o : Option A) (e : Error) (f : A → Action B)
      → ((a : A) → o ≡ some a → Obeys l (f a))
      → Obeys l (needs o e >>= f)
  Obeys-needed none e f k = record { run = l.here }
  Obeys-needed (some a) e f k = k a refl

  pub Obeys-attempt : {A : Type 0} {m : Action A} → Obeys l m → Obeys l (attempt m)
  Obeys-attempt h = record { run = h.run }

  pub Obeys-option :
      {A B : Type 0} (o : Option A) {m : Action B} {n : A → Action B}
      → Obeys l m
      → ((a : A) → Obeys l (n a))
      → Obeys l (elim o [ none ↦ m | some a ↦ n a ])
  Obeys-option none h k = h
  Obeys-option (some a) h k = k a

pub ruleset obeys = (
  Obeys-bind, Obeys-or_fail, Obeys-select, Obeys-pure, Obeys-raise, Obeys-fail_if, Obeys-if,
  Obeys-needs, Obeys-attempt, Obeys-option,
)

-- The relation at a run of the call.
pub Obeys-run :
    {l : Law} {A : Type 0} {m : Action A} (o : Obeys l m) (w : World) {r : Result A} {w' : World}
    → m w ≡ (r, w')
    → l.Rel w w'
Obeys-run {l} o w e = let runs = o.run w in rw e at runs

-- The parts of a chain that succeeded.
pub >>=-eq-ok :
    {A B : Type 0} (m : Action A) (f : A → Action B) (w : World) {b : B} {w'' : World}
    → (m >>= f) w ≡ (ok b, w'')
    → (a : A) × (w' : World) × (m w ≡ (ok a, w')) × (f a w' ≡ (ok b, w''))
>>=-eq-ok m f w {b} {w''} e = go (m w).0 (m w).1 refl e
  where
    go :
        (r : Result _) (w' : World)
        → m w ≡ (r, w')
        → ◌>>=◌ (λ _. (r, w')) f w ≡ (ok b, w'')
        → (a : _) × (w' : World) × (m w ≡ (ok a, w')) × (f a w' ≡ (ok b, w''))
    go (ok a) w' e h = (a, w', e, h)
    go (err x) w' e h = cc

pub statement-eq-ok :
    {A : Type 0} (m : Action A) (w : World) {a : A} {w' : World}
    → statement m w ≡ (ok a, w')
    → m (tick w) ≡ (ok a, w')
unfolding statement
statement-eq-ok m w h = ground arith

pub >>=-ok :
    {A B : Type 0} (m : Action A) (f : A → Action B) (w : World) {a : A} {w' : World}
    → m w ≡ (ok a, w')
    → (m >>= f) w ≡ f a w'
>>=-ok m f w e = ap (λ p. ◌>>=◌ (λ _. p) f w) e

pub or_fail-ok :
    {A : Type 0} (x : Error) (m : Action A) (w : World) {a : A} {w' : World}
    → m w ≡ (ok a, w')
    → or_fail x m w ≡ (ok a, w')
or_fail-ok x m w e = ap (λ p. or_fail x (λ _. p) w) e

-- Whatever the world, the call returns an error or a value with the property.
pub record Yields {A : Type 0} (P : A → Type 0) (m : Action A) : Type 0 where
  pub run : (w : World) (a : A) → (m w).0 ≡ ok a → P a

module _ {A : Type 0} {P : A → Type 0} where
  pub Yields-bind :
      {B : Type 0} (m : Action B) (f : B → Action A)
      → ((b : B) → Yields P (f b))
      → Yields P (m >>= f)
  Yields-bind {B} m f k = record { run = λ w a e. go (m w).1 (m w).0 a e }
    where
      go : (w' : World) (r : Result B) (a : A) → (◌>>=◌ (λ _. (r, w')) f w').0 ≡ ok a → P a
      go w' (ok b) a e = (k b).run w' a e
      go w' (err x) a e = cc

  pub Yields-pure : (a : A) → P a → Yields P (pure a)
  Yields-pure a p = record { run = λ w b e. go b (cc) }
    where
      go : (b : A) → a ≡ b → P b
      go b same = rw (sym same) p

  pub Yields-raise : (e : Error) → Yields P (raise e)
  Yields-raise e = record { run = λ w a h. cc }

  pub Yields-option :
      {B : Type 0} (o : Option B) (m : Action A) (n : B → Action A)
      → Yields P m
      → ((b : B) → o ≡ some b → Yields P (n b))
      → Yields P (elim o [ none ↦ m | some b ↦ n b ])
  Yields-option none m n h k = h
  Yields-option (some b) m n h k = k b refl

  pub Yields-if :
      (c : Bool) (m n : Action A)
      → (c ≡ true → Yields P m)
      → (c ≡ false → Yields P n)
      → Yields P (if c then m else n)
  Yields-if true m n h k = h refl
  Yields-if false m n h k = k refl

pub ruleset yields = (Yields-bind, Yields-raise, Yields-pure, Yields-option, Yields-if)
