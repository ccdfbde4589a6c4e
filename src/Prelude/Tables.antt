-- ===== src/Prelude/Tables.antt =====
-- Laws of the table operations of `Lists`: what an update, a deletion or an insertion does to
-- what a query finds.
use Prim.Native.Nat.{◌≤◌}
use mathlib.Core.Path.{◌≡◌, refl, ap}
use mathlib.Core.Bool.{Bool, true, false}
use mathlib.Core.List.{List, [], ◌∷◌}
use mathlib.Core.Option.{none, some}
use mathlib.Core.List.{Mem, mem-cons, not-mem-nil}
use mathlib.Core.Logic.Or
use mathlib.Core.Logic.{inl, inr}
use authpad.Prelude.Tests.{Bool-cases, if◌then◌else◌}
use native.Mathlib.Omega.{arith}
use mathlib.Core.Bool.{and-eq-true_iff, not, ◌||◌}
use authpad.Prelude.Lists.{all, any, find, keep, update, count}

module _ {ℓ} {A : Type ℓ} where
  -- What a query finds passes its test.
  pub find_holds : (p : A → Bool) (xs : List A) {a : A} → find p xs ≡ some a → p a ≡ true
  find_holds p [] e = cc
  find_holds p (x ∷ xs) {a} e = ground (arith, find_holds p xs {a = a})

  pub find_mem : (p : A → Bool) (xs : List A) {a : A} → find p xs ≡ some a → Mem a xs
  find_mem p [] e = cc
  find_mem p (x ∷ xs) {a} e = elim (Bool-cases (p x)) [
    | inl passes ↦ let same : a ≡ x = ground arith in mem-cons.1 (Or.inl same)
    | inr fails ↦
        let later : find p xs ≡ some a = ground arith in mem-cons.1 (Or.inr (find_mem p xs later))
  ]

  -- A property of rows that the update keeps holds of all rows after it.
  pub all-update :
      (q p : A → Bool) (f : A → A) (xs : List A)
      → ((x : A) → q x ≡ true → q (f x) ≡ true)
      → all q xs ≡ true
      → all q (update p f xs) ≡ true
  all-update q p f [] k h = refl
  all-update q p f (x ∷ xs) k h = ground (arith, k x, all-update q p f xs k)

  -- A property of rows that the update does not change holds of some row as it did.
  pub any-update :
      (q p : A → Bool) (f : A → A) (xs : List A)
      → ((x : A) → q (f x) ≡ q x)
      → any q (update p f xs) ≡ any q xs
  any-update q p f [] k = refl
  any-update q p f (x ∷ xs) k = ground (arith, k x, any-update q p f xs k)

  -- An updated row has what the update writes.
  pub all-update_written :
      (q p : A → Bool) (f : A → A) (xs : List A)
      → ((x : A) → p x ≡ true → q (f x) ≡ true)
      → ((x : A) → p x ≡ false → q x ≡ true)
      → all q (update p f xs) ≡ true
  all-update_written q p f [] k l = refl
  all-update_written q p f (x ∷ xs) k l = ground (arith, k x, l x, all-update_written q p f xs k l)

  pub all-keep : (q p : A → Bool) (xs : List A) → all q xs ≡ true → all q (keep p xs) ≡ true
  all-keep q p [] h = refl
  all-keep q p (x ∷ xs) h = ground (arith, all-keep q p xs)

  -- What a deletion leaves has its test.
  pub all-keep_self : (p : A → Bool) (xs : List A) → all p (keep p xs) ≡ true
  all-keep_self p [] = refl
  all-keep_self p (x ∷ xs) = ground (arith, all-keep_self p xs)

  -- What a query finds has what holds of all rows.
  pub find-all :
      (q p : A → Bool) (xs : List A) {a : A} → all q xs ≡ true → find p xs ≡ some a → q a ≡ true
  find-all q p [] h e = cc
  find-all q p (x ∷ xs) {a} h e = ground (arith, find-all q p xs {a = a})

  pub find-none : (p : A → Bool) (xs : List A) → all (λ x. not (p x)) xs ≡ true → find p xs ≡ none
  find-none p [] h = refl
  find-none p (x ∷ xs) h = ground (arith, find-none p xs)

  pub count-none : (p : A → Bool) (xs : List A) → all (λ x. not (p x)) xs ≡ true → count p xs ≤ 1
  count-none p [] h = omega arith
  count-none p (x ∷ xs) h = ground (arith, count-none p xs)

  pub any-or_left :
      (p q : A → Bool) (xs : List A) → any (λ x. p x || q x) xs ≡ false → any p xs ≡ false
  any-or_left p q [] h = refl
  any-or_left p q (x ∷ xs) h = ground (arith, any-or_left p q xs)

  pub all_of_mem : (q : A → Bool) (xs : List A) {a : A} → all q xs ≡ true → Mem a xs → q a ≡ true
  all_of_mem q [] h m = absurd (not-mem-nil m)
  all_of_mem q (x ∷ xs) {a} h m =
      let (first, rest) = (and-eq-true_iff _ _).0 h in
      Or.elim (hlevel) (mem-cons.0 m) (λ e. rw e first) (all_of_mem q xs rest)

module _ {ℓ} {A : Type ℓ} (p q g : A → Bool) (f : A → A)
    (narrower : (x : A) → q x ≡ true → p x ≡ true) where
  count-find : (xs : List A) {a : A} → find q xs ≡ some a → 1 ≤ count p xs
  count-find [] e = cc
  count-find (x ∷ xs) {a} e = ground (arith, narrower x, count-find xs {a = a})

  all-update_absent :
      (xs : List A) → count p xs ≡ 0 → all (λ x. not (p x) || g x) (update q f xs) ≡ true
  all-update_absent [] h = refl
  all-update_absent (x ∷ xs) h = ground (arith, narrower x, all-update_absent xs)

  -- An update that finds the one row of a key leaves every row of that key written.
  pub all-update_unique :
      (xs : List A) {a : A}
      → ((x : A) → g (f x) ≡ true)
      → count p xs ≤ 1
      → find q xs ≡ some a
      → all (λ x. not (p x) || g x) (update q f xs) ≡ true
  all-update_unique [] w u e = cc
  all-update_unique (x ∷ xs) {a} w u e = ground (
    arith,
    w x,
    narrower x,
    count-find xs {a = a},
    all-update_absent xs,
    all-update_unique xs {a = a},
  )

module _ {ℓ} {A : Type ℓ} (p r q : A → Bool) (narrower : (x : A) → r x ≡ true → p x ≡ true) where
  keep_absent : (xs : List A) → count p xs ≡ 0 → all (λ x. not (p x)) (keep q xs) ≡ true
  keep_absent [] h = refl
  keep_absent (x ∷ xs) h = ground (arith, keep_absent xs)

  -- A deletion of the one row of a key leaves no row of that key.
  pub all-keep_unique :
      (xs : List A) {a : A}
      → count p xs ≤ 1
      → find r xs ≡ some a
      → q a ≡ false
      → all (λ x. not (p x)) (keep q xs) ≡ true
  all-keep_unique [] u e out = refl
  all-keep_unique (x ∷ xs) {a} u e out = elim (Bool-cases (r x)) [
    | inl here ↦
        let same : x ≡ a = ground arith in
        let gone : q x ≡ false = rw same out in ground (arith, keep_absent xs, narrower x)
    | inr other ↦
        let later : find r xs ≡ some a = ground arith in
        let counted = count-find p r (λ _. true) (λ x. x) narrower xs later in
        ground (arith, all-keep_unique xs {a = a})
  ]

module _ {ℓ} {A : Type ℓ} where
  -- A test that some row passes is passed by a row of the table.
  pub any_witness :
      (p : A → Bool) (xs : List A) → any p xs ≡ true → (a : A) × Mem a xs × (p a ≡ true)
  any_witness p [] h = cc
  any_witness p (x ∷ xs) h = elim (Bool-cases (p x)) [
    | inl here ↦ (x, mem-cons.1 (Or.inl refl), here)
    | inr other ↦
        let later : any p xs ≡ true = ground arith in
        let (a, m, passes) = any_witness p xs later in (a, mem-cons.1 (Or.inr m), passes)
  ]

  -- An update of no row.
  pub update_none :
      (p : A → Bool) (f : A → A) (xs : List A) → all (λ x. not (p x)) xs ≡ true → update p f xs ≡ xs
  update_none p f [] h = refl
  update_none p f (x ∷ xs) h =
      let rest = update_none p f xs in
      elim (Bool-cases (p x)) [
        | inl here ↦ absurd (ground arith)
        | inr other ↦ rw other (ap (λ ys. x ∷ ys) (rest (ground arith)))
      ]

  pub all-weaken :
      (p q : A → Bool) (xs : List A)
      → ((x : A) → p x ≡ true → q x ≡ true)
      → all p xs ≡ true
      → all q xs ≡ true
  all-weaken p q [] k h = refl
  all-weaken p q (x ∷ xs) k h = ground (arith, k x, all-weaken p q xs)

  -- An update that does not change what the query reads updates what it finds.
  pub find-update :
      (p q : A → Bool) (f : A → A) (xs : List A) {a : A}
      → ((x : A) → p (f x) ≡ p x)
      → find p xs ≡ some a
      → find p (update q f xs) ≡ some (if q a then f a else a)
  find-update p q f [] k e = cc
  find-update p q f (x ∷ xs) {a} k e = elim (Bool-cases (p x)) [
    | inl here ↦ let same : x ≡ a = ground arith in ground (arith, k x, same)
    | inr other ↦
        let later : find p xs ≡ some a = ground arith in
        let rest = find-update p q f xs {a = a} k later in ground (arith, k x)
  ]

  pub any-find : (p : A → Bool) (xs : List A) → any p xs ≡ true → (a : A) × (find p xs ≡ some a)
  any-find p [] h = cc
  any-find p (x ∷ xs) h = elim (Bool-cases (p x)) [
    | inl here ↦ (x, ground arith)
    | inr other ↦
        let later : any p xs ≡ true = ground arith in
        let (a, found) = any-find p xs later in (a, ground arith)
  ]

  pub find-none_of_any : (p : A → Bool) (xs : List A) → any p xs ≡ false → find p xs ≡ none
  find-none_of_any p [] h = refl
  find-none_of_any p (x ∷ xs) h = ground (arith, find-none_of_any p xs)

  pub count-any : (p : A → Bool) (xs : List A) → any p xs ≡ false → count p xs ≡ 0
  count-any p [] h = refl
  count-any p (x ∷ xs) h = ground (arith, count-any p xs)
