-- ===== src/Prelude/Counts.antt =====
-- What an update does to the number of rows that pass a test.
use Prim.Native.Nat.{suc, ◌≤◌}
use mathlib.Core.Path.{◌≡◌, refl}
use mathlib.Core.Logic.{inl, inr}
use mathlib.Core.Bool.{Bool, true, false}
use mathlib.Core.List.{List, [], ◌∷◌}
use mathlib.Core.Option.{some}
use native.Mathlib.Omega.{arith}
use authpad.Prelude.Tests.{Bool-cases}
use authpad.Prelude.Lists.{find, update, count}

module _ {ℓ} {A : Type ℓ} (p q k : A → Bool) (f : A → A)
    (narrower : (x : A) → q x ≡ true → k x ≡ true) where
  count-update_absent : (xs : List A) → count k xs ≡ 0 → count p (update q f xs) ≡ count p xs
  count-update_absent [] h = refl
  count-update_absent (x ∷ xs) h = ground (arith, narrower x, count-update_absent xs)

  -- An update of one row lowers a count by one at most.
  pub count-update_one : (xs : List A) → count k xs ≤ 1 → count p xs ≤ suc (count p (update q f xs))
  count-update_one [] h = omega arith
  count-update_one (x ∷ xs) h =
      ground (arith, narrower x, count-update_absent xs, count-update_one xs)

  -- An update of one row that is not counted does not lower the count.
  pub count-update_uncounted :
      (xs : List A) {a : A}
      → count k xs ≤ 1
      → find k xs ≡ some a
      → p a ≡ false
      → count p xs ≤ count p (update q f xs)
  count-update_uncounted [] h e u = omega arith
  count-update_uncounted (x ∷ xs) {a} h e u = elim (Bool-cases (k x)) [
    | inl here ↦
        let same : x ≡ a = ground arith in
        let out : p x ≡ false = rw same u in ground (arith, count-update_absent xs)
    | inr other ↦ ground (arith, narrower x, count-update_uncounted xs {a = a})
  ]

module _ {ℓ} {A : Type ℓ} (p q : A → Bool) (f : A → A) where
  -- An update of rows that are counted neither before nor after it.
  pub count-update_apart :
      (xs : List A)
      → ((x : A) → q x ≡ true → p x ≡ false)
      → ((x : A) → q x ≡ true → p (f x) ≡ false)
      → count p (update q f xs) ≡ count p xs
  count-update_apart [] b a = refl
  count-update_apart (x ∷ xs) b a = ground (arith, b x, a x, count-update_apart xs)
