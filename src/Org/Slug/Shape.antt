-- ===== src/Org/Slug/Shape.antt =====
-- `NormalizeSlug` returns what `slugPattern` matches, or nothing.
use authpad.Prelude.{
  zero, suc, ◌≡◌, ◌⊎◌, ◌≤◌, inl, inr, refl, Bool, true, ◌&&◌, ◌||◌, [], ◌∷◌, Text, all, length, ℕ,
  ltb, arith, Bool-cases,
}
use authpad.Prelude.Strings.{Unicode, trim_space, to_lower}
use authpad.Prelude.Tables.{all-keep_self}
use authpad.Redirect.{is_empty}
use authpad.Org.Slug.{
  is_alnum, is_slug_rune, starts_with, ends_with, is_slug, trim_left, push, trim_right, trim_dashes,
  take, dash_spaces, shorten, normalize_slug,
}

abbrev starts_well : Text → Bool
starts_well s = is_empty s || starts_with is_alnum s

abbrev ends_well : Text → Bool
ends_well s = is_empty s || ends_with is_alnum s

all-trim_left : (s : Text) → all is_slug_rune s ≡ true → all is_slug_rune (trim_left s) ≡ true
unfolding trim_left
all-trim_left [] h = refl
all-trim_left (c ∷ s) h = ground (arith, all-trim_left s)

trim_left-starts_well : (s : Text) → all is_slug_rune s ≡ true → starts_well (trim_left s) ≡ true
unfolding trim_left
trim_left-starts_well [] h = refl
trim_left-starts_well (c ∷ s) h = ground (arith, trim_left-starts_well s)

length-trim_left : (s : Text) → length (trim_left s) ≤ length s
unfolding trim_left
length-trim_left [] = omega arith
length-trim_left (c ∷ s) = ground (arith, length-trim_left s)

all-push :
    (c : ℕ) (s : Text)
    → is_slug_rune c ≡ true
    → all is_slug_rune s ≡ true
    → all is_slug_rune (push c s) ≡ true
all-push c [] r h = ground arith
all-push c (d ∷ s) r h = ground arith

push-ends_well :
    (c : ℕ) (s : Text) → is_slug_rune c ≡ true → ends_well s ≡ true → ends_well (push c s) ≡ true
push-ends_well c [] r h = ground arith
push-ends_well c (d ∷ s) r h = h

push-starts_well : (c : ℕ) (s : Text) → is_alnum c ≡ true → starts_well (push c s) ≡ true
push-starts_well c [] a = ground arith
push-starts_well c (d ∷ s) a = ground arith

length-push : (c : ℕ) (s : Text) → length (push c s) ≤ suc (length s)
length-push c [] = ground arith
length-push c (d ∷ s) = omega arith

all-trim_right : (s : Text) → all is_slug_rune s ≡ true → all is_slug_rune (trim_right s) ≡ true
unfolding trim_right
all-trim_right [] h = refl
all-trim_right (c ∷ s) h =
    all-push c (trim_right s) (ground arith) (all-trim_right s (ground arith))

trim_right-ends_well : (s : Text) → all is_slug_rune s ≡ true → ends_well (trim_right s) ≡ true
unfolding trim_right
trim_right-ends_well [] h = refl
trim_right-ends_well (c ∷ s) h =
    push-ends_well c (trim_right s) (ground arith) (trim_right-ends_well s (ground arith))

trim_right-starts_well : (s : Text) → starts_well s ≡ true → starts_well (trim_right s) ≡ true
unfolding trim_right
trim_right-starts_well [] h = refl
trim_right-starts_well (c ∷ s) h = push-starts_well c (trim_right s) h

length-trim_right : (s : Text) → length (trim_right s) ≤ length s
unfolding trim_right
length-trim_right [] = omega arith
length-trim_right (c ∷ s) = omega (arith, length-push c (trim_right s), length-trim_right s)

length-take : (n : ℕ) (s : Text) → length (take n s) ≤ n
unfolding take
length-take zero s = omega arith
length-take (suc n) [] = omega arith
length-take (suc n) (c ∷ s) = omega (arith, length-take n s)

all-take : (n : ℕ) (s : Text) → all is_slug_rune s ≡ true → all is_slug_rune (take n s) ≡ true
unfolding take
all-take zero s h = refl
all-take (suc n) [] h = refl
all-take (suc n) (c ∷ s) h = ground (arith, all-take n s)

-- Empty, or the shape of a slug of any length.
abbrev is_trimmed : Text → Bool
is_trimmed s = starts_well s && all is_slug_rune s && ends_well s

trim_dashes-is_trimmed : (s : Text) → all is_slug_rune s ≡ true → is_trimmed (trim_dashes s) ≡ true
trim_dashes-is_trimmed s h =
    let clean = all-trim_left s h in
    ground (
      arith,
      trim_right-starts_well (trim_left s) (trim_left-starts_well s h),
      all-trim_right (trim_left s) clean,
      trim_right-ends_well (trim_left s) clean,
    )

shorten_lem :
    (s : Text) → is_trimmed s ≡ true → (is_trimmed (shorten s) ≡ true) × (length (shorten s) ≤ 63)
unfolding shorten
shorten_lem s h =
    let clean : all is_slug_rune s ≡ true = ground arith in
    let cut = trim_dashes-is_trimmed (take 63 s) (all-take 63 s clean) in
    elim (Bool-cases (ltb 63 (length s))) [
      | inl long ↦ rw long (
        cut,
        omega (
          arith,
          length-trim_right (trim_left (take 63 s)),
          length-trim_left (take 63 s),
          length-take 63 s,
        ),
      )
      | inr short ↦ rw short (h, ground arith)
    ]

is_slug_of_trimmed :
    (s : Text) → is_trimmed s ≡ true → length s ≤ 63 → (s ≡ []) ⊎ (is_slug s ≡ true)
unfolding is_slug
is_slug_of_trimmed [] h short = inl refl
is_slug_of_trimmed (c ∷ s) h short = inr (ground arith)

-- NormalizeSlug returns a slug that slugPattern matches, of 63 runes at most, or nothing.
pub normalize_slug-is_slug :
    (u : Unicode) (name : Text)
    → (normalize_slug u name ≡ []) ⊎ (is_slug (normalize_slug u name) ≡ true)
unfolding normalize_slug
normalize_slug-is_slug u name =
    let kept = all-keep_self is_slug_rune (dash_spaces (to_lower u (trim_space name))) in
    let (trimmed, short) = shorten_lem _ (trim_dashes-is_trimmed _ kept) in
    is_slug_of_trimmed _ trimmed short
