-- ===== src/Password/Policy.antt =====
-- `AuthService.ValidatePasswordPolicy` of internal/service/auth_service.go: one pass over the runes
-- of a password, and what a password has to have.
use authpad.Prelude.{
  ℕ, ◌≡◌, ◌∙◌, Bool, true, false, not, ◌&&◌, ◌||◌, [], ◌∷◌, Text, any, leb, ltb, arith,
  if◌then◌else◌,
}
use authpad.Prelude.Strings.{Unicode, between, byte_len}
use authpad.Db.World.{World, Action, ok, err, ◌>>◌, fail_if, weak_password}

-- `apptypes.PasswordPolicy`; a minimal length below zero is that of zero.
pub record PasswordPolicy : Type 0 where
  pub min_length : ℕ
  pub require_uppercase : Bool
  pub require_lowercase : Bool
  pub require_number : Bool
  pub require_special : Bool

module _ (u : Unicode) where
  -- `unicode.IsUpper`
  abbrev pub is_upper : ℕ → Bool
  is_upper c = if ltb c 128 then between b'A' b'Z' c else u.upper_letter c

  -- `unicode.IsLower`
  abbrev pub is_lower : ℕ → Bool
  is_lower c = if ltb c 128 then between b'a' b'z' c else u.lower_letter c

  -- `unicode.IsNumber`
  abbrev pub is_number : ℕ → Bool
  is_number c = if ltb c 128 then between b'0' b'9' c else u.number c

  -- `unicode.IsPunct(r) || unicode.IsSymbol(r)`
  abbrev pub is_special : ℕ → Bool
  is_special c =
      if ltb c 128
      then between 33 47 c || between 58 64 c || between 91 96 c || between 123 126 c
      else u.punct_or_symbol c

-- The four flags of the pass.
pub record Classes : Type 0 where
  pub upper : Bool
  pub lower : Bool
  pub number : Bool
  pub special : Bool

abbrev pub no_classes : Classes
no_classes = record { upper = false; lower = false; number = false; special = false }

module _ (u : Unicode) where
  -- The `switch` on one rune.
  unfoldable pub note_rune : ℕ → Classes → Classes
  note_rune r k =
      if is_upper u r
      then record k { upper = true }
      else if is_lower u r
      then record k { lower = true }
      else if is_number u r
      then record k { number = true }
      else if is_special u r
      then record k { special = true }
      else k

  -- The loop over the runes.
  unfoldable pub scan : Text → Classes → Classes
  scan [] k = k
  scan (r ∷ rs) k = scan rs (note_rune r k)

  -- `AuthService.ValidatePasswordPolicy`
  unfoldable pub validate_password_policy : PasswordPolicy → Text → Action (Unit {0})
  validate_password_policy policy password = do
    fail_if (ltb (byte_len password) policy.min_length) weak_password
    let k = scan password no_classes
    fail_if (policy.require_uppercase && not k.upper) weak_password
    fail_if (policy.require_lowercase && not k.lower) weak_password
    fail_if (policy.require_number && not k.number) weak_password
    fail_if (policy.require_special && not k.special) weak_password

  -- What a password has to have, said of the password as a whole.
  unfoldable pub meets : PasswordPolicy → Text → Bool
  meets policy password =
      leb policy.min_length (byte_len password)
      && (not policy.require_uppercase || any (is_upper u) password)
      && (not policy.require_lowercase || any (is_lower u) password)
      && (not policy.require_number || any (is_number u) password)
      && (not policy.require_special || any (is_special u) password)

  -- No code point from 128 on is of two classes: the general categories of Unicode are disjoint.
  pub record Disjoint : Type 0 where
    pub upper_lower : (c : ℕ) → u.upper_letter c ≡ true → u.lower_letter c ≡ false
    pub upper_number : (c : ℕ) → u.upper_letter c ≡ true → u.number c ≡ false
    pub upper_special : (c : ℕ) → u.upper_letter c ≡ true → u.punct_or_symbol c ≡ false
    pub lower_number : (c : ℕ) → u.lower_letter c ≡ true → u.number c ≡ false
    pub lower_special : (c : ℕ) → u.lower_letter c ≡ true → u.punct_or_symbol c ≡ false
    pub number_special : (c : ℕ) → u.number c ≡ true → u.punct_or_symbol c ≡ false

-- The `switch` on a rune of at most one class.
switch_lem :
    (a b c e : Bool) (k : Classes)
    → (a ≡ true → (b ≡ false) × (c ≡ false) × (e ≡ false))
    → (b ≡ true → (c ≡ false) × (e ≡ false))
    → (c ≡ true → e ≡ false)
    → (if a
        then record k { upper = true }
        else if b
        then record k { lower = true }
        else if c
        then record k { number = true }
        else if e
        then record k { special = true }
        else k)
      ≡ record {
        upper = k.upper || a;
        lower = k.lower || b;
        number = k.number || c;
        special = k.special || e;
      }
switch_lem a b c e k ha hb hc = ground arith

join_lem :
    (k : Classes) (a a' b b' c c' e e' : Bool)
    → ◌≡◌ {A = Classes}
        (record {
          upper = (k.upper || a) || a';
          lower = (k.lower || b) || b';
          number = (k.number || c) || c';
          special = (k.special || e) || e';
        })
        (record {
          upper = k.upper || (a || a');
          lower = k.lower || (b || b');
          number = k.number || (c || c');
          special = k.special || (e || e');
        })
join_lem k a a' b b' c c' e e' = ground arith

module _ (u : Unicode) (d : Disjoint u) where
  upper_alone :
      (r : ℕ)
      → is_upper u r ≡ true
      → (is_lower u r ≡ false) × (is_number u r ≡ false) × (is_special u r ≡ false)
  upper_alone r h = (
    ground (arith, d.upper_lower r),
    ground (arith, d.upper_number r),
    ground (arith, d.upper_special r),
  )

  lower_alone : (r : ℕ) → is_lower u r ≡ true → (is_number u r ≡ false) × (is_special u r ≡ false)
  lower_alone r h = (ground (arith, d.lower_number r), ground (arith, d.lower_special r))

  number_alone : (r : ℕ) → is_number u r ≡ true → is_special u r ≡ false
  number_alone r h = ground (arith, d.number_special r)

  note_rune_lem :
      (r : ℕ) (k : Classes)
      → note_rune u r k ≡ record {
        upper = k.upper || is_upper u r;
        lower = k.lower || is_lower u r;
        number = k.number || is_number u r;
        special = k.special || is_special u r;
      }
  unfolding note_rune
  note_rune_lem r k = switch_lem _ _ _ _ k (upper_alone r) (lower_alone r) (number_alone r)

  scan_lem :
      (rs : Text) (k : Classes)
      → scan u rs k ≡ record {
        upper = k.upper || any (is_upper u) rs;
        lower = k.lower || any (is_lower u) rs;
        number = k.number || any (is_number u) rs;
        special = k.special || any (is_special u) rs;
      }
  unfolding scan
  scan_lem [] k = ground arith
  scan_lem (r ∷ rs) k =
      scan_lem rs (note_rune u r k) ∙ rw (note_rune_lem r k) (join_lem k _ _ _ _ _ _ _ _)

  -- The policy accepts exactly the passwords that are long enough in bytes and have a rune of every
  -- class it requires, and fails as weak on the others; the general categories of Unicode are
  -- disjoint.
  pub validate_password_policy-meets :
      (policy : PasswordPolicy) (password : Text) (w : World)
      → validate_password_policy u policy password w
        ≡ (if meets u policy password then ok tt else err weak_password, w)
  unfolding validate_password_policy meets
  validate_password_policy-meets policy password w =
      rw (scan_lem password no_classes) (ground arith)
