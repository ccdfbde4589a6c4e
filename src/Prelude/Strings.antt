-- ===== src/Prelude/Strings.antt =====
-- Go strings as lists of code points (the strings are valid UTF-8), and what the program uses of
-- the packages strings and unicode. Code points from 128 on follow the tables of Unicode, which
-- are data of the Go distribution: a `Unicode` is a parameter wherever they are consulted.
use Prim.Native.Char.{code}
use Prim.Native.String.{String}
use Prim.Native.Nat.{ℕ, ◌+◌}
use mathlib.Core.Path.{◌≡◌, refl}
use mathlib.Core.Logic.{◌↔◌}
use mathlib.Core.Bool.{Bool, true, false, ◌&&◌, ◌||◌}
use mathlib.Core.List.{List, [], ◌∷◌, map, reverse}
use native.Mathlib.Omega.{arith}
use authpad.Prelude.Tests.{ltb, leb, ◌==◌, if◌then◌else◌}

abbrev pub Text : Type 0
Text = List ℕ

abbrev pub codes : String → Text
codes String.[] = []
codes (String.◌∷◌ c s) = code c ∷ codes s

-- `s == t`
unfoldable pub text_eq : Text → Text → Bool
text_eq [] [] = true
text_eq (a ∷ s) (b ∷ t) = a == b && text_eq s t
text_eq _ _ = false

pub text_eq_refl : (s : Text) → text_eq s s ≡ true
unfolding text_eq
text_eq_refl [] = refl
text_eq_refl (a ∷ s) = ground (arith, text_eq_refl s)

text_eq_sound : (s t : Text) → text_eq s t ≡ true → s ≡ t
unfolding text_eq
text_eq_sound [] [] h = refl
text_eq_sound (a ∷ s) (b ∷ t) h = ground (arith, text_eq_sound s t)
text_eq_sound [] (b ∷ t) h = cc
text_eq_sound (a ∷ s) [] h = cc

pub text_eq_iff : (s t : Text) → (text_eq s t ≡ true) ↔ (s ≡ t)
text_eq_iff s t = (text_eq_sound s t, λ e. rw e (text_eq_refl t))

-- `len(s)`: the bytes of the UTF-8 encoding.
abbrev rune_len : ℕ → ℕ
rune_len c = if ltb c 0x80 then 1 else if ltb c 0x800 then 2 else if ltb c 0x10000 then 3 else 4

unfoldable pub byte_len : Text → ℕ
byte_len [] = 0
byte_len (c ∷ s) = rune_len c + byte_len s

-- The tables of Unicode for the code points from 128 on.
pub record Unicode : Type 0 where
  pub lower : ℕ → ℕ
  pub fold : ℕ → ℕ
  pub upper_letter : ℕ → Bool
  pub lower_letter : ℕ → Bool
  pub number : ℕ → Bool
  pub punct_or_symbol : ℕ → Bool

abbrev pub between : ℕ → ℕ → ℕ → Bool
between lo hi c = leb lo c && leb c hi

abbrev ascii_lower : ℕ → ℕ
ascii_lower c = if between b'A' b'Z' c then c + 32 else c

-- `unicode.IsSpace`
unfoldable pub is_space : ℕ → Bool
is_space c =
    between 9 13 c
    || c == 32
    || c == 0x85
    || c == 0xa0
    || c == 0x1680
    || between 0x2000 0x200a c
    || c == 0x2028
    || c == 0x2029
    || c == 0x202f
    || c == 0x205f
    || c == 0x3000

abbrev drop_space : Text → Text
drop_space [] = []
drop_space (c ∷ s) = if is_space c then drop_space s else c ∷ s

-- `strings.TrimSpace`
unfoldable pub trim_space : Text → Text
unfolding is_space
trim_space s = reverse (drop_space (reverse (drop_space s)))

module _ (u : Unicode) where
  -- `strings.ToLower`
  unfoldable pub to_lower : Text → Text
  to_lower = map (λ c. if ltb c 128 then ascii_lower c else u.lower c)

  abbrev fold_rune : ℕ → ℕ
  fold_rune c = if ltb c 128 then ascii_lower c else u.fold c

  -- `strings.EqualFold`: equality under simple case folding.
  unfoldable pub equal_fold : Text → Text → Bool
  equal_fold s t = text_eq (map fold_rune s) (map fold_rune t)
