-- ===== src/Prelude/Chars.antt =====
-- Rust's `String`: the list of its code points. Equality, ASCII and full lower case, joining.
use Prim.Native.Nat.{ℕ, ◌+◌}
use Prim.Native.Char.{code}
use Prim.Native.String.{String}
use mathlib.Core.Path.{◌≡◌, refl}
use mathlib.Core.Logic.{◌↔◌}
use mathlib.Core.Bool.{Bool, true, false, ◌&&◌}
use mathlib.Core.List.{List, [], ◌∷◌, ◌++◌, map}
use native.Mathlib.Omega.{arith}
use pg_maintainer.Prelude.Tests.{◌==◌, leb, ==_iff, if◌then◌else◌}

abbrev pub Text : Type 0
Text = List ℕ

abbrev pub codes : String → Text
codes String.[] = []
codes (String.◌∷◌ c s) = code c ∷ codes s

unfoldable pub text_eq : Text → Text → Bool
text_eq [] [] = true
text_eq [] (b ∷ t) = false
text_eq (a ∷ s) [] = false
text_eq (a ∷ s) (b ∷ t) = a == b && text_eq s t

pub text_eq_iff : (s t : Text) → (text_eq s t ≡ true) ↔ (s ≡ t)
unfolding text_eq
text_eq_iff [] [] = ground arith
text_eq_iff [] (b ∷ t) = ground arith
text_eq_iff (a ∷ s) [] = ground arith
text_eq_iff (a ∷ s) (b ∷ t) = ground (arith, ==_iff a b, text_eq_iff s t)

pub text_eq_refl : (s : Text) → text_eq s s ≡ true
text_eq_refl s = (text_eq_iff s s).1 refl

-- `to_ascii_lowercase`
unfoldable pub ascii_lower : ℕ → ℕ
ascii_lower c = if leb b'A' c && leb c b'Z' then c + 32 else c

unfoldable pub to_ascii_lowercase : Text → Text
unfolding ascii_lower
to_ascii_lowercase = map ascii_lower

-- `to_lowercase`, as far as a comparison with an ASCII text can tell: the only code point outside
-- ASCII whose lower case is an ASCII text is the Kelvin sign.
unfoldable pub char_lower : ℕ → ℕ
unfolding ascii_lower
char_lower c = if c == 0x212A then b'k' else ascii_lower c

unfoldable pub to_lowercase : Text → Text
unfolding char_lower
to_lowercase = map char_lower

-- `join` of a slice of strings
unfoldable pub join : Text → List Text → Text
join sep [] = []
join sep (x ∷ []) = x
join sep (x ∷ y ∷ xs) = x ++ (sep ++ join sep (y ∷ xs))

-- membership in a list of texts
unfoldable pub text_mem : Text → List Text → Bool
text_mem t [] = false
text_mem t (x ∷ xs) = if text_eq x t then true else text_mem t xs
