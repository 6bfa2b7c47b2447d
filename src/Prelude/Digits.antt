-- ===== src/Prelude/Digits.antt =====
-- A number as `{n}` of a format string prints it.
use Prim.Native.Nat.{ℕ, zero, suc, ◌+◌, ◌/◌, ◌%◌, ◌≤◌}
use mathlib.Core.Path.{◌≡◌, refl}
use mathlib.Core.Logic.{inl, inr}
use mathlib.Core.Bool.{false}
use mathlib.Core.List.{[], ◌∷◌}
use native.Mathlib.Omega.{arith}
use pg_maintainer.Prelude.Tests.{◌==◌, if◌then◌else◌, Bool-cases}
use pg_maintainer.Prelude.Lists.{All, is_empty}
use pg_maintainer.Prelude.Chars.{Text}

unfoldable pub decimal_onto : ℕ → ℕ → Text → Text
decimal_onto zero n acc = acc
decimal_onto (suc fuel) n acc =
    let digits = (b'0' + n % 10) ∷ acc in
    let rest = decimal_onto fuel (n / 10) digits in if n / 10 == 0 then digits else rest

-- A number has fewer digits than its value plus one.
unfoldable pub decimal : ℕ → Text
unfolding decimal_onto
decimal n = decimal_onto (suc n) n []

abbrev pub IsDigit : ℕ → Type 0
IsDigit c = (b'0' ≤ c) × (c ≤ b'9')

decimal_onto-IsDigit :
    (fuel n : ℕ) (acc : Text) → All IsDigit acc → All IsDigit (decimal_onto fuel n acc)
unfolding decimal_onto
decimal_onto-IsDigit zero n acc h = h
decimal_onto-IsDigit (suc fuel) n acc h =
    let digit : IsDigit (b'0' + n % 10) = omega arith in
    elim (Bool-cases (n / 10 == 0)) [
      | inl last ↦ rw last (digit, h)
      | inr more ↦ rw more (decimal_onto-IsDigit fuel (n / 10) _ (digit, h))
    ]

pub decimal-IsDigit : (n : ℕ) → All IsDigit (decimal n)
unfolding decimal
decimal-IsDigit n = decimal_onto-IsDigit (suc n) n [] tt

decimal_onto-is_empty :
    (fuel n c : ℕ) (acc : Text) → is_empty (decimal_onto fuel n (c ∷ acc)) ≡ false
unfolding decimal_onto is_empty
decimal_onto-is_empty zero n c acc = refl
decimal_onto-is_empty (suc fuel) n c acc = elim (Bool-cases (n / 10 == 0)) [
  | inl last ↦ rw last refl
  | inr more ↦ rw more (decimal_onto-is_empty fuel (n / 10) _ (c ∷ acc))
]

pub decimal-is_empty : (n : ℕ) → is_empty (decimal n) ≡ false
unfolding decimal decimal_onto is_empty
decimal-is_empty n = elim (Bool-cases (n / 10 == 0)) [
  | inl last ↦ rw last refl
  | inr more ↦ rw more (decimal_onto-is_empty n (n / 10) _ [])
]
