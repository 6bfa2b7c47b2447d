-- ===== src/Prelude/Results.antt =====
-- Rust's `Result`.
use mathlib.Core.Path.{◌≡◌, refl}
use native.Mathlib.Omega.{arith}

pub data Result (E A : Type 0) : Type 0 where
  done : A → Result E A
  error : E → Result E A

-- `?`
unfoldable pub and_then : {E A B : Type 0} → Result E A → (A → Result E B) → Result E B
and_then (done a) k = k a
and_then (error e) k = error e

pub and_then_done :
    {E A B : Type 0} (r : Result E A) (k : A → Result E B) (b : B)
    → and_then r k ≡ done b
    → (a : A) × (r ≡ done a) × (k a ≡ done b)
unfolding and_then
and_then_done (done a) k b h = (a, refl, h)
and_then_done (error e) k b h = ground arith
