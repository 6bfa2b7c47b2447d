-- ===== src/VacuumOutput/Estimate.antt =====
-- Lemmas on estimate_dead_tuples_reduced of src/vacuum_output.rs.
use pg_maintainer.Prelude.{ℕ, ◌-◌, ◌^◌, ◌<◌, ◌≡◌, none, some, arith}
use pg_maintainer.Prelude.Int.{pos, ◌-ℤ◌}
use pg_maintainer.VacuumOutput.{saturating_sub, is_zero, estimate_dead_tuples_reduced}

-- For counts that an i64 holds, the estimate is the decrease where there is one, zero where the count
-- stayed and was not zero, and nothing where it grew or was zero.
pub estimate_dead_tuples_reduced_lem :
    (n_before n_after : ℕ)
    → n_before < 2 ^ 63
    → n_after < 2 ^ 63
    → (n_after < n_before
        → estimate_dead_tuples_reduced (pos n_before) (pos n_after)
          ≡ some (pos (n_before - n_after)))
      × (n_after ≡ n_before
          → 0 < n_before
          → estimate_dead_tuples_reduced (pos n_before) (pos n_after) ≡ some (pos 0))
      × (n_before < n_after → estimate_dead_tuples_reduced (pos n_before) (pos n_after) ≡ none)
      × (n_before ≡ 0 → estimate_dead_tuples_reduced (pos n_before) (pos n_after) ≡ none)
unfolding estimate_dead_tuples_reduced saturating_sub is_zero ◌-ℤ◌
estimate_dead_tuples_reduced_lem n_before n_after fits fits' = (
  λ less. ground (arith, less, fits),
  λ same positive. ground (arith, same, positive),
  λ more. ground (arith, more, fits, fits'),
  λ zero. ground (arith, zero, fits'),
)
