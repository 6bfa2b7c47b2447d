-- ===== src/Run/ExitCode.antt =====
-- Lemmas on the exit code of a run, src/main.rs.
use pg_maintainer.Prelude.{◌≡◌, ◌↔◌, refl, Bool, true, false, List, [], ◌∷◌, All, arith}
use pg_maintainer.Types.Options.{OperationSummary}
use pg_maintainer.DbError.{is_cause_lost, is_connection_lost, message, exit_code_for}
use pg_maintainer.Run.{total_failed, finish, exit_code, exit_status}

-- No phase counted a failed table.
abbrev pub NoFailures : List OperationSummary → Type 0
NoFailures os = All (λ o. o.failed ≡ 0) os

total_failed_iff : (os : List OperationSummary) → (total_failed os ≡ 0) ↔ NoFailures os
unfolding total_failed
total_failed_iff [] = ground arith
total_failed_iff (o ∷ os) = ground (arith, total_failed_iff os)

plain_error : exit_code_for (message ∷ []) ≡ 1
unfolding exit_code_for is_connection_lost is_cause_lost
plain_error = refl

-- A run whose phases all came to an end exits with 0 exactly if no shutdown was seen and no phase
-- counted a failed table, with 130 if one was seen, and otherwise with 1, or 130 if a signal came
-- after the last look.
pub exit_status-finish :
    (shutdown requested : Bool) (os : List OperationSummary)
    → ((exit_status requested (finish shutdown os) ≡ 0) ↔ ((shutdown ≡ false) × NoFailures os))
      × (shutdown ≡ true → exit_status requested (finish shutdown os) ≡ 130)
      × (shutdown ≡ false
          → (¬ NoFailures os)
          → requested ≡ false
          → exit_status requested (finish shutdown os) ≡ 1)
      × (shutdown ≡ false
          → (¬ NoFailures os)
          → requested ≡ true
          → exit_status requested (finish shutdown os) ≡ 130)
unfolding exit_status finish exit_code
exit_status-finish true requested os = ground arith
exit_status-finish false true os = ground (arith, total_failed_iff os)
exit_status-finish false false os = ground (arith, total_failed_iff os, plain_error)
