-- ===== src/Run.antt =====
-- The end of a run, src/main.rs and src/shutdown.rs: the totals over the phases and the exit code.
-- The sums are of table counts and do not reach the bound of `usize`.
pub mod Looks
pub mod ExitCode
pub mod Discovery
pub mod Phases
pub mod Safety
use pg_maintainer.Prelude.{ℕ, ◌+◌, Bool, true, false, List, [], ◌∷◌, ltb, if◌then◌else◌}
use pg_maintainer.Types.Options.{OperationSummary}
use pg_maintainer.DbError.{Failure, message, exit_code_for}

-- What `run` returns: a code, or the error that main reports.
pub data RunResult : Type 0 where
  code : ℕ → RunResult
  failure : Failure → RunResult

unfoldable pub total_failed : List OperationSummary → ℕ
total_failed [] = 0
total_failed (o ∷ os) = o.failed + total_failed os

-- After the last phase: 130 for a shutdown, an error for failed tables, else 0.
unfoldable pub finish : Bool → List OperationSummary → RunResult
finish shutdown summaries =
    if shutdown
    then code 130
    else if ltb 0 (total_failed summaries)
    then failure (message ∷ [])
    else code 0

-- shutdown::exit_code
unfoldable pub exit_code : Failure → Bool → ℕ
exit_code e shutdown_requested = if shutdown_requested then 130 else exit_code_for e

-- What `main` makes of the result; `requested` is shutdown::is_requested.
unfoldable pub exit_status : Bool → RunResult → ℕ
exit_status requested (code n) = n
exit_status requested (failure e) = exit_code e requested
