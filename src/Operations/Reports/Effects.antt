-- ===== src/Operations/Reports/Effects.antt =====
-- Lemmas on what the reports of src/operations.rs call.
use pg_maintainer.Prelude.{List, [], ◌∷◌, Option, none, some}
use pg_maintainer.Prelude.Int.{ℤ}
use pg_maintainer.Types.Tables.{FreezeTableInfo}
use pg_maintainer.Session.{Server, State, warning}
use pg_maintainer.Operations.Statements.{OperationResult}
use pg_maintainer.Operations.Horizon.{
  observe_xmin_horizon, describe_worst_xmin_blocker, try_describe_blocker,
}
use pg_maintainer.Operations.Reports.{
  quiet, change_line, positive_line, blocked_line, report_change, report_positive, report_blocked,
  announce_each,
}
use pg_maintainer.Types.Options.{RunPolicy}
use pg_maintainer.Session.Preserves.{Preserves, preserves_rules, Preserves-bind, Preserves-pure}
use pg_maintainer.Operations.Allows.{Calls}

module _ {F W : Type 0} (server : Server F W) {policy : RunPolicy} {P : State F W → Type 0}
    (calls : Calls server policy P) where
  open calls use {on_log, on_read}

  pub announce_each-Preserves : (ts : List FreezeTableInfo) → Preserves P (announce_each ts)
  unfolding announce_each
  announce_each-Preserves [] = Preserves-pure _
  announce_each-Preserves (t ∷ ts) =
      Preserves-bind _ _ (on_log warning) (λ said. announce_each-Preserves ts)

  pub quiet-Preserves : (r : OperationResult) → Preserves P (quiet r)
  unfolding quiet
  quiet-Preserves r = Preserves-pure _

  change_line-Preserves : (n : Option ℤ) → Preserves P (change_line n)
  unfolding change_line
  change_line-Preserves none = Preserves-pure _
  change_line-Preserves (some n) = on_log _

  pub report_change-Preserves : (r : OperationResult) → Preserves P (report_change r)
  unfolding report_change
  report_change-Preserves r = change_line-Preserves r.dead_tuples_reduced_approx

  positive_line-Preserves : (n : Option ℤ) → Preserves P (positive_line n)
  unfolding positive_line
  positive_line-Preserves none = Preserves-pure _
  positive_line-Preserves (some n) = search (preserves_rules, on_log)

  pub report_positive-Preserves : (r : OperationResult) → Preserves P (report_positive r)
  unfolding report_positive
  report_positive-Preserves r = positive_line-Preserves r.dead_tuples_reduced_approx

  observe_xmin_horizon-Preserves : Preserves P (observe_xmin_horizon server)
  unfolding observe_xmin_horizon
  observe_xmin_horizon-Preserves = search (preserves_rules, on_read) depth 9

  describe_worst-Preserves : Preserves P (describe_worst_xmin_blocker server)
  unfolding describe_worst_xmin_blocker
  describe_worst-Preserves =
      Preserves-bind _ _ observe_xmin_horizon-Preserves (λ o. Preserves-pure _)

  try_describe_blocker-Preserves : Preserves P (try_describe_blocker server)
  unfolding try_describe_blocker
  try_describe_blocker-Preserves = record { at = λ s h. describe_worst-Preserves.at s h }

  blocked_line-Preserves : (n : Option ℤ) → Preserves P (blocked_line server policy n)
  unfolding blocked_line
  blocked_line-Preserves none = Preserves-pure _
  blocked_line-Preserves (some n) =
      search (preserves_rules, on_log, try_describe_blocker-Preserves) depth 9

  pub report_blocked-Preserves :
      (r : OperationResult) → Preserves P (report_blocked server policy r)
  unfolding report_blocked
  report_blocked-Preserves r = blocked_line-Preserves r.dead_tuples_reduced_approx
