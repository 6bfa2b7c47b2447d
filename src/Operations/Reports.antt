-- ===== src/Operations/Reports.antt =====
-- What the runners of src/operations.rs log after a success, and before the loop.
pub mod Effects
use pg_maintainer.Prelude.{List, [], ◌∷◌, Option, none, some, if◌then◌else◌}
use pg_maintainer.Prelude.Int.{ℤ, pos, ltb_ℤ}
use pg_maintainer.Types.Options.{RunPolicy}
use pg_maintainer.Types.Tables.{FreezeTableInfo}
use pg_maintainer.Session.{when◌then◌else◌, Server, info, warning, Action, pure, ◌>>◌, log}
use pg_maintainer.VacuumOutput.{is_zero}
use pg_maintainer.Operations.Statements.{OperationResult}
use pg_maintainer.Operations.Horizon.{try_describe_blocker}

module _ {F W : Type 0} where
  unfoldable pub quiet : OperationResult → Action F W (Unit {0})
  quiet r = pure tt

  unfoldable pub change_line : Option ℤ → Action F W (Unit {0})
  change_line none = pure tt
  change_line (some n) = log (if is_zero n then warning else info)

  -- The reduction is logged; a reduction of zero is a warning.
  unfoldable pub report_change : OperationResult → Action F W (Unit {0})
  report_change r = change_line r.dead_tuples_reduced_approx

  unfoldable pub positive_line : Option ℤ → Action F W (Unit {0})
  positive_line none = pure tt
  positive_line (some n) = when ltb_ℤ (pos 0) n then log info else pure tt

  -- Only a reduction above zero is logged.
  unfoldable pub report_positive : OperationResult → Action F W (Unit {0})
  report_positive r = positive_line r.dead_tuples_reduced_approx

module _ {F W : Type 0} (server : Server F W) (policy : RunPolicy) where
  unfoldable pub blocked_line : Option ℤ → Action F W (Unit {0})
  blocked_line none = pure tt
  blocked_line (some n) =
      when is_zero n
      then (when policy.check_xmin_horizon
          then (try_describe_blocker server >> log warning)
          else log warning)
      else log info

  -- A reduction of zero also looks for what blocks the horizon.
  unfoldable pub report_blocked : OperationResult → Action F W (Unit {0})
  report_blocked r = blocked_line r.dead_tuples_reduced_approx

-- One warning for each wraparound candidate, before the loop.
unfoldable pub announce_each : {F W : Type 0} → List FreezeTableInfo → Action F W (Unit {0})
announce_each [] = pure tt
announce_each (t ∷ ts) = let rest = announce_each ts in log warning >> rest
