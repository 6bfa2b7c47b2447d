-- ===== src/Operations/Statements.antt =====
-- The statements on one table in src/operations.rs: VACUUM, ANALYZE, VACUUM FREEZE, VACUUM (ANALYZE),
-- with the dead-tuple counts around them, and the logbook row.
pub mod Effects
use pg_maintainer.Prelude.{Option, none, some, Text, if◌then◌else◌}
use pg_maintainer.Prelude.Int.{ℤ, pos, ltb_ℤ}
use pg_maintainer.Types.Options.{RunPolicy, VacuumOptions}
use pg_maintainer.Types.Tables.{TableKey}
use pg_maintainer.VacuumOutput.{estimate_dead_tuples_reduced}
use pg_maintainer.Session.{
  when◌then◌else◌, Server, Reply, got, LogEntry, read, maintained, recorded, Action, pure, call,
  ◌>>◌, and_then,
}
use pg_maintainer.Operations.Sql.{vacuum_sql, freeze_sql, vacuum_analyze_sql, analyze_sql}

pub record OperationResult : Type 0 where
  pub dead_tuples_before : Option ℤ
  pub dead_tuples_reduced_approx : Option ℤ

abbrev pub no_counts : OperationResult
no_counts = record { dead_tuples_before = none; dead_tuples_reduced_approx = none }

-- The result of the functions that count dead tuples before and after.
unfoldable pub counted : ℤ → ℤ → OperationResult
counted dead_before dead_after = record {
  dead_tuples_before = if ltb_ℤ (pos 0) dead_before then some dead_before else none;
  dead_tuples_reduced_approx = estimate_dead_tuples_reduced dead_before dead_after;
}

module _ {F W : Type 0} (server : Server F W) where
  -- count, execute, count
  unfoldable pub counted_statement : TableKey → Text → Action F W (Reply OperationResult)
  counted_statement t sql = and_then (call read (server.dead_tuple_count t)) λ dead_before.
      and_then (call (maintained t sql) (server.execute sql)) λ _.
        and_then (call read (server.dead_tuple_count t))
          λ dead_after. pure (got (counted dead_before dead_after))

  unfoldable pub plain_statement : TableKey → Text → Action F W (Reply OperationResult)
  plain_statement t sql =
      and_then (call (maintained t sql) (server.execute sql)) λ _. pure (got no_counts)

  unfoldable pub vacuum_table : VacuumOptions → TableKey → Action F W (Reply OperationResult)
  vacuum_table v t = counted_statement t (vacuum_sql t.schema t.table v)

  unfoldable pub analyze_table : TableKey → Action F W (Reply OperationResult)
  analyze_table t = plain_statement t (analyze_sql t.schema t.table)

  unfoldable pub freeze_table : VacuumOptions → TableKey → Action F W (Reply OperationResult)
  freeze_table v t = plain_statement t (freeze_sql t.schema t.table v)

  unfoldable pub vacuum_analyze_table :
      VacuumOptions → TableKey → Action F W (Reply OperationResult)
  vacuum_analyze_table v t = counted_statement t (vacuum_analyze_sql t.schema t.table v)

  -- Nothing in a dry run; an error of the INSERT is ignored.
  unfoldable pub log_maintenance_operation : RunPolicy → LogEntry → Action F W (Unit {0})
  log_maintenance_operation policy entry =
      when policy.dry_run
      then pure tt
      else (call (recorded entry) (server.insert_log entry) >> pure tt)
