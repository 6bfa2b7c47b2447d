-- ===== src/Operations/Runners.antt =====
-- The eight runners of src/operations.rs, each as its own `Phase`.
pub mod Job
pub mod Effects
pub mod Safety
pub mod Accounting
use pg_maintainer.Prelude.{List, map, [], codes}
use pg_maintainer.Types.Options.{RunPolicy, VacuumOptions, OperationSummary}
use pg_maintainer.Types.Tables.{
  TableKey, TableInfo, FreezeTableInfo, BloatTableInfo, NeedsVacuumTableInfo,
  OverdueVacuumTableInfo, OverdueAnalyzeTableInfo,
}
use pg_maintainer.Session.{Float, Server, info, warning, Action, pure}
use pg_maintainer.Operations.Statements.{
  OperationResult, vacuum_table, analyze_table, freeze_table, vacuum_analyze_table,
}
use pg_maintainer.Operations.Reports.{
  quiet, report_change, report_positive, report_blocked, announce_each,
}
use pg_maintainer.Operations.Phase.{Phase, run_phase}

-- The key of a candidate, `(t.schema_name.clone(), t.table_name.clone())`.
abbrev pub info_key : TableInfo → TableKey
info_key t = record { schema = t.schema_name; table = t.table_name }

abbrev pub freeze_key : FreezeTableInfo → TableKey
freeze_key t = record { schema = t.schema_name; table = t.table_name }

abbrev pub bloat_key : BloatTableInfo → TableKey
bloat_key t = record { schema = t.schema_name; table = t.table_name }

abbrev pub needs_key : NeedsVacuumTableInfo → TableKey
needs_key t = record { schema = t.schema_name; table = t.table_name }

abbrev pub overdue_vacuum_key : OverdueVacuumTableInfo → TableKey
overdue_vacuum_key t = record { schema = t.schema_name; table = t.table_name }

abbrev pub overdue_analyze_key : OverdueAnalyzeTableInfo → TableKey
overdue_analyze_key t = record { schema = t.schema_name; table = t.table_name }

module _ {F W : Type 0} (float : Float F) (server : Server F W) (policy : RunPolicy)
    (v : VacuumOptions) where
  abbrev pub never_vacuumed_phase : Phase F W
  never_vacuumed_phase = record {
    label = codes "VACUUM";
    operation = codes "VACUUM";
    mode = codes "never-vacuumed";
    lag_checks = 1;
    maintain = vacuum_table server v;
    report = report_change;
  }

  unfoldable pub run_vacuum_never_vacuumed : List TableInfo → Action F W OperationSummary
  run_vacuum_never_vacuumed tables =
      run_phase float server never_vacuumed_phase policy [] info (pure tt) (map info_key tables)

  abbrev pub freeze_phase : Phase F W
  freeze_phase = record {
    label = codes "VACUUM FREEZE";
    operation = codes "FREEZE";
    mode = codes "prevent-wraparound";
    lag_checks = 1;
    maintain = freeze_table server v;
    report = quiet;
  }

  unfoldable pub run_freeze_wraparound : List FreezeTableInfo → Action F W OperationSummary
  unfolding announce_each quiet
  run_freeze_wraparound tables =
      run_phase float server freeze_phase policy [] warning (announce_each tables)
        (map freeze_key tables)

  abbrev pub bloat_phase : Phase F W
  bloat_phase = record {
    label = codes "VACUUM (BLOAT)";
    operation = codes "VACUUM";
    mode = codes "prevent-bloat";
    lag_checks = 1;
    maintain = vacuum_table server v;
    report = report_blocked server policy;
  }

  unfoldable pub run_bloat_vacuum :
      List BloatTableInfo → List TableKey → Action F W OperationSummary
  run_bloat_vacuum tables already_handled =
      run_phase float server bloat_phase policy already_handled info (pure tt)
        (map bloat_key tables)

  abbrev pub needs_vacuum_phase : Phase F W
  needs_vacuum_phase = record {
    label = codes "VACUUM (NEEDS VACUUM)";
    operation = codes "VACUUM";
    mode = codes "needs-vacuum";
    lag_checks = 1;
    maintain = vacuum_table server v;
    report = report_blocked server policy;
  }

  unfoldable pub run_needs_vacuum :
      List NeedsVacuumTableInfo → List TableKey → Action F W OperationSummary
  run_needs_vacuum tables already_vacuumed =
      run_phase float server needs_vacuum_phase policy already_vacuumed info (pure tt)
        (map needs_key tables)

  abbrev pub vacuum_overdue_phase : Phase F W
  vacuum_overdue_phase = record {
    label = codes "VACUUM (OVERDUE)";
    operation = codes "VACUUM";
    mode = codes "vacuum-overdue";
    lag_checks = 1;
    maintain = vacuum_table server v;
    report = quiet;
  }

  unfoldable pub run_vacuum_overdue :
      List OverdueVacuumTableInfo → List TableKey → Action F W OperationSummary
  run_vacuum_overdue tables already_vacuumed =
      run_phase float server vacuum_overdue_phase policy already_vacuumed info (pure tt)
        (map overdue_vacuum_key tables)

  -- The lag gate stands twice in this loop.
  abbrev pub also_tables_phase : Phase F W
  also_tables_phase = record {
    label = codes "VACUUM ANALYZE";
    operation = codes "VACUUM ANALYZE";
    mode = codes "also-tables";
    lag_checks = 2;
    maintain = vacuum_analyze_table server v;
    report = report_positive;
  }

  unfoldable pub run_also_tables : List TableKey → List TableKey → Action F W OperationSummary
  run_also_tables tables already_handled =
      run_phase float server also_tables_phase policy already_handled info (pure tt) tables

module _ {F W : Type 0} (float : Float F) (server : Server F W) (policy : RunPolicy) where
  abbrev pub never_analyzed_phase : Phase F W
  never_analyzed_phase = record {
    label = codes "ANALYZE";
    operation = codes "ANALYZE";
    mode = codes "never-analyzed";
    lag_checks = 1;
    maintain = analyze_table server;
    report = quiet;
  }

  unfoldable pub run_analyze_never_analyzed : List TableInfo → Action F W OperationSummary
  run_analyze_never_analyzed tables =
      run_phase float server never_analyzed_phase policy [] info (pure tt) (map info_key tables)

  abbrev pub analyze_overdue_phase : Phase F W
  analyze_overdue_phase = record {
    label = codes "ANALYZE (OVERDUE)";
    operation = codes "ANALYZE";
    mode = codes "analyze-overdue";
    lag_checks = 1;
    maintain = analyze_table server;
    report = quiet;
  }

  unfoldable pub run_analyze_overdue :
      List OverdueAnalyzeTableInfo → List TableKey → Action F W OperationSummary
  run_analyze_overdue tables already_analyzed =
      run_phase float server analyze_overdue_phase policy already_analyzed info (pure tt)
        (map overdue_analyze_key tables)
