-- ===== src/Operations/Runners/Job.antt =====
-- One call of a runner of src/operations.rs with its arguments, so that a statement covers all eight.
use pg_maintainer.Prelude.{List, [], map}
use pg_maintainer.Types.Options.{RunPolicy, VacuumOptions, OperationSummary}
use pg_maintainer.Types.Tables.{
  TableKey, TableInfo, FreezeTableInfo, BloatTableInfo, NeedsVacuumTableInfo,
  OverdueVacuumTableInfo, OverdueAnalyzeTableInfo,
}
use pg_maintainer.Session.{Float, Server, Action}
use pg_maintainer.Operations.Runners.{
  info_key, freeze_key, bloat_key, needs_key, overdue_vacuum_key, overdue_analyze_key,
  run_vacuum_never_vacuumed, run_freeze_wraparound, run_bloat_vacuum, run_needs_vacuum,
  run_vacuum_overdue, run_also_tables, run_analyze_never_analyzed, run_analyze_overdue,
}

-- The lists are the candidates and the set of handled tables; the first three runners take no such set.
pub data Job : Type 0 where
  vacuum_never_vacuumed : List TableInfo → Job
  analyze_never_analyzed : List TableInfo → Job
  freeze_wraparound : List FreezeTableInfo → Job
  bloat_vacuum : List BloatTableInfo → List TableKey → Job
  needs_vacuum : List NeedsVacuumTableInfo → List TableKey → Job
  vacuum_overdue : List OverdueVacuumTableInfo → List TableKey → Job
  analyze_overdue : List OverdueAnalyzeTableInfo → List TableKey → Job
  also_tables : List TableKey → List TableKey → Job

abbrev pub candidates : Job → List TableKey
candidates (vacuum_never_vacuumed ts) = map info_key ts
candidates (analyze_never_analyzed ts) = map info_key ts
candidates (freeze_wraparound ts) = map freeze_key ts
candidates (bloat_vacuum ts handled) = map bloat_key ts
candidates (needs_vacuum ts handled) = map needs_key ts
candidates (vacuum_overdue ts handled) = map overdue_vacuum_key ts
candidates (analyze_overdue ts handled) = map overdue_analyze_key ts
candidates (also_tables ts handled) = ts

abbrev pub handled_before : Job → List TableKey
handled_before (vacuum_never_vacuumed ts) = []
handled_before (analyze_never_analyzed ts) = []
handled_before (freeze_wraparound ts) = []
handled_before (bloat_vacuum ts handled) = handled
handled_before (needs_vacuum ts handled) = handled
handled_before (vacuum_overdue ts handled) = handled
handled_before (analyze_overdue ts handled) = handled
handled_before (also_tables ts handled) = handled

module _ {F W : Type 0} (float : Float F) (server : Server F W) (policy : RunPolicy)
    (v : VacuumOptions) where
  unfoldable pub run_job : Job → Action F W OperationSummary
  run_job (vacuum_never_vacuumed ts) = run_vacuum_never_vacuumed float server policy v ts
  run_job (analyze_never_analyzed ts) = run_analyze_never_analyzed float server policy ts
  run_job (freeze_wraparound ts) = run_freeze_wraparound float server policy v ts
  run_job (bloat_vacuum ts handled) = run_bloat_vacuum float server policy v ts handled
  run_job (needs_vacuum ts handled) = run_needs_vacuum float server policy v ts handled
  run_job (vacuum_overdue ts handled) = run_vacuum_overdue float server policy v ts handled
  run_job (analyze_overdue ts handled) = run_analyze_overdue float server policy ts handled
  run_job (also_tables ts handled) = run_also_tables float server policy v ts handled
