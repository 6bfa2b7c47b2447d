-- ===== src/Operations/Runners/Effects.antt =====
-- Lemmas on what the runners of src/operations.rs call.
use pg_maintainer.Prelude.{◌≡◌, false, some, Text, codes}
use mathlib.Core.List.{Memᴰ}
use pg_maintainer.Types.Options.{RunPolicy, VacuumOptions}
use pg_maintainer.Types.Tables.{key_mem, TableKey}
use pg_maintainer.Session.{Float, Server, Event, maintained}
use pg_maintainer.Session.Preserves.{Preserves-pure}
use pg_maintainer.Session.Emits.{Emits, Emits-call}
use pg_maintainer.Operations.Allows.{Allows, calls_of}
use pg_maintainer.Operations.Sql.Target.{
  read_vacuum_target, read_analyze_target, statements_target, statements_keyword, read_keyword,
}
use pg_maintainer.Operations.Statements.{
  vacuum_table, analyze_table, freeze_table, vacuum_analyze_table,
}
use pg_maintainer.Operations.Statements.Effects.{counted-Preserves, plain-Preserves}
use pg_maintainer.Operations.Reports.Effects.{
  quiet-Preserves, report_change-Preserves, report_positive-Preserves, report_blocked-Preserves,
  announce_each-Preserves,
}
use pg_maintainer.Operations.Phase.Effects.{run_phase-Emits}
use pg_maintainer.Operations.Runners.{
  run_vacuum_never_vacuumed, run_freeze_wraparound, run_bloat_vacuum, run_needs_vacuum,
  run_vacuum_overdue, run_also_tables, run_analyze_never_analyzed, run_analyze_overdue,
}
use pg_maintainer.Operations.Runners.Job.{
  Job, vacuum_never_vacuumed, analyze_never_analyzed, freeze_wraparound, bloat_vacuum, needs_vacuum,
  vacuum_overdue, analyze_overdue, also_tables, candidates, handled_before, run_job,
}

-- The SQL text reads as a VACUUM of the table.
abbrev pub IsVacuumOn : TableKey → Text → Type 0
IsVacuumOn t sql =
    (read_keyword sql ≡ codes "VACUUM") × (read_vacuum_target sql ≡ some (t.schema, t.table))

-- The SQL text reads as an ANALYZE of the table.
abbrev pub IsAnalyzeOn : TableKey → Text → Type 0
IsAnalyzeOn t sql =
    (read_keyword sql ≡ codes "ANALYZE") × (read_analyze_target sql ≡ some (t.schema, t.table))

-- The statement of each runner.
abbrev pub IsStatementOf : Job → TableKey → Text → Type 0
IsStatementOf (vacuum_never_vacuumed ts) = IsVacuumOn
IsStatementOf (analyze_never_analyzed ts) = IsAnalyzeOn
IsStatementOf (freeze_wraparound ts) = IsVacuumOn
IsStatementOf (bloat_vacuum ts handled) = IsVacuumOn
IsStatementOf (needs_vacuum ts handled) = IsVacuumOn
IsStatementOf (vacuum_overdue ts handled) = IsVacuumOn
IsStatementOf (analyze_overdue ts handled) = IsAnalyzeOn
IsStatementOf (also_tables ts handled) = IsVacuumOn

module _ {F W : Type 0} (server : Server F W) {E : Event → Type 0} {policy : RunPolicy}
    (allows : Allows policy E) where
  vacuum_table-Emits :
      (v : VacuumOptions) (t : TableKey)
      → ((sql : Text) → IsVacuumOn t sql → E (maintained t sql))
      → Emits E (vacuum_table server v t)
  unfolding vacuum_table
  vacuum_table-Emits v t h = counted-Preserves server (calls_of allows) t _ (
      Emits-call _ _
        (h _ ((statements_keyword t.schema t.table v).0, (statements_target t.schema t.table v).0)))

  freeze_table-Emits :
      (v : VacuumOptions) (t : TableKey)
      → ((sql : Text) → IsVacuumOn t sql → E (maintained t sql))
      → Emits E (freeze_table server v t)
  unfolding freeze_table
  freeze_table-Emits v t h = plain-Preserves server (calls_of allows) t _ (
      Emits-call _ _
        (h _ ((statements_keyword t.schema t.table v).1, (statements_target t.schema t.table v).1)))

  vacuum_analyze_table-Emits :
      (v : VacuumOptions) (t : TableKey)
      → ((sql : Text) → IsVacuumOn t sql → E (maintained t sql))
      → Emits E (vacuum_analyze_table server v t)
  unfolding vacuum_analyze_table
  vacuum_analyze_table-Emits v t h = counted-Preserves server (calls_of allows) t _ (
      Emits-call _ _
        (h _ ((statements_keyword t.schema t.table v).2, (statements_target t.schema t.table v).2)))

  analyze_table-Emits :
      (v : VacuumOptions) (t : TableKey)
      → ((sql : Text) → IsAnalyzeOn t sql → E (maintained t sql))
      → Emits E (analyze_table server t)
  unfolding analyze_table
  analyze_table-Emits v t h = plain-Preserves server (calls_of allows) t _ (
      Emits-call _ _
        (h _ ((statements_keyword t.schema t.table v).3, (statements_target t.schema t.table v).3)))

module _ {F W : Type 0} (float : Float F) (server : Server F W) {E : Event → Type 0}
    {policy : RunPolicy} (allows : Allows policy E) where
  -- The runner's statement on a candidate that is not in its set of handled tables, outside a dry run.
  abbrev pub OnStatement : Job → Type 0
  OnStatement j =
      (t : TableKey)
      → Memᴰ t (candidates j)
      → policy.dry_run ≡ false
      → key_mem t (handled_before j) ≡ false
      → (sql : Text) → IsStatementOf j t sql
      → E (maintained t sql)

  pub run_job-Emits :
      (v : VacuumOptions) (j : Job) → OnStatement j → Emits E (run_job float server policy v j)
  unfolding run_job run_vacuum_never_vacuumed run_freeze_wraparound run_bloat_vacuum
      run_needs_vacuum run_vacuum_overdue run_also_tables run_analyze_never_analyzed
      run_analyze_overdue
  run_job-Emits v (vacuum_never_vacuumed ts) h =
      run_phase-Emits float server allows _ (report_change-Preserves server (calls_of allows)) _ _ _
        _ (Preserves-pure _)
        λ t m live fresh. vacuum_table-Emits server allows v t (h t m live fresh)
  run_job-Emits v (analyze_never_analyzed ts) h =
      run_phase-Emits float server allows _ (quiet-Preserves server (calls_of allows)) _ _ _ _
        (Preserves-pure _)
        λ t m live fresh. analyze_table-Emits server allows v t (h t m live fresh)
  run_job-Emits v (freeze_wraparound ts) h =
      run_phase-Emits float server allows _ (quiet-Preserves server (calls_of allows)) _ _ _ _
        (announce_each-Preserves server (calls_of allows) ts)
        λ t m live fresh. freeze_table-Emits server allows v t (h t m live fresh)
  run_job-Emits v (bloat_vacuum ts handled) h =
      run_phase-Emits float server allows _ (report_blocked-Preserves server (calls_of allows)) _ _
        _ _ (Preserves-pure _)
        λ t m live fresh. vacuum_table-Emits server allows v t (h t m live fresh)
  run_job-Emits v (needs_vacuum ts handled) h =
      run_phase-Emits float server allows _ (report_blocked-Preserves server (calls_of allows)) _ _
        _ _ (Preserves-pure _)
        λ t m live fresh. vacuum_table-Emits server allows v t (h t m live fresh)
  run_job-Emits v (vacuum_overdue ts handled) h =
      run_phase-Emits float server allows _ (quiet-Preserves server (calls_of allows)) _ _ _ _
        (Preserves-pure _) λ t m live fresh. vacuum_table-Emits server allows v t (h t m live fresh)
  run_job-Emits v (analyze_overdue ts handled) h =
      run_phase-Emits float server allows _ (quiet-Preserves server (calls_of allows)) _ _ _ _
        (Preserves-pure _)
        λ t m live fresh. analyze_table-Emits server allows v t (h t m live fresh)
  run_job-Emits v (also_tables ts handled) h =
      run_phase-Emits float server allows _ (report_positive-Preserves server (calls_of allows)) _ _
        _ _ (Preserves-pure _)
        λ t m live fresh. vacuum_analyze_table-Emits server allows v t (h t m live fresh)
