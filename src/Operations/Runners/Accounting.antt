-- ===== src/Operations/Runners/Accounting.antt =====
-- Lemmas on the summaries of the runners of src/operations.rs.
use pg_maintainer.Prelude.{ℕ, ◌+◌, ◌≤◌, ◌≡◌, inl, inr, true, false, length, arith}
use mathlib.Core.Path.{subst}
use pg_maintainer.Types.Options.{RunPolicy, VacuumOptions, OperationSummary}
use pg_maintainer.Types.Tables.{TableKey}
use pg_maintainer.Session.{Float, Server, State, Action, ok}
use pg_maintainer.Session.Preserves.{Preserves, Preserves-pure}
use pg_maintainer.Session.Keeps.{accounted, Keeps-call}
use pg_maintainer.Session.Leads.{Ends, Leads}
use pg_maintainer.Operations.Allows.{calls_of_summary}
use pg_maintainer.Operations.Statements.{
  vacuum_table, analyze_table, freeze_table, vacuum_analyze_table,
}
use pg_maintainer.Operations.Statements.Effects.{counted-Preserves, plain-Preserves}
use pg_maintainer.Operations.Reports.Effects.{
  quiet-Preserves, report_change-Preserves, report_positive-Preserves, report_blocked-Preserves,
  announce_each-Preserves,
}
use pg_maintainer.Operations.Phase.Tally.{Within, Finished}
use pg_maintainer.Operations.Phase.Tally.Summary.{run_phase_leads}
use pg_maintainer.Operations.Runners.{
  run_vacuum_never_vacuumed, run_freeze_wraparound, run_bloat_vacuum, run_needs_vacuum,
  run_vacuum_overdue, run_also_tables, run_analyze_never_analyzed, run_analyze_overdue,
}
use pg_maintainer.Operations.Runners.Job.{
  Job, vacuum_never_vacuumed, analyze_never_analyzed, freeze_wraparound, bloat_vacuum, needs_vacuum,
  vacuum_overdue, analyze_overdue, also_tables, candidates, run_job,
}

module _ {F W : Type 0} (server : Server F W) (policy : RunPolicy) (v : VacuumOptions)
    (T : OperationSummary → Type 0) (t : TableKey) where
  vacuum_keeps : Preserves (λ s. T s.summary) (vacuum_table server v t)
  unfolding vacuum_table
  vacuum_keeps =
      counted-Preserves server (calls_of_summary {policy = policy} T) t _ (Keeps-call T _ _)

  freeze_keeps : Preserves (λ s. T s.summary) (freeze_table server v t)
  unfolding freeze_table
  freeze_keeps =
      plain-Preserves server (calls_of_summary {policy = policy} T) t _ (Keeps-call T _ _)

  vacuum_analyze_keeps : Preserves (λ s. T s.summary) (vacuum_analyze_table server v t)
  unfolding vacuum_analyze_table
  vacuum_analyze_keeps =
      counted-Preserves server (calls_of_summary {policy = policy} T) t _ (Keeps-call T _ _)

  analyze_keeps : Preserves (λ s. T s.summary) (analyze_table server t)
  unfolding analyze_table
  analyze_keeps =
      plain-Preserves server (calls_of_summary {policy = policy} T) t _ (Keeps-call T _ _)

module _ {F W : Type 0} (float : Float F) (server : Server F W) (policy : RunPolicy)
    (v : VacuumOptions) (S : Type 0)
    (on_sleep : (ns : ℕ) (w : W) → (server.sleep ns w).0 ≡ true → S)
    (on_request : (w : W) → server.shutdown_requested w ≡ true → S) where
  run_job_leads :
      (j : Job)
      → Leads
          (λ s. Unit {0})
          (run_job float server policy v j)
          (λ o s. Finished policy S (length (candidates j)) o)
          (λ s. Within (length (candidates j)) s.summary)
  unfolding run_job run_vacuum_never_vacuumed run_freeze_wraparound run_bloat_vacuum
      run_needs_vacuum run_vacuum_overdue run_also_tables run_analyze_never_analyzed
      run_analyze_overdue
  run_job_leads (vacuum_never_vacuumed ts) =
      run_phase_leads float server _ policy (vacuum_keeps server policy v)
        (λ T. report_change-Preserves server (calls_of_summary {policy = policy} T)) S on_sleep
        on_request _ _ _ _ (λ T. Preserves-pure _)
  run_job_leads (analyze_never_analyzed ts) =
      run_phase_leads float server _ policy (analyze_keeps server policy v)
        (λ T. quiet-Preserves server (calls_of_summary {policy = policy} T)) S on_sleep on_request _
        _ _ _ (λ T. Preserves-pure _)
  run_job_leads (freeze_wraparound ts) =
      run_phase_leads float server _ policy (freeze_keeps server policy v)
        (λ T. quiet-Preserves server (calls_of_summary {policy = policy} T)) S on_sleep on_request _
        _ _ _ (λ T. announce_each-Preserves server (calls_of_summary {policy = policy} T) ts)
  run_job_leads (bloat_vacuum ts handled) =
      run_phase_leads float server _ policy (vacuum_keeps server policy v)
        (λ T. report_blocked-Preserves server (calls_of_summary {policy = policy} T)) S on_sleep
        on_request _ _ _ _ (λ T. Preserves-pure _)
  run_job_leads (needs_vacuum ts handled) =
      run_phase_leads float server _ policy (vacuum_keeps server policy v)
        (λ T. report_blocked-Preserves server (calls_of_summary {policy = policy} T)) S on_sleep
        on_request _ _ _ _ (λ T. Preserves-pure _)
  run_job_leads (vacuum_overdue ts handled) =
      run_phase_leads float server _ policy (vacuum_keeps server policy v)
        (λ T. quiet-Preserves server (calls_of_summary {policy = policy} T)) S on_sleep on_request _
        _ _ _ (λ T. Preserves-pure _)
  run_job_leads (analyze_overdue ts handled) =
      run_phase_leads float server _ policy (analyze_keeps server policy v)
        (λ T. quiet-Preserves server (calls_of_summary {policy = policy} T)) S on_sleep on_request _
        _ _ _ (λ T. Preserves-pure _)
  run_job_leads (also_tables ts handled) =
      run_phase_leads float server _ policy (vacuum_analyze_keeps server policy v)
        (λ T. report_positive-Preserves server (calls_of_summary {policy = policy} T)) S on_sleep
        on_request _ _ _ _ (λ T. Preserves-pure _)

module _ {F W : Type 0} (float : Float F) (server : Server F W) (policy : RunPolicy)
    (v : VacuumOptions) where
  ended :
      (S : Type 0) (n : ℕ) (m : Action F W OperationSummary)
      → Leads (λ s. Unit {0}) m (λ o s. Finished policy S n o) (λ s. Within n s.summary)
      → (s : State F W) (o : OperationSummary) → (m s).0 ≡ ok o
      → Finished policy S n o
  ended S n m h s o returned =
      subst (λ r. Ends (λ o s. Finished policy S n o) (λ s. Within n s.summary) r (m s).1) returned
        (h.at s tt)

  counted_exactly :
      (o : OperationSummary) (n : ℕ)
      → policy.dry_run ≡ false
      → Finished policy ⊥ n o
      → accounted o ≡ n
  counted_exactly o n live (within, inl exact) = exact live
  counted_exactly o n live (within, inr impossible) = elim impossible [ ]

  -- When a runner returns a summary, its total is the number of candidates, and no more tables are
  -- counted as succeeded, failed or skipped than there are, whatever the server answers.
  pub counts_within_total :
      (j : Job) (s : State F W) (o : OperationSummary)
      → (run_job float server policy v j s).0 ≡ ok o
      → (o.total ≡ length (candidates j)) × (o.succeeded + o.failed + o.skipped ≤ o.total)
  counts_within_total j s o returned =
      let (total, few) =
        (ended (Unit {0}) _ _
          (run_job_leads float server policy v _ (λ ns w cut. tt) (λ w down. tt) j) s o
          returned).0 in
      (total, omega (arith, few, total))

  -- Where no shutdown is requested and no sleep is cut short, a run that is not dry and returns a
  -- summary has counted each of its candidates exactly once.
  pub every_table_counted :
      (j : Job) (s : State F W) (o : OperationSummary)
      → policy.dry_run ≡ false
      → ((w : W) → server.shutdown_requested w ≡ false)
      → ((ns : ℕ) (w : W) → (server.sleep ns w).0 ≡ false)
      → (run_job float server policy v j s).0 ≡ ok o
      → o.succeeded + o.failed + o.skipped ≡ length (candidates j)
  every_table_counted j s o live no_request no_cut returned = counted_exactly o _ live (
      ended ⊥ _ _
        (run_job_leads float server policy v _ (λ ns w cut. ground (arith, no_cut ns w))
          (λ w down. ground (arith, no_request w)) j)
        s o returned)
