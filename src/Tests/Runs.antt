-- ===== src/Tests/Runs.antt =====
-- Runs of the runners of src/operations.rs on the sample server.
use pg_maintainer.Prelude.{
  false, true, ℕ, some, [], ◌∷◌, ◌↔◌, arith, codes, ◌+◌, ◌≤◌, ◌≡◌, ◌≢◌, refl, All, length, arith,
  ◌≤◌,
}
use pg_maintainer.Types.Options.{OperationSummary}
use pg_maintainer.Prelude.{is_empty, text_eq}
use pg_maintainer.Types.Tables.{key_mem}
use pg_maintainer.VacuumOutput.{estimate_dead_tuples_reduced}
use pg_maintainer.Session.{
  ok, no_fuel, ◌>>=◌, and_then, pure, gets, call, or_context, or_formatted, log, count_succeeded,
  count_skipped, set_summary, when◌then◌else◌,
}
use pg_maintainer.Operations.Active.{handle_active_vacuums, on_sessions}
use pg_maintainer.Operations.Statements.{
  plain_statement, vacuum_analyze_table, counted_statement, counted, log_maintenance_operation,
}
use pg_maintainer.Operations.Retry.{with_lock_timeout_retry, retry_loop, after_attempt}
use pg_maintainer.Operations.Reports.{report_positive, positive_line}
use pg_maintainer.Operations.Phase.{
  run_phase, table_loop, table_step, after_flow, after_gate, lag_verdicts, lag_verdict,
  after_verdict, maintain_table, now, on_reply, on_success, entry, connection_lost_error,
}
use pg_maintainer.Operations.Runners.{run_also_tables}
use pg_maintainer.Operations.Lag.Exceeds.{IsMaximum, SomeOver, exceeds_iff}
use pg_maintainer.Session.{StandbyLag}
use pg_maintainer.Operations.Lag.{
  exceeds, observed, no_replicas, unobservable, wait_for_replica_lag,
}
use pg_maintainer.Operations.Lag.Deadline.{wait_comes_to_an_end}
use pg_maintainer.Operations.Runners.Job.{candidates, run_job}
use pg_maintainer.Operations.Runners.Safety.{
  IsQuiet, IsOnTarget, IsNotTermination, dry_run-IsQuiet, statements-IsOnTarget,
  skip_active_never_terminates,
}
use pg_maintainer.Operations.Runners.Accounting.{counts_within_total, every_table_counted}
use pg_maintainer.Operations.Retry.Attempts.{sent, with_lock_timeout_retry_lem}
use pg_maintainer.Tests.{
  orders, seconds, calm_server, plain_policy, dry_policy, skip_policy, plain_options,
  one_minute_gate, start, two_tables,
}

dry_run-IsQuiet_example :
    All IsQuiet (run_job seconds calm_server dry_policy plain_options two_tables start).1.trace
dry_run-IsQuiet_example =
    dry_run-IsQuiet seconds calm_server dry_policy plain_options two_tables start refl tt

statements-IsOnTarget_example :
    All
      (IsOnTarget two_tables)
      (run_job seconds calm_server plain_policy plain_options two_tables start).1.trace
statements-IsOnTarget_example =
    statements-IsOnTarget seconds calm_server plain_policy plain_options two_tables start tt

skip_active_never_terminates_example :
    All IsNotTermination
      (run_job seconds calm_server skip_policy plain_options two_tables start).1.trace
skip_active_never_terminates_example =
    skip_active_never_terminates seconds calm_server skip_policy plain_options two_tables start refl
      tt

abbrev one_of_two : OperationSummary
one_of_two = record { total = 2; succeeded = 1; failed = 0; skipped = 1 }

returns_counted :
    (run_job seconds calm_server plain_policy plain_options two_tables start).0 ≡ ok one_of_two
unfolding run_job run_also_tables run_phase table_loop table_step after_flow after_gate lag_verdicts
    lag_verdict after_verdict maintain_table now on_reply on_success entry report_positive
    positive_line vacuum_analyze_table counted_statement counted with_lock_timeout_retry retry_loop
    after_attempt handle_active_vacuums on_sessions log_maintenance_operation connection_lost_error
    ◌>>=◌ and_then pure gets call or_context or_formatted log count_succeeded count_skipped
    set_summary when◌then◌else◌ is_empty key_mem text_eq estimate_dead_tuples_reduced
returns_counted = refl

every_table_counted_example :
    one_of_two.succeeded + one_of_two.failed + one_of_two.skipped ≡ length (candidates two_tables)
every_table_counted_example =
    every_table_counted seconds calm_server plain_policy plain_options two_tables start one_of_two
      refl (λ w. refl) (λ ns w. refl) returns_counted

counts_within_total_example :
    (one_of_two.total ≡ length (candidates two_tables))
    × (one_of_two.succeeded + one_of_two.failed + one_of_two.skipped ≤ one_of_two.total)
counts_within_total_example =
    counts_within_total seconds calm_server plain_policy plain_options two_tables start one_of_two
      returns_counted

wait_comes_to_an_end_example :
    (wait_for_replica_lag seconds calm_server one_minute_gate plain_policy start).0 ≢ no_fuel
wait_comes_to_an_end_example =
    wait_comes_to_an_end seconds calm_server
      (record {
        sleeps = λ ns w on. omega arith;
        can_read_forwards = λ w. omega arith;
        lag_forwards = λ w. omega arith;
      })
      one_minute_gate plain_policy start

with_lock_timeout_retry_example :
    (sent
        (with_lock_timeout_retry calm_server
          (counted_statement calm_server orders (codes "VACUUM"))
          plain_policy
          start).1.trace
      ≤ sent start.trace + (plain_policy.lock_timeout_retries + 1))
    × (sent
          (with_lock_timeout_retry calm_server
            (plain_statement calm_server orders (codes "VACUUM"))
            plain_policy
            start).1.trace
        ≤ sent start.trace + (plain_policy.lock_timeout_retries + 1))
with_lock_timeout_retry_example =
    with_lock_timeout_retry_lem calm_server orders (codes "VACUUM") plain_policy start

abbrev ten_seconds : StandbyLag ℕ
ten_seconds = record {
  application_name = codes "replica";
  state = codes "streaming";
  sync_state = codes "async";
  replay_lag_seconds = some 10;
}

seconds-IsMaximum : IsMaximum seconds
seconds-IsMaximum a b t = ground arith

abbrev five : ℕ
five = 5

exceeds_example :
    ((exceeds seconds (observed (ten_seconds ∷ [])) five ≡ true)
      ↔ SomeOver seconds five (ten_seconds ∷ []))
    × (exceeds seconds no_replicas five ≡ false)
    × (exceeds seconds unobservable five ≡ false)
exceeds_example = exceeds_iff seconds seconds-IsMaximum five refl (ten_seconds ∷ [])
