-- ===== src/Operations/Phase.antt =====
-- The loop that every runner of src/operations.rs makes over its candidates. The eight runners are
-- one loop written out eight times; what differs between them is the record `Phase`.
pub mod Effects
pub mod Tally
use pg_maintainer.Prelude.{
  ℕ, zero, suc, ◌+◌, ◌-◌, ◌/◌, ◌^◌, Bool, true, false, ◌&&◌, List, [], ◌∷◌, Option, none, some,
  length, is_empty, Text, codes, text_eq, if◌then◌else◌,
}
use pg_maintainer.Types.Options.{RunPolicy, OperationSummary}
use pg_maintainer.Types.Tables.{TableKey, key_mem}
use pg_maintainer.DbError.{describe_pg_error, PgError, lost}
use pg_maintainer.Session.{
  when◌then◌else◌, Float, Server, ReplicaLagGate, Reply, got, refused, LogEntry, LogLevel, info,
  success, warning, error, Action, pure, raise, gets, ◌>>=◌, ◌>>◌, log, count_succeeded,
  count_failed, count_skipped, set_summary,
}
use pg_maintainer.Operations.Lag.{
  LagGateVerdict, proceed, skip_table, shutdown_requested, wait_for_replica_lag,
}
use pg_maintainer.Operations.Active.{handle_active_vacuums}
use pg_maintainer.Operations.Statements.{OperationResult, log_maintenance_operation}
use pg_maintainer.Operations.Retry.{
  OpErrorKind, lock_timeout, connection_lost, shutdown_interrupted, other, is_lock_timeout,
  classify_op_error, with_lock_timeout_retry,
}

-- How the loop goes on after a table: `continue` or `break`.
pub data Flow : Type 0 where
  next stop : Flow

pub record Phase (F W : Type 0) : Type 0 where
  -- the OP_* label of log lines and of a lost connection
  pub label : Text
  -- `operation` and `mode` of the logbook
  pub operation : Text
  pub mode : Text
  -- how often a table goes through the lag gate
  pub lag_checks : ℕ
  -- the statement
  pub maintain : TableKey → Action F W (Reply OperationResult)
  -- the log lines about dead tuples after a success
  pub report : OperationResult → Action F W (Unit {0})

abbrev pub started_with : ℕ → OperationSummary
started_with n = record { total = n; succeeded = 0; failed = 0; skipped = 0 }

module _ {F W : Type 0} where
  -- `continue` goes on to the rest of the loop, `break` leaves it.
  unfoldable pub after_flow : Action F W (Unit {0}) → Flow → Action F W (Unit {0})
  after_flow rest next = rest
  after_flow rest stop = pure tt

module _ {F W : Type 0} (float : Float F) (server : Server F W) (phase : Phase F W)
    (policy : RunPolicy) where
  -- A lost connection is logged once and ends the run.
  unfoldable pub connection_lost_error : TableKey → Option (ℕ × ℕ) → Text → Action F W Flow
  connection_lost_error t position cause =
      log error
      >> raise (
          lost (record {
            operation = phase.label;
            schema = t.schema;
            table = t.table;
            position = position;
            cause = cause;
          })
          ∷ [])

  unfoldable pub lag_verdict : Option (ReplicaLagGate F) → Action F W LagGateVerdict
  lag_verdict none = pure proceed
  lag_verdict (some gate) = wait_for_replica_lag float server gate policy

  -- the next check, if there is one, after a verdict
  unfoldable pub after_verdict :
      Action F W LagGateVerdict → LagGateVerdict → Action F W LagGateVerdict
  after_verdict more proceed = more
  after_verdict more skip_table = pure skip_table
  after_verdict more shutdown_requested = pure shutdown_requested

  unfoldable pub lag_verdicts : ℕ → Action F W LagGateVerdict
  lag_verdicts zero = pure proceed
  lag_verdicts (suc n) =
      let more = lag_verdicts n in gets (λ s. s.lag_gate) >>= lag_verdict >>= after_verdict more

  unfoldable pub entry : TableKey → Text → OperationResult → ℕ → Option Text → LogEntry
  entry t status result duration_ms message = record {
    schema = t.schema;
    table = t.table;
    operation = phase.operation;
    mode = phase.mode;
    status = status;
    dead_tuples_before = result.dead_tuples_before;
    dead_tuples_reduced_approx = result.dead_tuples_reduced_approx;
    duration_ms = duration_ms;
    error_message = message;
  }

  abbrev pub no_result : OperationResult
  no_result = record { dead_tuples_before = none; dead_tuples_reduced_approx = none }

  -- The logbook row is written only if the session survived.
  unfoldable pub handle_shutdown_interrupt : TableKey → ℕ → Action F W (Unit {0})
  handle_shutdown_interrupt t duration_ms = do
    log warning
    count_skipped
    closed ← gets (λ s. server.is_closed s.world)
    when closed
        then pure tt
        else log_maintenance_operation server policy (
            entry t (codes "cancelled") no_result duration_ms
              (some (codes "cancelled by shutdown")))

  -- A failed statement that does not end the loop.
  unfoldable pub on_table_error : TableKey → PgError → ℕ → Action F W Flow
  on_table_error t e duration_ms =
      when is_lock_timeout e then (log warning >> count_skipped >> pure next) else do
        log error
        log_maintenance_operation server policy
            (entry t (codes "error") no_result duration_ms (some e.message))
        count_failed
        pure next

  unfoldable pub on_kind : TableKey → Option (ℕ × ℕ) → PgError → ℕ → OpErrorKind → Action F W Flow
  on_kind t position e duration_ms connection_lost =
      connection_lost_error t position (describe_pg_error e)
  on_kind t position e duration_ms shutdown_interrupted =
      handle_shutdown_interrupt t duration_ms >> pure stop
  on_kind t position e duration_ms lock_timeout = on_table_error t e duration_ms
  on_kind t position e duration_ms other = on_table_error t e duration_ms

  unfoldable pub on_error : TableKey → Option (ℕ × ℕ) → PgError → ℕ → Action F W Flow
  on_error t position e duration_ms = do
    shutdown ← gets (λ s. server.shutdown_requested s.world)
    on_kind t position e duration_ms (classify_op_error e shutdown)

  unfoldable pub on_success : TableKey → OperationResult → ℕ → Action F W Flow
  on_success t result duration_ms = do
    log success
    phase.report result
    log_maintenance_operation server policy (entry t (codes "success") result duration_ms none)
    count_succeeded
    pure next

  unfoldable pub on_reply : TableKey → Option (ℕ × ℕ) → ℕ → Reply OperationResult → Action F W Flow
  on_reply t position duration_ms (got result) = on_success t result duration_ms
  on_reply t position duration_ms (refused e) = on_error t position e duration_ms

  unfoldable pub now : Action F W ℕ
  now = gets (λ s. server.now_ns s.world)

  -- The statement, with its retries, and what follows it.
  unfoldable pub maintain_table : TableKey → Option (ℕ × ℕ) → Action F W Flow
  maintain_table t position = when policy.dry_run then (log info >> pure next) else do
    log info
    started ← now
    reply ← with_lock_timeout_retry server (phase.maintain t) policy
    ended ← now
    on_reply t position ((ended - started) / 10 ^ 6) reply

  unfoldable pub after_gate : TableKey → Option (ℕ × ℕ) → LagGateVerdict → Action F W Flow
  after_gate t position proceed = do
    go_on ← handle_active_vacuums server policy t
    when go_on then maintain_table t position else pure next
  after_gate t position skip_table = count_skipped >> pure next
  after_gate t position shutdown_requested = pure stop

  -- One round of the loop.
  unfoldable pub table_step : List TableKey → Option (ℕ × ℕ) → TableKey → Action F W Flow
  table_step handled position t = do
    closed ← gets (λ s. server.is_closed s.world)
    when closed then connection_lost_error t position (codes "connection closed") else do
      shutdown ← gets (λ s. server.shutdown_requested s.world)
      when shutdown
          then (log warning >> pure stop)
          else when key_mem t handled
          then (log info >> count_skipped >> pure next)
          else (lag_verdicts phase.lag_checks >>= after_gate t position)

  -- `i` tables are behind the loop, of `n`.
  unfoldable pub table_loop : List TableKey → ℕ → ℕ → List TableKey → Action F W (Unit {0})
  table_loop handled i n [] = pure tt
  table_loop handled i n (t ∷ ts) =
      let rest = table_loop handled (i + 1) n ts in
      table_step handled (some (i + 1, n)) t >>= after_flow rest

  -- The summary starts anew, and is what the runner returns.
  unfoldable pub run_phase :
      List TableKey → LogLevel → Action F W (Unit {0}) → List TableKey → Action F W OperationSummary
  run_phase handled found announce tables = do
    set_summary (started_with (length tables))
    when is_empty tables
        then log success
        else (log found >> announce >> table_loop handled 0 (length tables) tables)
    gets (λ s. s.summary)
