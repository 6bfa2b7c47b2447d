-- ===== src/Operations/Phase/Tally/Loop.antt =====
-- Lemmas on the counters in the loop of a runner, table by table, src/operations.rs.
use pg_maintainer.Prelude.{
  ℕ, zero, suc, ◌+◌, ◌≤◌, ◌≡◌, refl, Bool, true, false, List, [], ◌∷◌, length, Option, none, some,
  Text, arith,
}
use pg_maintainer.Types.Options.{RunPolicy, OperationSummary}
use pg_maintainer.Types.Tables.{TableKey}
use pg_maintainer.DbError.{describe_pg_error, PgError}
use pg_maintainer.Operations.Active.Effects.{stop_sessions_keeps, active_query_keeps}
use pg_maintainer.Session.{
  when◌then◌else◌, Float, Server, LogEntry, ReplicaLagGate, Reply, got, refused, Action, warning,
  success, error, info, pure,
}
use pg_maintainer.Session.Preserves.{Preserves}
use pg_maintainer.Session.Leads.{
  Leads, Leads-pure, Leads-raise, Leads-when, Leads-bind, Leads-gets, Leads-from,
}
use pg_maintainer.Session.Keeps.{Keeps-log, Leads-succeeded, Leads-failed, Leads-skipped}
use pg_maintainer.Operations.Allows.{calls_of_summary}
use pg_maintainer.Operations.Lag.{LagGateVerdict, proceed, skip_table, shutdown_requested}
use pg_maintainer.Operations.Lag.Signals.{Signalled, wait_for_replica_lag-Verdicts}
use pg_maintainer.Operations.Active.{stop_manual, on_sessions, handle_active_vacuums}
use pg_maintainer.Operations.Statements.{OperationResult, log_maintenance_operation}
use pg_maintainer.Operations.Statements.Effects.{record-Preserves}
use pg_maintainer.Operations.Retry.{
  OpErrorKind, lock_timeout, connection_lost, shutdown_interrupted, other,
}
use pg_maintainer.Operations.Retry.Effects.{with_lock_timeout_retry-Preserves}
use pg_maintainer.Operations.Phase.{
  Phase, Flow, next, stop, after_flow, connection_lost_error, lag_verdict, after_verdict,
  lag_verdicts, handle_shutdown_interrupt, on_table_error, on_kind, on_error, on_success, on_reply,
  now, maintain_table, after_gate, table_step, table_loop,
}
use pg_maintainer.Operations.Phase.Tally.{
  Tally, Within, Counted, Finished, LeadsTo, Finished-early, Finished-all, tally_next,
  interrupted-signal, AfterHandling, after, one-Counted, dry_next, goes_on, settles, skipped_next,
  skips, stops, weaken, weaken_next,
}

module _ {F W : Type 0} (float : Float F) (server : Server F W) (phase : Phase F W)
    (policy : RunPolicy)
    (on_maintain : (T : OperationSummary → Type 0) (t : TableKey)
      → Preserves (λ s. T s.summary) (phase.maintain t))
    (on_report : (T : OperationSummary → Type 0) (r : OperationResult)
      → Preserves (λ s. T s.summary) (phase.report r))
    (S : Type 0) (on_sleep : (ns : ℕ) (w : W) → (server.sleep ns w).0 ≡ true → S)
    (on_request : (w : W) → server.shutdown_requested w ≡ true → S) (n : ℕ) where
  module _ (k : ℕ) (room : k + 1 ≤ n) where
    lost_leads :
        (t : TableKey) (position : Option (ℕ × ℕ)) (cause : Text)
        → (LeadsTo policy S n)
            (Tally policy n k)
            (connection_lost_error float server phase policy t position cause)
            (Counted policy n k S)
    unfolding connection_lost_error
    lost_leads t position cause =
        (after policy S n k room) _ _ _ (Keeps-log _ error)
          (λ u. Leads-raise _ (weaken policy S n k room))

    recorded_keeps :
        (entry : LogEntry) (T : OperationSummary → Type 0)
        → Preserves (λ s. T s.summary) (log_maintenance_operation server policy entry)
    recorded_keeps entry T = record-Preserves server (calls_of_summary T) entry

    interrupt_leads :
        (t : TableKey) (ms : ℕ)
        → (LeadsTo policy S n)
            (Tally policy n k)
            (handle_shutdown_interrupt float server phase policy t ms)
            (λ u. Tally policy n (k + 1))
    unfolding handle_shutdown_interrupt
    interrupt_leads t ms = (after policy S n k room) _ _ _ (Keeps-log _ warning) λ said.
        Leads-bind _ _ (Leads-skipped (tally_next policy n k)) λ skipped.
          Leads-gets _ _ (λ b. Unit) (λ s. tt)
            λ closed u.
              Leads-when _ _ _ (λ gone. Leads-pure tt (λ s h. h))
                λ there. (settles policy S n k room) _ (recorded_keeps _)

    on_table_error_leads :
        (t : TableKey) (e : PgError) (ms : ℕ)
        → (LeadsTo policy S n)
            (Tally policy n k)
            (on_table_error float server phase policy t e ms)
            (Counted policy n k S)
    unfolding on_table_error
    on_table_error_leads t e ms =
        Leads-when _ _ _
          (λ timeout.
            Leads-bind _ _
              ((after policy S n k room) _ _ _ (Keeps-log _ warning)
                λ u. Leads-skipped (tally_next policy n k))
              λ u. (one-Counted policy S n k room))
          λ other_error. (after policy S n k room) _ _ _ (Keeps-log _ error) λ said.
            (after policy S n k room) _ _ _ (recorded_keeps _ _) λ written.
              Leads-bind _ _ (Leads-failed (tally_next policy n k))
                λ failed. (one-Counted policy S n k room)

    on_kind_leads :
        (t : TableKey) (position : Option (ℕ × ℕ)) (e : PgError) (ms : ℕ) (kind : OpErrorKind)
        → (kind ≡ shutdown_interrupted → S)
        → (LeadsTo policy S n)
            (Tally policy n k)
            (on_kind float server phase policy t position e ms kind)
            (Counted policy n k S)
    unfolding on_kind
    on_kind_leads t position e ms connection_lost signal =
        lost_leads t position (describe_pg_error e)
    on_kind_leads t position e ms shutdown_interrupted signal =
        Leads-bind _ _ (interrupt_leads t ms)
          λ u. Leads-pure stop (λ s h. ((weaken_next policy S n k room) s h, signal refl))
    on_kind_leads t position e ms lock_timeout signal = on_table_error_leads t e ms
    on_kind_leads t position e ms other signal = on_table_error_leads t e ms

    on_reply_leads :
        (t : TableKey) (position : Option (ℕ × ℕ)) (ms : ℕ) (r : Reply OperationResult)
        → (LeadsTo policy S n)
            (Tally policy n k)
            (on_reply float server phase policy t position ms r)
            (Counted policy n k S)
    unfolding on_reply on_success on_error
    on_reply_leads t position ms (got result) =
        (after policy S n k room) _ _ _ (Keeps-log _ success) λ said.
          (after policy S n k room) _ _ _ (on_report _ result) λ told.
            (after policy S n k room) _ _ _ (recorded_keeps _ _) λ written.
              Leads-bind _ _ (Leads-succeeded (tally_next policy n k))
                λ done. (one-Counted policy S n k room)
    on_reply_leads t position ms (refused e) =
        Leads-gets _ _ (λ b. b ≡ true → S) (λ s. on_request s.world)
          λ shutdown signal.
            on_kind_leads t position e ms _ λ kind. signal (interrupted-signal e shutdown kind)

    maintain_table_leads :
        (t : TableKey) (position : Option (ℕ × ℕ))
        → (LeadsTo policy S n)
            (Tally policy n k)
            (maintain_table float server phase policy t position)
            (Counted policy n k S)
    unfolding maintain_table now
    maintain_table_leads t position = Leads-when _ _ _ (dry_next policy S n k room) λ live.
        (after policy S n k room) _ _ _ (Keeps-log _ info) λ said.
          Leads-gets _ _ (λ b. Unit) (λ s. tt)
            λ started u.
              (after policy S n k room) _ _ _
                (with_lock_timeout_retry-Preserves server (calls_of_summary _) live
                  (phase.maintain t) (on_maintain _ t))
                λ reply.
                  Leads-gets _ _ (λ b. Unit) (λ s. tt) λ ended u'. on_reply_leads t position _ reply

    stop_manual_leads :
        (pids : List ℕ)
        → (LeadsTo policy S n)
            (Tally policy n k)
            (stop_manual server policy pids)
            (AfterHandling policy n k)
    unfolding stop_manual
    stop_manual_leads pids =
        Leads-when _ _ _ (λ none_there. Leads-pure true (λ s h. h))
          λ some_there.
            Leads-when _ _ _
              (λ forced. (goes_on policy S n k room) _ (stop_sessions_keeps server policy pids))
              (λ asked. (skips policy S n k room))

    handle_active_leads :
        (t : TableKey)
        → (LeadsTo policy S n)
            (Tally policy n k)
            (handle_active_vacuums server policy t)
            (AfterHandling policy n k)
    unfolding handle_active_vacuums on_sessions
    handle_active_leads t =
        (after policy S n k room) _ _ _ (active_query_keeps server t _) λ sessions.
          Leads-when _ _ _ (λ free. Leads-pure true (λ s h. h))
            λ busy.
              Leads-when _ _ _ (λ skip. (skips policy S n k room))
                λ stop_them.
                  (after policy S n k room) _ _ _ (stop_sessions_keeps server policy _ _)
                    λ stopped. stop_manual_leads _

    go_on_leads :
        (t : TableKey) (position : Option (ℕ × ℕ)) (go_on : Bool)
        → Leads
            (λ s. (AfterHandling policy n k) go_on s.summary)
            (when go_on then maintain_table float server phase policy t position else pure next)
            (λ f s. Counted policy n k S f s.summary)
            (λ s. Within n s.summary)
    unfolding when◌then◌else◌
    go_on_leads t position true = maintain_table_leads t position
    go_on_leads t position false = (one-Counted policy S n k room)

    after_gate_leads :
        (t : TableKey) (position : Option (ℕ × ℕ)) (v : LagGateVerdict)
        → Leads
            (λ s. Tally policy n k s.summary × Signalled S v)
            (after_gate float server phase policy t position v)
            (λ f s. Counted policy n k S f s.summary)
            (λ s. Within n s.summary)
    unfolding after_gate
    after_gate_leads t position proceed =
        Leads-from (λ s h. h.0) (Leads-bind _ _ (handle_active_leads t) (go_on_leads t position))
    after_gate_leads t position skip_table =
        Leads-from (λ s h. h.0) (skipped_next policy S n k room)
    after_gate_leads t position shutdown_requested =
        Leads-pure stop (λ s (h, signal). ((weaken policy S n k room) s h, signal))

    lag_verdict_leads :
        (g : Option (ReplicaLagGate F))
        → Leads
            (λ s. Tally policy n k s.summary)
            (lag_verdict float server phase policy g)
            (λ v s. Tally policy n k s.summary × Signalled S v)
            (λ s. Within n s.summary)
    unfolding lag_verdict
    lag_verdict_leads none = Leads-pure proceed (λ s h. (h, tt))
    lag_verdict_leads (some g) =
        wait_for_replica_lag-Verdicts float server (calls_of_summary (Tally policy n k))
          (weaken policy S n k room) on_sleep g

    after_verdict_leads :
        (more : Action F W LagGateVerdict)
        → Leads
            (λ s. Tally policy n k s.summary)
            more
            (λ v s. Tally policy n k s.summary × Signalled S v)
            (λ s. Within n s.summary)
        → (v : LagGateVerdict)
        → Leads
            (λ s. Tally policy n k s.summary × Signalled S v)
            (after_verdict float server phase policy more v)
            (λ v s. Tally policy n k s.summary × Signalled S v)
            (λ s. Within n s.summary)
    unfolding after_verdict
    after_verdict_leads more h proceed = Leads-from (λ s g. g.0) h
    after_verdict_leads more h skip_table = Leads-pure skip_table (λ s g. g)
    after_verdict_leads more h shutdown_requested = Leads-pure shutdown_requested (λ s g. g)

    lag_verdicts_leads :
        (checks : ℕ)
        → Leads
            (λ s. Tally policy n k s.summary)
            (lag_verdicts float server phase policy checks)
            (λ v s. Tally policy n k s.summary × Signalled S v)
            (λ s. Within n s.summary)
    unfolding lag_verdicts
    lag_verdicts_leads zero = Leads-pure proceed (λ s h. (h, tt))
    lag_verdicts_leads (suc checks) =
        Leads-bind _ _ (Leads-gets _ _ (λ g. Unit) (λ s. tt) λ g u. lag_verdict_leads g)
          (after_verdict_leads _ (lag_verdicts_leads checks))

    table_step_leads :
        (handled : List TableKey) (position : Option (ℕ × ℕ)) (t : TableKey)
        → (LeadsTo policy S n)
            (Tally policy n k)
            (table_step float server phase policy handled position t)
            (Counted policy n k S)
    unfolding table_step
    table_step_leads handled position t =
        Leads-gets _ _ (λ b. Unit) (λ s. tt)
          λ closed u.
            Leads-when _ _ _ (λ gone. lost_leads t position _)
              λ there.
                Leads-gets _ _ (λ b. b ≡ true → S) (λ s. on_request s.world)
                  λ shutdown signal.
                    Leads-when _ _ _
                      (λ down. (stops policy S n k room) (signal down) _ (λ T. Keeps-log T warning))
                      λ up.
                        Leads-when _ _ _
                          (λ seen.
                            Leads-bind _ _
                              ((after policy S n k room) _ _ _ (Keeps-log _ info)
                                λ said. Leads-skipped (tally_next policy n k))
                              (λ u'. (one-Counted policy S n k room)))
                          (λ fresh.
                            Leads-bind _ _ (lag_verdicts_leads phase.lag_checks)
                              (after_gate_leads t position))

  after_flow_leads :
      (k : ℕ)
      → k + 1 ≤ n
      → (rest : Action F W (Unit {0}))
      → (LeadsTo policy S n) (Tally policy n (k + 1)) rest (λ u. Finished policy S n)
      → (flow : Flow)
      → Leads
          (λ s. Counted policy n k S flow s.summary)
          (after_flow rest flow)
          (λ u s. Finished policy S n s.summary)
          (λ s. Within n s.summary)
  unfolding after_flow
  after_flow_leads k room rest h next = h
  after_flow_leads k room rest h stop = Leads-pure tt (λ s g. (Finished-early policy S n) _ g.0 g.1)

  pub table_loop_leads :
      (handled : List TableKey) (k : ℕ) (tables : List TableKey)
      → k + length tables ≡ n
      → (LeadsTo policy S n)
          (Tally policy n k)
          (table_loop float server phase policy handled k n tables)
          (λ u. Finished policy S n)
  unfolding table_loop
  table_loop_leads handled k [] all =
      Leads-pure tt (λ s h. (Finished-all policy S n) k (omega (arith, all)) _ h)
  table_loop_leads handled k (t ∷ ts) all =
      Leads-bind _ _ (table_step_leads k (omega (arith, all)) handled _ t) (
        after_flow_leads k (omega (arith, all)) _
          (table_loop_leads handled (k + 1) ts (omega (arith, all))))
