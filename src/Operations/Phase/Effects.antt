-- ===== src/Operations/Phase/Effects.antt =====
-- Lemmas on what the loop of a runner calls, src/operations.rs.
use pg_maintainer.Prelude.{
  ℕ, zero, suc, ◌+◌, ◌≡◌, refl, false, List, [], ◌∷◌, length, Option, none, some, Text,
}
use mathlib.Core.List.{Memᴰ}
use pg_maintainer.Types.Options.{RunPolicy}
use pg_maintainer.Types.Tables.{key_mem, TableKey}
use pg_maintainer.DbError.{describe_pg_error, PgError}
use pg_maintainer.Session.{
  Float, Server, ReplicaLagGate, Event, Reply, got, refused, Action, LogLevel, info, success,
}
use pg_maintainer.Session.Preserves.{
  preserves_rules, Preserves-bind, Preserves-when, Preserves-pure, Preserves-gets,
}
use pg_maintainer.Session.Emits.{Emits, Emits-log, Emits-set_summary, emits_rules}
use pg_maintainer.Operations.Allows.{Allows, calls_of}
use pg_maintainer.Operations.Lag.{LagGateVerdict, proceed, skip_table, shutdown_requested}
use pg_maintainer.Operations.Lag.Effects.{wait_for_replica_lag-Preserves}
use pg_maintainer.Operations.Retry.Effects.{with_lock_timeout_retry-Preserves}
use pg_maintainer.Operations.Statements.Effects.{record-Preserves}
use pg_maintainer.Operations.Active.Effects.{handle_active_vacuums-Emits}
use pg_maintainer.Operations.Statements.{OperationResult}
use pg_maintainer.Operations.Retry.{
  OpErrorKind, lock_timeout, connection_lost, shutdown_interrupted, other,
}
use pg_maintainer.Operations.Phase.{
  Phase, Flow, next, stop, after_flow, connection_lost_error, lag_verdict, after_verdict,
  lag_verdicts, handle_shutdown_interrupt, on_table_error, on_kind, on_error, on_success, on_reply,
  now, maintain_table, after_gate, table_step, table_loop, run_phase,
}

module _ {F W : Type 0} {E : Event → Type 0} where
  after_flow-Emits :
      (rest : Action F W (Unit {0})) → Emits E rest → (flow : Flow) → Emits E (after_flow rest flow)
  unfolding after_flow
  after_flow-Emits rest h next = h
  after_flow-Emits rest h stop = Preserves-pure _

module _ {F W : Type 0} (float : Float F) (server : Server F W) {E : Event → Type 0}
    {policy : RunPolicy} (allows : Allows policy E) (phase : Phase F W)
    (on_report : (r : OperationResult) → Emits E (phase.report r)) where
  open allows use {on_log}

  lost-Emits :
      (t : TableKey) (position : Option (ℕ × ℕ)) (cause : Text)
      → Emits E (connection_lost_error float server phase policy t position cause)
  unfolding connection_lost_error
  lost-Emits t position cause = search (preserves_rules, emits_rules, on_log)

  lag_verdict-Emits :
      (g : Option (ReplicaLagGate F)) → Emits E (lag_verdict float server phase policy g)
  unfolding lag_verdict
  lag_verdict-Emits none = search preserves_rules
  lag_verdict-Emits (some g) = wait_for_replica_lag-Preserves float server (calls_of allows) g

  after_verdict-Emits :
      (more : Action F W LagGateVerdict)
      → Emits E more
      → (v : LagGateVerdict) → Emits E (after_verdict float server phase policy more v)
  unfolding after_verdict
  after_verdict-Emits more h proceed = h
  after_verdict-Emits more h skip_table = search preserves_rules
  after_verdict-Emits more h shutdown_requested = search preserves_rules

  lag_verdicts-Emits : (n : ℕ) → Emits E (lag_verdicts float server phase policy n)
  unfolding lag_verdicts
  lag_verdicts-Emits zero = search preserves_rules
  lag_verdicts-Emits (suc n) =
      Preserves-bind _ _ (Preserves-bind _ _ (Preserves-gets _) lag_verdict-Emits)
        (after_verdict-Emits _ (lag_verdicts-Emits n))

  interrupt-Emits :
      (t : TableKey) (ms : ℕ) → Emits E (handle_shutdown_interrupt float server phase policy t ms)
  unfolding handle_shutdown_interrupt
  interrupt-Emits t ms =
      search (preserves_rules, emits_rules, on_log, record-Preserves server (calls_of allows)) depth
        9

  on_table_error-Emits :
      (t : TableKey) (e : PgError) (ms : ℕ)
      → Emits E (on_table_error float server phase policy t e ms)
  unfolding on_table_error
  on_table_error-Emits t e ms =
      search (preserves_rules, emits_rules, on_log, record-Preserves server (calls_of allows)) depth
        9

  on_kind-Emits :
      (t : TableKey) (position : Option (ℕ × ℕ)) (e : PgError) (ms : ℕ) (k : OpErrorKind)
      → Emits E (on_kind float server phase policy t position e ms k)
  unfolding on_kind
  on_kind-Emits t position e ms connection_lost = lost-Emits t position (describe_pg_error e)
  on_kind-Emits t position e ms shutdown_interrupted = search (preserves_rules, interrupt-Emits)
  on_kind-Emits t position e ms lock_timeout = on_table_error-Emits t e ms
  on_kind-Emits t position e ms other = on_table_error-Emits t e ms

  on_reply-Emits :
      (t : TableKey) (position : Option (ℕ × ℕ)) (ms : ℕ) (r : Reply OperationResult)
      → Emits E (on_reply float server phase policy t position ms r)
  unfolding on_reply on_success on_error
  on_reply-Emits t position ms (got result) =
      search
        (preserves_rules, emits_rules, on_log, on_report, record-Preserves server (calls_of allows))
        depth 9
  on_reply-Emits t position ms (refused e) =
      Preserves-bind _ _ (Preserves-gets _) λ shutdown. on_kind-Emits t position e ms _

  maintain_table-Emits :
      (t : TableKey)
      → (policy.dry_run ≡ false → Emits E (phase.maintain t))
      → (position : Option (ℕ × ℕ)) → Emits E (maintain_table float server phase policy t position)
  unfolding maintain_table now
  maintain_table-Emits t on_maintain position =
      Preserves-when _ _ _ (λ dry. search (preserves_rules, emits_rules, on_log))
        λ live. Preserves-bind _ _ (Emits-log info (on_log info)) λ logged.
          Preserves-bind _ _ (Preserves-gets _) λ started.
            Preserves-bind _ _
              (with_lock_timeout_retry-Preserves server (calls_of allows) live (phase.maintain t)
                (on_maintain live))
              λ reply.
                Preserves-bind _ _ (Preserves-gets _) λ ended. on_reply-Emits t position _ reply

  after_gate-Emits :
      (t : TableKey)
      → (policy.dry_run ≡ false → Emits E (phase.maintain t))
      → (position : Option (ℕ × ℕ)) (v : LagGateVerdict)
      → Emits E (after_gate float server phase policy t position v)
  unfolding after_gate
  after_gate-Emits t on_maintain position proceed =
      Preserves-bind _ _ (handle_active_vacuums-Emits server allows t) λ go_on.
        Preserves-when _ _ _ (λ go. maintain_table-Emits t on_maintain position)
          λ no. Preserves-pure _
  after_gate-Emits t on_maintain position skip_table = search (preserves_rules, emits_rules)
  after_gate-Emits t on_maintain position shutdown_requested = search preserves_rules

  table_step-Emits :
      (handled : List TableKey) (position : Option (ℕ × ℕ)) (t : TableKey)
      → (policy.dry_run ≡ false → key_mem t handled ≡ false → Emits E (phase.maintain t))
      → Emits E (table_step float server phase policy handled position t)
  unfolding table_step
  table_step-Emits handled position t on_maintain = Preserves-bind _ _ (Preserves-gets _) λ closed.
      Preserves-when _ _ _ (λ gone. lost-Emits t position _)
        λ open_session. Preserves-bind _ _ (Preserves-gets _) λ shutdown.
          Preserves-when _ _ _ (λ down. search (preserves_rules, emits_rules, on_log))
            λ up.
              Preserves-when _ _ _ (λ seen. search (preserves_rules, emits_rules, on_log))
                λ fresh.
                  Preserves-bind _ _ (lag_verdicts-Emits phase.lag_checks)
                    (after_gate-Emits t (λ live. on_maintain live fresh) position)

  -- Every candidate that the loop maintains is one of its tables.
  table_loop-Emits :
      (handled : List TableKey) (i n : ℕ) (tables : List TableKey)
      → ((t : TableKey)
          → Memᴰ t tables
          → policy.dry_run ≡ false
          → key_mem t handled ≡ false
          → Emits E (phase.maintain t))
      → Emits E (table_loop float server phase policy handled i n tables)
  unfolding table_loop after_flow
  table_loop-Emits handled i n [] on_maintain = Preserves-pure _
  table_loop-Emits handled i n (t ∷ ts) on_maintain =
      Preserves-bind _ _
        (table_step-Emits handled (some (i + 1, n)) t (on_maintain t (Memᴰ.head refl)))
        (after_flow-Emits _
          (table_loop-Emits handled (i + 1) n ts λ u m. on_maintain u (Memᴰ.tail m)))

  pub run_phase-Emits :
      (handled : List TableKey) (found : LogLevel) (announce : Action F W (Unit {0}))
      (tables : List TableKey)
      → Emits E announce
      → ((t : TableKey)
          → Memᴰ t tables
          → policy.dry_run ≡ false
          → key_mem t handled ≡ false
          → Emits E (phase.maintain t))
      → Emits E (run_phase float server phase policy handled found announce tables)
  unfolding run_phase
  run_phase-Emits handled found announce tables on_announce on_maintain =
      Preserves-bind _ _ (Emits-set_summary _) λ reset.
        Preserves-bind _ _
          (Preserves-when _ _ _ (λ empty. Emits-log success (on_log success))
            λ full.
              Preserves-bind _ _
                (Preserves-bind _ _ (Emits-log found (on_log found)) (λ logged. on_announce))
                (λ said. table_loop-Emits handled 0 (length tables) tables on_maintain))
          λ done. Preserves-gets _
