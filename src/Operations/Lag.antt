-- ===== src/Operations/Lag.antt =====
-- The replication-lag gate: LagObservation and ReplicaLagGate of src/types.rs, observe_replica_lag and
-- wait_for_replica_lag of src/operations.rs.
pub mod Effects
pub mod Signals
pub mod Deadline
pub mod Exceeds
use pg_maintainer.Prelude.{
  ℕ, zero, suc, ◌+◌, ◌-◌, ◌*◌, ◌/◌, ◌%◌, ◌^◌, max, min, Bool, true, false, List, [], ◌∷◌, Option,
  none, some, length, is_empty, ◌==◌, leb, unwrap_or, if◌then◌else◌,
}
use pg_maintainer.Types.Options.{RunPolicy}
use pg_maintainer.Session.{
  when◌then◌else◌, Float, Server, StandbyLag, ReplicaLagGate, read, info, warning, Action, pure,
  stuck, gets, call, or_context, ◌>>=◌, ◌>>◌, log, modify_gate, sleep_or_shutdown,
}

pub data LagObservation (F : Type 0) : Type 0 where
  no_replicas : LagObservation F
  unobservable : LagObservation F
  observed : List (StandbyLag F) → LagObservation F

pub data LagGateVerdict : Type 0 where
  proceed skip_table shutdown_requested : LagGateVerdict

module _ {F : Type 0} (float : Float F) where
  -- `.map(|s| s.replay_lag_seconds.unwrap_or(0.0)).fold(acc, f64::max)`
  unfoldable pub fold_lag : F → List (StandbyLag F) → F
  fold_lag acc [] = acc
  fold_lag acc (s ∷ rest) =
      fold_lag (float.max acc (unwrap_or s.replay_lag_seconds float.zero_seconds)) rest

  unfoldable pub max_lag_seconds : LagObservation F → Option F
  unfolding fold_lag
  max_lag_seconds no_replicas = some float.zero_seconds
  max_lag_seconds unobservable = none
  max_lag_seconds (observed standbys) = some (fold_lag float.zero_seconds standbys)

  unfoldable pub exceeds : LagObservation F → F → Bool
  unfolding max_lag_seconds
  exceeds o threshold = elim (max_lag_seconds o) [ some m ↦ float.gt m threshold | none ↦ false ]

module _ {F : Type 0} where
  unfoldable pub standby_count : LagObservation F → ℕ
  standby_count (observed standbys) = length standbys
  standby_count _ = 0

abbrev pub second_ns : ℕ
second_ns = 10 ^ 9

module _ {F : Type 0} where
  -- `ReplicaLagGate::new`
  unfoldable pub new_gate : F → ℕ → ReplicaLagGate F
  new_gate threshold max_wait = record {
    threshold_seconds = threshold;
    max_wait_seconds = max_wait;
    poll_interval_seconds = 5;
    disabled = false;
    total_waited_ms = 0;
    tables_skipped = 0;
  }

  unfoldable pub disable : ReplicaLagGate F → ReplicaLagGate F
  disable g = record g { disabled = true }

  -- `fetch_add` on an `AtomicU64`
  unfoldable pub add_waited : ℕ → ReplicaLagGate F → ReplicaLagGate F
  add_waited elapsed_ns g = record g {
    total_waited_ms = (g.total_waited_ms + elapsed_ns / 10 ^ 6) % 2 ^ 64;
  }

  -- `fetch_add` on an `AtomicUsize`
  unfoldable pub record_skip : ReplicaLagGate F → ReplicaLagGate F
  record_skip g = record g { tables_skipped = (g.tables_skipped + 1) % 2 ^ 64 }

unfoldable pub is_spent : ℕ → Bool
is_spent remaining = remaining == 0

module _ {F : Type 0} where
  -- `deadline.saturating_sub(started.elapsed())`
  unfoldable pub remaining : ReplicaLagGate F → ℕ → ℕ
  remaining gate waited = gate.max_wait_seconds * second_ns - waited

  unfoldable pub has_expired : ReplicaLagGate F → ℕ → Bool
  has_expired gate waited = leb (gate.max_wait_seconds * second_ns) waited

  -- Enough rounds for the deadline: each takes a second or reaches the deadline.
  abbrev pub wait_fuel : ReplicaLagGate F → ℕ
  wait_fuel gate = gate.max_wait_seconds + 2

module _ {F W : Type 0} (server : Server F W) where
  unfoldable pub observation_of : List (StandbyLag F) → LagObservation F
  observation_of rows = if is_empty rows then no_replicas else observed rows

  -- the second query is made only if the first says that the view can be read
  unfoldable pub observe_replica_lag : Action F W (LagObservation F)
  observe_replica_lag = do
    can_read ← call read server.can_read_replication >>= or_context
    when can_read
        then (call read server.replication_lag >>= or_context >>= λ rows.
            pure (observation_of rows))
        else pure unobservable

  unfoldable pub elapsed : ℕ → Action F W ℕ
  elapsed started = gets (λ s. server.now_ns s.world - started)

  unfoldable pub give_up : ℕ → Action F W LagGateVerdict
  give_up waited = do
    modify_gate (λ g. record_skip (add_waited waited g))
    log warning
    pure skip_table

  unfoldable pub log_initial_replica_lag : Action F W (Unit {0})
  log_initial_replica_lag = do
    observation ← observe_replica_lag
    elim observation [
      | unobservable ↦ modify_gate disable >> log warning
      | no_replicas ↦ modify_gate disable >> log info
      | observed standbys ↦ log info
    ]

module _ {F W : Type 0} (float : Float F) (server : Server F W) where
  -- The loop, with fuel for its rounds. A round sleeps no longer than what is left of the deadline.
  unfoldable pub wait_loop : ℕ → ReplicaLagGate F → ℕ → Action F W LagGateVerdict
  wait_loop zero gate started = stuck
  wait_loop (suc fuel) gate started =
      let poll = max gate.poll_interval_seconds 1 * second_ns in
      let again = wait_loop fuel gate started in
      do
        waited ← elapsed server started
        when is_spent (remaining gate waited) then give_up server waited else do
          stopped ← sleep_or_shutdown server (min poll (remaining gate waited))
          when stopped
              then (do
                waited ← elapsed server started
                modify_gate (add_waited waited)
                log warning
                pure shutdown_requested)
              else do
                current ← observe_replica_lag server
                waited ← elapsed server started
                when exceeds float current gate.threshold_seconds
                    then (when has_expired gate waited then give_up server waited else again)
                    else do modify_gate (add_waited waited); log info; pure proceed

  unfoldable pub over_threshold : ReplicaLagGate F → RunPolicy → Action F W LagGateVerdict
  over_threshold gate policy =
      when policy.dry_run
      then (log info >> pure proceed)
      else when is_spent gate.max_wait_seconds
      then (modify_gate record_skip >> log warning >> pure skip_table)
      else do
        log info
        started ← gets (λ s. server.now_ns s.world)
        wait_loop (wait_fuel gate) gate started

  unfoldable pub gate_verdict :
      ReplicaLagGate F → RunPolicy → LagObservation F → Action F W LagGateVerdict
  gate_verdict gate policy unobservable = modify_gate disable >> log warning >> pure proceed
  gate_verdict gate policy no_replicas = modify_gate disable >> log info >> pure proceed
  gate_verdict gate policy (observed standbys) =
      when exceeds float (observed standbys) gate.threshold_seconds
      then over_threshold gate policy
      else pure proceed

  unfoldable pub wait_for_replica_lag : ReplicaLagGate F → RunPolicy → Action F W LagGateVerdict
  wait_for_replica_lag gate policy =
      when gate.disabled
      then pure proceed
      else do observation ← observe_replica_lag server; gate_verdict gate policy observation
