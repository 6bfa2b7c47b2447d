-- ===== src/Operations/Lag/Effects.antt =====
-- Lemmas on what the lag gate of src/operations.rs calls.
use pg_maintainer.Prelude.{ℕ, zero, suc, ◌≡◌, false}
use pg_maintainer.Types.Options.{RunPolicy}
use pg_maintainer.Session.{Float, Server, ReplicaLagGate, State}
use pg_maintainer.Session.Preserves.{preserves_rules, Preserves, Preserves-bind, Preserves-when}
use pg_maintainer.Operations.Allows.{Calls}
use pg_maintainer.Operations.Lag.{
  LagObservation, no_replicas, unobservable, observed, observe_replica_lag, wait_loop,
  over_threshold, gate_verdict, wait_for_replica_lag, give_up, elapsed,
}

module _ {F W : Type 0} (server : Server F W) {policy : RunPolicy} {P : State F W → Type 0}
    (calls : Calls server policy P) where
  open calls use {on_log, on_read, on_gate}

  pub observe-Preserves : Preserves P (observe_replica_lag server)
  unfolding observe_replica_lag
  observe-Preserves = search (preserves_rules, on_read)

  elapsed-Preserves : (started : ℕ) → Preserves P (elapsed server started)
  unfolding elapsed
  elapsed-Preserves started = search preserves_rules

  give_up-Preserves : (waited : ℕ) → Preserves P (give_up server waited)
  unfolding give_up
  give_up-Preserves waited = search (preserves_rules, on_log, on_gate)

module _ {F W : Type 0} (float : Float F) (server : Server F W) {policy : RunPolicy}
    {P : State F W → Type 0} (calls : Calls server policy P) where
  open calls use {on_log, on_sleep, on_gate}

  wait_loop-Preserves :
      (live : policy.dry_run ≡ false) (fuel : ℕ) (gate : ReplicaLagGate F) (started : ℕ)
      → Preserves P (wait_loop float server fuel gate started)
  unfolding wait_loop
  wait_loop-Preserves live zero gate started = search preserves_rules
  wait_loop-Preserves live (suc fuel) gate started =
      let ih = wait_loop-Preserves live fuel gate started in
      Preserves-bind _ _ (elapsed-Preserves server calls started) λ waited.
        Preserves-when _ _ _ (λ spent. give_up-Preserves server calls waited)
          λ left. Preserves-bind _ _ (on_sleep live _) λ stopped.
            Preserves-when _ _ _
              (λ signal.
                search (preserves_rules, on_log, on_gate, elapsed-Preserves server calls) depth 9)
              λ quiet. Preserves-bind _ _ (observe-Preserves server calls) λ current.
                Preserves-bind _ _ (elapsed-Preserves server calls started) λ waited'.
                  Preserves-when _ _ _
                    (λ over.
                      Preserves-when _ _ _ (λ late. give_up-Preserves server calls waited')
                        (λ early. ih))
                    (λ under. search (preserves_rules, on_log, on_gate))

  over_threshold-Preserves :
      (gate : ReplicaLagGate F) → Preserves P (over_threshold float server gate policy)
  unfolding over_threshold
  over_threshold-Preserves gate =
      search (preserves_rules, on_log, on_gate, wait_loop-Preserves) depth 8

  gate_verdict-Preserves :
      (gate : ReplicaLagGate F) (o : LagObservation F)
      → Preserves P (gate_verdict float server gate policy o)
  unfolding gate_verdict
  gate_verdict-Preserves gate unobservable = search (preserves_rules, on_log, on_gate)
  gate_verdict-Preserves gate no_replicas = search (preserves_rules, on_log, on_gate)
  gate_verdict-Preserves gate (observed standbys) =
      search (preserves_rules, over_threshold-Preserves)

  pub wait_for_replica_lag-Preserves :
      (gate : ReplicaLagGate F) → Preserves P (wait_for_replica_lag float server gate policy)
  unfolding wait_for_replica_lag
  wait_for_replica_lag-Preserves gate =
      search (preserves_rules, observe-Preserves server calls, gate_verdict-Preserves)
