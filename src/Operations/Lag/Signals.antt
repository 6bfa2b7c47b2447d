-- ===== src/Operations/Lag/Signals.antt =====
-- Lemmas on wait_for_replica_lag of src/operations.rs without a shutdown.
use pg_maintainer.Prelude.{ℕ, zero, suc, ◌≡◌, true, false}
use pg_maintainer.Types.Options.{RunPolicy}
use pg_maintainer.Session.{
  Float, Server, State, ReplicaLagGate, Action, pure, ◌>>◌, log, info, warning, modify_gate,
}
use pg_maintainer.Session.Preserves.{Preserves, preserves_rules}
use pg_maintainer.Session.Leads.{
  Leads, Leads-pure, Leads-stuck, Leads-when, Leads-kept, Leads-bind, Leads-gets, Leads-sleep,
}
use pg_maintainer.Operations.Allows.{Calls}
use pg_maintainer.Operations.Lag.{
  LagObservation, no_replicas, unobservable, observed, LagGateVerdict, proceed, skip_table,
  shutdown_requested, wait_loop, over_threshold, gate_verdict, wait_for_replica_lag, give_up,
  elapsed, record_skip, disable,
}
use pg_maintainer.Operations.Lag.Effects.{observe-Preserves}

-- What a verdict tells about the signal `S`.
abbrev pub Signalled : Type 0 → LagGateVerdict → Type 0
Signalled S proceed = Unit
Signalled S skip_table = Unit
Signalled S shutdown_requested = S

module _ {F W : Type 0} (float : Float F) (server : Server F W) {policy : RunPolicy}
    {P R : State F W → Type 0} (calls : Calls server policy P)
    (weaken : (s : State F W) → P s → R s) {S : Type 0}
    (on_signal : (ns : ℕ) (w : W) → (server.sleep ns w).0 ≡ true → S) where
  open calls use {on_log, on_sleep, on_gate}

  abbrev pub Verdicts : Action F W LagGateVerdict → Type 0
  Verdicts m = Leads P m (λ v s. P s × Signalled S v) R

  ends_in :
      {A : Type 0} (m : Action F W A) (v : LagGateVerdict)
      → Preserves P m
      → Signalled S v
      → Verdicts (m >> pure v)
  ends_in m v hm signal =
      Leads-bind _ _ (Leads-kept m weaken hm) (λ a. Leads-pure v (λ s h. (h, signal)))

  keeps_on :
      {A : Type 0} (m : Action F W A) (n : Action F W LagGateVerdict)
      → Preserves P m
      → Verdicts n
      → Verdicts (m >> n)
  keeps_on m n hm hn = Leads-bind _ _ (Leads-kept m weaken hm) (λ a. hn)

  give_up-Verdicts : (waited : ℕ) → Verdicts (give_up server waited)
  unfolding give_up
  give_up-Verdicts waited =
      keeps_on _ _ (on_gate _) (ends_in (log warning) skip_table (on_log warning) tt)

  wait_loop-Verdicts :
      policy.dry_run ≡ false
      → (fuel : ℕ) (gate : ReplicaLagGate F) (started : ℕ)
      → Verdicts (wait_loop float server fuel gate started)
  unfolding wait_loop elapsed
  wait_loop-Verdicts live zero gate started = Leads-stuck weaken
  wait_loop-Verdicts live (suc fuel) gate started =
      let ih = wait_loop-Verdicts live fuel gate started in
      Leads-gets _ _ (λ n. Unit) (λ s. tt)
        λ waited u.
          Leads-when _ _ _ (λ spent. give_up-Verdicts waited)
            λ left.
              Leads-sleep server _ _ (λ b. b ≡ true → S) (on_signal _) (on_sleep live _)
                λ stopped signal.
                  Leads-when _ _ _
                    (λ cut.
                      Leads-gets _ _ (λ n. Unit) (λ s. tt)
                        λ waited' u'.
                          keeps_on _ _ (on_gate _) (
                            ends_in (log warning) shutdown_requested (on_log warning) (signal cut)))
                    λ quiet.
                      Leads-bind _ _ (Leads-kept _ weaken (observe-Preserves server calls))
                        λ current.
                          Leads-gets _ _ (λ n. Unit) (λ s. tt)
                            λ waited' u'.
                              Leads-when _ _ _
                                (λ over.
                                  Leads-when _ _ _ (λ late. give_up-Verdicts waited') (λ early. ih))
                                (λ under.
                                  keeps_on _ _ (on_gate _)
                                    (ends_in (log info) proceed (on_log info) tt))

  over_threshold-Verdicts :
      (gate : ReplicaLagGate F) → Verdicts (over_threshold float server gate policy)
  unfolding over_threshold
  over_threshold-Verdicts gate =
      Leads-when _ _ _ (λ dry. ends_in (log info) proceed (on_log info) tt)
        λ live.
          Leads-when _ _ _
            (λ at_once.
              ends_in (modify_gate record_skip >> log warning) skip_table
                (search (preserves_rules, on_gate, on_log)) tt)
            λ patient. keeps_on _ _ (on_log info) (
              Leads-gets _ _ (λ n. Unit) (λ s. tt)
                λ started u. wait_loop-Verdicts live _ gate started)

  gate_verdict-Verdicts :
      (gate : ReplicaLagGate F) (o : LagObservation F)
      → Verdicts (gate_verdict float server gate policy o)
  unfolding gate_verdict
  gate_verdict-Verdicts gate unobservable =
      ends_in (modify_gate disable >> log warning) proceed
        (search (preserves_rules, on_gate, on_log)) tt
  gate_verdict-Verdicts gate no_replicas =
      ends_in (modify_gate disable >> log info) proceed (search (preserves_rules, on_gate, on_log))
        tt
  gate_verdict-Verdicts gate (observed standbys) =
      Leads-when _ _ _ (λ over. over_threshold-Verdicts gate) λ under. Leads-pure _ (λ s h. (h, tt))

  pub wait_for_replica_lag-Verdicts :
      (gate : ReplicaLagGate F) → Verdicts (wait_for_replica_lag float server gate policy)
  unfolding wait_for_replica_lag
  wait_for_replica_lag-Verdicts gate =
      Leads-when _ _ _ (λ off. Leads-pure _ (λ s h. (h, tt)))
        λ on.
          Leads-bind _ _ (Leads-kept _ weaken (observe-Preserves server calls))
            (gate_verdict-Verdicts gate)
