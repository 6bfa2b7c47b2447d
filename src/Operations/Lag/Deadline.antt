-- ===== src/Operations/Lag/Deadline.antt =====
-- Lemmas on the loop of wait_for_replica_lag, src/operations.rs.
use pg_maintainer.Prelude.{
  ℕ, zero, suc, ◌+◌, ◌-◌, ◌*◌, ◌≤◌, ◌<◌, min, max, ◌≡◌, ◌≢◌, refl, ap, sym, ◌∙◌, false, arith,
}
use mathlib.Core.Path.{subst}
use pg_maintainer.Types.Options.{RunPolicy}
use pg_maintainer.Session.{
  when◌then◌else◌, Float, Server, State, ReplicaLagGate, Action, no_fuel, pure, gets, ◌>>=◌, ◌>>◌,
  log, info, warning, modify_gate,
}
use pg_maintainer.Session.Finishes.{
  Finishes, Completes, Finishes-pure, Finishes-when, Finishes-from, Finishes-if_ever, Finishes-gets,
  Finishes-bind, Finishes-call, Finishes-sleep, Finishes-log, Finishes-modify_gate,
  Finishes-or_context,
}
use pg_maintainer.Operations.Lag.{
  LagObservation, no_replicas, unobservable, observed, LagGateVerdict, proceed, shutdown_requested,
  exceeds, wait_loop, over_threshold, gate_verdict, wait_for_replica_lag, give_up, elapsed,
  record_skip, add_waited, disable, wait_fuel, remaining, is_spent, has_expired,
  observe_replica_lag, second_ns,
}

-- What the wait relies on of the clock.
pub record Clock {F W : Type 0} (server : Server F W) : Type 0 where
  pub sleeps :
      (ns : ℕ) (w : W)
      → (server.sleep ns w).0 ≡ false
      → server.now_ns w + ns ≤ server.now_ns (server.sleep ns w).1
  pub can_read_forwards :
      (w : W) → server.now_ns w ≤ server.now_ns (server.can_read_replication w).1
  pub lag_forwards : (w : W) → server.now_ns w ≤ server.now_ns (server.replication_lag w).1

module _ {F W : Type 0} (server : Server F W) (clock : Clock server) where
  -- an observation does not turn the clock back
  observe-Finishes :
      (C : Type 0) (n : ℕ)
      → Finishes
          (λ s. C × (n ≤ server.now_ns s.world))
          (observe_replica_lag server)
          (λ o s. C × (n ≤ server.now_ns s.world))
  unfolding observe_replica_lag
  observe-Finishes C n =
      let Late = λ (w : W). C × (n ≤ server.now_ns w) in
      Finishes-bind _ _
        (Finishes-bind _ _
          (Finishes-call Late Late _ _
            (λ w (c, late). (c, omega (arith, late, clock.can_read_forwards w))))
          (Finishes-or_context Late))
        λ can_read.
          Finishes-when _ _ _
            (λ yes.
              Finishes-bind _ _
                (Finishes-bind _ _
                  (Finishes-call Late Late _ _
                    (λ w (c, late). (c, omega (arith, late, clock.lag_forwards w))))
                  (Finishes-or_context Late))
                λ rows. Finishes-pure _ (λ s late. late))
            (λ no. Finishes-pure _ (λ s late. late))

  give_up-Finishes :
      (P : State F W → Type 0) (waited : ℕ) → Finishes P (give_up server waited) (λ v s. Unit {0})
  unfolding give_up
  give_up-Finishes P waited =
      Finishes-from (λ s p. tt)
        (Finishes-bind _ _ (Finishes-modify_gate (λ w. Unit {0}) _) λ u.
          Finishes-bind _ _ (Finishes-log (λ w. Unit {0}) warning)
            λ u'. Finishes-pure _ (λ s t. tt))

module _ {F W : Type 0} (float : Float F) (server : Server F W) (clock : Clock server) where
  -- The deadline is ahead, and the fuel reaches it.
  Ahead : ReplicaLagGate F → ℕ → ℕ → W → Type 0
  Ahead gate started fuel w =
      (started ≤ server.now_ns w)
      × (server.now_ns w - started < gate.max_wait_seconds * second_ns)
      × (gate.max_wait_seconds * second_ns < (server.now_ns w - started) + fuel * second_ns)

  -- the time that is left for another round, after a sleep
  round :
      (gate : ReplicaLagGate F) (fuel started waited now : ℕ)
      → gate.max_wait_seconds * second_ns < waited + suc fuel * second_ns
      → started
          + waited
          + min (max gate.poll_interval_seconds 1 * second_ns) (remaining gate waited)
        ≤ now
      → has_expired gate (now - started) ≡ false
      → (started ≤ now)
        × (now - started < gate.max_wait_seconds * second_ns)
        × (gate.max_wait_seconds * second_ns < (now - started) + fuel * second_ns)
  unfolding remaining has_expired
  round gate fuel started waited now reached late early = ground arith

  -- what is known after the deadline has been looked at, and after the sleep
  Looked : ReplicaLagGate F → ℕ → ℕ → ℕ → W → Type 0
  Looked gate started fuel waited w =
      (gate.max_wait_seconds * second_ns < waited + suc fuel * second_ns)
      × (started + waited ≤ server.now_ns w)

  Slept : ReplicaLagGate F → ℕ → ℕ → ℕ → W → Type 0
  Slept gate started fuel waited w =
      (gate.max_wait_seconds * second_ns < waited + suc fuel * second_ns)
      × (started
            + waited
            + min (max gate.poll_interval_seconds 1 * second_ns) (remaining gate waited)
          ≤ server.now_ns w)

  looked :
      (gate : ReplicaLagGate F) (started fuel : ℕ) (w : W)
      → Ahead gate started (suc fuel) w
      → Looked gate started fuel (server.now_ns w - started) w
  unfolding Ahead Looked
  looked gate started fuel w (after, before, reached) = (reached, omega (arith, after))

  slept :
      (gate : ReplicaLagGate F) (started fuel waited : ℕ) (w : W)
      → Looked gate started fuel waited w
      → (server.sleep
          (min (max gate.poll_interval_seconds 1 * second_ns) (remaining gate waited))
          w).0
        ≡ false
      → Slept gate started fuel waited
          (server.sleep
            (min (max gate.poll_interval_seconds 1 * second_ns) (remaining gate waited))
            w).1
  unfolding Looked Slept
  slept gate started fuel waited w (reached, at_least) quiet =
      (reached, omega (arith, at_least, clock.sleeps _ w quiet))

  wait_over :
      (P : State F W → Type 0) (level : _) (waited : ℕ) (v : LagGateVerdict)
      → Finishes P
          (modify_gate (add_waited waited) >>= λ u. log level >>= λ u'. pure v)
          (λ v s. Unit {0})
  wait_over P level waited v =
      Finishes-from (λ s p. tt)
        (Finishes-bind _ _ (Finishes-modify_gate (λ w. Unit {0}) _) λ u.
          Finishes-bind _ _ (Finishes-log (λ w. Unit {0}) level) λ u'. Finishes-pure _ (λ s t. tt))

  -- The second half of a round: the lag is read again.
  after_sleep :
      (gate : ReplicaLagGate F) (started fuel waited : ℕ) (again : Action F W LagGateVerdict)
      → Finishes (λ s. Ahead gate started fuel s.world) again (λ v s. Unit {0})
      → Finishes
          (λ s. Slept gate started fuel waited s.world)
          (observe_replica_lag server >>= λ current.
            gets (λ s. server.now_ns s.world - started) >>= λ waited'.
            when exceeds float current gate.threshold_seconds
            then (when has_expired gate waited' then give_up server waited' else again)
            else (modify_gate (add_waited waited') >>= λ u. log info >>= λ u'. pure proceed))
          (λ v s. Unit {0})
  unfolding Slept Ahead
  after_sleep gate started fuel waited again ih =
      Finishes-bind _ _ (observe-Finishes server clock _ _) λ current.
        Finishes-bind _ _
          (Finishes-gets
            {Q = λ waited' s.
              (waited' ≡ server.now_ns s.world - started) × Slept gate started fuel waited s.world}
            _ (λ s h. (refl, h)))
          λ waited'.
            Finishes-when _ _ _
              (λ over.
                Finishes-when _ _ _ (λ late. give_up-Finishes server clock _ waited')
                  λ early.
                    Finishes-from
                      (λ s (same, (reached, later)).
                        round gate fuel started waited _ reached later
                          (ap (has_expired gate) (sym same) ∙ early))
                      ih)
              (λ under. wait_over _ info waited' proceed)

  wait_loop-Finishes :
      (fuel : ℕ) (gate : ReplicaLagGate F) (started : ℕ)
      → Finishes
          (λ s. Ahead gate started fuel s.world)
          (wait_loop float server fuel gate started)
          (λ v s. Unit {0})
  unfolding wait_loop elapsed Ahead
  wait_loop-Finishes zero gate started =
      Finishes-if_ever (λ s (after, before, reached). omega (arith, before, reached))
  wait_loop-Finishes (suc fuel) gate started =
      let ih = wait_loop-Finishes fuel gate started in
      Finishes-bind _ _
        (Finishes-gets {Q = λ waited s. Looked gate started fuel waited s.world} _
          (λ s. looked gate started fuel s.world))
        λ waited.
          Finishes-when _ _ _ (λ spent. give_up-Finishes server clock _ waited)
            λ left.
              Finishes-bind _ _
                (Finishes-sleep (Looked gate started fuel waited) (Slept gate started fuel waited)
                  server _ (slept gate started fuel waited))
                λ stopped.
                  Finishes-when _ _ _
                    (λ cut.
                      Finishes-bind _ _ (Finishes-gets {Q = λ n s. Unit {0}} _ (λ s h. tt))
                        λ waited'. wait_over _ warning waited' shutdown_requested)
                    λ quiet.
                      Finishes-from (λ s h. h quiet) (after_sleep gate started fuel waited _ ih)

  noted :
      {A : Type 0} (P : State F W → Type 0) (m : Action F W A) (v : LagGateVerdict)
      → Finishes (λ s. Unit {0}) m (λ a s. Unit {0})
      → Finishes P (m >> pure v) (λ v s. Unit {0})
  noted P m v hm =
      Finishes-from (λ s p. tt) (Finishes-bind _ _ hm (λ a. Finishes-pure _ (λ s t. tt)))

  at_start :
      (gate : ReplicaLagGate F) (started : ℕ) (w : W)
      → is_spent gate.max_wait_seconds ≡ false
      → started ≡ server.now_ns w
      → Ahead gate started (wait_fuel gate) w
  unfolding is_spent Ahead
  at_start gate started w patient same = ground arith

  over_threshold-Finishes :
      (gate : ReplicaLagGate F) (policy : RunPolicy) (P : State F W → Type 0)
      → Finishes P (over_threshold float server gate policy) (λ v s. Unit {0})
  unfolding over_threshold
  over_threshold-Finishes gate policy P =
      Finishes-when _ _ _ (λ dry. noted P (log info) _ (Finishes-log (λ w. Unit {0}) info))
        λ live.
          Finishes-when _ _ _
            (λ spent. noted P (modify_gate record_skip >> log warning) _ (
              Finishes-bind _ _ (Finishes-modify_gate (λ w. Unit {0}) _)
                (λ u. Finishes-log (λ w. Unit {0}) warning)))
            λ patient.
              Finishes-from (λ s p. tt)
                (Finishes-bind _ _ (Finishes-log (λ w. Unit {0}) info) λ u.
                  Finishes-bind _ _
                    (Finishes-gets {Q = λ started s. started ≡ server.now_ns s.world} _
                      (λ s h. refl))
                    λ started.
                      Finishes-from (λ s same. at_start gate started _ patient same)
                        (wait_loop-Finishes _ gate started))

  gate_verdict-Finishes :
      (gate : ReplicaLagGate F) (policy : RunPolicy) (P : State F W → Type 0) (o : LagObservation F)
      → Finishes P (gate_verdict float server gate policy o) (λ v s. Unit {0})
  unfolding gate_verdict
  gate_verdict-Finishes gate policy P unobservable =
      noted P (modify_gate disable >> log warning) _ (
        Finishes-bind _ _ (Finishes-modify_gate (λ w. Unit {0}) _)
          (λ u. Finishes-log (λ w. Unit {0}) warning))
  gate_verdict-Finishes gate policy P no_replicas = noted P (modify_gate disable >> log info) _ (
      Finishes-bind _ _ (Finishes-modify_gate (λ w. Unit {0}) _)
        (λ u. Finishes-log (λ w. Unit {0}) info))
  gate_verdict-Finishes gate policy P (observed standbys) =
      Finishes-when _ _ _ (λ over. over_threshold-Finishes gate policy P)
        (λ under. Finishes-pure _ (λ s h. tt))

  wait-Finishes :
      (gate : ReplicaLagGate F) (policy : RunPolicy)
      → Finishes (λ s. Unit {0}) (wait_for_replica_lag float server gate policy) (λ v s. Unit {0})
  unfolding wait_for_replica_lag
  wait-Finishes gate policy =
      Finishes-when _ _ _ (λ off. Finishes-pure _ (λ s h. tt))
        λ on.
          Finishes-bind _ _
            (Finishes-from (λ s u. (tt, omega arith)) (observe-Finishes server clock (Unit {0}) 0))
            (gate_verdict-Finishes gate policy _)

  -- On a clock that a sleep moves on by what was asked for and that no query moves back, waiting for
  -- replica lag comes to a verdict or an error: the rounds of the model never run out.
  pub wait_comes_to_an_end :
      (gate : ReplicaLagGate F) (policy : RunPolicy) (s : State F W)
      → (wait_for_replica_lag float server gate policy s).0 ≢ no_fuel
  wait_comes_to_an_end gate policy s h =
      subst (λ r. Completes (λ v s. Unit {0}) r (wait_for_replica_lag float server gate policy s).1)
        h ((wait-Finishes gate policy).at s tt)
