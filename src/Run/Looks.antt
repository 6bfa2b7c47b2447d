-- ===== src/Run/Looks.antt =====
-- What main of src/main.rs settles between the session's settings and the phases: the age for the
-- wraparound phase, the lag gate, the first look at the vacuum horizon, the policy and the options of
-- the run.
use pg_maintainer.Prelude.{◌∷◌, not, Option, none, some}
use pg_maintainer.Prelude.Int.{ℤ}
use pg_maintainer.DbError.{message}
use pg_maintainer.Types.Options.{RunPolicy, VacuumOptions}
use pg_maintainer.Cli.Args.{Args}
use pg_maintainer.Session.{
  LogLevel, Server, Reply, read, Action, pure, call, Outcome, ok, fail, no_fuel, or_context, log,
  ◌>>=◌, ◌>>◌, when◌then◌else◌,
}
use pg_maintainer.Operations.Lag.{new_gate, log_initial_replica_lag}
use pg_maintainer.Operations.Horizon.{log_initial_xmin_horizon}

module _ {F : Type 0} (args : Args F) where
  unfoldable pub run_policy : RunPolicy
  run_policy = record {
    dry_run = args.dry_run;
    force = args.force;
    skip_active_vacuum = args.skip_active_vacuum;
    check_xmin_horizon = not args.skip_xmin_horizon_check;
    lock_timeout_ms = args.lock_timeout_ms;
    lock_timeout_retries = args.lock_timeout_retries;
    lock_timeout_retry_delay_ms = args.lock_timeout_retry_delay_ms;
  }

  unfoldable pub vacuum_opts : VacuumOptions
  vacuum_opts = record {
    truncate = args.vacuum_truncate;
    disable_page_skipping = args.vacuum_disable_page_skipping;
    skip_locked = args.vacuum_skip_locked;
    index_cleanup = args.vacuum_index_cleanup;
    parallel = args.vacuum_parallel;
  }

unfoldable pub under_context : {A : Type 0} → Outcome A → Outcome A
under_context (ok a) = ok a
under_context (fail e) = fail (message ∷ e)
under_context no_fuel = no_fuel

module _ {F W A : Type 0} where
  -- `.context("…")?` on what an async function of the program returns
  unfoldable pub in_context : Action F W A → Action F W A
  in_context m s = let (r, t) = m s in (under_context r, t)

module _ {F W : Type 0} (server : Server F W) (args : Args F) where
  -- `percent_of pct age` is `(pct / 100.0 * age as f64) as i64`.
  unfoldable pub effective_wraparound_min_age :
      (get_freeze_max_age : W → Reply ℤ × W) → (percent_of : F → ℤ → ℤ) → Action F W ℤ
  effective_wraparound_min_age get_freeze_max_age percent_of = elim args.wraparound_pct [
    | none ↦ pure args.wraparound_min_age
    | some pct ↦ call read get_freeze_max_age >>= or_context >>= λ age.
        log LogLevel.info >> pure (percent_of pct age)
  ]

  unfoldable pub gate_for : Option F → Action F W (Unit {0})
  gate_for none s = (ok tt, record s { lag_gate = none })
  gate_for (some threshold) s =
      in_context (log_initial_replica_lag server)
        (record s { lag_gate = some (new_gate threshold args.max_replica_lag_wait_seconds) })

  unfoldable pub start_lag_gate : Action F W (Unit {0})
  start_lag_gate = gate_for args.max_replica_lag_seconds

  unfoldable pub check_horizon : Action F W (Unit {0})
  check_horizon =
      when args.skip_xmin_horizon_check
      then pure tt
      else in_context (log_initial_xmin_horizon server args.xmin_horizon_warn_age)

  unfoldable pub first_looks :
      (get_freeze_max_age : W → Reply ℤ × W) → (percent_of : F → ℤ → ℤ) → Action F W ℤ
  first_looks get_freeze_max_age percent_of = do
    age ← effective_wraparound_min_age get_freeze_max_age percent_of
    start_lag_gate
    check_horizon
    pure age
