-- ===== src/Tests.antt =====
-- Small runs of the model: a server, its clock and candidates, for the tests and the witnesses.
mod Runs
mod Values
mod Dsns
mod Signals
mod Connections
mod Logs
mod Setups
mod Phases
use pg_maintainer.Prelude.{
  ℕ, ◌+◌, ◌^◌, max, Bool, true, false, List, [], ◌∷◌, Option, none, some, Text, codes, ltb,
}
use pg_maintainer.Prelude.Int.{pos}
use pg_maintainer.Types.Options.{VacuumOptions, RunPolicy, OperationSummary}
use pg_maintainer.Types.Tables.{TableKey, TableInfo}
use pg_maintainer.Session.{Float, Server, ReplicaLagGate, StandbyLag, State, got}
use pg_maintainer.Operations.Runners.Job.{Job, vacuum_never_vacuumed, also_tables}

-- Lags are whole seconds.
abbrev pub seconds : Float ℕ
seconds = record { zero_seconds = 0; max = max; gt = λ a b. ltb b a }

-- A server whose world is its clock, with one standby that is ten seconds behind.
abbrev pub calm_server : Server ℕ ℕ
calm_server = record {
  is_closed = λ w. false;
  shutdown_requested = λ w. false;
  now_ns = λ w. w;
  sleep = λ ns w. (false, w + ns);
  find_active_vacuums = λ t w. (got [], w);
  terminate_backend = λ pid w. (got tt, w);
  dead_tuple_count = λ t w. (got (pos 7), w);
  execute = λ sql w. (got tt, w + 10 ^ 6);
  insert_log = λ entry w. (got tt, w);
  can_read_replication = λ w. (got true, w);
  replication_lag = λ w. (got (standby ∷ []), w);
  can_read_activity = λ w. (got false, w);
  xmin_blockers = λ w. (got [], w);
}
  where
    standby : StandbyLag ℕ
    standby = record {
      application_name = codes "replica";
      state = codes "streaming";
      sync_state = codes "async";
      replay_lag_seconds = some 10;
    }

abbrev pub plain_policy : RunPolicy
plain_policy = record {
  dry_run = false;
  force = false;
  skip_active_vacuum = false;
  check_xmin_horizon = false;
  lock_timeout_ms = 10;
  lock_timeout_retries = 2;
  lock_timeout_retry_delay_ms = 50;
}

abbrev pub dry_policy : RunPolicy
dry_policy = record plain_policy { dry_run = true }

abbrev pub skip_policy : RunPolicy
skip_policy = record plain_policy { skip_active_vacuum = true }

abbrev pub plain_options : VacuumOptions
plain_options = record {
  truncate = true;
  disable_page_skipping = false;
  skip_locked = false;
  index_cleanup = none;
  parallel = some 4;
}

abbrev pub one_minute_gate : ReplicaLagGate ℕ
one_minute_gate = record {
  threshold_seconds = 5;
  max_wait_seconds = 60;
  poll_interval_seconds = 5;
  disabled = false;
  total_waited_ms = 0;
  tables_skipped = 0;
}

abbrev pub start : State ℕ ℕ
start = record {
  world = 0;
  lag_gate = none;
  summary = record { total = 0; succeeded = 0; failed = 0; skipped = 0 };
  trace = [];
}

abbrev pub orders : TableKey
orders = record { schema = codes "shop"; table = codes "orders" }

abbrev pub people : TableKey
people = record { schema = codes "shop"; table = codes "people" }

-- Two tables of which the second has been handled.
abbrev pub two_tables : Job
two_tables = also_tables (orders ∷ people ∷ []) (people ∷ [])
