-- ===== src/Cli/Defaults.antt =====
-- The defaults of the command line of src/main.rs: what clap fills in for an option that is not given.
use pg_maintainer.Prelude.{true, false, none, codes}
use pg_maintainer.Prelude.Int.{pos}
use pg_maintainer.Types.Modes.{ShutdownMode, SslMode, LogFormat, LogRotation}
use pg_maintainer.Cli.Args.{Args}

-- `default_bloat` is DEFAULT_BLOAT_THRESHOLD_PCT, an f64.
unfoldable pub default_args : {F : Type 0} → F → Args F
default_args default_bloat = record {
  dsn = none;
  host = none;
  port = none;
  database = none;
  username = none;
  password = none;
  schema = none;
  discover_all_schemas = false;
  table = none;
  dry_run = false;
  mode = none;
  force = false;
  skip_active_vacuum = false;
  limit = none;
  order_by = none;
  vacuum_older_than_days = none;
  analyze_older_than_days = none;
  bloat_threshold_pct = default_bloat;
  vacuum_threshold = none;
  vacuum_scale_factor = none;
  min_table_size_gb = none;
  max_table_size_gb = none;
  wraparound_min_age = pos 200000000;
  wraparound_pct = none;
  maintenance_work_mem_gb = 1;
  vacuum_cost_delay_ms = none;
  vacuum_cost_limit = none;
  gentle = false;
  lock_timeout_ms = 10;
  lock_timeout_retries = 0;
  lock_timeout_retry_delay_ms = 50;
  shutdown_mode = ShutdownMode.cancel;
  shutdown_grace_seconds = 10;
  max_replica_lag_seconds = none;
  max_replica_lag_wait_seconds = 300;
  skip_xmin_horizon_check = false;
  xmin_horizon_warn_age = pos 1000000;
  also_tables = none;
  sslmode = SslMode.disable;
  ssl_ca_cert = none;
  ssl_client_cert = none;
  ssl_client_key = none;
  log_file = codes "maintainer.log";
  log_format = LogFormat.text;
  log_rotation = LogRotation.unrotated;
  silence_mode = false;
  statement_timeout_seconds = 0;
  connect_timeout_seconds = 10;
  vacuum_truncate = true;
  vacuum_disable_page_skipping = false;
  vacuum_skip_locked = false;
  vacuum_index_cleanup = none;
  vacuum_parallel = none;
  config = none;
}
