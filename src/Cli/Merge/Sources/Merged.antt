-- ===== src/Cli/Merge/Sources/Merged.antt =====
-- Lemmas on merge_config of src/main.rs, setting by setting.
use pg_maintainer.Prelude.{◌≡◌, ◌↔◌, ℕ, Bool, true, codes, text_eq_iff, ==_iff, arith}
use pg_maintainer.Prelude.Int.{ℤ, pos, negsuc}
use pg_maintainer.Types.Modes.{
  ShutdownMode, SslMode, LogFormat, LogRotation, parse_order_by, parse_shutdown_mode,
  parse_ssl_mode, parse_log_format, parse_log_rotation,
}
use pg_maintainer.Cli.Args.{Args}
use pg_maintainer.Cli.Defaults.{default_args}
use pg_maintainer.Cli.Merge.{
  Config, merge_config, parsed, is_pos, is_cancel, is_disable, is_text, is_unrotated,
}
use pg_maintainer.Cli.Merge.Sources.{
  IsMerged, Prefers-or_option, Prefers-or_flag, Prefers-or_default,
}

is_pos_iff : (n : ℕ) (v : ℤ) → (is_pos n v ≡ true) ↔ (v ≡ pos n)
unfolding is_pos
is_pos_iff n (pos m) = ground (arith, ==_iff m n)
is_pos_iff n (negsuc m) = ground arith

is_cancel_iff : (m : ShutdownMode) → (is_cancel m ≡ true) ↔ (m ≡ ShutdownMode.cancel)
unfolding is_cancel
is_cancel_iff ShutdownMode.finish = ground arith
is_cancel_iff ShutdownMode.cancel = ground arith
is_cancel_iff ShutdownMode.terminate = ground arith

is_disable_iff : (m : SslMode) → (is_disable m ≡ true) ↔ (m ≡ SslMode.disable)
unfolding is_disable
is_disable_iff SslMode.disable = ground arith
is_disable_iff SslMode.require = ground arith
is_disable_iff SslMode.verify_ca = ground arith
is_disable_iff SslMode.verify_full = ground arith

is_text_iff : (m : LogFormat) → (is_text m ≡ true) ↔ (m ≡ LogFormat.text)
unfolding is_text
is_text_iff LogFormat.text = ground arith
is_text_iff LogFormat.json = ground arith

is_unrotated_iff : (m : LogRotation) → (is_unrotated m ≡ true) ↔ (m ≡ LogRotation.unrotated)
unfolding is_unrotated
is_unrotated_iff LogRotation.unrotated = ground arith
is_unrotated_iff LogRotation.daily = ground arith

-- Where the comparison of the bloat threshold finds just its default, each setting after the merge is,
-- if the command line leaves it at the default that clap fills in, what the file makes of it (its value
-- in the file, or the default if there is none or it cannot be read), and otherwise what the command
-- line says.
pub merge_config-IsMerged :
    {F : Type 0} (default_bloat : F) (is_default_bloat : F → Bool)
    → ((v : F) → (is_default_bloat v ≡ true) ↔ (v ≡ default_bloat))
    → (file : Config F) (cli : Args F)
    → IsMerged (default_args default_bloat) cli file (merge_config is_default_bloat file cli)
unfolding merge_config default_args
merge_config-IsMerged default_bloat is_default_bloat is_default file cli = record {
  dsn = Prefers-or_option cli.dsn file.dsn;
  host = Prefers-or_option cli.host file.host;
  port = Prefers-or_option cli.port file.port;
  database = Prefers-or_option cli.database file.database;
  username = Prefers-or_option cli.username file.username;
  password = Prefers-or_option cli.password file.password;
  schema = Prefers-or_option cli.schema file.schema;
  discover_all_schemas = Prefers-or_flag cli.discover_all_schemas file.discover_all_schemas;
  table = Prefers-or_option cli.table file.table;
  dry_run = Prefers-or_flag cli.dry_run file.dry_run;
  mode = Prefers-or_option cli.mode file.mode;
  force = Prefers-or_flag cli.force file.force;
  skip_active_vacuum = Prefers-or_flag cli.skip_active_vacuum file.skip_active_vacuum;
  limit = Prefers-or_option cli.limit file.limit;
  order_by = Prefers-or_option cli.order_by (parsed parse_order_by file.order_by);
  vacuum_older_than_days = Prefers-or_option cli.vacuum_older_than_days file.vacuum_older_than_days;
  analyze_older_than_days =
      Prefers-or_option cli.analyze_older_than_days file.analyze_older_than_days;
  bloat_threshold_pct =
      Prefers-or_default default_bloat cli.bloat_threshold_pct (is_default cli.bloat_threshold_pct)
        file.bloat_threshold_pct;
  vacuum_threshold = Prefers-or_option cli.vacuum_threshold file.vacuum_threshold;
  vacuum_scale_factor = Prefers-or_option cli.vacuum_scale_factor file.vacuum_scale_factor;
  min_table_size_gb = Prefers-or_option cli.min_table_size_gb file.min_table_size_gb;
  max_table_size_gb = Prefers-or_option cli.max_table_size_gb file.max_table_size_gb;
  wraparound_min_age =
      Prefers-or_default (pos 200000000) cli.wraparound_min_age
        (is_pos_iff 200000000 cli.wraparound_min_age) file.wraparound_min_age;
  wraparound_pct = Prefers-or_option cli.wraparound_pct file.wraparound_pct;
  maintenance_work_mem_gb =
      Prefers-or_default 1 cli.maintenance_work_mem_gb (==_iff cli.maintenance_work_mem_gb 1)
        file.maintenance_work_mem_gb;
  vacuum_cost_delay_ms = Prefers-or_option cli.vacuum_cost_delay_ms file.vacuum_cost_delay_ms;
  vacuum_cost_limit = Prefers-or_option cli.vacuum_cost_limit file.vacuum_cost_limit;
  gentle = Prefers-or_flag cli.gentle file.gentle;
  lock_timeout_ms =
      Prefers-or_default 10 cli.lock_timeout_ms (==_iff cli.lock_timeout_ms 10)
        file.lock_timeout_ms;
  lock_timeout_retries =
      Prefers-or_default 0 cli.lock_timeout_retries (==_iff cli.lock_timeout_retries 0)
        file.lock_timeout_retries;
  lock_timeout_retry_delay_ms =
      Prefers-or_default 50 cli.lock_timeout_retry_delay_ms
        (==_iff cli.lock_timeout_retry_delay_ms 50) file.lock_timeout_retry_delay_ms;
  shutdown_mode =
      Prefers-or_default ShutdownMode.cancel cli.shutdown_mode (is_cancel_iff cli.shutdown_mode)
        (parsed parse_shutdown_mode file.shutdown_mode);
  shutdown_grace_seconds =
      Prefers-or_default 10 cli.shutdown_grace_seconds (==_iff cli.shutdown_grace_seconds 10)
        file.shutdown_grace_seconds;
  max_replica_lag_seconds =
      Prefers-or_option cli.max_replica_lag_seconds file.max_replica_lag_seconds;
  max_replica_lag_wait_seconds =
      Prefers-or_default 300 cli.max_replica_lag_wait_seconds
        (==_iff cli.max_replica_lag_wait_seconds 300) file.max_replica_lag_wait_seconds;
  skip_xmin_horizon_check =
      Prefers-or_flag cli.skip_xmin_horizon_check file.skip_xmin_horizon_check;
  xmin_horizon_warn_age =
      Prefers-or_default (pos 1000000) cli.xmin_horizon_warn_age
        (is_pos_iff 1000000 cli.xmin_horizon_warn_age) file.xmin_horizon_warn_age;
  also_tables = Prefers-or_option cli.also_tables file.also_tables;
  sslmode =
      Prefers-or_default SslMode.disable cli.sslmode (is_disable_iff cli.sslmode)
        (parsed parse_ssl_mode file.sslmode);
  ssl_ca_cert = Prefers-or_option cli.ssl_ca_cert file.ssl_ca_cert;
  ssl_client_cert = Prefers-or_option cli.ssl_client_cert file.ssl_client_cert;
  ssl_client_key = Prefers-or_option cli.ssl_client_key file.ssl_client_key;
  log_file =
      Prefers-or_default (codes "maintainer.log") cli.log_file
        (text_eq_iff cli.log_file (codes "maintainer.log")) file.log_file;
  log_format =
      Prefers-or_default LogFormat.text cli.log_format (is_text_iff cli.log_format)
        (parsed parse_log_format file.log_format);
  log_rotation =
      Prefers-or_default LogRotation.unrotated cli.log_rotation (is_unrotated_iff cli.log_rotation)
        (parsed parse_log_rotation file.log_rotation);
  silence_mode = Prefers-or_flag cli.silence_mode file.silence_mode;
  statement_timeout_seconds =
      Prefers-or_default 0 cli.statement_timeout_seconds (==_iff cli.statement_timeout_seconds 0)
        file.statement_timeout_seconds;
  connect_timeout_seconds =
      Prefers-or_default 10 cli.connect_timeout_seconds (==_iff cli.connect_timeout_seconds 10)
        file.connect_timeout_seconds;
  vacuum_truncate =
      Prefers-or_default true cli.vacuum_truncate (λ h. h, λ h. h) file.vacuum_truncate;
  vacuum_disable_page_skipping =
      Prefers-or_flag cli.vacuum_disable_page_skipping file.vacuum_disable_page_skipping;
  vacuum_skip_locked = Prefers-or_flag cli.vacuum_skip_locked file.vacuum_skip_locked;
  vacuum_index_cleanup = Prefers-or_option cli.vacuum_index_cleanup file.vacuum_index_cleanup;
  vacuum_parallel = Prefers-or_option cli.vacuum_parallel file.vacuum_parallel;
}
