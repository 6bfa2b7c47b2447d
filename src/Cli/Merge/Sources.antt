-- ===== src/Cli/Merge/Sources.antt =====
-- What each setting of src/main.rs is after merge_config, in terms of the defaults of the command line.
pub mod Merged
use pg_maintainer.Prelude.{
  ◌≡◌, refl, ◌≢◌, ◌⊎◌, inl, inr, ◌↔◌, Bool, true, false, Option, none, some, or_option, unwrap_or,
  codes, arith,
}
use pg_maintainer.Prelude.Int.{pos}
use pg_maintainer.Types.Modes.{
  ShutdownMode, SslMode, LogFormat, LogRotation, parse_order_by, parse_shutdown_mode,
  parse_ssl_mode, parse_log_format, parse_log_rotation,
}
use pg_maintainer.Cli.Args.{Args}
use pg_maintainer.Cli.Merge.{Config, parsed, or_flag, or_default}

-- A setting that is at its default on the command line is what the file makes of it; any other is kept.
abbrev pub Prefers : {A : Type 0} → (default given file used : A) → Type 0
Prefers default given file used =
    ((given ≡ default) × (used ≡ file)) ⊎ ((given ≢ default) × (used ≡ given))

-- Of a setting that the file does not have, or not in a form that can be read, the file makes the default.
pub record IsMerged {F : Type 0} (default cli : Args F) (file : Config F) (used : Args F)
    : Type 0 where
  pub dsn : Prefers default.dsn cli.dsn file.dsn used.dsn
  pub host : Prefers default.host cli.host file.host used.host
  pub port : Prefers default.port cli.port file.port used.port
  pub database : Prefers default.database cli.database file.database used.database
  pub username : Prefers default.username cli.username file.username used.username
  pub password : Prefers default.password cli.password file.password used.password
  pub schema : Prefers default.schema cli.schema file.schema used.schema
  pub discover_all_schemas :
      Prefers default.discover_all_schemas cli.discover_all_schemas
        (unwrap_or file.discover_all_schemas default.discover_all_schemas)
        used.discover_all_schemas
  pub table : Prefers default.table cli.table file.table used.table
  pub dry_run :
      Prefers default.dry_run cli.dry_run (unwrap_or file.dry_run default.dry_run) used.dry_run
  pub mode : Prefers default.mode cli.mode file.mode used.mode
  pub force : Prefers default.force cli.force (unwrap_or file.force default.force) used.force
  pub skip_active_vacuum :
      Prefers default.skip_active_vacuum cli.skip_active_vacuum
        (unwrap_or file.skip_active_vacuum default.skip_active_vacuum)
        used.skip_active_vacuum
  pub limit : Prefers default.limit cli.limit file.limit used.limit
  pub order_by :
      Prefers default.order_by cli.order_by (parsed parse_order_by file.order_by) used.order_by
  pub vacuum_older_than_days :
      Prefers default.vacuum_older_than_days cli.vacuum_older_than_days file.vacuum_older_than_days
        used.vacuum_older_than_days
  pub analyze_older_than_days :
      Prefers default.analyze_older_than_days cli.analyze_older_than_days
        file.analyze_older_than_days used.analyze_older_than_days
  pub bloat_threshold_pct :
      Prefers default.bloat_threshold_pct cli.bloat_threshold_pct
        (unwrap_or file.bloat_threshold_pct default.bloat_threshold_pct)
        used.bloat_threshold_pct
  pub vacuum_threshold :
      Prefers default.vacuum_threshold cli.vacuum_threshold file.vacuum_threshold
        used.vacuum_threshold
  pub vacuum_scale_factor :
      Prefers default.vacuum_scale_factor cli.vacuum_scale_factor file.vacuum_scale_factor
        used.vacuum_scale_factor
  pub min_table_size_gb :
      Prefers default.min_table_size_gb cli.min_table_size_gb file.min_table_size_gb
        used.min_table_size_gb
  pub max_table_size_gb :
      Prefers default.max_table_size_gb cli.max_table_size_gb file.max_table_size_gb
        used.max_table_size_gb
  pub wraparound_min_age :
      Prefers default.wraparound_min_age cli.wraparound_min_age
        (unwrap_or file.wraparound_min_age default.wraparound_min_age)
        used.wraparound_min_age
  pub wraparound_pct :
      Prefers default.wraparound_pct cli.wraparound_pct file.wraparound_pct used.wraparound_pct
  pub maintenance_work_mem_gb :
      Prefers default.maintenance_work_mem_gb cli.maintenance_work_mem_gb
        (unwrap_or file.maintenance_work_mem_gb default.maintenance_work_mem_gb)
        used.maintenance_work_mem_gb
  pub vacuum_cost_delay_ms :
      Prefers default.vacuum_cost_delay_ms cli.vacuum_cost_delay_ms file.vacuum_cost_delay_ms
        used.vacuum_cost_delay_ms
  pub vacuum_cost_limit :
      Prefers default.vacuum_cost_limit cli.vacuum_cost_limit file.vacuum_cost_limit
        used.vacuum_cost_limit
  pub gentle : Prefers default.gentle cli.gentle (unwrap_or file.gentle default.gentle) used.gentle
  pub lock_timeout_ms :
      Prefers default.lock_timeout_ms cli.lock_timeout_ms
        (unwrap_or file.lock_timeout_ms default.lock_timeout_ms)
        used.lock_timeout_ms
  pub lock_timeout_retries :
      Prefers default.lock_timeout_retries cli.lock_timeout_retries
        (unwrap_or file.lock_timeout_retries default.lock_timeout_retries)
        used.lock_timeout_retries
  pub lock_timeout_retry_delay_ms :
      Prefers default.lock_timeout_retry_delay_ms cli.lock_timeout_retry_delay_ms
        (unwrap_or file.lock_timeout_retry_delay_ms default.lock_timeout_retry_delay_ms)
        used.lock_timeout_retry_delay_ms
  pub shutdown_mode :
      Prefers default.shutdown_mode cli.shutdown_mode
        (unwrap_or (parsed parse_shutdown_mode file.shutdown_mode) default.shutdown_mode)
        used.shutdown_mode
  pub shutdown_grace_seconds :
      Prefers default.shutdown_grace_seconds cli.shutdown_grace_seconds
        (unwrap_or file.shutdown_grace_seconds default.shutdown_grace_seconds)
        used.shutdown_grace_seconds
  pub max_replica_lag_seconds :
      Prefers default.max_replica_lag_seconds cli.max_replica_lag_seconds
        file.max_replica_lag_seconds used.max_replica_lag_seconds
  pub max_replica_lag_wait_seconds :
      Prefers default.max_replica_lag_wait_seconds cli.max_replica_lag_wait_seconds
        (unwrap_or file.max_replica_lag_wait_seconds default.max_replica_lag_wait_seconds)
        used.max_replica_lag_wait_seconds
  pub skip_xmin_horizon_check :
      Prefers default.skip_xmin_horizon_check cli.skip_xmin_horizon_check
        (unwrap_or file.skip_xmin_horizon_check default.skip_xmin_horizon_check)
        used.skip_xmin_horizon_check
  pub xmin_horizon_warn_age :
      Prefers default.xmin_horizon_warn_age cli.xmin_horizon_warn_age
        (unwrap_or file.xmin_horizon_warn_age default.xmin_horizon_warn_age)
        used.xmin_horizon_warn_age
  pub also_tables : Prefers default.also_tables cli.also_tables file.also_tables used.also_tables
  pub sslmode :
      Prefers default.sslmode cli.sslmode
        (unwrap_or (parsed parse_ssl_mode file.sslmode) default.sslmode)
        used.sslmode
  pub ssl_ca_cert : Prefers default.ssl_ca_cert cli.ssl_ca_cert file.ssl_ca_cert used.ssl_ca_cert
  pub ssl_client_cert :
      Prefers default.ssl_client_cert cli.ssl_client_cert file.ssl_client_cert used.ssl_client_cert
  pub ssl_client_key :
      Prefers default.ssl_client_key cli.ssl_client_key file.ssl_client_key used.ssl_client_key
  pub log_file :
      Prefers default.log_file cli.log_file (unwrap_or file.log_file default.log_file) used.log_file
  pub log_format :
      Prefers default.log_format cli.log_format
        (unwrap_or (parsed parse_log_format file.log_format) default.log_format)
        used.log_format
  pub log_rotation :
      Prefers default.log_rotation cli.log_rotation
        (unwrap_or (parsed parse_log_rotation file.log_rotation) default.log_rotation)
        used.log_rotation
  pub silence_mode :
      Prefers default.silence_mode cli.silence_mode
        (unwrap_or file.silence_mode default.silence_mode)
        used.silence_mode
  pub statement_timeout_seconds :
      Prefers default.statement_timeout_seconds cli.statement_timeout_seconds
        (unwrap_or file.statement_timeout_seconds default.statement_timeout_seconds)
        used.statement_timeout_seconds
  pub connect_timeout_seconds :
      Prefers default.connect_timeout_seconds cli.connect_timeout_seconds
        (unwrap_or file.connect_timeout_seconds default.connect_timeout_seconds)
        used.connect_timeout_seconds
  pub vacuum_truncate :
      Prefers default.vacuum_truncate cli.vacuum_truncate
        (unwrap_or file.vacuum_truncate default.vacuum_truncate)
        used.vacuum_truncate
  pub vacuum_disable_page_skipping :
      Prefers default.vacuum_disable_page_skipping cli.vacuum_disable_page_skipping
        (unwrap_or file.vacuum_disable_page_skipping default.vacuum_disable_page_skipping)
        used.vacuum_disable_page_skipping
  pub vacuum_skip_locked :
      Prefers default.vacuum_skip_locked cli.vacuum_skip_locked
        (unwrap_or file.vacuum_skip_locked default.vacuum_skip_locked)
        used.vacuum_skip_locked
  pub vacuum_index_cleanup :
      Prefers default.vacuum_index_cleanup cli.vacuum_index_cleanup file.vacuum_index_cleanup
        used.vacuum_index_cleanup
  pub vacuum_parallel :
      Prefers default.vacuum_parallel cli.vacuum_parallel file.vacuum_parallel used.vacuum_parallel

pub Prefers-or_option :
    {A : Type 0} (given file : Option A) → Prefers none given file (or_option given file)
Prefers-or_option none file = inl (refl, refl)
Prefers-or_option (some a) file = inr (ground arith, refl)

pub Prefers-or_flag :
    (given : Bool) (file : Option Bool)
    → Prefers false given (unwrap_or file false) (or_flag given file)
unfolding or_flag
Prefers-or_flag false file = inl (refl, refl)
Prefers-or_flag true file = inr (ground arith, refl)

pub Prefers-or_default :
    {A : Type 0} (default given : A) {test : Bool}
    → ((test ≡ true) ↔ (given ≡ default))
    → (file : Option A)
    → Prefers default given (unwrap_or file default) (or_default test given file)
unfolding or_default
Prefers-or_default default given {test = true} iff none = inl (iff.0 refl, iff.0 refl)
Prefers-or_default default given {test = true} iff (some v) = inl (iff.0 refl, refl)
Prefers-or_default default given {test = false} iff file =
    inr (λ same. ground (arith, iff.1 same), refl)
