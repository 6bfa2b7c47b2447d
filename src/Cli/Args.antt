-- ===== src/Cli/Args.antt =====
-- `Args` of src/main.rs, and the complaints that main answers with.
use pg_maintainer.Prelude.{ℕ, Bool, List, Option, Text}
use pg_maintainer.Prelude.Int.{ℤ}
use pg_maintainer.Types.Modes.{Mode, OrderBy, ShutdownMode, SslMode, LogFormat, LogRotation}
use pg_maintainer.Types.Tables.{TableKey}
use pg_maintainer.Types.Throttle.{ThrottleSettings}

pub record Args (F : Type 0) : Type 0 where
  pub dsn : Option Text
  pub host : Option Text
  pub port : Option ℕ
  pub database : Option Text
  pub username : Option Text
  pub password : Option Text
  pub schema : Option Text
  pub discover_all_schemas : Bool
  pub table : Option Text
  pub dry_run : Bool
  pub mode : Option (List Text)
  pub force : Bool
  pub skip_active_vacuum : Bool
  pub limit : Option ℤ
  pub order_by : Option OrderBy
  pub vacuum_older_than_days : Option ℤ
  pub analyze_older_than_days : Option ℤ
  pub bloat_threshold_pct : F
  pub vacuum_threshold : Option ℤ
  pub vacuum_scale_factor : Option F
  pub min_table_size_gb : Option F
  pub max_table_size_gb : Option F
  pub wraparound_min_age : ℤ
  pub wraparound_pct : Option F
  pub maintenance_work_mem_gb : ℕ
  pub vacuum_cost_delay_ms : Option F
  pub vacuum_cost_limit : Option ℤ
  pub gentle : Bool
  pub lock_timeout_ms : ℕ
  pub lock_timeout_retries : ℕ
  pub lock_timeout_retry_delay_ms : ℕ
  pub shutdown_mode : ShutdownMode
  pub shutdown_grace_seconds : ℕ
  pub max_replica_lag_seconds : Option F
  pub max_replica_lag_wait_seconds : ℕ
  pub skip_xmin_horizon_check : Bool
  pub xmin_horizon_warn_age : ℤ
  pub also_tables : Option (List Text)
  pub sslmode : SslMode
  pub ssl_ca_cert : Option Text
  pub ssl_client_cert : Option Text
  pub ssl_client_key : Option Text
  pub log_file : Text
  pub log_format : LogFormat
  pub log_rotation : LogRotation
  pub silence_mode : Bool
  pub statement_timeout_seconds : ℕ
  pub connect_timeout_seconds : ℕ
  pub vacuum_truncate : Bool
  pub vacuum_disable_page_skipping : Bool
  pub vacuum_skip_locked : Bool
  pub vacuum_index_cleanup : Option Bool
  pub vacuum_parallel : Option ℕ
  pub config : Option Text

-- The errors that main returns, in the order of its checks.
pub data Complaint : Type 0 where
  no_schema : Complaint
  invalid_mode : Text → Complaint
  empty_mode_list no_mode : Complaint
  no_vacuum_age bad_vacuum_age no_analyze_age bad_analyze_age : Complaint
  bad_limit force_and_skip bad_vacuum_threshold bad_scale_factor bad_bloat_pct : Complaint
  negative_size min_above_max : Complaint
  too_much_work_mem bad_cost_delay bad_cost_limit : Complaint
  bad_replica_lag bad_warn_age too_parallel : Complaint
  bad_lock_timeout too_many_retries bad_retry_delay bad_grace : Complaint
  bad_also_table : Text → Complaint
  bad_wraparound_pct : Complaint

pub data Checked (A : Type 0) : Type 0 where
  accepted : A → Checked A
  rejected : Complaint → Checked A

-- What the checks compute on the way.
pub record Settings (F : Type 0) : Type 0 where
  pub enabled_modes : List Mode
  pub min_bytes : ℤ
  pub max_bytes : ℤ
  pub throttle : ThrottleSettings F
  pub also_tables : List TableKey
