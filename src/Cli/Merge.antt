-- ===== src/Cli/Merge.antt =====
-- `Config` and merge_config of src/main.rs.
pub mod Sources
use pg_maintainer.Prelude.{
  ℕ, Bool, true, false, List, Option, none, some, or_option, unwrap_or, Text, codes, text_eq, ◌==◌,
}
use pg_maintainer.Prelude.Int.{ℤ, pos, negsuc}
use pg_maintainer.Types.Modes.{
  Parsed, ok, invalid, OrderBy, ShutdownMode, SslMode, LogFormat, LogRotation, parse_order_by,
  parse_shutdown_mode, parse_ssl_mode, parse_log_format, parse_log_rotation,
}
use pg_maintainer.Cli.Args.{Args}

pub record Config (F : Type 0) : Type 0 where
  pub dsn : Option Text
  pub host : Option Text
  pub port : Option ℕ
  pub database : Option Text
  pub username : Option Text
  pub password : Option Text
  pub schema : Option Text
  pub discover_all_schemas : Option Bool
  pub table : Option Text
  pub dry_run : Option Bool
  pub mode : Option (List Text)
  pub force : Option Bool
  pub skip_active_vacuum : Option Bool
  pub limit : Option ℤ
  pub order_by : Option Text
  pub vacuum_older_than_days : Option ℤ
  pub analyze_older_than_days : Option ℤ
  pub bloat_threshold_pct : Option F
  pub vacuum_threshold : Option ℤ
  pub vacuum_scale_factor : Option F
  pub min_table_size_gb : Option F
  pub max_table_size_gb : Option F
  pub wraparound_min_age : Option ℤ
  pub wraparound_pct : Option F
  pub maintenance_work_mem_gb : Option ℕ
  pub vacuum_cost_delay_ms : Option F
  pub vacuum_cost_limit : Option ℤ
  pub gentle : Option Bool
  pub lock_timeout_ms : Option ℕ
  pub lock_timeout_retries : Option ℕ
  pub lock_timeout_retry_delay_ms : Option ℕ
  pub shutdown_mode : Option Text
  pub shutdown_grace_seconds : Option ℕ
  pub max_replica_lag_seconds : Option F
  pub max_replica_lag_wait_seconds : Option ℕ
  pub skip_xmin_horizon_check : Option Bool
  pub xmin_horizon_warn_age : Option ℤ
  pub also_tables : Option (List Text)
  pub sslmode : Option Text
  pub ssl_ca_cert : Option Text
  pub ssl_client_cert : Option Text
  pub ssl_client_key : Option Text
  pub log_file : Option Text
  pub log_format : Option Text
  pub log_rotation : Option Text
  pub silence_mode : Option Bool
  pub statement_timeout_seconds : Option ℕ
  pub connect_timeout_seconds : Option ℕ
  pub vacuum_truncate : Option Bool
  pub vacuum_disable_page_skipping : Option Bool
  pub vacuum_skip_locked : Option Bool
  pub vacuum_index_cleanup : Option Bool
  pub vacuum_parallel : Option ℕ

-- `if let Some(ref s) = o && let Ok(v) = s.parse()`
unfoldable pub parsed : {A : Type 0} → (Text → Parsed A) → Option Text → Option A
parsed parse none = none
parsed parse (some s) = elim (parse s) [ ok v ↦ some v | invalid message ↦ none ]

-- `if !flag { flag = o.unwrap_or(false) }`
unfoldable pub or_flag : Bool → Option Bool → Bool
or_flag true o = true
or_flag false o = unwrap_or o false

-- `if is_default && let Some(v) = o { value = v }`
unfoldable pub or_default : {A : Type 0} → Bool → A → Option A → A
or_default false value o = value
or_default true value none = value
or_default true value (some v) = v

unfoldable pub is_pos : ℕ → ℤ → Bool
is_pos n (pos m) = m == n
is_pos n (negsuc m) = false

unfoldable pub is_cancel : ShutdownMode → Bool
is_cancel ShutdownMode.cancel = true
is_cancel _ = false

unfoldable pub is_disable : SslMode → Bool
is_disable SslMode.disable = true
is_disable _ = false

unfoldable pub is_text : LogFormat → Bool
is_text LogFormat.text = true
is_text LogFormat.json = false

unfoldable pub is_unrotated : LogRotation → Bool
is_unrotated LogRotation.unrotated = true
is_unrotated LogRotation.daily = false

-- Every statement of the source sets one field from that field and the file's. `is_default_bloat` is the
-- comparison of an f64 with DEFAULT_BLOAT_THRESHOLD_PCT.
unfoldable pub merge_config : {F : Type 0} → (F → Bool) → Config F → Args F → Args F
merge_config is_default_bloat file args = record {
  dsn = or_option args.dsn file.dsn;
  host = or_option args.host file.host;
  port = or_option args.port file.port;
  database = or_option args.database file.database;
  username = or_option args.username file.username;
  password = or_option args.password file.password;
  schema = or_option args.schema file.schema;
  discover_all_schemas = or_flag args.discover_all_schemas file.discover_all_schemas;
  table = or_option args.table file.table;
  dry_run = or_flag args.dry_run file.dry_run;
  mode = or_option args.mode file.mode;
  force = or_flag args.force file.force;
  skip_active_vacuum = or_flag args.skip_active_vacuum file.skip_active_vacuum;
  limit = or_option args.limit file.limit;
  order_by = or_option args.order_by (parsed parse_order_by file.order_by);
  vacuum_older_than_days = or_option args.vacuum_older_than_days file.vacuum_older_than_days;
  analyze_older_than_days = or_option args.analyze_older_than_days file.analyze_older_than_days;
  bloat_threshold_pct =
      or_default (is_default_bloat args.bloat_threshold_pct) args.bloat_threshold_pct
        file.bloat_threshold_pct;
  vacuum_threshold = or_option args.vacuum_threshold file.vacuum_threshold;
  vacuum_scale_factor = or_option args.vacuum_scale_factor file.vacuum_scale_factor;
  min_table_size_gb = or_option args.min_table_size_gb file.min_table_size_gb;
  max_table_size_gb = or_option args.max_table_size_gb file.max_table_size_gb;
  wraparound_min_age =
      or_default (is_pos 200000000 args.wraparound_min_age) args.wraparound_min_age
        file.wraparound_min_age;
  wraparound_pct = or_option args.wraparound_pct file.wraparound_pct;
  maintenance_work_mem_gb =
      or_default (args.maintenance_work_mem_gb == 1) args.maintenance_work_mem_gb
        file.maintenance_work_mem_gb;
  vacuum_cost_delay_ms = or_option args.vacuum_cost_delay_ms file.vacuum_cost_delay_ms;
  vacuum_cost_limit = or_option args.vacuum_cost_limit file.vacuum_cost_limit;
  gentle = or_flag args.gentle file.gentle;
  lock_timeout_ms =
      or_default (args.lock_timeout_ms == 10) args.lock_timeout_ms file.lock_timeout_ms;
  lock_timeout_retries =
      or_default (args.lock_timeout_retries == 0) args.lock_timeout_retries
        file.lock_timeout_retries;
  lock_timeout_retry_delay_ms =
      or_default (args.lock_timeout_retry_delay_ms == 50) args.lock_timeout_retry_delay_ms
        file.lock_timeout_retry_delay_ms;
  shutdown_mode =
      or_default (is_cancel args.shutdown_mode) args.shutdown_mode
        (parsed parse_shutdown_mode file.shutdown_mode);
  shutdown_grace_seconds =
      or_default (args.shutdown_grace_seconds == 10) args.shutdown_grace_seconds
        file.shutdown_grace_seconds;
  max_replica_lag_seconds = or_option args.max_replica_lag_seconds file.max_replica_lag_seconds;
  max_replica_lag_wait_seconds =
      or_default (args.max_replica_lag_wait_seconds == 300) args.max_replica_lag_wait_seconds
        file.max_replica_lag_wait_seconds;
  skip_xmin_horizon_check = or_flag args.skip_xmin_horizon_check file.skip_xmin_horizon_check;
  xmin_horizon_warn_age =
      or_default (is_pos 1000000 args.xmin_horizon_warn_age) args.xmin_horizon_warn_age
        file.xmin_horizon_warn_age;
  also_tables = or_option args.also_tables file.also_tables;
  sslmode = or_default (is_disable args.sslmode) args.sslmode (parsed parse_ssl_mode file.sslmode);
  ssl_ca_cert = or_option args.ssl_ca_cert file.ssl_ca_cert;
  ssl_client_cert = or_option args.ssl_client_cert file.ssl_client_cert;
  ssl_client_key = or_option args.ssl_client_key file.ssl_client_key;
  log_file =
      or_default (text_eq args.log_file (codes "maintainer.log")) args.log_file file.log_file;
  log_format =
      or_default (is_text args.log_format) args.log_format
        (parsed parse_log_format file.log_format);
  log_rotation =
      or_default (is_unrotated args.log_rotation) args.log_rotation
        (parsed parse_log_rotation file.log_rotation);
  silence_mode = or_flag args.silence_mode file.silence_mode;
  statement_timeout_seconds =
      or_default (args.statement_timeout_seconds == 0) args.statement_timeout_seconds
        file.statement_timeout_seconds;
  connect_timeout_seconds =
      or_default (args.connect_timeout_seconds == 10) args.connect_timeout_seconds
        file.connect_timeout_seconds;
  vacuum_truncate = or_default (args.vacuum_truncate) args.vacuum_truncate file.vacuum_truncate;
  vacuum_disable_page_skipping =
      or_flag args.vacuum_disable_page_skipping file.vacuum_disable_page_skipping;
  vacuum_skip_locked = or_flag args.vacuum_skip_locked file.vacuum_skip_locked;
  vacuum_index_cleanup = or_option args.vacuum_index_cleanup file.vacuum_index_cleanup;
  vacuum_parallel = or_option args.vacuum_parallel file.vacuum_parallel;
  config = args.config;
}
