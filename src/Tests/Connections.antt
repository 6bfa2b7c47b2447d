-- ===== src/Tests/Connections.antt =====
-- The sources of a connection's parameters on sample values.
use pg_maintainer.Credentials.Lookup.{PgpassEntry}
use pg_maintainer.Prelude.{
  List, ◌≡◌, refl, ℕ, Bool, [], ◌∷◌, map, join, none, some, codes, ◌==◌, is_empty, done, and_then,
}
use pg_maintainer.Types.Modes.{SslMode}
use pg_maintainer.Dsn.Keyword.{found, split_keyword_pairs}
use pg_maintainer.Dsn.Parse.{ParsedDsn, not_present, resolve_dsn_source}
use pg_maintainer.Cli.Args.{Args}
use pg_maintainer.Cli.Merge.{Config, merge_config}
use pg_maintainer.Prelude.{true, ◌↔◌, ==_iff}
use pg_maintainer.Cli.Defaults.{default_args}
use pg_maintainer.Cli.Merge.Sources.{IsMerged}
use pg_maintainer.Cli.Merge.Sources.Merged.{merge_config-IsMerged}
use pg_maintainer.Cli.ApplyDsn.{filled, outcome_of, with_source, apply_dsn}
use pg_maintainer.Connection.{ConnectionConfig, Surroundings, build_connection_string}
use pg_maintainer.Connection.Readback.{config_pairs, build_connection_string-config_pairs}
use pg_maintainer.Connection.Precedence.{IsDsn, IsInOrder, connection_of, apply_dsn-IsInOrder}
use pg_maintainer.Credentials.{split_pgpass_line}
use pg_maintainer.Credentials.Fields.{escape_field, split_pgpass_line-escape_field}
use pg_maintainer.Tests.Values.{sample_args}
use pg_maintainer.Tests.Dsns.{keyword_dsn, ascii, sample_config, sample_parsed, sample_accepted}

split_pgpass_line-escape_field_example :
    split_pgpass_line (join (b':' ∷ []) (map escape_field (codes "::1" ∷ codes "a\\b" ∷ [])))
    ≡ codes "::1" ∷ codes "a\\b" ∷ []
split_pgpass_line-escape_field_example =
    split_pgpass_line-escape_field (codes "::1") (codes "a\\b" ∷ [])

abbrev sample_connection : ConnectionConfig
sample_connection = record {
  host = codes "db";
  port = 5432;
  database = codes "my shop";
  username = codes "keeper";
  password = some (codes "it's");
  sslmode = SslMode.disable;
  ssl_ca_cert = none;
  ssl_client_cert = none;
  ssl_client_key = none;
  connect_timeout_seconds = 10;
}

build_connection_string-config_pairs_example :
    split_keyword_pairs (build_connection_string sample_connection)
    ≡ found (config_pairs sample_connection)
unfolding is_empty
build_connection_string-config_pairs_example =
    build_connection_string-config_pairs sample_connection refl refl refl refl

abbrev sample_file : Config ℕ
sample_file = record {
  dsn = none;
  host = none;
  port = none;
  database = some (codes "shop");
  username = some (codes "keeper");
  password = none;
  schema = none;
  discover_all_schemas = none;
  table = none;
  dry_run = none;
  mode = none;
  force = none;
  skip_active_vacuum = none;
  limit = none;
  order_by = none;
  vacuum_older_than_days = none;
  analyze_older_than_days = none;
  bloat_threshold_pct = none;
  vacuum_threshold = none;
  vacuum_scale_factor = none;
  min_table_size_gb = none;
  max_table_size_gb = none;
  wraparound_min_age = none;
  wraparound_pct = none;
  maintenance_work_mem_gb = none;
  vacuum_cost_delay_ms = none;
  vacuum_cost_limit = none;
  gentle = none;
  lock_timeout_ms = some 250;
  lock_timeout_retries = none;
  lock_timeout_retry_delay_ms = none;
  shutdown_mode = none;
  shutdown_grace_seconds = none;
  max_replica_lag_seconds = none;
  max_replica_lag_wait_seconds = none;
  skip_xmin_horizon_check = none;
  xmin_horizon_warn_age = none;
  also_tables = none;
  sslmode = some (codes "verify-full");
  ssl_ca_cert = none;
  ssl_client_cert = none;
  ssl_client_key = none;
  log_file = none;
  log_format = none;
  log_rotation = none;
  silence_mode = none;
  statement_timeout_seconds = none;
  connect_timeout_seconds = none;
  vacuum_truncate = none;
  vacuum_disable_page_skipping = none;
  vacuum_skip_locked = none;
  vacuum_index_cleanup = none;
  vacuum_parallel = none;
}

abbrev is_eighty : ℕ → Bool
is_eighty pct = pct == 80

is_eighty_iff : (v : ℕ) → (is_eighty v ≡ true) ↔ (v ≡ 80)
is_eighty_iff v = ==_iff v 80

merge_config-IsMerged_example :
    IsMerged
      (default_args 80)
      sample_args
      sample_file
      (merge_config is_eighty sample_file sample_args)
merge_config-IsMerged_example =
    merge_config-IsMerged 80 is_eighty is_eighty_iff sample_file sample_args

abbrev bare : Surroundings
bare = record {
  variable = λ name. none;
  read_to_string = λ path. none;
  pgpass = λ host port database username. none;
}

abbrev with_dsn : Args ℕ
with_dsn = record sample_args { dsn = some keyword_dsn }

abbrev merged_args : Args ℕ
merged_args = merge_config is_eighty sample_file with_dsn

dsn_applied :
    apply_dsn ascii (λ rest. some sample_config) not_present merged_args
    ≡ done (filled merged_args sample_parsed, outcome_of merged_args keyword_dsn sample_parsed)
unfolding apply_dsn with_source resolve_dsn_source and_then merge_config
dsn_applied = rw sample_accepted refl

apply_dsn-IsInOrder_example :
    (dsn : ParsedDsn) × IsDsn is_eighty sample_file with_dsn bare ascii
      (λ rest. some sample_config)
      not_present
      dsn
    × IsInOrder bare sample_file with_dsn dsn
        (connection_of bare (filled merged_args sample_parsed))
apply_dsn-IsInOrder_example =
    apply_dsn-IsInOrder is_eighty sample_file with_dsn bare ascii (λ rest. some sample_config)
      not_present (filled merged_args sample_parsed)
      (outcome_of merged_args keyword_dsn sample_parsed) dsn_applied

abbrev pgpass : List PgpassEntry
pgpass =
    record {
      host = codes "db2";
      port = codes "*";
      database = codes "*";
      username = codes "keeper";
      password = codes "other";
    }
    ∷ record {
      host = codes "*";
      port = codes "5432";
      database = codes "";
      username = codes "keeper";
      password = codes "a:b\\c";
    }
    ∷ []
