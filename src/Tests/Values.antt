-- ===== src/Tests/Values.antt =====
-- The pure parts of the program on sample values.
use pg_maintainer.Types.Options.{OperationSummary}
use pg_maintainer.Run.{exit_status, finish}
use pg_maintainer.Run.ExitCode.{NoFailures, exit_status-finish}
use pg_maintainer.Prelude.{
  arith, ◌<◌, map, ℕ, ◌^◌, ◌-◌, ◌≤◌, ◌≡◌, ◌↔◌, refl, true, false, ◌&&◌, List, [], ◌∷◌, length, none,
  some, Text, codes, to_lowercase, text_eq, is_empty, ltb, leb, ◌==◌,
}
use pg_maintainer.Prelude.Int.{pos}
use pg_maintainer.DbError.{PgError, pg, message, exit_code_for}
use pg_maintainer.DbError.Codes.{SomeLoss, exit_code_for_iff}
use pg_maintainer.Types.Modes.{
  Mode, SslMode, LogFormat, ShutdownMode, LogRotation, OrderBy, ok, parse_ssl_mode,
  parse_log_format, parse_shutdown_mode, parse_log_rotation, parse_mode, parse_order_by,
  display_ssl_mode, display_log_format, display_shutdown_mode, display_log_rotation, display_mode,
  display_order_by,
}
use pg_maintainer.Types.Modes.Roundtrip.{enumerations_iff}
use pg_maintainer.Types.Tables.{TableKey, NeedsVacuumTableInfo, key_mem}
use pg_maintainer.Types.Throttle.{Decimal, resolve, delay_out_of_range, limit_out_of_range}
use pg_maintainer.Cli.Args.{Args, accepted, Settings}
use pg_maintainer.Cli.Validate.{
  validate, has_vacuum_overdue, has_analyze_overdue, with_modes, enabled, parse_modes,
  first_complaint, mode_checks, target_checks, resource_checks, lock_checks, bad_days, listed,
  with_tables, settings,
}
use pg_maintainer.Types.Explicit.{
  parse_list, parse_from, parse_parts, push_new, split_once_dot, contains_dot, trim, trim_start,
  trim_end, is_whitespace,
}
use pg_maintainer.Cli.Validate.Bounds.{HasDays, InRange, accepted_is_InRange}
use pg_maintainer.Operations.Merge.{merge_needs_vacuum_candidates}
use pg_maintainer.Operations.Merge.Order.{InOrder, Cut}
use pg_maintainer.Operations.Merge.Result.{Distinct, FirstOf, merge_needs_vacuum_candidates_lem}
use mathlib.Core.List.{Memᴰ}
use pg_maintainer.Prelude.{All, ◌++◌, ◌⊎◌, inl, refl, false, none}
use pg_maintainer.Operations.Sql.{vacuum_sql, freeze_sql, vacuum_analyze_sql, analyze_sql}
use pg_maintainer.Operations.Sql.Target.{read_vacuum_target, read_analyze_target, statements_target}
use pg_maintainer.Tests.{plain_options, orders, people}
use pg_maintainer.VacuumOutput.{estimate_dead_tuples_reduced}
use pg_maintainer.VacuumOutput.Estimate.{estimate_dead_tuples_reduced_lem}
use pg_maintainer.Types.Explicit.Listed.{IsListed, parse_list-IsListed}

statements_target_example :
    (read_vacuum_target (vacuum_sql (codes "a\"b") (codes "c.d") plain_options)
      ≡ some (codes "a\"b", codes "c.d"))
    × (read_vacuum_target (freeze_sql (codes "a\"b") (codes "c.d") plain_options)
        ≡ some (codes "a\"b", codes "c.d"))
    × (read_vacuum_target (vacuum_analyze_sql (codes "a\"b") (codes "c.d") plain_options)
        ≡ some (codes "a\"b", codes "c.d"))
    × (read_analyze_target (analyze_sql (codes "a\"b") (codes "c.d"))
        ≡ some (codes "a\"b", codes "c.d"))
statements_target_example = statements_target (codes "a\"b") (codes "c.d") plain_options

abbrev candidate : Text → ℕ → NeedsVacuumTableInfo
candidate name dead = record {
  schema_name = codes "shop";
  table_name = name;
  n_live_tup = pos 100;
  n_dead_tup = pos dead;
  size_bytes = pos 8192;
  last_maintained = none;
  via_max_threshold = false;
}

abbrev classic : List NeedsVacuumTableInfo
classic = candidate (codes "orders") 5 ∷ candidate (codes "people") 9 ∷ []

abbrev by_threshold : List NeedsVacuumTableInfo
by_threshold = candidate (codes "people") 9 ∷ candidate (codes "stock") 7 ∷ []

merge_needs_vacuum_candidates_example :
    Distinct (merge_needs_vacuum_candidates classic by_threshold none (pos 2))
    × InOrder none (merge_needs_vacuum_candidates classic by_threshold none (pos 2))
    × (length (merge_needs_vacuum_candidates classic by_threshold none (pos 2)) ≤ 2)
    × All
        (λ r. FirstOf r (classic ++ by_threshold))
        (merge_needs_vacuum_candidates classic by_threshold none (pos 2))
    × (Memᴰ
          (candidate (codes "orders") 5)
          (merge_needs_vacuum_candidates classic by_threshold none (pos 2))
        ⊎ Cut none 2
            (candidate (codes "orders") 5)
            (merge_needs_vacuum_candidates classic by_threshold none (pos 2)))
merge_needs_vacuum_candidates_example =
    merge_needs_vacuum_candidates_lem classic by_threshold none 2 (candidate (codes "orders") 5)
      (inl refl)

-- 57P01: the server ends the session.
abbrev admin_shutdown : PgError
admin_shutdown = record {
  closed = false;
  code = some (codes "57P01");
  server_message = codes "terminating connection due to administrator command";
  source_text = none;
  sources = [];
  message = codes "db error";
}

exit_code_for_example :
    ((exit_code_for (message ∷ pg admin_shutdown ∷ []) ≡ 3)
      ↔ SomeLoss (message ∷ pg admin_shutdown ∷ []))
    × ((exit_code_for (message ∷ pg admin_shutdown ∷ []) ≡ 1)
        ↔ (¬ SomeLoss (message ∷ pg admin_shutdown ∷ [])))
exit_code_for_example = exit_code_for_iff (message ∷ pg admin_shutdown ∷ [])

enumerations_example :
    ((m : SslMode)
      → (parse_ssl_mode (codes "Disable") ≡ ok m)
        ↔ (to_lowercase (codes "Disable") ≡ display_ssl_mode m))
    × ((m : ShutdownMode)
        → (parse_shutdown_mode (codes "Disable") ≡ ok m)
          ↔ (to_lowercase (codes "Disable") ≡ display_shutdown_mode m))
    × ((m : Mode)
        → (parse_mode (codes "Disable") ≡ ok m) ↔ (to_lowercase (codes "Disable") ≡ display_mode m))
    × ((m : LogFormat)
        → (parse_log_format (codes "Disable") ≡ ok m)
          ↔ (to_lowercase (codes "Disable") ≡ display_log_format m))
    × ((m : LogRotation)
        → (parse_log_rotation (codes "Disable") ≡ ok m)
          ↔ (to_lowercase (codes "Disable") ≡ display_log_rotation m))
    × ((m : OrderBy)
        → (parse_order_by (codes "Disable") ≡ ok m)
          ↔ (to_lowercase (codes "Disable") ≡ display_order_by m))
enumerations_example = enumerations_iff (codes "Disable")

-- Whole numbers in place of `f64`.
abbrev whole : Decimal ℕ
whole = record {
  zero_value = 0;
  ten = 10;
  hundred = 100;
  infinity = 1000000;
  lt = ltb;
  le = leb;
  is_infinity = λ n. n == 1000000;
  gb_to_bytes = λ n. pos n;
}

abbrev pub sample_args : Args ℕ
sample_args = record {
  dsn = none;
  host = none;
  port = none;
  database = none;
  username = none;
  password = none;
  schema = some (codes "shop");
  discover_all_schemas = false;
  table = none;
  dry_run = false;
  mode = some (codes "vacuum-overdue" ∷ []);
  force = false;
  skip_active_vacuum = true;
  limit = some (pos 10);
  order_by = none;
  vacuum_older_than_days = some (pos 30);
  analyze_older_than_days = none;
  bloat_threshold_pct = 80;
  vacuum_threshold = none;
  vacuum_scale_factor = none;
  min_table_size_gb = none;
  max_table_size_gb = none;
  wraparound_min_age = pos 200000000;
  wraparound_pct = none;
  maintenance_work_mem_gb = 1;
  vacuum_cost_delay_ms = none;
  vacuum_cost_limit = none;
  gentle = true;
  lock_timeout_ms = 10;
  lock_timeout_retries = 0;
  lock_timeout_retry_delay_ms = 50;
  shutdown_mode = ShutdownMode.cancel;
  shutdown_grace_seconds = 10;
  max_replica_lag_seconds = none;
  max_replica_lag_wait_seconds = 300;
  skip_xmin_horizon_check = false;
  xmin_horizon_warn_age = pos 1000000;
  also_tables = some (codes " shop.orders " ∷ []);
  sslmode = SslMode.disable;
  ssl_ca_cert = none;
  ssl_client_cert = none;
  ssl_client_key = none;
  log_file = codes "maintainer.log";
  log_format = LogFormat.text;
  log_rotation = LogRotation.unrotated;
  silence_mode = false;
  statement_timeout_seconds = 0;
  connect_timeout_seconds = 10;
  vacuum_truncate = true;
  vacuum_disable_page_skipping = false;
  vacuum_skip_locked = false;
  vacuum_index_cleanup = none;
  vacuum_parallel = none;
  config = none;
}

abbrev sample_settings : Settings ℕ
sample_settings = record {
  enabled_modes = Mode.vacuum_overdue ∷ [];
  min_bytes = pos 0;
  max_bytes = pos (2 ^ 63 - 1);
  throttle = record { cost_delay_ms = some 10; cost_limit = some (pos 200) };
  also_tables = record { schema = codes "shop"; table = codes "orders" } ∷ [];
}

sample_accepted : validate whole sample_args ≡ accepted sample_settings
unfolding validate with_modes enabled parse_modes parse_mode display_mode first_complaint
    mode_checks target_checks resource_checks lock_checks has_vacuum_overdue has_analyze_overdue
    bad_days listed with_tables settings resolve delay_out_of_range limit_out_of_range parse_list
    parse_from parse_parts push_new split_once_dot contains_dot trim trim_start trim_end
    is_whitespace key_mem text_eq to_lowercase is_empty
sample_accepted = refl

accepted_is_InRange_example :
    (has_vacuum_overdue sample_settings.enabled_modes ≡ true
      → HasDays sample_args.vacuum_older_than_days)
    × (has_analyze_overdue sample_settings.enabled_modes ≡ true
        → HasDays sample_args.analyze_older_than_days)
    × ((sample_args.force && sample_args.skip_active_vacuum) ≡ false)
    × InRange sample_args
accepted_is_InRange_example = accepted_is_InRange whole sample_args sample_settings sample_accepted

abbrev dead_before : ℕ
dead_before = 100

abbrev dead_after : ℕ
dead_after = 30

estimate_dead_tuples_reduced_example :
    (dead_after < dead_before
      → estimate_dead_tuples_reduced (pos dead_before) (pos dead_after)
        ≡ some (pos (dead_before - dead_after)))
    × (dead_after ≡ dead_before
        → 0 < dead_before
        → estimate_dead_tuples_reduced (pos dead_before) (pos dead_after) ≡ some (pos 0))
    × (dead_before < dead_after
        → estimate_dead_tuples_reduced (pos dead_before) (pos dead_after) ≡ none)
    × (dead_before ≡ 0 → estimate_dead_tuples_reduced (pos dead_before) (pos dead_after) ≡ none)
estimate_dead_tuples_reduced_example =
    estimate_dead_tuples_reduced_lem dead_before dead_after (omega arith) (omega arith)

abbrev entries : List Text
entries = codes " shop.orders " ∷ codes "shop.people" ∷ codes "shop.orders" ∷ []

abbrev orders_people : List TableKey
orders_people = orders ∷ people ∷ []

entries_parsed : parse_list entries ≡ ok orders_people
unfolding parse_list parse_from parse_parts push_new split_once_dot contains_dot trim trim_start
    trim_end is_whitespace key_mem text_eq is_empty
entries_parsed = refl

parse_list-IsListed_example : IsListed (map trim entries) orders_people
parse_list-IsListed_example = parse_list-IsListed entries orders_people entries_parsed

abbrev one_failed : List OperationSummary
one_failed = record { total = 3; succeeded = 2; failed = 1; skipped = 0 } ∷ []

exit_status-finish_example :
    ((exit_status false (finish false one_failed) ≡ 0) ↔ ((false ≡ false) × NoFailures one_failed))
    × (false ≡ true → exit_status false (finish false one_failed) ≡ 130)
    × (false ≡ false
        → (¬ NoFailures one_failed)
        → false ≡ false
        → exit_status false (finish false one_failed) ≡ 1)
    × (false ≡ false
        → (¬ NoFailures one_failed)
        → false ≡ true
        → exit_status false (finish false one_failed) ≡ 130)
exit_status-finish_example = exit_status-finish false false one_failed
