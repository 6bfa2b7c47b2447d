-- ===== src/Cli/Validate.antt =====
-- The checks that main makes before it opens the log, src/main.rs.
pub mod Bounds
use pg_maintainer.Prelude.{
  ℕ, ◌^◌, ◌-◌, Bool, true, false, not, ◌&&◌, ◌||◌, List, [], ◌∷◌, ◌++◌, Option, none, some, is_some,
  unwrap_or, Text, ltb, leb, is_empty, if◌then◌else◌,
}
use pg_maintainer.Prelude.Int.{ℤ, pos, ltb_ℤ, leb_ℤ}
use pg_maintainer.Types.Modes.{
  Mode, vacuum_overdue, analyze_overdue, Parsed, ok, invalid, parse_mode,
}
use pg_maintainer.Types.Tables.{TableKey}
use pg_maintainer.Types.Explicit.{parse_list}
use pg_maintainer.Types.Throttle.{
  Decimal, ThrottleSettings, within_hundred, resolve, delay_out_of_range, limit_out_of_range,
}
use pg_maintainer.Cli.Args.{
  Args, Complaint, no_schema, invalid_mode, empty_mode_list, no_mode, no_vacuum_age, bad_vacuum_age,
  no_analyze_age, bad_analyze_age, bad_limit, force_and_skip, bad_vacuum_threshold,
  bad_scale_factor, bad_bloat_pct, negative_size, min_above_max, too_much_work_mem, bad_cost_delay,
  bad_cost_limit, bad_replica_lag, bad_warn_age, too_parallel, bad_lock_timeout, too_many_retries,
  bad_retry_delay, bad_grace, bad_also_table, bad_wraparound_pct, Checked, accepted, rejected,
  Settings,
}

-- the value is there and the test says that it is bad
abbrev pub is_bad : {A : Type 0} → (A → Bool) → Option A → Bool
is_bad bad none = false
is_bad bad (some a) = bad a

-- Each `if … { return Err(…) }` in turn.
unfoldable pub first_complaint : List (Bool × Complaint) → Option Complaint
first_complaint [] = none
first_complaint ((bad, complaint) ∷ checks) =
    let rest = first_complaint checks in if bad then some complaint else rest

-- The modes are a set in the source; they are only asked for members.
unfoldable pub parse_modes : List Text → Checked (List Mode)
parse_modes [] = accepted []
parse_modes (s ∷ rest) =
    let modes = parse_modes rest in
    elim (parse_mode s) [
      | invalid message ↦ rejected (invalid_mode message)
      | ok m ↦ elim modes [ rejected e ↦ rejected e | accepted ms ↦ accepted (m ∷ ms) ]
    ]

unfoldable pub enabled : Option (List Text) → Checked (List Mode)
enabled none = rejected no_mode
enabled (some strs) = elim (parse_modes strs) [
  | rejected e ↦ rejected e
  | accepted modes ↦ if is_empty modes then rejected empty_mode_list else accepted modes
]

unfoldable pub has_vacuum_overdue : List Mode → Bool
has_vacuum_overdue [] = false
has_vacuum_overdue (Mode.vacuum_overdue ∷ ms) = true
has_vacuum_overdue (m ∷ ms) = has_vacuum_overdue ms

unfoldable pub has_analyze_overdue : List Mode → Bool
has_analyze_overdue [] = false
has_analyze_overdue (Mode.analyze_overdue ∷ ms) = true
has_analyze_overdue (m ∷ ms) = has_analyze_overdue ms

-- `days < 1 || days > i32::MAX as i64`
unfoldable pub bad_days : ℤ → Bool
bad_days days = ltb_ℤ days (pos 1) || ltb_ℤ (pos (2 ^ 31 - 1)) days

module _ {F : Type 0} (decimal : Decimal F) (args : Args F) where
  abbrev pub min_gb : F
  min_gb = unwrap_or args.min_table_size_gb decimal.zero_value

  abbrev pub max_gb : F
  max_gb = unwrap_or args.max_table_size_gb decimal.infinity

  -- the throttling, with the preset filled in
  abbrev pub throttle : ThrottleSettings F
  throttle = resolve decimal args.vacuum_cost_delay_ms args.vacuum_cost_limit args.gentle

  unfoldable pub mode_checks : List Mode → List (Bool × Complaint)
  mode_checks modes =
      (has_vacuum_overdue modes && not (is_some args.vacuum_older_than_days), no_vacuum_age)
      ∷ (has_vacuum_overdue modes && is_bad bad_days args.vacuum_older_than_days, bad_vacuum_age)
      ∷ (has_analyze_overdue modes && not (is_some args.analyze_older_than_days), no_analyze_age)
      ∷ (has_analyze_overdue modes && is_bad bad_days args.analyze_older_than_days, bad_analyze_age)
      ∷ []

  unfoldable pub target_checks : List (Bool × Complaint)
  target_checks =
      (is_bad (λ limit. leb_ℤ limit (pos 0)) args.limit, bad_limit)
      ∷ (args.force && args.skip_active_vacuum, force_and_skip)
      ∷ (is_bad (λ t. ltb_ℤ t (pos 0)) args.vacuum_threshold, bad_vacuum_threshold)
      ∷ (is_bad (λ x. decimal.lt x decimal.zero_value) args.vacuum_scale_factor, bad_scale_factor)
      ∷ (not (within_hundred decimal args.bloat_threshold_pct), bad_bloat_pct)
      ∷ (
        decimal.lt min_gb decimal.zero_value || decimal.lt max_gb decimal.zero_value,
        negative_size,
      )
      ∷ (decimal.lt max_gb min_gb && not (decimal.is_infinity max_gb), min_above_max)
      ∷ []

  unfoldable pub resource_checks : List (Bool × Complaint)
  resource_checks =
      (ltb 32 args.maintenance_work_mem_gb, too_much_work_mem)
      ∷ (delay_out_of_range decimal throttle, bad_cost_delay)
      ∷ (limit_out_of_range decimal throttle, bad_cost_limit)
      ∷ (
        is_bad (λ x. decimal.lt x decimal.zero_value) args.max_replica_lag_seconds,
        bad_replica_lag,
      )
      ∷ (ltb_ℤ args.xmin_horizon_warn_age (pos 0), bad_warn_age)
      ∷ (is_bad (λ n. ltb 1024 n) args.vacuum_parallel, too_parallel)
      ∷ []

  unfoldable pub lock_checks : List (Bool × Complaint)
  lock_checks =
      (not (leb 1 args.lock_timeout_ms && leb args.lock_timeout_ms 60000), bad_lock_timeout)
      ∷ (ltb 20 args.lock_timeout_retries, too_many_retries)
      ∷ (
        not (leb 1 args.lock_timeout_retry_delay_ms && leb args.lock_timeout_retry_delay_ms 60000),
        bad_retry_delay,
      )
      ∷ (not (leb 1 args.shutdown_grace_seconds && leb args.shutdown_grace_seconds 300), bad_grace)
      ∷ []

  -- `.map_err(…)?` of the list of tables
  unfoldable pub listed : Option (List Text) → Parsed (List TableKey)
  listed none = ok []
  listed (some entries) = parse_list entries

  unfoldable pub settings : List Mode → List TableKey → Settings F
  settings modes tables = record {
    enabled_modes = modes;
    min_bytes = decimal.gb_to_bytes min_gb;
    max_bytes = if decimal.is_infinity max_gb then pos (2 ^ 63 - 1) else decimal.gb_to_bytes max_gb;
    throttle = throttle;
    also_tables = tables;
  }

  -- the last two steps
  unfoldable pub with_tables : List Mode → Parsed (List TableKey) → Checked (Settings F)
  with_tables modes (invalid entry) = rejected (bad_also_table entry)
  with_tables modes (ok tables) =
      if is_bad (λ pct. not (within_hundred decimal pct)) args.wraparound_pct
      then rejected bad_wraparound_pct
      else accepted (settings modes tables)

  unfoldable pub with_modes : Checked (List Mode) → Checked (Settings F)
  with_modes (rejected e) = rejected e
  with_modes (accepted modes) =
      elim (first_complaint
        (mode_checks modes ++ target_checks ++ resource_checks ++ lock_checks)) [
          | some complaint ↦ rejected complaint
          | none ↦ with_tables modes (listed args.also_tables)
        ]

  unfoldable pub validate : Checked (Settings F)
  validate =
      if not (is_some args.schema) && not args.discover_all_schemas
      then rejected no_schema
      else with_modes (enabled args.mode)
