-- ===== src/Run/Discovery.antt =====
-- The queries that find candidates, src/operations.rs, as functions of the world; what a run passes
-- to all of them alike (schemas, the table filter, sizes, the order) is part of the function.
use pg_maintainer.Prelude.{◌^◌, Option, none, some, if◌then◌else◌, List}
use pg_maintainer.Prelude.Int.{ℤ, pos, ltb_ℤ}
use pg_maintainer.Types.Tables.{
  TableInfo, FreezeTableInfo, BloatTableInfo, NeedsVacuumTableInfo, OverdueVacuumTableInfo,
  OverdueAnalyzeTableInfo,
}
use pg_maintainer.Session.{
  when◌then◌else◌, Reply, got, refused, read, warning, Action, pure, call, log, ◌>>=◌, ◌>>◌,
}

pub record Discovery (F W : Type 0) : Type 0 where
  pub find_never_vacuumed : W → Reply (List TableInfo) × W
  pub find_never_analyzed : W → Reply (List TableInfo) × W
  pub find_wraparound_candidates : W → Reply (List FreezeTableInfo) × W
  pub find_bloat_candidates : W → Reply (List BloatTableInfo) × W
  pub get_vacuum_settings : W → Reply (ℤ × F) × W
  pub find_needs_vacuum_candidates : ℤ → F → W → Reply (List NeedsVacuumTableInfo) × W
  pub get_server_version_num : W → Reply ℤ × W
  pub get_max_threshold_guc : W → Reply ℤ × W
  pub find_needs_vacuum_max_threshold_candidates : F → ℤ → W → Reply (List NeedsVacuumTableInfo) × W
  pub find_vacuum_overdue_candidates : W → Reply (List OverdueVacuumTableInfo) × W
  pub find_analyze_overdue_candidates : W → Reply (List OverdueAnalyzeTableInfo) × W

-- The numbers of `f64` that the needs-vacuum phase computes with.
pub record Threshold (F : Type 0) : Type 0 where
  -- DEFAULT_VACUUM_SCALE_FACTOR
  pub default_scale_factor : F
  -- -1.0
  pub no_cap : F
  -- `v as f64`
  pub of_integer : ℤ → F
  -- `v as f64 * MAX_THRESHOLD_FACTOR`
  pub reduced : ℤ → F

-- DEFAULT_VACUUM_MAX_THRESHOLD_PRE18
abbrev pub default_max_threshold : ℤ
default_max_threshold = pos (10 ^ 8)

module _ {F : Type 0} (threshold : Threshold F) where
  unfoldable pub derive_max_threshold : Option ℤ → F
  derive_max_threshold none = threshold.of_integer default_max_threshold
  derive_max_threshold (some v) = if ltb_ℤ v (pos 0) then threshold.no_cap else threshold.reduced v

module _ {F W : Type 0} (threshold : Threshold F) (discovery : Discovery F W) where
  unfoldable pub max_threshold_reply : Reply ℤ → Reply F
  max_threshold_reply (got v) = got (derive_max_threshold threshold (some v))
  max_threshold_reply (refused e) = refused e

  -- The setting is read from PostgreSQL 18 on.
  unfoldable pub get_vacuum_max_threshold : ℤ → Action F W (Reply F)
  get_vacuum_max_threshold server_version_num =
      when ltb_ℤ server_version_num (pos 180000)
      then pure (got (derive_max_threshold threshold none))
      else (call read discovery.get_max_threshold_guc >>= λ r. pure (max_threshold_reply r))

module _ {F W A : Type 0} where
  -- `match … { Ok(v) => v, Err(e) => { log a warning; fallback } }`
  unfoldable pub or_warn : A → Reply A → Action F W A
  or_warn fallback (got a) = pure a
  or_warn fallback (refused e) = log warning >> pure fallback
