-- ===== src/Types/Options.antt =====
-- VacuumOptions, RunPolicy, ThrottleSettings and OperationSummary of src/types.rs.
use pg_maintainer.Prelude.{ℕ, Bool, Option}

pub record VacuumOptions : Type 0 where
  pub truncate : Bool
  pub disable_page_skipping : Bool
  pub skip_locked : Bool
  pub index_cleanup : Option Bool
  pub parallel : Option ℕ

pub record RunPolicy : Type 0 where
  pub dry_run : Bool
  pub force : Bool
  pub skip_active_vacuum : Bool
  pub check_xmin_horizon : Bool
  pub lock_timeout_ms : ℕ
  pub lock_timeout_retries : ℕ
  pub lock_timeout_retry_delay_ms : ℕ

pub record OperationSummary : Type 0 where
  pub total : ℕ
  pub succeeded : ℕ
  pub failed : ℕ
  pub skipped : ℕ
