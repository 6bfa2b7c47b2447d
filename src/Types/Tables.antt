-- ===== src/Types/Tables.antt =====
-- The candidate tables of src/types.rs, one record for each discovery query. Sizes and counts are
-- `i64`; a time is a number of ticks. The fractional number of days is only logged and is left out.
pub mod Keys
use pg_maintainer.Prelude.{
  ℕ, Bool, true, false, ◌&&◌, List, [], ◌∷◌, Option, Text, text_eq, if◌then◌else◌,
}
use pg_maintainer.Prelude.Int.{ℤ}

-- What every phase needs of a table: its schema and its name.
pub record TableKey : Type 0 where
  pub schema : Text
  pub table : Text

pub record TableInfo : Type 0 where
  pub schema_name : Text
  pub table_name : Text
  pub n_live_tup : ℤ
  pub n_dead_tup : ℤ
  pub size_bytes : ℤ
  pub last_maintained : Option ℕ

pub record FreezeTableInfo : Type 0 where
  pub schema_name : Text
  pub table_name : Text
  pub xid_age : ℤ
  pub freeze_max_age : ℤ
  pub size_bytes : ℤ
  pub last_maintained : Option ℕ

pub record BloatTableInfo : Type 0 where
  pub schema_name : Text
  pub table_name : Text
  pub n_live_tup : ℤ
  pub n_dead_tup : ℤ
  pub size_bytes : ℤ
  pub last_maintained : Option ℕ

pub record NeedsVacuumTableInfo : Type 0 where
  pub schema_name : Text
  pub table_name : Text
  pub n_live_tup : ℤ
  pub n_dead_tup : ℤ
  pub size_bytes : ℤ
  pub last_maintained : Option ℕ
  pub via_max_threshold : Bool

pub record OverdueVacuumTableInfo : Type 0 where
  pub schema_name : Text
  pub table_name : Text
  pub n_live_tup : ℤ
  pub n_dead_tup : ℤ

pub record OverdueAnalyzeTableInfo : Type 0 where
  pub schema_name : Text
  pub table_name : Text
  pub n_live_tup : ℤ
  pub n_mod_since_analyze : ℤ

abbrev pub key_eq : TableKey → TableKey → Bool
key_eq a b = text_eq a.schema b.schema && text_eq a.table b.table

-- `HashSet::contains`
unfoldable pub key_mem : TableKey → List TableKey → Bool
key_mem t [] = false
key_mem t (k ∷ ks) = if key_eq k t then true else key_mem t ks
