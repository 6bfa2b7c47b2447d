-- ===== src/Cli.antt =====
-- The command line of src/main.rs.
pub mod Args
pub mod Defaults
pub mod Merge
pub mod Load
pub mod ApplyDsn
pub mod Validate
