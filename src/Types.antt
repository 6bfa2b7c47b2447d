-- ===== src/Types.antt =====
-- src/types.rs: the options and policies of a run, its counters and its candidate tables.
pub mod Modes
pub mod Options
pub mod Tables
pub mod Explicit
pub mod Throttle
pub mod Blockers
