-- ===== src/Dsn.antt =====
-- src/dsn.rs: connection strings.
pub mod Keyword
pub mod Uri
pub mod Split
pub mod Redact
pub mod Parse
