-- ===== src/Operations/Statements/Effects.antt =====
-- Lemmas on what the statements of src/operations.rs call.
use pg_maintainer.Prelude.{Text}
use pg_maintainer.Types.Tables.{TableKey}
use pg_maintainer.Session.{Server, State, LogEntry, maintained, call}
use pg_maintainer.Operations.Statements.{
  counted_statement, plain_statement, log_maintenance_operation,
}
use pg_maintainer.Types.Options.{RunPolicy}
use pg_maintainer.Session.Preserves.{Preserves, preserves_rules}
use pg_maintainer.Operations.Allows.{Calls}

module _ {F W : Type 0} (server : Server F W) {policy : RunPolicy} {P : State F W → Type 0}
    (calls : Calls server policy P) where
  open calls use {on_log, on_read}

  pub counted-Preserves :
      (t : TableKey) (sql : Text)
      → Preserves P (call (maintained t sql) (server.execute sql))
      → Preserves P (counted_statement server t sql)
  unfolding counted_statement
  counted-Preserves t sql h = search (preserves_rules, on_read) depth 9

  pub plain-Preserves :
      (t : TableKey) (sql : Text)
      → Preserves P (call (maintained t sql) (server.execute sql))
      → Preserves P (plain_statement server t sql)
  unfolding plain_statement
  plain-Preserves t sql h = search preserves_rules

module _ {F W : Type 0} (server : Server F W) {policy : RunPolicy} {P : State F W → Type 0}
    (calls : Calls server policy P) where
  open calls use {on_record}

  pub record-Preserves :
      (entry : LogEntry) → Preserves P (log_maintenance_operation server policy entry)
  unfolding log_maintenance_operation
  record-Preserves entry = search (preserves_rules, on_record)
