-- ===== src/Setup/Prepare.antt =====
-- The steps of main from the connection to the explicit tables, in their order.
use pg_maintainer.Prelude.{List, Text}
use pg_maintainer.Types.Throttle.{ThrottleSettings}
use pg_maintainer.Types.Tables.{TableKey}
use pg_maintainer.Cli.Args.{Args}
use pg_maintainer.Setup.{Link, Setup, give, ask, attempt, ◌>>=◌, ◌>>◌}
use pg_maintainer.Setup.Logbook.{ensure_logbook_schema}
use pg_maintainer.Setup.Steps.{connect, session_settings}
use pg_maintainer.Setup.Schemas.{guarded_schemas, resolve_explicit_tables}

-- The look at the replication lag and at the vacuum horizon, which come before the explicit tables, are
-- in Run/Looks.
module _ {F W : Type 0} (link : Link W) (print : F → Text) where
  unfoldable pub with_schemas :
      Args F → ThrottleSettings F → List TableKey → List Text → Setup W (List Text × List TableKey)
  with_schemas args throttle also_tables schemas =
      attempt (ensure_logbook_schema link)
      >> session_settings link print args.maintenance_work_mem_gb throttle args.vacuum_parallel
          args.lock_timeout_ms
      >> resolve_explicit_tables link also_tables schemas
      >>= λ tables. give (schemas, tables)

  unfoldable pub prepare :
      Args F → ThrottleSettings F → List TableKey → Setup W (List Text × List TableKey)
  prepare args throttle also_tables =
      connect link args.statement_timeout_seconds
      >> ask link.backend_pid
      >> guarded_schemas link args.discover_all_schemas args.schema
      >>= with_schemas args throttle also_tables
