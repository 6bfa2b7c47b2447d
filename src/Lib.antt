-- ===== src/Lib.antt =====
-- A model of pg-maintainer, the PostgreSQL maintenance program of this repository (src/*.rs), and
-- the theorems about it.
--
-- The program reads a command line (src/main.rs, src/types.rs), merges it with a configuration file and
-- a connection string (src/main.rs, src/dsn.rs), checks it, fills what is missing from the environment
-- and the password file (src/connection.rs, src/credentials.rs), connects, takes an advisory lock and
-- sets up the session, and runs phases. A phase finds candidate tables by a query and gives them to a
-- runner of src/operations.rs. A runner goes through its candidates: it stops when the connection is
-- lost or a shutdown is requested, passes over the tables that it is told are handled, waits for
-- replication lag, deals with sessions that vacuum the table already, sends the statement with its
-- retries, and writes a row of the logbook. A watcher beside it (src/shutdown.rs) cancels or terminates
-- the running statement on a signal. Errors that end the run become exit codes (src/db_error.rs).
--
-- Which file models which part:
--   Types/Modes      the enumerations of src/types.rs with Display and FromStr
--   Types/Options    VacuumOptions, RunPolicy, OperationSummary
--   Types/Tables     the candidates of the discovery queries, and HashSet::contains on their keys
--   Types/Throttle   ThrottleSettings
--   Types/Explicit   ExplicitTable::parse_list
--   Types/Blockers   XminHorizonBlocker and describe_xmin_blocker
--   DbError          src/db_error.rs: lost connections in a chain of errors, exit codes
--   VacuumOutput     estimate_dead_tuples_reduced, over i64, and format_dead_tuple_change
--   Dsn/Keyword      split_keyword_pairs and the escapes of a keyword string, with the loop's position as
--                    the text that is left
--   Dsn/Uri          is_uri, percent_decode on bytes, uri_authority, uri_has_explicit_port
--   Dsn/Split        extract_ssl_params and map_sslmode
--   Dsn/Parse        parse and resolve_dsn_source, with Config::from_str of the driver as a parameter
--   Dsn/Redact       redact
--   Credentials      split_pgpass_line and the lookup of get_password_from_pgpass
--   Connection       ConnectionConfig: from_args, build_connection_string
--   Cli/Args         Args and the complaints of main
--   Cli/Defaults     what clap fills in for an option that is not given
--   Cli/Merge, Load  Config, merge_config, the variables in a file's values
--   Cli/ApplyDsn     apply_dsn
--   Cli/Validate     main's checks of the command line
--   Logger           LogLevel, log_with_context, log_always and the lines of a table, with the log file
--                    as a record of functions; Logger/Calls: what a run of calls leaves
--   Setup            connect and the session settings, ensure_logbook_schema, the schemas and their
--                    advisory lock, resolve_explicit_tables, and main's steps between them, over a
--                    server as a record of functions
--   Shutdown         plan_action, handle_signal, and run_watcher as a step relation
--   Run/Discovery    the queries for candidates, as functions, and the cap of needs-vacuum
--   Run/Looks        the wraparound age, the lag gate, the first look at the horizon, policy and options
--   Run/Phases       the eight phases of main with the sets of handled tables
--   Run              the end of main: the failed tables of all phases, and the exit code
--   Session          what a runner works with: the server as a record of functions of a world that
--                    each call moves on, the state, actions on it, and the trace of what was done
--   Operations/Sql   the text of the statements
--   Operations/Statements, Retry, Active, Lag, Horizon, Reports
--                    the helpers of the runners: statements with their dead-tuple counts, lock-timeout
--                    retries, active sessions, the lag gate, the horizon probe, the log after a success
--   Operations/Phase the loop of the runners, with what differs between them in the record Phase
--   Operations/Runners  the eight runners, and Job, a call of one of them
--   Operations/Merge merge_needs_vacuum_candidates
--   Session/Preserves, Emits, Leads, Keeps, Finishes; Setup/Ensures
--                    rules for proofs about actions: invariants, traces, counts, ends
--
-- A summary that a runner updates through `&mut summary` and the lag gate with its atomics are
-- fields of the state. `?` is Outcome.fail or Result.error. A call of the server gives any reply:
-- nothing is assumed of the server but where a theorem says so. Two loops have no structural measure.
-- The wait for replication lag has fuel for max_wait_seconds + 2 rounds, which is enough since a round
-- that does not end the wait sleeps for at least a second. The loop over a keyword string has fuel for
-- one round more than the text has characters, which is enough since every round takes one.
--
-- f64 is a parameter (Float, Decimal, Threshold) with the comparisons and casts that the code makes.
-- A time is a number of nanoseconds. Of a line that a runner logs only the level is kept. UTF-8, the
-- environment, files and the driver's own parser are parameters. Not modelled: TLS and sockets, the
-- parser of the configuration file, signal handlers, the rotated path of the log, the SQL of the discovery
-- queries; of the set-up, the query of the parallel limits that is only logged.
pub mod Prelude
pub mod Types
pub mod DbError
pub mod Dsn
pub mod Credentials
pub mod Connection
pub mod Setup
pub mod VacuumOutput
pub mod Session
pub mod Logger
pub mod Shutdown
pub mod Operations
pub mod Cli
pub mod Run
pub mod Tests
