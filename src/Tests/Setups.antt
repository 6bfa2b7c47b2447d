-- ===== src/Tests/Setups.antt =====
-- The set-up of a run on a sample server.
use pg_maintainer.Prelude.{
  ◌≡◌, refl, ℕ, suc, true, false, List, [], ◌∷◌, none, some, Text, codes, Result, done, text_eq,
  text_mem, is_empty, join, decimal,
}
use pg_maintainer.Prelude.Int.{pos}
use pg_maintainer.Types.Throttle.{ThrottleSettings}
use pg_maintainer.Types.Tables.{TableKey, key_mem}
use pg_maintainer.Setup.Schemas.{
  guarded_schemas, all_schemas, requested_schemas, without_logbook, in_scope, locked_schemas,
  try_acquire_schema_lock, resolve_in_scope, resolve_explicit_tables,
}
use pg_maintainer.Setup.Steps.{
  connect, statement_timeout_sql, set_lock_timeout, set_maintenance_work_mem,
  set_vacuum_buffer_usage_limit, set_max_parallel_maintenance_workers, effective_parallel_workers,
  session_settings,
}
use pg_maintainer.Setup.Logbook.{create_schema, ensure_logbook_schema}
use pg_maintainer.Types.Explicit.{trim, trim_start, trim_end, is_whitespace}
use pg_maintainer.Dsn.Uri.{split_at}
use pg_maintainer.Setup.{
  Link, SetupState, give, ask, answered, attempt, ok_of, continue, ◌>>=◌, check, note, send,
  when_some, SetupError, ask_recorded, ask_hashtext, ask_advisory_lock,
}
use pg_maintainer.Setup.Prepare.{prepare, with_schemas}
use pg_maintainer.Setup.Guarded.{IsLocked, IsScoped, prepare-IsGuarded}
use pg_maintainer.Tests.{orders, people}
use pg_maintainer.Tests.Values.{sample_args}

-- The world counts the statements.
abbrev generous : Link ℕ
generous = record {
  execute = λ sql w. (some tt, suc w);
  server_version_num = λ w. (some (pos 160003), w);
  is_in_recovery = λ w. (some false, w);
  backend_pid = λ w. (some (pos 4711), w);
  discover_all_user_schemas = λ w. (some [], w);
  hashtext = λ t w. (some (pos 42), w);
  try_advisory_lock = λ id w. (some true, w);
  schema_exists = λ t w. (some true, w);
  shared_buffers = λ w. (some 134217728, w);
  max_parallel_workers = λ w. (some 8, w);
  existing_tables = λ ts w. (some (orders ∷ []), w);
}

abbrev unthrottled : ThrottleSettings ℕ
unthrottled = record { cost_delay_ms = none; cost_limit = none }

abbrev at_start : SetupState ℕ
at_start = record { world = 0; sent = [] }

abbrev set_up : Result SetupError (List Text × List TableKey) × SetupState ℕ
set_up = prepare generous (λ n. []) sample_args unthrottled (orders ∷ people ∷ []) at_start

set_up_done :
    prepare generous (λ n. []) sample_args unthrottled (orders ∷ people ∷ []) at_start
    ≡ (done (codes "shop" ∷ [], orders ∷ []), set_up.1)
unfolding ask_recorded ask_hashtext ask_advisory_lock give ask answered attempt ok_of continue ◌>>=◌
    check note send when_some guarded_schemas all_schemas requested_schemas without_logbook in_scope
    locked_schemas try_acquire_schema_lock resolve_in_scope resolve_explicit_tables connect
    statement_timeout_sql set_lock_timeout set_maintenance_work_mem set_vacuum_buffer_usage_limit
    set_max_parallel_maintenance_workers effective_parallel_workers session_settings create_schema
    ensure_logbook_schema prepare with_schemas trim trim_start trim_end is_whitespace key_mem
    text_eq text_mem is_empty join decimal split_at
set_up_done = refl

prepare-IsGuarded_example :
    IsLocked (codes "shop" ∷ []) (set_up.1).sent × IsScoped (codes "shop" ∷ []) (orders ∷ [])
prepare-IsGuarded_example =
    prepare-IsGuarded generous (λ n. []) sample_args unthrottled (orders ∷ people ∷ []) at_start
      set_up.1 (codes "shop" ∷ []) (orders ∷ []) set_up_done
