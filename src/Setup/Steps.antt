-- ===== src/Setup/Steps.antt =====
-- connect and the session settings of src/connection.rs.
use pg_maintainer.Prelude.{
  ℕ, suc, ◌-◌, ◌^◌, ◌/◌, min, max, not, Option, none, some, Text, codes, ◌++◌, ◌==◌, decimal,
  if◌then◌else◌,
}
use pg_maintainer.Prelude.Int.{ℤ, pos, negsuc, leb_ℤ}
use pg_maintainer.Types.Throttle.{ThrottleSettings}
use pg_maintainer.Setup.{
  Link, Setup, unsupported_version, is_standby, give, ask, attempt, ◌>>=◌, ◌>>◌, check, send,
  when_some,
}

unfoldable pub effective_parallel_workers : Option ℕ → ℕ → ℕ
effective_parallel_workers none max_parallel_workers = max_parallel_workers
effective_parallel_workers (some n) max_parallel_workers =
    min (min n (2 ^ 31 - 1)) max_parallel_workers

-- `{n}` of an i32
unfoldable pub print_int : ℤ → Text
print_int (pos n) = decimal n
print_int (negsuc n) = codes "-" ++ decimal (suc n)

unfoldable pub statement_timeout_sql : ℕ → Text
statement_timeout_sql seconds =
    if seconds == 0
    then codes "SET statement_timeout TO 0"
    else codes "SET statement_timeout TO '" ++ (decimal seconds ++ codes "s'")

module _ {W : Type 0} (link : Link W) where
  -- `connect`, after the socket and TLS of connect_raw
  unfoldable pub connect : ℕ → Setup W (Unit {0})
  connect statement_timeout_seconds = ask link.server_version_num >>= λ version.
      (check (leb_ℤ (pos 140000) version) (unsupported_version version)
        >> ask link.is_in_recovery
        >>= λ in_recovery.
            (check (not in_recovery) is_standby
              >> send link (statement_timeout_sql statement_timeout_seconds)
              >> send link (codes "SET idle_session_timeout TO 0")
              >> send link (codes "SET application_name TO 'pg-maintainer'")))

  unfoldable pub set_lock_timeout : ℕ → Setup W (Unit {0})
  set_lock_timeout ms = send link (codes "SET lock_timeout TO '" ++ (decimal ms ++ codes "ms'"))

  unfoldable pub set_maintenance_work_mem : ℕ → Setup W (Unit {0})
  set_maintenance_work_mem gb =
      send link (codes "SET maintenance_work_mem TO '" ++ (decimal gb ++ codes "GB'"))

  -- `print` is the Display of f64.
  unfoldable pub set_vacuum_cost_delay : {F : Type 0} → (F → Text) → F → Setup W (Unit {0})
  set_vacuum_cost_delay print delay =
      send link (codes "SET vacuum_cost_delay TO '" ++ (print delay ++ codes "ms'"))

  unfoldable pub set_vacuum_cost_limit : ℤ → Setup W (Unit {0})
  set_vacuum_cost_limit limit = send link (codes "SET vacuum_cost_limit TO " ++ print_int limit)

  unfoldable pub set_vacuum_buffer_usage_limit : Setup W (ℕ × ℕ)
  set_vacuum_buffer_usage_limit = ask link.shared_buffers >>= λ bytes.
      let limit_kb = max (bytes / 16) 131072 / 1024 in
      (send link (codes "SET vacuum_buffer_usage_limit TO '" ++ (decimal limit_kb ++ codes "kB'"))
        >> give (bytes / 1024, limit_kb))

  unfoldable pub set_max_parallel_maintenance_workers : Option ℕ → Setup W ℕ
  set_max_parallel_maintenance_workers requested = ask link.max_parallel_workers >>= λ pool.
      let applied = effective_parallel_workers requested pool in
      (send link (codes "SET max_parallel_maintenance_workers TO " ++ decimal applied)
        >> give applied)

  -- main's settings of the session, the ones that are hard errors and the ones that only warn
  unfoldable pub session_settings :
      {F : Type 0} → (F → Text) → ℕ → ThrottleSettings F → Option ℕ → ℕ → Setup W (Unit {0})
  session_settings print work_mem_gb throttle parallel lock_timeout_ms =
      set_maintenance_work_mem work_mem_gb
      >> when_some throttle.cost_delay_ms (set_vacuum_cost_delay print)
      >> when_some throttle.cost_limit set_vacuum_cost_limit
      >> attempt set_vacuum_buffer_usage_limit
      >> attempt (set_max_parallel_maintenance_workers parallel)
      >> set_lock_timeout lock_timeout_ms
