-- ===== src/Operations/Active.antt =====
-- handle_active_vacuums of src/operations.rs: what happens to sessions that vacuum the table already.
pub mod Effects
use pg_maintainer.Prelude.{
  ℕ, Bool, true, false, not, List, [], ◌∷◌, map, Text, codes, text_eq, is_empty, filter_by,
  if◌then◌else◌,
}
use pg_maintainer.Types.Options.{RunPolicy}
use pg_maintainer.Types.Tables.{TableKey}
use pg_maintainer.Session.{
  when◌then◌else◌, Server, read, terminated, warning, Action, pure, call, or_context, or_formatted,
  ◌>>=◌, ◌>>◌, log, count_skipped,
}

-- BACKEND_TYPE_AUTOVACUUM_WORKER
abbrev pub autovacuum_worker : Text
autovacuum_worker = codes "autovacuum worker"

abbrev pub is_autovacuum : ℕ × Text → Bool
is_autovacuum (pid, backend_type) = text_eq backend_type autovacuum_worker

abbrev pub pid_of : ℕ × Text → ℕ
pid_of (pid, backend_type) = pid

unfoldable pub autovacuum_pids : List (ℕ × Text) → List ℕ
autovacuum_pids sessions = map pid_of (filter_by is_autovacuum sessions)

unfoldable pub manual_pids : List (ℕ × Text) → List ℕ
manual_pids sessions = map pid_of (filter_by (λ s. not (is_autovacuum s)) sessions)

module _ {F W : Type 0} (server : Server F W) where
  -- stops at the first error, which ends the run
  unfoldable pub terminate_backends : List ℕ → Action F W (Unit {0})
  terminate_backends [] = pure tt
  terminate_backends (pid ∷ pids) =
      let rest = terminate_backends pids in
      (call (terminated pid) (server.terminate_backend pid) >>= or_context) >> rest

  unfoldable pub stop_sessions : RunPolicy → List ℕ → Action F W (Unit {0})
  stop_sessions policy pids =
      when is_empty pids
      then pure tt
      else when policy.dry_run
      then log warning
      else (terminate_backends pids >> log warning)

  unfoldable pub stop_manual : RunPolicy → List ℕ → Action F W Bool
  stop_manual policy pids =
      when is_empty pids
      then pure true
      else when policy.force
      then (stop_sessions policy pids >> pure true)
      else (log warning >> count_skipped >> pure false)

  unfoldable pub on_sessions : RunPolicy → List (ℕ × Text) → Action F W Bool
  on_sessions policy sessions =
      when is_empty sessions
      then pure true
      else when policy.skip_active_vacuum
      then (log warning >> count_skipped >> pure false)
      else (stop_sessions policy (autovacuum_pids sessions)
          >> stop_manual policy (manual_pids sessions))

  unfoldable pub handle_active_vacuums : RunPolicy → TableKey → Action F W Bool
  handle_active_vacuums policy t = do
    sessions ← call read (server.find_active_vacuums t) >>= or_formatted
    on_sessions policy sessions
