-- ===== src/Operations/Active/Effects.antt =====
-- Lemmas on what handle_active_vacuums of src/operations.rs calls.
use pg_maintainer.Prelude.{ℕ, List, [], ◌∷◌, ◌≡◌, false}
use pg_maintainer.Types.Options.{RunPolicy, OperationSummary}
use pg_maintainer.Types.Tables.{TableKey}
use pg_maintainer.Session.{Server, Event, terminated, read, warning, call, or_formatted, ◌>>=◌}
use pg_maintainer.Session.Preserves.{
  Preserves, preserves_rules, Preserves-bind, Preserves-when, Preserves-pure, Preserves-or_context,
  Preserves-or_formatted,
}
use pg_maintainer.Session.Keeps.{Keeps-call, Keeps-log}
use pg_maintainer.Session.Emits.{Emits, Emits-call, Emits-log, emits_rules}
use pg_maintainer.Operations.Allows.{Allows}
use pg_maintainer.Operations.Active.{
  terminate_backends, stop_sessions, stop_manual, on_sessions, handle_active_vacuums,
}

module _ {F W : Type 0} (server : Server F W) {E : Event → Type 0} where
  pub terminate_backends-Emits :
      (on_pid : (pid : ℕ) → E (terminated pid)) (pids : List ℕ)
      → Emits E (terminate_backends server pids)
  unfolding terminate_backends
  terminate_backends-Emits on_pid [] = search preserves_rules
  terminate_backends-Emits on_pid (pid ∷ pids) =
      Preserves-bind _ _ (Preserves-bind _ _ (Emits-call _ _ (on_pid pid)) (search preserves_rules))
        λ done. terminate_backends-Emits on_pid pids

module _ {F W : Type 0} (server : Server F W) {E : Event → Type 0} {policy : RunPolicy}
    (allows : Allows policy E) where
  open allows use {on_log, on_read, on_terminate}

  stop_sessions-Emits :
      policy.skip_active_vacuum ≡ false
      → (pids : List ℕ) → Emits E (stop_sessions server policy pids)
  unfolding stop_sessions
  stop_sessions-Emits unskipped pids =
      Preserves-when _ _ _ (λ h. search preserves_rules)
        λ h.
          Preserves-when _ _ _ (λ dry. search (emits_rules, on_log))
            λ live.
              Preserves-bind _ _
                (terminate_backends-Emits server {E = E} (on_terminate live unskipped) pids)
                λ done. Emits-log warning (on_log warning)

  stop_manual-Emits :
      policy.skip_active_vacuum ≡ false → (pids : List ℕ) → Emits E (stop_manual server policy pids)
  unfolding stop_manual
  stop_manual-Emits unskipped pids =
      search (preserves_rules, emits_rules, on_log, stop_sessions-Emits unskipped) depth 8

  on_sessions-Emits : (sessions : List (ℕ × List ℕ)) → Emits E (on_sessions server policy sessions)
  unfolding on_sessions
  on_sessions-Emits sessions =
      search (preserves_rules, emits_rules, on_log, stop_sessions-Emits, stop_manual-Emits) depth 9

  pub handle_active_vacuums-Emits : (t : TableKey) → Emits E (handle_active_vacuums server policy t)
  unfolding handle_active_vacuums
  handle_active_vacuums-Emits t = search (preserves_rules, emits_rules, on_read, on_sessions-Emits)

-- Sessions are found and terminated without a change of the summary.
module _ {F W : Type 0} (server : Server F W) where
  terminate_backends_keeps :
      (pids : List ℕ) (T : OperationSummary → Type 0)
      → Preserves (λ s. T s.summary) (terminate_backends server pids)
  unfolding terminate_backends
  terminate_backends_keeps [] T = Preserves-pure _
  terminate_backends_keeps (pid ∷ pids) T =
      Preserves-bind _ _ (Preserves-bind _ _ (Keeps-call T _ _) Preserves-or_context)
        λ done. terminate_backends_keeps pids T

  pub stop_sessions_keeps :
      (policy : RunPolicy) (pids : List ℕ) (T : OperationSummary → Type 0)
      → Preserves (λ s. T s.summary) (stop_sessions server policy pids)
  unfolding stop_sessions
  stop_sessions_keeps policy pids T =
      Preserves-when _ _ _ (λ none_there. Preserves-pure _)
        λ some_there.
          Preserves-when _ _ _ (λ dry. Keeps-log T warning)
            λ live.
              Preserves-bind _ _ (terminate_backends_keeps pids T) (λ done. Keeps-log T warning)

  pub active_query_keeps :
      (t : TableKey) (T : OperationSummary → Type 0)
      → Preserves {F = F}
          (λ s. T s.summary)
          (call read (server.find_active_vacuums t) >>= or_formatted)
  active_query_keeps t T = Preserves-bind _ _ (Keeps-call T _ _) Preserves-or_formatted
