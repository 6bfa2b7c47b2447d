-- ===== src/Session/Emits.antt =====
-- What an action may do to the world outside: `Emits E m` says that every event that `m` adds to the
-- trace satisfies `E`.
use pg_maintainer.Prelude.{ℕ, All}
use pg_maintainer.Types.Options.{OperationSummary}
use pg_maintainer.Session.{
  Server, ReplicaLagGate, Reply, Event, logged, slept, LogLevel, Action, call, log, count_succeeded,
  count_failed, count_skipped, set_summary, modify_gate, sleep_or_shutdown,
}
use pg_maintainer.Session.Preserves.{Preserves}

abbrev pub Emits : {F W A : Type 0} → (Event → Type 0) → Action F W A → Type 0
Emits E m = Preserves (λ s. All E s.trace) m

module _ {F W : Type 0} {E : Event → Type 0} where
  pub Emits-call :
      {A : Type 0} (event : Event) (query : W → Reply A × W)
      → E event
      → Emits {F = F} E (call event query)
  unfolding call
  Emits-call event query e = record { at = λ s h. (e, h) }

  pub Emits-log : (level : LogLevel) → E (logged level) → Emits {F = F} {W = W} E (log level)
  unfolding log
  Emits-log level e = record { at = λ s h. (e, h) }

  pub Emits-sleep :
      (server : Server F W) (ns : ℕ) → E (slept ns) → Emits E (sleep_or_shutdown server ns)
  unfolding sleep_or_shutdown
  Emits-sleep server ns e = record { at = λ s h. (e, h) }

  pub Emits-succeeded : Emits {F = F} {W = W} E count_succeeded
  unfolding count_succeeded
  Emits-succeeded = record { at = λ s h. h }

  pub Emits-failed : Emits {F = F} {W = W} E count_failed
  unfolding count_failed
  Emits-failed = record { at = λ s h. h }

  pub Emits-skipped : Emits {F = F} {W = W} E count_skipped
  unfolding count_skipped
  Emits-skipped = record { at = λ s h. h }

  pub Emits-set_summary :
      (summary : OperationSummary) → Emits {F = F} {W = W} E (set_summary summary)
  unfolding set_summary
  Emits-set_summary summary = record { at = λ s h. h }

  pub Emits-modify_gate :
      (f : ReplicaLagGate F → ReplicaLagGate F) → Emits {W = W} E (modify_gate f)
  unfolding modify_gate
  Emits-modify_gate f = record { at = λ s h. h }

pub ruleset emits_rules = (
  Emits-call, Emits-log, Emits-sleep, Emits-succeeded, Emits-failed, Emits-skipped,
  Emits-set_summary, Emits-modify_gate,
)
