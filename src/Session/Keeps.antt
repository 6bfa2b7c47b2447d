-- ===== src/Session/Keeps.antt =====
-- Actions that leave the summary alone, and what those that count do to it.
use pg_maintainer.Prelude.{ℕ, ◌+◌, ◌≡◌, refl, arith}
use pg_maintainer.Types.Options.{OperationSummary}
use pg_maintainer.Session.{
  Server, State, ReplicaLagGate, Reply, Event, LogLevel, gets, call, log, count_succeeded,
  count_failed, count_skipped, set_summary, modify_gate, sleep_or_shutdown,
}
use pg_maintainer.Session.Preserves.{Preserves}
use pg_maintainer.Session.Leads.{Leads}

module _ {F W : Type 0} (T : OperationSummary → Type 0) where
  pub Keeps-call :
      {A : Type 0} (event : Event) (query : W → Reply A × W)
      → Preserves {F = F} (λ s. T s.summary) (call event query)
  unfolding call
  Keeps-call event query = record { at = λ s h. h }

  pub Keeps-log : (level : LogLevel) → Preserves {F = F} {W = W} (λ s. T s.summary) (log level)
  unfolding log
  Keeps-log level = record { at = λ s h. h }

  pub Keeps-sleep :
      (server : Server F W) (ns : ℕ) → Preserves (λ s. T s.summary) (sleep_or_shutdown server ns)
  unfolding sleep_or_shutdown
  Keeps-sleep server ns = record { at = λ s h. h }

  pub Keeps-modify_gate :
      (f : ReplicaLagGate F → ReplicaLagGate F)
      → Preserves {W = W} (λ s. T s.summary) (modify_gate f)
  unfolding modify_gate
  Keeps-modify_gate f = record { at = λ s h. h }

-- The tables that a summary accounts for.
abbrev pub accounted : OperationSummary → ℕ
accounted o = o.succeeded + o.failed + o.skipped

module _ {F W : Type 0} {T U : OperationSummary → Type 0} {R : State F W → Type 0}
    (counts : (o o' : OperationSummary)
      → o'.total ≡ o.total
      → accounted o' ≡ accounted o + 1
      → T o
      → U o') where
  pub Leads-succeeded : Leads (λ s. T s.summary) count_succeeded (λ u s. U s.summary) R
  unfolding count_succeeded
  Leads-succeeded = record { at = λ s h. counts _ _ refl (omega arith) h }

  pub Leads-failed : Leads (λ s. T s.summary) count_failed (λ u s. U s.summary) R
  unfolding count_failed
  Leads-failed = record { at = λ s h. counts _ _ refl (omega arith) h }

  pub Leads-skipped : Leads (λ s. T s.summary) count_skipped (λ u s. U s.summary) R
  unfolding count_skipped
  Leads-skipped = record { at = λ s h. counts _ _ refl (omega arith) h }

module _ {F W : Type 0} {R : State F W → Type 0} (T U : OperationSummary → Type 0) where
  pub Leads-set_summary :
      (o : OperationSummary) → U o → Leads (λ s. T s.summary) (set_summary o) (λ u s. U s.summary) R
  unfolding set_summary
  Leads-set_summary o h = record { at = λ s t. h }

  pub Leads-summary :
      ((o : OperationSummary) → T o → U o)
      → Leads (λ s. T s.summary) (gets (λ s. s.summary)) (λ o s. U o) R
  unfolding gets
  Leads-summary h = record { at = λ s t. h s.summary t }
