-- ===== src/Operations/Phase/Tally.antt =====
-- Lemmas on the counters in the loop of a runner, src/operations.rs.
pub mod Loop
pub mod Summary
use pg_maintainer.Prelude.{
  ℕ, zero, suc, ◌+◌, ◌≤◌, ◌≡◌, refl, ◌∙◌, Bool, true, false, List, [], ◌∷◌, length, is_empty,
  Option, none, some, Text, arith, ◌⊎◌, inl, inr,
}
use pg_maintainer.Types.Options.{RunPolicy, OperationSummary}
use pg_maintainer.Types.Tables.{TableKey}
use pg_maintainer.DbError.{PgError}
use pg_maintainer.Operations.Active.Effects.{stop_sessions_keeps, active_query_keeps}
use pg_maintainer.Session.{
  when◌then◌else◌, Float, Server, State, LogEntry, ReplicaLagGate, Reply, got, refused, Action,
  LogLevel, warning, success, error, info, pure, ◌>>=◌, ◌>>◌, log, count_skipped,
}
use pg_maintainer.Session.Preserves.{Preserves}
use pg_maintainer.Session.Leads.{
  Leads, Leads-pure, Leads-raise, Leads-when, Leads-kept, Leads-bind, Leads-gets, Leads-from,
  Leads-to,
}
use pg_maintainer.Session.Keeps.{
  accounted, Keeps-log, Leads-succeeded, Leads-failed, Leads-skipped, Leads-set_summary,
  Leads-summary,
}
use pg_maintainer.Operations.Allows.{calls_of_summary}
use pg_maintainer.Operations.Lag.{LagGateVerdict, proceed, skip_table, shutdown_requested}
use pg_maintainer.Operations.Lag.Signals.{Signalled, wait_for_replica_lag-Verdicts}
use pg_maintainer.Operations.Active.{stop_manual, on_sessions, handle_active_vacuums}
use pg_maintainer.Operations.Statements.{OperationResult, log_maintenance_operation}
use pg_maintainer.Operations.Statements.Effects.{record-Preserves}
use pg_maintainer.Operations.Retry.{
  OpErrorKind, lock_timeout, connection_lost, shutdown_interrupted, other, classify_op_error,
}
use pg_maintainer.Operations.Retry.Effects.{with_lock_timeout_retry-Preserves}
use pg_maintainer.Operations.Phase.{
  Phase, Flow, next, stop, after_flow, connection_lost_error, lag_verdict, after_verdict,
  lag_verdicts, handle_shutdown_interrupt, on_table_error, on_kind, on_error, on_success, on_reply,
  now, maintain_table, after_gate, table_step, table_loop, run_phase,
}

-- `k` tables are behind the loop, of `n`; outside a dry run each of them is accounted for.
abbrev pub Tally : RunPolicy → ℕ → ℕ → OperationSummary → Type 0
Tally policy n k o = (o.total ≡ n) × (accounted o ≤ k) × (policy.dry_run ≡ false → accounted o ≡ k)

abbrev pub Within : ℕ → OperationSummary → Type 0
Within n o = (o.total ≡ n) × (accounted o ≤ n)

pub tally-Within :
    (policy : RunPolicy) (n k : ℕ)
    → k ≤ n
    → (o : OperationSummary) → Tally policy n k o
    → Within n o
tally-Within policy n k le o (total, few, exact) = (total, omega arith)

pub tally_next :
    (policy : RunPolicy) (n k : ℕ) (o o' : OperationSummary)
    → o'.total ≡ o.total
    → accounted o' ≡ accounted o + 1
    → Tally policy n k o
    → Tally policy n (k + 1) o'
tally_next policy n k o o' same more (total, few, exact) =
    (same ∙ total, omega arith, λ live. omega (arith, exact live))

-- A table that is accounted for, or an end with the signal `S`.
abbrev pub Counted : RunPolicy → ℕ → ℕ → Type 0 → Flow → OperationSummary → Type 0
Counted policy n k S next o = Tally policy n (k + 1) o
Counted policy n k S stop o = Within n o × S

-- All is accounted for outside a dry run, unless the signal `S` was there.
abbrev pub Finished : RunPolicy → Type 0 → ℕ → OperationSummary → Type 0
Finished policy S n o = Within n o × ((policy.dry_run ≡ false → accounted o ≡ n) ⊎ S)

-- only a shutdown makes an error an interrupt
pub interrupted-signal :
    (e : PgError) (shutdown : Bool)
    → classify_op_error e shutdown ≡ shutdown_interrupted
    → shutdown ≡ true
unfolding classify_op_error
interrupted-signal e true h = refl
interrupted-signal e false h = ground arith

-- Sessions that vacuum the table already: false is a skip.
abbrev pub AfterHandling : RunPolicy → ℕ → ℕ → Bool → OperationSummary → Type 0
AfterHandling policy n k true o = Tally policy n k o
AfterHandling policy n k false o = Tally policy n (k + 1) o

module _ (policy : RunPolicy) (S : Type 0) (n : ℕ) where
  pub Finished-early : (o : OperationSummary) → Within n o → S → Finished policy S n o
  Finished-early o within signal = (within, inr signal)

  pub Finished-all :
      (k : ℕ) → k ≡ n → (o : OperationSummary) → Tally policy n k o → Finished policy S n o
  Finished-all k all o (total, few, exact) =
      ((total, omega arith), inl (λ live. omega (arith, exact live)))

module _ {F W : Type 0} (policy : RunPolicy) (S : Type 0) (n : ℕ) where
  -- From `T`, whatever happens ends within the total.
  abbrev pub LeadsTo :
      {A : Type 0}
      → (OperationSummary → Type 0)
      → Action F W A
      → (A → OperationSummary → Type 0)
      → Type 0
  LeadsTo T m Q = Leads (λ s. T s.summary) m (λ a s. Q a s.summary) (λ s. Within n s.summary)

  module _ (k : ℕ) (room : k + 1 ≤ n) where
    pub weaken : (s : State F W) → Tally policy n k s.summary → Within n s.summary
    weaken s = tally-Within policy n k (omega arith) s.summary

    pub weaken_next : (s : State F W) → Tally policy n (k + 1) s.summary → Within n s.summary
    weaken_next s = tally-Within policy n (k + 1) room s.summary

    -- an action that does not count, and what follows it
    pub after :
        {A B : Type 0} (m : Action F W A) (f : A → Action F W B) (Q : B → OperationSummary → Type 0)
        → Preserves (λ s. Tally policy n k s.summary) m
        → ((a : A) → LeadsTo (Tally policy n k) (f a) Q)
        → LeadsTo (Tally policy n k) (m >>= f) Q
    after m f Q hm hf = Leads-bind m f (Leads-kept m weaken hm) hf

    pub one-Counted : LeadsTo (Tally policy n (k + 1)) (pure next) (Counted policy n k S)
    one-Counted = Leads-pure next (λ s h. h)

    pub skipped_next :
        LeadsTo (Tally policy n k) (count_skipped >> pure next) (Counted policy n k S)
    skipped_next = Leads-bind _ _ (Leads-skipped (tally_next policy n k)) (λ u. one-Counted)

    pub stops :
        S
        → {A : Type 0} (m : Action F W A)
        → ((T : OperationSummary → Type 0) → Preserves (λ s. T s.summary) m)
        → LeadsTo (Tally policy n k) (m >> pure stop) (Counted policy n k S)
    stops signal m hm = after m _ _ (hm _) (λ a. Leads-pure stop (λ s h. (weaken s h, signal)))

    -- an action that does not count, and is the last one
    pub settles :
        {A : Type 0} (m : Action F W A)
        → ((T : OperationSummary → Type 0) → Preserves (λ s. T s.summary) m)
        → LeadsTo (Tally policy n (k + 1)) m (λ a. Tally policy n (k + 1))
    settles m hm = Leads-kept m weaken_next (hm _)

    pub dry_next :
        policy.dry_run ≡ true
        → LeadsTo (Tally policy n k) (log info >> pure next) (Counted policy n k S)
    dry_next dry =
        after _ _ _ (Keeps-log _ info) λ said.
          Leads-pure next λ s (total, few, exact). (total, omega arith, λ live. ground arith)

    pub skips :
        LeadsTo
          (Tally policy n k)
          (log warning >> count_skipped >> pure false)
          (AfterHandling policy n k)
    skips =
        Leads-bind _ _
          (after _ _ _ (Keeps-log _ warning) λ said. Leads-skipped (tally_next policy n k))
          (λ u. Leads-pure false (λ s h. h))

    pub goes_on :
        {A : Type 0} (m : Action F W A)
        → ((T : OperationSummary → Type 0) → Preserves (λ s. T s.summary) m)
        → LeadsTo (Tally policy n k) (m >> pure true) (AfterHandling policy n k)
    goes_on m hm = after m _ _ (hm _) (λ a. Leads-pure true (λ s h. h))
