-- ===== src/Operations/Phase/Tally/Summary.antt =====
-- Lemmas on the summary that a runner returns, src/operations.rs.
use pg_maintainer.Prelude.{ℕ, ◌≡◌, refl, true, List, [], ◌∷◌, length, is_empty, arith, inl}
use pg_maintainer.Types.Options.{RunPolicy, OperationSummary}
use pg_maintainer.Types.Tables.{TableKey}
use pg_maintainer.Session.{Float, Server, State, Action, LogLevel, success, log}
use pg_maintainer.Session.Preserves.{Preserves}
use pg_maintainer.Session.Leads.{Leads, Leads-when, Leads-kept, Leads-bind, Leads-to}
use pg_maintainer.Session.Keeps.{Keeps-log, Leads-set_summary, Leads-summary}
use pg_maintainer.Operations.Statements.{OperationResult}
use pg_maintainer.Operations.Phase.{Phase, run_phase}
use pg_maintainer.Operations.Phase.Tally.{Tally, Within, Finished, tally-Within}
use pg_maintainer.Operations.Phase.Tally.Loop.{table_loop_leads}

-- What a runner returns: the number of its tables, and three counters that account for at most
-- these; for exactly these outside a dry run, unless the signal was there.
module _ {F W : Type 0} (float : Float F) (server : Server F W) (phase : Phase F W)
    (policy : RunPolicy)
    (on_maintain : (T : OperationSummary → Type 0) (t : TableKey)
      → Preserves (λ s. T s.summary) (phase.maintain t))
    (on_report : (T : OperationSummary → Type 0) (r : OperationResult)
      → Preserves (λ s. T s.summary) (phase.report r))
    (S : Type 0) (on_sleep : (ns : ℕ) (w : W) → (server.sleep ns w).0 ≡ true → S)
    (on_request : (w : W) → server.shutdown_requested w ≡ true → S) where
  start-Within : (n : ℕ) (s : State F W) → Tally policy n 0 s.summary → Within n s.summary
  start-Within n s = tally-Within policy n 0 (omega arith) s.summary

  nothing_to_do :
      (tables : List TableKey)
      → is_empty tables ≡ true
      → Leads {F = F} {W = W}
          (λ s. Tally policy (length tables) 0 s.summary)
          (log success)
          (λ u s. Finished policy S (length tables) s.summary)
          (λ s. Within (length tables) s.summary)
  unfolding is_empty
  nothing_to_do [] empty =
      Leads-to (λ u s h. ((h.0, h.1), inl h.2))
        (Leads-kept _ (start-Within 0) (Keeps-log _ success))
  nothing_to_do (t ∷ ts) empty = ground arith

  pub run_phase_leads :
      (handled : List TableKey) (found : LogLevel) (announce : Action F W (Unit {0}))
      (tables : List TableKey)
      → ((T : OperationSummary → Type 0) → Preserves (λ s. T s.summary) announce)
      → Leads
          (λ s. Unit {0})
          (run_phase float server phase policy handled found announce tables)
          (λ o s. Finished policy S (length tables) o)
          (λ s. Within (length tables) s.summary)
  unfolding run_phase
  run_phase_leads handled found announce tables on_announce =
      let n = length tables in
      Leads-bind _ _ (Leads-set_summary _ (Tally policy n 0) _ (refl, omega arith, λ live. refl))
        λ u.
          Leads-bind _ _
            (Leads-when _ _ _ (nothing_to_do tables) (λ full.
              Leads-bind _ _
                (Leads-bind _ _ (Leads-kept _ (start-Within n) (Keeps-log _ found))
                  (λ said. Leads-kept _ (start-Within n) (on_announce _)))
                (λ said.
                  table_loop_leads float server phase policy on_maintain on_report S on_sleep
                    on_request n handled 0 tables (omega arith))))
            (λ u'. Leads-summary (Finished policy S n) _ (λ o h. h))
