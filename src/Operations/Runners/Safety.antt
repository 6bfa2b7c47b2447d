-- ===== src/Operations/Runners/Safety.antt =====
-- Lemmas on what the runners of src/operations.rs leave undone.
use pg_maintainer.Prelude.{◌≡◌, true, false, arith, All}
use mathlib.Core.List.{Memᴰ}
use pg_maintainer.Types.Options.{RunPolicy, VacuumOptions}
use pg_maintainer.Types.Tables.{key_mem}
use pg_maintainer.Session.{
  Float, Server, State, Event, logged, read, terminated, maintained, recorded, slept,
}
use pg_maintainer.Operations.Allows.{Allows}
use pg_maintainer.Operations.Runners.Job.{Job, candidates, handled_before, run_job}
use pg_maintainer.Operations.Runners.Effects.{IsStatementOf, run_job-Emits}

-- A line of the log or a query that reads.
abbrev pub IsQuiet : Event → Type 0
IsQuiet (logged level) = Unit
IsQuiet read = Unit
IsQuiet (terminated pid) = ⊥
IsQuiet (maintained t sql) = ⊥
IsQuiet (recorded entry) = ⊥
IsQuiet (slept ns) = ⊥

-- A statement is the job's, on a candidate that is not in the job's set of handled tables.
abbrev pub IsOnTarget : Job → Event → Type 0
IsOnTarget j (maintained t sql) =
    Memᴰ t (candidates j) × (key_mem t (handled_before j) ≡ false) × IsStatementOf j t sql
IsOnTarget j (logged level) = Unit
IsOnTarget j read = Unit
IsOnTarget j (terminated pid) = Unit
IsOnTarget j (recorded entry) = Unit
IsOnTarget j (slept ns) = Unit

abbrev pub IsNotTermination : Event → Type 0
IsNotTermination (terminated pid) = ⊥
IsNotTermination (maintained t sql) = Unit
IsNotTermination (logged level) = Unit
IsNotTermination read = Unit
IsNotTermination (recorded entry) = Unit
IsNotTermination (slept ns) = Unit

pub dry_run-Allows : (policy : RunPolicy) → policy.dry_run ≡ true → Allows policy IsQuiet
dry_run-Allows policy dry = record {
  on_log = λ level. tt;
  on_read = tt;
  on_sleep = λ live. ground arith;
  on_record = λ live. ground arith;
  on_terminate = λ live. ground arith;
}

target-Allows : (policy : RunPolicy) (j : Job) → Allows policy (IsOnTarget j)
target-Allows policy j = record {
  on_log = λ level. tt;
  on_read = tt;
  on_sleep = λ live ns. tt;
  on_record = λ live entry. tt;
  on_terminate = λ live unskipped pid. tt;
}

pub skip-Allows :
    (policy : RunPolicy) → policy.skip_active_vacuum ≡ true → Allows policy IsNotTermination
skip-Allows policy skip = record {
  on_log = λ level. tt;
  on_read = tt;
  on_sleep = λ live ns. tt;
  on_record = λ live entry. tt;
  on_terminate = λ live unskipped. ground arith;
}

module _ {F W : Type 0} (float : Float F) (server : Server F W) (policy : RunPolicy)
    (v : VacuumOptions) where
  -- In a dry run, where the trace so far has nothing but log lines and queries that read, so has
  -- the trace after a runner, whatever the server answers: no statement, no logbook row, no
  -- terminated session, no sleep.
  pub dry_run-IsQuiet :
      (j : Job) (s : State F W)
      → policy.dry_run ≡ true
      → All IsQuiet s.trace
      → All IsQuiet (run_job float server policy v j s).1.trace
  dry_run-IsQuiet j s dry =
      (run_job-Emits float server (dry_run-Allows policy dry) v j λ t m live. ground arith).at s

  -- Where it holds of the trace so far, it holds after a runner that every statement that was
  -- sent reads, keyword and quoted names, as the runner's statement (an ANALYZE for the two that
  -- analyze, a VACUUM for the other six) on one of its candidates, and on none that is in the set
  -- of handled tables that the runner is given (the first three runners are given none).
  pub statements-IsOnTarget :
      (j : Job) (s : State F W)
      → All (IsOnTarget j) s.trace
      → All (IsOnTarget j) (run_job float server policy v j s).1.trace
  statements-IsOnTarget j s =
      (run_job-Emits float server (target-Allows policy j) v j
          λ t m live fresh sql on. (m, fresh, on)).at
        s

  -- With --skip-active-vacuum, a runner terminates no session: where the trace so far has no
  -- termination, the trace after it has none.
  pub skip_active_never_terminates :
      (j : Job) (s : State F W)
      → policy.skip_active_vacuum ≡ true
      → All IsNotTermination s.trace
      → All IsNotTermination (run_job float server policy v j s).1.trace
  skip_active_never_terminates j s skip =
      (run_job-Emits float server (skip-Allows policy skip) v j λ t m live fresh sql on. tt).at s
