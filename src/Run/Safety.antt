-- ===== src/Run/Safety.antt =====
-- Lemmas on what the phases of src/main.rs leave undone.
use pg_maintainer.Prelude.{◌≡◌, true, false, List, [], ◌∷◌, All, Text, arith}
use pg_maintainer.Types.Options.{RunPolicy, VacuumOptions, OperationSummary}
use pg_maintainer.Types.Tables.{TableKey, NeedsVacuumTableInfo}
use pg_maintainer.Prelude.Int.{ℤ}
use pg_maintainer.Session.{
  Float, Server, State, Event, Reply, got, refused, maintained, read, info, Action, log, call,
  or_context, ◌>>=◌,
}
use pg_maintainer.Session.Preserves.{
  preserves_rules, Preserves-bind, Preserves-when, Preserves-pure, Preserves-gets,
  Preserves-or_context,
}
use pg_maintainer.Session.Emits.{Emits, Emits-call, Emits-log, emits_rules}
use pg_maintainer.Operations.Allows.{Allows}
use pg_maintainer.Operations.Runners.Job.{Job}
use pg_maintainer.Operations.Runners.Effects.{run_job-Emits}
use pg_maintainer.Operations.Runners.Safety.{IsQuiet, IsNotTermination, dry_run-Allows, skip-Allows}
use pg_maintainer.Run.Discovery.{Discovery, Threshold, get_vacuum_max_threshold, or_warn}
use pg_maintainer.Run.Phases.{
  Handled, RunArgs, announce_added, in_phase, guarded, run_in_phase, never_vacuumed_tables,
  never_analyzed_tables, wraparound_tables, bloat_tables, find_merged, needs_vacuum_tables,
  vacuum_overdue_tables, analyze_overdue_tables, listed_tables, in_turn, run_phases,
}

module _ {F W : Type 0} (float : Float F) (server : Server F W) {E : Event → Type 0}
    {policy : RunPolicy} (allows : Allows policy E)
    (on_statement : policy.dry_run ≡ false → (t : TableKey) (sql : Text) → E (maintained t sql))
    (v : VacuumOptions) (threshold : Threshold F) (discovery : Discovery F W)
    (args : RunArgs F) where
  open allows use {on_log, on_read}

  guarded-Emits :
      (enabled : _) (h : Handled) (body : Action F W (OperationSummary × Handled))
      → Emits E body
      → Emits E (guarded float server policy v threshold discovery args enabled h body)
  unfolding guarded
  guarded-Emits enabled h body hb = Preserves-bind _ _ (Preserves-gets _) λ shutdown.
      Preserves-when _ _ _ (λ on. hb) (λ off. search (preserves_rules, emits_rules, on_log))

  in_phase-Emits : {A : Type 0} (m : Action F W A) → Emits E m → Emits E (in_phase m)
  unfolding in_phase
  in_phase-Emits m hm = record { at = λ s h. hm.at s h }

  run_in_phase-Emits :
      (j : Job) (h : Handled)
      → Emits E (run_in_phase float server policy v threshold discovery args j h)
  unfolding run_in_phase
  run_in_phase-Emits j h =
      Preserves-bind _ _
        (in_phase-Emits _
          (run_job-Emits float server allows v j λ t m live fresh sql on. on_statement live t sql))
        (λ summary. Preserves-pure _)

  or_warn-Emits :
      {A : Type 0} (fallback : A) (r : Reply A) → Emits {F = F} {W = W} E (or_warn fallback r)
  unfolding or_warn
  or_warn-Emits fallback (got a) = Preserves-pure a
  or_warn-Emits fallback (refused e) = search (preserves_rules, emits_rules, on_log)

  found :
      {A : Type 0} (query : W → Reply A × W) (f : A → Action F W (OperationSummary × Handled))
      → ((a : A) → Emits E (f a))
      → Emits E (log info >>= λ u. log info >>= λ u'. (call read query >>= or_context) >>= f)
  found query f hf = Preserves-bind _ _ (Emits-log info (on_log info)) λ u.
      Preserves-bind _ _ (Emits-log info (on_log info)) λ u'.
        Preserves-bind _ _ (Preserves-bind _ _ (Emits-call read query on_read) Preserves-or_context)
          hf

  never_vacuumed_tables-Emits :
      (h : Handled)
      → Emits E (never_vacuumed_tables float server policy v threshold discovery args h)
  unfolding never_vacuumed_tables
  never_vacuumed_tables-Emits h = guarded-Emits _ h _ (found _ _ λ ts. run_in_phase-Emits _ _)

  never_analyzed_tables-Emits :
      (h : Handled)
      → Emits E (never_analyzed_tables float server policy v threshold discovery args h)
  unfolding never_analyzed_tables
  never_analyzed_tables-Emits h = guarded-Emits _ h _ (found _ _ λ ts. run_in_phase-Emits _ _)

  wraparound_tables-Emits :
      (h : Handled) → Emits E (wraparound_tables float server policy v threshold discovery args h)
  unfolding wraparound_tables
  wraparound_tables-Emits h = guarded-Emits _ h _ (found _ _ λ ts. run_in_phase-Emits _ _)

  bloat_tables-Emits :
      (h : Handled) → Emits E (bloat_tables float server policy v threshold discovery args h)
  unfolding bloat_tables
  bloat_tables-Emits h = guarded-Emits _ h _ (found _ _ λ ts. run_in_phase-Emits _ _)

  vacuum_overdue_tables-Emits :
      (h : Handled)
      → Emits E (vacuum_overdue_tables float server policy v threshold discovery args h)
  unfolding vacuum_overdue_tables
  vacuum_overdue_tables-Emits h = guarded-Emits _ h _ (found _ _ λ ts. run_in_phase-Emits _ _)

  analyze_overdue_tables-Emits :
      (h : Handled)
      → Emits E (analyze_overdue_tables float server policy v threshold discovery args h)
  unfolding analyze_overdue_tables
  analyze_overdue_tables-Emits h = guarded-Emits _ h _ (found _ _ λ ts. run_in_phase-Emits _ _)

  announce_added-Emits :
      (ts : List NeedsVacuumTableInfo) → Emits {F = F} {W = W} E (announce_added ts)
  unfolding announce_added
  announce_added-Emits [] = Preserves-pure _
  announce_added-Emits (t ∷ ts) =
      let ih = announce_added-Emits ts in
      Preserves-when _ _ _ (λ added. Preserves-bind _ _ (Emits-log info (on_log info)) (λ u. ih))
        (λ known. ih)

  max_threshold-Emits : (n : ℤ) → Emits E (get_vacuum_max_threshold threshold discovery n)
  unfolding get_vacuum_max_threshold
  max_threshold-Emits n = search (preserves_rules, emits_rules, on_read)

  find_merged-Emits : Emits E (find_merged float server policy v threshold discovery args)
  unfolding find_merged
  find_merged-Emits =
      Preserves-bind _ _ (Preserves-bind _ _ (Emits-call _ _ on_read) (or_warn-Emits _)) λ settings.
        Preserves-bind _ _ (Emits-log info (on_log info)) λ u.
          Preserves-bind _ _ (Emits-log info (on_log info)) λ u'.
            Preserves-bind _ _ (Preserves-bind _ _ (Emits-call _ _ on_read) Preserves-or_context)
              λ classic.
                Preserves-bind _ _ (Preserves-bind _ _ (Emits-call _ _ on_read) (or_warn-Emits _))
                  λ version.
                    Preserves-bind _ _
                      (Preserves-bind _ _ (max_threshold-Emits version) (or_warn-Emits _))
                      λ cap. Preserves-bind _ _ (Emits-log info (on_log info)) λ u''.
                        Preserves-bind _ _
                          (Preserves-bind _ _ (Emits-call _ _ on_read) (or_warn-Emits _))
                          λ extra. Preserves-bind _ _ (Emits-log info (on_log info)) λ u'''.
                            Preserves-bind _ _ (announce_added-Emits _) (λ said. Preserves-pure _)

  needs_vacuum_tables-Emits :
      (h : Handled) → Emits E (needs_vacuum_tables float server policy v threshold discovery args h)
  unfolding needs_vacuum_tables
  needs_vacuum_tables-Emits h = guarded-Emits _ h _ (
      Preserves-bind _ _ (Emits-log info (on_log info))
        λ u. Preserves-bind _ _ find_merged-Emits λ ts. run_in_phase-Emits _ _)

  listed_tables-Emits :
      (h : Handled) → Emits E (listed_tables float server policy v threshold discovery args h)
  unfolding listed_tables
  listed_tables-Emits h = Preserves-bind _ _ (Preserves-gets _) λ shutdown.
      Preserves-when _ _ _
        (λ on. Preserves-bind _ _ (Emits-log info (on_log info)) (λ u. run_in_phase-Emits _ _))
        (λ off. Preserves-pure _)

  in_turn-cons :
      (phase : Handled → Action F W (OperationSummary × Handled))
      (phases : List (Handled → Action F W (OperationSummary × Handled)))
      → ((h : Handled) → Emits E (phase h))
      → ((h : Handled) → Emits E (in_turn float server policy v threshold discovery args phases h))
      → (h : Handled)
      → Emits E (in_turn float server policy v threshold discovery args (phase ∷ phases) h)
  unfolding in_turn
  in_turn-cons phase phases hp hps h =
      Preserves-bind _ _ (hp h) λ r. Preserves-bind _ _ (hps r.1) (λ rest. Preserves-pure _)

  in_turn-nil :
      (h : Handled) → Emits E (in_turn float server policy v threshold discovery args [] h)
  unfolding in_turn
  in_turn-nil h = Preserves-pure _

  run_phases-Emits : Emits E (run_phases float server policy v threshold discovery args)
  unfolding run_phases
  run_phases-Emits =
      in_turn-cons _ _ never_vacuumed_tables-Emits
        (in_turn-cons _ _ never_analyzed_tables-Emits (
          in_turn-cons _ _ wraparound_tables-Emits (
            in_turn-cons _ _ bloat_tables-Emits (
              in_turn-cons _ _ needs_vacuum_tables-Emits (
                in_turn-cons _ _ vacuum_overdue_tables-Emits (
                  in_turn-cons _ _ analyze_overdue_tables-Emits
                    (in_turn-cons _ _ listed_tables-Emits in_turn-nil)))))))
        _

module _ {F W : Type 0} (float : Float F) (server : Server F W) (policy : RunPolicy)
    (v : VacuumOptions) (threshold : Threshold F) (discovery : Discovery F W)
    (args : RunArgs F) where
  -- In a dry run, where the trace so far has nothing but log lines and queries that read, so has
  -- the trace after all phases, whatever modes are enabled and whatever the server answers.
  pub run_phases-IsQuiet :
      (s : State F W)
      → policy.dry_run ≡ true
      → All IsQuiet s.trace
      → All IsQuiet (run_phases float server policy v threshold discovery args s).1.trace
  run_phases-IsQuiet s dry =
      (run_phases-Emits float server (dry_run-Allows policy dry)
          (λ live t sql. ground (arith, dry, live)) v threshold discovery args).at
        s

  -- With --skip-active-vacuum, no phase terminates a session: where the trace so far has no
  -- termination, the trace after all phases has none.
  pub run_phases-IsNotTermination :
      (s : State F W)
      → policy.skip_active_vacuum ≡ true
      → All IsNotTermination s.trace
      → All IsNotTermination (run_phases float server policy v threshold discovery args s).1.trace
  run_phases-IsNotTermination s skip =
      (run_phases-Emits float server (skip-Allows policy skip) (λ live t sql. tt) v threshold
          discovery args).at
        s
