-- ===== src/Run/Phases.antt =====
-- The eight phases of a run, src/main.rs, in their order, with the sets of tables that they share.
use pg_maintainer.Prelude.{
  ℕ, Bool, true, false, not, ◌&&◌, List, [], ◌∷◌, ◌++◌, Option, some, unwrap_or, is_empty, ◌==◌,
  if◌then◌else◌,
}
use pg_maintainer.Prelude.Int.{ℤ, pos}
use pg_maintainer.Types.Modes.{Mode, OrderBy}
use pg_maintainer.Types.Options.{RunPolicy, VacuumOptions, OperationSummary}
use pg_maintainer.Types.Tables.{TableKey, NeedsVacuumTableInfo}
use pg_maintainer.DbError.{message}
use pg_maintainer.Session.{
  when◌then◌else◌, Float, Server, Outcome, ok, fail, no_fuel, read, info, Action, pure, gets, call,
  or_context, log, ◌>>=◌, ◌>>◌,
}
use pg_maintainer.Operations.Merge.{merge_needs_vacuum_candidates}
use pg_maintainer.Operations.Runners.Job.{
  Job, vacuum_never_vacuumed, analyze_never_analyzed, freeze_wraparound, bloat_vacuum, needs_vacuum,
  vacuum_overdue, analyze_overdue, also_tables, candidates, run_job,
}
use pg_maintainer.Run.Discovery.{
  Discovery, Threshold, default_max_threshold, derive_max_threshold, get_vacuum_max_threshold,
  or_warn,
}

-- `already_handled`, `already_vacuumed` and `already_analyzed`
pub record Handled : Type 0 where
  pub already_handled : List TableKey
  pub already_vacuumed : List TableKey
  pub already_analyzed : List TableKey

-- What the phases use of the arguments.
pub record RunArgs (F : Type 0) : Type 0 where
  pub enabled_modes : List Mode
  pub order_by : Option OrderBy
  pub limit_n : ℤ
  pub vacuum_threshold : Option ℤ
  pub vacuum_scale_factor : Option F
  pub tables : List TableKey

abbrev mode_index : Mode → ℕ
mode_index Mode.never_vacuumed = 0
mode_index Mode.never_analyzed = 1
mode_index Mode.prevent_wraparound = 2
mode_index Mode.prevent_bloat = 3
mode_index Mode.needs_vacuum = 4
mode_index Mode.vacuum_overdue = 5
mode_index Mode.analyze_overdue = 6

-- `enabled_modes.contains(&mode)`
unfoldable pub contains_mode : Mode → List Mode → Bool
contains_mode m [] = false
contains_mode m (n ∷ ns) = if mode_index n == mode_index m then true else contains_mode m ns

abbrev pub no_summary : OperationSummary
no_summary = record { total = 0; succeeded = 0; failed = 0; skipped = 0 }

-- The tables of a phase that vacuums, of one that analyzes, and of one that only marks them handled.
abbrev pub with_vacuumed : List TableKey → Handled → Handled
with_vacuumed ts h = record h {
  already_handled = ts ++ h.already_handled;
  already_vacuumed = ts ++ h.already_vacuumed;
}

abbrev pub with_analyzed : List TableKey → Handled → Handled
with_analyzed ts h = record h {
  already_handled = ts ++ h.already_handled;
  already_analyzed = ts ++ h.already_analyzed;
}

abbrev pub with_handled : List TableKey → Handled → Handled
with_handled ts h = record h { already_handled = ts ++ h.already_handled }

unfoldable pub contexted : {A : Type 0} → Outcome A → Outcome A
contexted (ok a) = ok a
contexted (fail e) = fail (message ∷ e)
contexted no_fuel = no_fuel

-- One line for each candidate that only the second query found.
unfoldable pub announce_added : {F W : Type 0} → List NeedsVacuumTableInfo → Action F W (Unit {0})
announce_added [] = pure tt
announce_added (t ∷ ts) =
    let rest = announce_added ts in when t.via_max_threshold then (log info >> rest) else rest

module _ {F W A : Type 0} where
  -- `.await.context("… phase failed")?`
  unfoldable pub in_phase : Action F W A → Action F W A
  in_phase m s = let (r, s') = m s in (contexted r, s')

module _ {F W : Type 0} (float : Float F) (server : Server F W) (policy : RunPolicy)
    (v : VacuumOptions) (threshold : Threshold F) (discovery : Discovery F W)
    (args : RunArgs F) where
  -- A phase is passed over where it is not enabled or a shutdown is requested.
  unfoldable pub guarded :
      Bool
      → Handled
      → Action F W (OperationSummary × Handled)
      → Action F W (OperationSummary × Handled)
  guarded enabled h body = do
    shutdown ← gets (λ s. server.shutdown_requested s.world)
    when enabled && not shutdown then body else (log info >> pure (no_summary, h))

  unfoldable pub run_in_phase : Job → Handled → Action F W (OperationSummary × Handled)
  run_in_phase j h = in_phase (run_job float server policy v j) >>= λ summary. pure (summary, h)

  unfoldable pub never_vacuumed_tables : Handled → Action F W (OperationSummary × Handled)
  never_vacuumed_tables h = guarded (contains_mode Mode.never_vacuumed args.enabled_modes) h do
    log info
    log info
    ts ← call read discovery.find_never_vacuumed >>= or_context
    let j = vacuum_never_vacuumed ts in run_in_phase j (with_vacuumed (candidates j) h)

  unfoldable pub never_analyzed_tables : Handled → Action F W (OperationSummary × Handled)
  never_analyzed_tables h = guarded (contains_mode Mode.never_analyzed args.enabled_modes) h do
    log info
    log info
    ts ← call read discovery.find_never_analyzed >>= or_context
    let j = analyze_never_analyzed ts in run_in_phase j (with_analyzed (candidates j) h)

  unfoldable pub wraparound_tables : Handled → Action F W (OperationSummary × Handled)
  wraparound_tables h = guarded (contains_mode Mode.prevent_wraparound args.enabled_modes) h do
    log info
    log info
    ts ← call read discovery.find_wraparound_candidates >>= or_context
    let j = freeze_wraparound ts in run_in_phase j (with_vacuumed (candidates j) h)

  unfoldable pub bloat_tables : Handled → Action F W (OperationSummary × Handled)
  bloat_tables h = guarded (contains_mode Mode.prevent_bloat args.enabled_modes) h do
    log info
    log info
    ts ← call read discovery.find_bloat_candidates >>= or_context
    let j = bloat_vacuum ts h.already_handled in run_in_phase j (with_vacuumed (candidates j) h)

  -- the two queries for needs-vacuum candidates, and their union
  unfoldable pub find_merged : Action F W (List NeedsVacuumTableInfo)
  find_merged = do
    settings ←
        call read discovery.get_vacuum_settings >>= or_warn (pos 50, threshold.default_scale_factor)
    log info
    log info
    classic ←
        call read (
          discovery.find_needs_vacuum_candidates (unwrap_or args.vacuum_threshold settings.0)
            (unwrap_or args.vacuum_scale_factor settings.1))
        >>= or_context
    version ← call read discovery.get_server_version_num >>= or_warn (pos 0)
    cap ←
        get_vacuum_max_threshold threshold discovery version
        >>= or_warn (derive_max_threshold threshold (some default_max_threshold))
    log info
    extra ←
        call read (discovery.find_needs_vacuum_max_threshold_candidates cap version) >>= or_warn []
    log info
    announce_added (merge_needs_vacuum_candidates classic extra args.order_by args.limit_n)
    pure (merge_needs_vacuum_candidates classic extra args.order_by args.limit_n)

  unfoldable pub needs_vacuum_tables : Handled → Action F W (OperationSummary × Handled)
  needs_vacuum_tables h = guarded (contains_mode Mode.needs_vacuum args.enabled_modes) h do
    log info
    ts ← find_merged
    let j = needs_vacuum ts h.already_vacuumed in run_in_phase j (with_vacuumed (candidates j) h)

  unfoldable pub vacuum_overdue_tables : Handled → Action F W (OperationSummary × Handled)
  vacuum_overdue_tables h = guarded (contains_mode Mode.vacuum_overdue args.enabled_modes) h do
    log info
    log info
    ts ← call read discovery.find_vacuum_overdue_candidates >>= or_context
    let j = vacuum_overdue ts h.already_vacuumed in run_in_phase j (with_handled (candidates j) h)

  unfoldable pub analyze_overdue_tables : Handled → Action F W (OperationSummary × Handled)
  analyze_overdue_tables h = guarded (contains_mode Mode.analyze_overdue args.enabled_modes) h do
    log info
    log info
    ts ← call read discovery.find_analyze_overdue_candidates >>= or_context
    let j = analyze_overdue ts h.already_analyzed in run_in_phase j (with_handled (candidates j) h)

  unfoldable pub listed_tables : Handled → Action F W (OperationSummary × Handled)
  listed_tables h = do
    shutdown ← gets (λ s. server.shutdown_requested s.world)
    when not (is_empty args.tables) && not shutdown
        then (log info >> run_in_phase (also_tables args.tables h.already_handled) h)
        else pure (no_summary, h)

  -- The phases in turn, each with the sets that the ones before it leave.
  unfoldable pub in_turn :
      List (Handled → Action F W (OperationSummary × Handled))
      → Handled
      → Action F W (List OperationSummary)
  in_turn [] h = pure []
  in_turn (phase ∷ phases) h = phase h >>= λ r. in_turn phases r.1 >>= λ rest. pure (r.0 ∷ rest)

  unfoldable pub run_phases : Action F W (List OperationSummary)
  run_phases =
      in_turn
        (never_vacuumed_tables ∷ never_analyzed_tables ∷ wraparound_tables ∷ bloat_tables
          ∷ needs_vacuum_tables ∷ vacuum_overdue_tables ∷ analyze_overdue_tables ∷ listed_tables
          ∷ [])
        (record { already_handled = []; already_vacuumed = []; already_analyzed = [] })
