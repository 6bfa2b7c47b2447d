-- ===== src/Tests/Phases.antt =====
-- A run of all phases on the sample server.
use pg_maintainer.Prelude.{ℕ, refl, [], ◌∷◌, none, codes, All}
use pg_maintainer.Prelude.Int.{pos, pos_part}
use pg_maintainer.Types.Modes.{Mode}
use pg_maintainer.Session.{got}
use pg_maintainer.Operations.Runners.Safety.{IsQuiet, IsNotTermination}
use pg_maintainer.Run.Discovery.{Discovery, Threshold}
use pg_maintainer.Run.Phases.{RunArgs, run_phases}
use pg_maintainer.Run.Safety.{run_phases-IsQuiet, run_phases-IsNotTermination}
use pg_maintainer.Tests.{
  seconds, calm_server, dry_policy, skip_policy, plain_options, start, orders,
}

abbrev whole_threshold : Threshold ℕ
whole_threshold = record {
  default_scale_factor = 0;
  no_cap = 0;
  of_integer = pos_part;
  reduced = pos_part;
}

-- One table has never been vacuumed; nothing else is found.
abbrev one_table : Discovery ℕ ℕ
one_table = record {
  find_never_vacuumed = λ w. (
    got (
        record {
          schema_name = codes "shop";
          table_name = codes "orders";
          n_live_tup = pos 100;
          n_dead_tup = pos 7;
          size_bytes = pos 8192;
          last_maintained = none;
        }
        ∷ []),
    w,
  );
  find_never_analyzed = λ w. (got [], w);
  find_wraparound_candidates = λ w. (got [], w);
  find_bloat_candidates = λ w. (got [], w);
  get_vacuum_settings = λ w. (got (pos 50, 0), w);
  find_needs_vacuum_candidates = λ n f w. (got [], w);
  get_server_version_num = λ w. (got (pos 160000), w);
  get_max_threshold_guc = λ w. (got (pos 0), w);
  find_needs_vacuum_max_threshold_candidates = λ f n w. (got [], w);
  find_vacuum_overdue_candidates = λ w. (got [], w);
  find_analyze_overdue_candidates = λ w. (got [], w);
}

abbrev two_modes : RunArgs ℕ
two_modes = record {
  enabled_modes = Mode.never_vacuumed ∷ Mode.needs_vacuum ∷ [];
  order_by = none;
  limit_n = pos 10;
  vacuum_threshold = none;
  vacuum_scale_factor = none;
  tables = orders ∷ [];
}

run_phases-IsQuiet_example :
    All IsQuiet
      (run_phases seconds calm_server dry_policy plain_options whole_threshold one_table two_modes
        start).1.trace
run_phases-IsQuiet_example =
    run_phases-IsQuiet seconds calm_server dry_policy plain_options whole_threshold one_table
      two_modes start refl tt

run_phases-IsNotTermination_example :
    All IsNotTermination
      (run_phases seconds calm_server skip_policy plain_options whole_threshold one_table two_modes
        start).1.trace
run_phases-IsNotTermination_example =
    run_phases-IsNotTermination seconds calm_server skip_policy plain_options whole_threshold
      one_table two_modes start refl tt
