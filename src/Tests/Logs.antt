-- ===== src/Tests/Logs.antt =====
-- The logger on a sample log file, the text for a blocker of the vacuum horizon, and variables in a
-- sample configuration file.
use pg_maintainer.Prelude.{
  true, false, [], ◌∷◌, ◌++◌, Option, none, some, Text, codes, ◌≡◌, refl, sym, ◌↔◌, append_assoc,
  append-nil,
}
use pg_maintainer.Session.{LogLevel}
use pg_maintainer.Logger.{
  Logger, LogEvent, LogFile, as_str, event_line, text_line, new_logger, drop_logger, no_context,
}
use pg_maintainer.Logger.Calls.{
  event, always, IsReliable, line_of_call, shown_of_call, texts, calls, calls-logged,
}
use pg_maintainer.Prelude.{decimal, decimal_onto, text_eq}
use pg_maintainer.Prelude.Int.{pos}
use pg_maintainer.Types.Blockers.{
  XminHorizonBlocker, signed, two_digits, format_xid_age, format_duration, describe_backend,
  describe_xmin_blocker,
}
use pg_maintainer.Cli.Load.{variable_name, resolve_env_interpolation}
use pg_maintainer.Cli.Load.Variable.{reference, reference_iff}

-- What is on the disk, and what the buffer of the writer holds.
abbrev sample_log_file : LogFile (Text × Text)
sample_log_file = record {
  open_append = λ w. (true, w);
  write_all = λ line w. (true, (w.0, w.1 ++ line));
  flush = λ w. (true, (w.0 ++ w.1, []));
  close = λ w. (w.0 ++ w.1, []);
}

abbrev sample_kept : Text × Text → Text
sample_kept w = w.0 ++ w.1

sample-IsReliable : IsReliable sample_log_file sample_kept
sample-IsReliable = record {
  opens = λ w. refl;
  opened = λ w. refl;
  writes = λ line w. refl;
  written = λ line w. sym (append_assoc w.0 w.1 line);
  flushed = λ w. append-nil (w.0 ++ w.1);
  closed = λ w. append-nil (w.0 ++ w.1);
}

abbrev no_json : LogEvent Text → Option Text
no_json e = none

abbrev silent : Logger
silent = record { silence_mode = true; json_mode = false }

calls-logged_example :
    ((calls no_json silent sample_log_file
        (event (codes "12:00") LogLevel.error (codes "a") no_context
          ∷ always (codes "12:01") LogLevel.info (codes "b")
          ∷ [])
        (new_logger (codes "old\n", []))).stdout
      ≡ codes "[12:01] [INFO] b\n")
    × (sample_kept
          (drop_logger sample_log_file (
            calls no_json silent sample_log_file
              (event (codes "12:00") LogLevel.error (codes "a") no_context
                ∷ always (codes "12:01") LogLevel.info (codes "b")
                ∷ [])
              (new_logger (codes "old\n", [])))).world
        ≡ codes "old\n[12:00] [ERROR] a\n[12:01] [INFO] b\n")
unfolding texts shown_of_call line_of_call event_line text_line as_str
calls-logged_example =
    calls-logged sample_log_file no_json silent sample_kept sample-IsReliable
      (event (codes "12:00") LogLevel.error (codes "a") no_context
        ∷ always (codes "12:01") LogLevel.info (codes "b")
        ∷ [])
      (codes "old\n", [])

abbrev only_home : Text → Option Text
only_home name = some (codes "/root")

reference_iff_example :
    ((variable_name (codes "${HOME}") ≡ some (codes "HOME"))
      ↔ (codes "${HOME}" ≡ reference (codes "HOME")))
    × (resolve_env_interpolation only_home (some (reference (codes "HOME"))) ≡ some (codes "/root"))
reference_iff_example = reference_iff only_home (codes "${HOME}") (codes "HOME")

abbrev sleeping : XminHorizonBlocker
sleeping = record {
  holder_type = codes "backend";
  identifier = codes "42";
  detail = some (codes "app");
  status = some (codes "idle in transaction");
  xid_age = pos 7;
  xact_duration = some 3725;
  query_duration = some 60;
  query_snippet = some (codes "SELECT 1");
}

describe_sleeping :
    describe_xmin_blocker sleeping ≡ codes "backend PID 42 (app), running for 1h02m05s: SELECT 1"
unfolding describe_xmin_blocker describe_backend format_duration two_digits decimal decimal_onto
    text_eq
describe_sleeping = refl

describe_slot :
    describe_xmin_blocker (record sleeping {
      holder_type = codes "replication_slot";
      identifier = codes "s";
      detail = none;
    })
    ≡ codes "replication slot 's' (unknown, active: idle in transaction), XID age 7 XIDs"
unfolding describe_xmin_blocker format_xid_age signed decimal decimal_onto text_eq
describe_slot = refl
