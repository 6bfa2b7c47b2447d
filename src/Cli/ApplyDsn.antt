-- ===== src/Cli/ApplyDsn.antt =====
-- DsnOutcome and apply_dsn of src/main.rs.
use pg_maintainer.Prelude.{
  Bool, true, false, List, [], Option, none, some, or_option, Text, ◌==◌, Result, done, and_then,
}
use pg_maintainer.Dsn.Uri.{Utf8}
use pg_maintainer.Dsn.Split.{DsnError}
use pg_maintainer.Dsn.Parse.{DriverConfig, ParsedDsn, parse, EnvVar, resolve_dsn_source}
use pg_maintainer.Dsn.Redact.{redact}
use pg_maintainer.Cli.Args.{Args}
use pg_maintainer.Cli.Merge.{or_default, is_disable}

pub record DsnOutcome : Type 0 where
  pub redacted : Option Text
  pub ignored_params : List Text
  pub password_from_dsn : Bool

-- `DsnOutcome::default()`
unfoldable pub no_outcome : DsnOutcome
no_outcome = record { redacted = none; ignored_params = []; password_from_dsn = false }

-- whether the password is set from the DSN's
unfoldable pub takes_password : Option Text → Option Text → Bool
takes_password (some given) other = false
takes_password none none = false
takes_password none (some pw) = true

unfoldable pub filled : {F : Type 0} → Args F → ParsedDsn → Args F
filled args parsed = record args {
  host = or_option args.host parsed.host;
  port = or_option args.port parsed.port;
  database = or_option args.database parsed.database;
  username = or_option args.username parsed.username;
  password = or_option args.password parsed.password;
  sslmode = or_default (is_disable args.sslmode) args.sslmode parsed.sslmode;
  ssl_ca_cert = or_option args.ssl_ca_cert parsed.ssl_ca_cert;
  ssl_client_cert = or_option args.ssl_client_cert parsed.ssl_client_cert;
  ssl_client_key = or_option args.ssl_client_key parsed.ssl_client_key;
  connect_timeout_seconds =
      or_default (args.connect_timeout_seconds == 10) args.connect_timeout_seconds
        parsed.connect_timeout_seconds;
}

unfoldable pub outcome_of : {F : Type 0} → Args F → Text → ParsedDsn → DsnOutcome
outcome_of args raw parsed = record {
  redacted = some (redact raw);
  ignored_params = parsed.ignored_params;
  password_from_dsn = takes_password args.password parsed.password;
}

module _ {F : Type 0} (utf8 : Utf8) (from_str : Text → Option DriverConfig) where
  unfoldable pub with_source : Args F → Option Text → Result DsnError (Args F × DsnOutcome)
  with_source args none = done (args, no_outcome)
  with_source args (some raw) =
      and_then (parse utf8 from_str raw)
        λ parsed. done (filled args parsed, outcome_of args raw parsed)

  unfoldable pub apply_dsn : EnvVar → Args F → Result DsnError (Args F × DsnOutcome)
  apply_dsn pg_dsn args = and_then (resolve_dsn_source args.dsn pg_dsn) (with_source args)
