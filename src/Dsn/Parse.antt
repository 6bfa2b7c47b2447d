-- ===== src/Dsn/Parse.antt =====
-- parse and resolve_dsn_source of src/dsn.rs.
pub mod Supported
use pg_maintainer.Prelude.{
  ℕ, not, List, [], ◌∷◌, ◌&&◌, Option, none, some, Text, codes, ltb, length, is_empty,
  if◌then◌else◌, text_eq, text_mem, filter_by, Result, done, error, and_then,
}
use pg_maintainer.Types.Modes.{SslMode}
use pg_maintainer.Types.Explicit.{trim}
use pg_maintainer.Dsn.Uri.{is_uri, contains, uri_has_explicit_port, Utf8}
use pg_maintainer.Dsn.Split.{
  DsnError, empty_dsn, not_understood, not_readable, refused_by_driver, many_hosts, SplitDsn,
  extract_ssl_params, map_sslmode, unused_params,
}

pub record ParsedDsn : Type 0 where
  pub host : Option Text
  pub port : Option ℕ
  pub database : Option Text
  pub username : Option Text
  pub password : Option Text
  pub sslmode : Option SslMode
  pub ssl_ca_cert : Option Text
  pub ssl_client_cert : Option Text
  pub ssl_client_key : Option Text
  pub connect_timeout_seconds : Option ℕ
  pub ignored_params : List Text

-- `tokio_postgres::config::Host`, with the text that the code takes of it
pub data Host : Type 0 where
  tcp unix : Text → Host

-- What the code reads of a `tokio_postgres::Config`.
pub record DriverConfig : Type 0 where
  pub hosts : List Host
  pub ports : List ℕ
  pub dbname : Option Text
  pub user : Option Text
  pub password : Option Text
  pub connect_timeout : Option ℕ

unfoldable pub host_text : Host → Text
host_text (tcp name) = name
host_text (unix path) = path

unfoldable pub first_host : List Host → Option Text
first_host [] = none
first_host (h ∷ hs) = some (host_text h)

unfoldable pub first : {A : Type 0} → List A → Option A
first [] = none
first (x ∷ xs) = some x

-- the match on a key of SSL_PARAMS
unfoldable pub set_ssl : Text → Text → ParsedDsn → Result DsnError ParsedDsn
set_ssl key value parsed =
    if text_eq key (codes "sslmode")
    then and_then (map_sslmode value) (λ m. done (record parsed { sslmode = some m }))
    else if text_eq key (codes "sslrootcert")
    then done (record parsed { ssl_ca_cert = some value })
    else if text_eq key (codes "sslcert")
    then done (record parsed { ssl_client_cert = some value })
    else done (record parsed { ssl_client_key = some value })

unfoldable pub set_all : List (Text × Text) → ParsedDsn → Result DsnError ParsedDsn
set_all [] parsed = done parsed
set_all (p ∷ ps) parsed = and_then (set_ssl p.0 p.1 parsed) (set_all ps)

unfoldable pub dsn_port : Text → DriverConfig → Option ℕ
dsn_port trimmed cfg =
    if is_uri trimmed && not (uri_has_explicit_port trimmed) then none else first cfg.ports

unfoldable pub dsn_fields : Text → SplitDsn → DriverConfig → ParsedDsn
dsn_fields trimmed split cfg = record {
  host = first_host cfg.hosts;
  port = dsn_port trimmed cfg;
  database = cfg.dbname;
  username = cfg.user;
  password = cfg.password;
  sslmode = none;
  ssl_ca_cert = none;
  ssl_client_cert = none;
  ssl_client_key = none;
  connect_timeout_seconds = cfg.connect_timeout;
  ignored_params = filter_by (λ k. text_mem k unused_params) split.other_keys;
}

-- what follows the parse of the driver
unfoldable pub on_config : Text → SplitDsn → Option DriverConfig → Result DsnError ParsedDsn
on_config trimmed split none = error refused_by_driver
on_config trimmed split (some cfg) =
    if ltb 1 (length cfg.hosts)
    then error (many_hosts (length cfg.hosts))
    else set_all split.ssl (dsn_fields trimmed split cfg)

-- `from_str` is `Config::from_str` of tokio-postgres.
module _ (utf8 : Utf8) (from_str : Text → Option DriverConfig) where
  unfoldable pub parse_trimmed : Text → Result DsnError ParsedDsn
  parse_trimmed trimmed =
      if is_empty trimmed
      then error empty_dsn
      else if not (is_uri trimmed) && not (contains b'=' trimmed)
      then error not_understood
      else and_then (extract_ssl_params utf8 trimmed)
          λ split. on_config trimmed split (from_str split.rest)

  unfoldable pub parse : Text → Result DsnError ParsedDsn
  parse raw = parse_trimmed (trim raw)

-- `std::env::var`
pub data EnvVar : Type 0 where
  value : Text → EnvVar
  not_present not_unicode : EnvVar

unfoldable pub resolve_dsn_source : Option Text → EnvVar → Result DsnError (Option Text)
resolve_dsn_source (some v) env = done (some v)
resolve_dsn_source none (value v) = if is_empty (trim v) then done none else done (some v)
resolve_dsn_source none not_present = done none
resolve_dsn_source none not_unicode = error not_readable
