-- ===== src/Connection.antt =====
-- src/connection.rs: the parameters of a connection and its string. The environment, the files and
-- the driver are the caller's.
pub mod Readback
pub mod Precedence
use pg_maintainer.Prelude.{
  decimal, ℕ, ◌+◌, ◌*◌, ◌-◌, min, Bool, true, false, ◌&&◌, List, [], ◌∷◌, ◌++◌, Option, none, some,
  or_option, unwrap_or, Text, codes, ◌==◌, leb, ltb, is_empty, if◌then◌else◌,
}
use pg_maintainer.Types.Modes.{SslMode}
use pg_maintainer.Types.Explicit.{trim_end}
use pg_maintainer.Dsn.Keyword.Escape.{escape_libpq_value}

pub record ConnectionConfig : Type 0 where
  pub host : Text
  pub port : ℕ
  pub database : Text
  pub username : Text
  pub password : Option Text
  pub sslmode : SslMode
  pub ssl_ca_cert : Option Text
  pub ssl_client_cert : Option Text
  pub ssl_client_key : Option Text
  pub connect_timeout_seconds : ℕ

-- `env::var(_).ok()`, `fs::read_to_string(_).ok()`, and
-- `get_password_from_pgpass(…).unwrap_or(None)`
pub record Surroundings : Type 0 where
  pub variable : Text → Option Text
  pub read_to_string : Text → Option Text
  pub pgpass : Text → ℕ → Text → Text → Option Text

-- The digits of `u16::from_str`, from the first on; `none` above u16::MAX.
unfoldable pub u16_digits : ℕ → Text → Option ℕ
u16_digits n [] = some n
u16_digits n (c ∷ s) =
    let value = n * 10 + (c - b'0') in
    elim (leb b'0' c && leb c b'9' && leb value 65535) [ true ↦ u16_digits value s | false ↦ none ]

-- `parse::<u16>().ok()`: an optional `+`, and at least a digit
unfoldable pub parse_u16 : Text → Option ℕ
parse_u16 [] = none
parse_u16 (c ∷ []) = u16_digits 0 (c ∷ [])
parse_u16 (c ∷ d ∷ s) = if c == b'+' then u16_digits 0 (d ∷ s) else u16_digits 0 (c ∷ d ∷ s)

unfoldable pub and_then_option : {A B : Type 0} → Option A → (A → Option B) → Option B
and_then_option none k = none
and_then_option (some a) k = k a

unfoldable pub map_option : {A B : Type 0} → (A → B) → Option A → Option B
map_option f none = none
map_option f (some a) = some (f a)

-- an empty text counts as missing
unfoldable pub not_empty : Option Text → Option Text
not_empty none = none
not_empty (some t) = if is_empty t then none else some t

module _ (around : Surroundings) where
  -- the content of the file that PG_PASSWORD_FILE names, without the whitespace at its end
  unfoldable pub password_file : Option Text
  password_file =
      and_then_option (around.variable (codes "PG_PASSWORD_FILE"))
        λ path. map_option trim_end (around.read_to_string path)

  unfoldable pub password_for : Option Text → Text → ℕ → Text → Text → Option Text
  password_for password host port database username =
      or_option
        (or_option (or_option password (not_empty (around.variable (codes "PG_PASSWORD"))))
          password_file)
        (around.pgpass host port database username)

  -- host, port, database, username, password, and what is passed on as it is
  unfoldable pub from_args :
      Option Text
      → Option ℕ
      → Option Text
      → Option Text
      → Option Text
      → SslMode
      → Option Text
      → Option Text
      → Option Text
      → ℕ
      → ConnectionConfig
  from_args host port database username password sslmode ca cert key timeout =
      let host =
        unwrap_or (or_option host (around.variable (codes "PG_HOST"))) (codes "localhost") in
      let port =
        unwrap_or (or_option port (and_then_option (around.variable (codes "PG_PORT")) parse_u16))
          5432 in
      let database =
        unwrap_or (or_option database (around.variable (codes "PG_DATABASE"))) (codes "postgres") in
      let username =
        unwrap_or (or_option username (around.variable (codes "PG_USER"))) (codes "postgres") in
      record {
        host = host;
        port = port;
        database = database;
        username = username;
        password = password_for password host port database username;
        sslmode = sslmode;
        ssl_ca_cert = ca;
        ssl_client_cert = cert;
        ssl_client_key = key;
        connect_timeout_seconds = timeout;
      }

-- ` password={}`, if there is one
unfoldable pub password_part : Option Text → Text
password_part none = []
password_part (some pw) = codes " password=" ++ escape_libpq_value pw

unfoldable pub build_connection_string : ConnectionConfig → Text
build_connection_string c =
    codes "host="
    ++ (escape_libpq_value c.host
        ++ (codes " port="
            ++ (decimal c.port
                ++ (codes " dbname="
                    ++ (escape_libpq_value c.database
                        ++ (codes " user="
                            ++ (escape_libpq_value c.username
                                ++ (codes " connect_timeout="
                                    ++ (decimal c.connect_timeout_seconds
                                        ++ password_part c.password)))))))))
