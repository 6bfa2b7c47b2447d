-- ===== src/Connection/Precedence.antt =====
-- Lemmas on the sources of a connection parameter, src/main.rs and src/connection.rs.
use mathlib.Core.Path.{subst}
use pg_maintainer.Prelude.{
  ◌≡◌, refl, sym, ap, ◌∙◌, ◌⊎◌, inl, inr, [], arith, ℕ, Bool, Option, none, some, or_option,
  is_empty, ◌∷◌, unwrap_or, Text, codes, done, and_then_done,
}
use pg_maintainer.Types.Explicit.{trim_end}
use pg_maintainer.Dsn.Uri.{Utf8}
use pg_maintainer.Dsn.Parse.{DriverConfig, ParsedDsn, parse, EnvVar, resolve_dsn_source}
use pg_maintainer.Cli.Args.{Args}
use pg_maintainer.Cli.Merge.{Config, merge_config}
use pg_maintainer.Cli.ApplyDsn.{DsnOutcome, filled, outcome_of, with_source, apply_dsn}
use pg_maintainer.Connection.{
  ConnectionConfig, Surroundings, parse_u16, and_then_option, map_option, not_empty, password_file,
  password_for, from_args,
}

-- main's call of from_args
abbrev pub connection_of : {F : Type 0} → Surroundings → Args F → ConnectionConfig
connection_of around args =
    from_args around args.host args.port args.database args.username args.password args.sslmode
      args.ssl_ca_cert args.ssl_client_cert args.ssl_client_key args.connect_timeout_seconds

-- the first that has a value
abbrev pub first_of : {A : Type 0} → Option A → Option A → Option A → Option A → Option A
first_of cli file dsn other = or_option cli (or_option file (or_option dsn other))

-- A password of no characters is none.
abbrev pub non_empty : Option Text → Option Text
non_empty none = none
non_empty (some []) = none
non_empty (some (c ∷ s)) = some (c ∷ s)

-- The text of a file that can be read, without the whitespace at its end.
abbrev pub text_of : Surroundings → Option Text → Option Text
text_of around none = none
text_of around (some path) = elim (around.read_to_string path) [
  | none ↦ none
  | some text ↦ some (trim_end text)
]

-- The password of the environment: PG_PASSWORD, else the file that PG_PASSWORD_FILE names, else the
-- password file for the connection.
abbrev pub surrounding_password : Surroundings → Text → ℕ → Text → Text → Option Text
surrounding_password around host port database username =
    or_option (non_empty (around.variable (codes "PG_PASSWORD"))) (
      or_option (text_of around (around.variable (codes "PG_PASSWORD_FILE")))
        (around.pgpass host port database username))

-- A DSN that names nothing.
abbrev pub no_dsn : ParsedDsn
no_dsn = record {
  host = none;
  port = none;
  database = none;
  username = none;
  password = none;
  sslmode = none;
  ssl_ca_cert = none;
  ssl_client_cert = none;
  ssl_client_key = none;
  connect_timeout_seconds = none;
  ignored_params = [];
}

-- Each parameter is from the first source that has it.
pub record IsInOrder {F : Type 0} (around : Surroundings) (file : Config F) (cli : Args F)
    (dsn : ParsedDsn) (c : ConnectionConfig) : Type 0 where
  pub host :
      c.host
      ≡ unwrap_or
          (first_of cli.host file.host dsn.host (around.variable (codes "PG_HOST")))
          (codes "localhost")
  pub port :
      c.port
      ≡ unwrap_or
          (first_of cli.port file.port dsn.port
            (and_then_option (around.variable (codes "PG_PORT")) parse_u16))
          5432
  pub database :
      c.database
      ≡ unwrap_or
          (first_of cli.database file.database dsn.database (around.variable (codes "PG_DATABASE")))
          (codes "postgres")
  pub username :
      c.username
      ≡ unwrap_or
          (first_of cli.username file.username dsn.username (around.variable (codes "PG_USER")))
          (codes "postgres")
  pub password :
      c.password
      ≡ first_of cli.password file.password dsn.password
          (surrounding_password around c.host c.port c.database c.username)
  pub ssl_ca_cert : c.ssl_ca_cert ≡ first_of cli.ssl_ca_cert file.ssl_ca_cert dsn.ssl_ca_cert none
  pub ssl_client_cert :
      c.ssl_client_cert ≡ first_of cli.ssl_client_cert file.ssl_client_cert dsn.ssl_client_cert none
  pub ssl_client_key :
      c.ssl_client_key ≡ first_of cli.ssl_client_key file.ssl_client_key dsn.ssl_client_key none

or_option_assoc :
    {A : Type 0} (a b c : Option A) → or_option (or_option a b) c ≡ or_option a (or_option b c)
or_option_assoc none b c = refl
or_option_assoc (some x) b c = refl

or_option-none : {A : Type 0} (a : Option A) → or_option a none ≡ a
or_option-none none = refl
or_option-none (some x) = refl

first_of_lem :
    {A : Type 0} (a b c d : Option A) → or_option (or_option (or_option a b) c) d ≡ first_of a b c d
first_of_lem none b c d = or_option_assoc b c d
first_of_lem (some x) b c d = refl

first_of_three : {A : Type 0} (a b c : Option A) → or_option (or_option a b) c ≡ first_of a b c none
first_of_three none none c = sym (or_option-none c)
first_of_three none (some y) c = refl
first_of_three (some x) b c = refl

non_empty_lem : (o : Option Text) → not_empty o ≡ non_empty o
unfolding not_empty is_empty
non_empty_lem none = refl
non_empty_lem (some []) = refl
non_empty_lem (some (c ∷ s)) = refl

text_of_lem :
    (around : Surroundings) (o : Option Text)
    → and_then_option o (λ path. map_option trim_end (around.read_to_string path))
      ≡ text_of around o
unfolding and_then_option map_option
text_of_lem around none = refl
text_of_lem around (some path) = go (around.read_to_string path)
  where
    go :
        (text : Option Text)
        → map_option trim_end text
          ≡ elim text as (λ q. Option Text) [ none ↦ none | some t ↦ some (trim_end t) ]
    go none = refl
    go (some t) = refl

password_for_lem :
    (around : Surroundings) (o : Option Text) (host : Text) (port : ℕ) (database username : Text)
    → password_for around o host port database username
      ≡ or_option o (surrounding_password around host port database username)
unfolding password_for password_file
password_for_lem around none host port database username =
    or_option_assoc (not_empty (around.variable (codes "PG_PASSWORD"))) password_file_text
      from_pgpass
    ∙ ap (λ o. or_option o (or_option password_file_text from_pgpass)) (non_empty_lem _)
    ∙ ap (λ o. or_option named (or_option o from_pgpass)) (text_of_lem around _)
  where
    password_file_text : Option Text
    password_file_text =
        and_then_option (around.variable (codes "PG_PASSWORD_FILE"))
          λ path. map_option trim_end (around.read_to_string path)

    named : Option Text
    named = non_empty (around.variable (codes "PG_PASSWORD"))

    from_pgpass : Option Text
    from_pgpass = around.pgpass host port database username
password_for_lem around (some pw) host port database username = refl

module _ {F : Type 0} (is_default_bloat : F → Bool) (file : Config F) (cli : Args F)
    (around : Surroundings) where
  filled-IsInOrder :
      (dsn : ParsedDsn)
      → IsInOrder around file cli dsn
          (connection_of around (filled (merge_config is_default_bloat file cli) dsn))
  unfolding merge_config filled from_args
  filled-IsInOrder dsn = record {
    host = ap (λ o. unwrap_or o (codes "localhost")) (first_of_lem cli.host file.host dsn.host _);
    port = ap (λ o. unwrap_or o 5432) (first_of_lem cli.port file.port dsn.port _);
    database =
        ap (λ o. unwrap_or o (codes "postgres"))
          (first_of_lem cli.database file.database dsn.database _);
    username =
        ap (λ o. unwrap_or o (codes "postgres"))
          (first_of_lem cli.username file.username dsn.username _);
    password =
        password_for_lem around _ _ _ _ _ ∙ first_of_lem cli.password file.password dsn.password _;
    ssl_ca_cert = first_of_three cli.ssl_ca_cert file.ssl_ca_cert dsn.ssl_ca_cert;
    ssl_client_cert = first_of_three cli.ssl_client_cert file.ssl_client_cert dsn.ssl_client_cert;
    ssl_client_key = first_of_three cli.ssl_client_key file.ssl_client_key dsn.ssl_client_key;
  }

  merged-IsInOrder :
      IsInOrder around file cli no_dsn
        (connection_of around (merge_config is_default_bloat file cli))
  unfolding merge_config from_args
  merged-IsInOrder = record {
    host = ap (λ o. unwrap_or o (codes "localhost")) (or_option_assoc cli.host file.host _);
    port = ap (λ o. unwrap_or o 5432) (or_option_assoc cli.port file.port _);
    database =
        ap (λ o. unwrap_or o (codes "postgres")) (or_option_assoc cli.database file.database _);
    username =
        ap (λ o. unwrap_or o (codes "postgres")) (or_option_assoc cli.username file.username _);
    password = password_for_lem around _ _ _ _ _ ∙ or_option_assoc cli.password file.password _;
    ssl_ca_cert = ap (or_option cli.ssl_ca_cert) (sym (or_option-none file.ssl_ca_cert));
    ssl_client_cert =
        ap (or_option cli.ssl_client_cert) (sym (or_option-none file.ssl_client_cert));
    ssl_client_key = ap (or_option cli.ssl_client_key) (sym (or_option-none file.ssl_client_key));
  }

  module _ (utf8 : Utf8) (from_str : Text → Option DriverConfig) (pg_dsn : EnvVar) where
    -- The DSN that is used: that of the command line, else of the file, else of the environment.
    abbrev pub IsDsn : ParsedDsn → Type 0
    IsDsn dsn =
        ((resolve_dsn_source (or_option cli.dsn file.dsn) pg_dsn ≡ done none) × (dsn ≡ no_dsn))
        ⊎ ((raw : Text) × (resolve_dsn_source (or_option cli.dsn file.dsn) pg_dsn ≡ done (some raw))
            × (parse utf8 from_str raw ≡ done dsn))

    merged : Args F
    merged = merge_config is_default_bloat file cli

    with_source-IsInOrder :
        (source : Option Text) (args : Args F) (outcome : DsnOutcome)
        → resolve_dsn_source (or_option cli.dsn file.dsn) pg_dsn ≡ done source
        → with_source utf8 from_str merged source ≡ done (args, outcome)
        → (dsn : ParsedDsn) × IsDsn dsn × IsInOrder around file cli dsn (connection_of around args)
    unfolding with_source merged
    with_source-IsInOrder none args outcome e k =
        let same : merge_config is_default_bloat file cli ≡ args = ground (arith, k) in
        (
          no_dsn,
          inl (e, refl),
          subst (λ a. IsInOrder around file cli no_dsn (connection_of around a)) same
              merged-IsInOrder,
        )
    with_source-IsInOrder (some raw) args outcome e k =
        let (dsn, parsed, accepted) =
          and_then_done (parse utf8 from_str raw)
            (λ dsn. done (filled merged dsn, outcome_of merged raw dsn)) (args, outcome) k in
        let same : filled (merge_config is_default_bloat file cli) dsn ≡ args =
          ground (arith, accepted) in
        (
          dsn,
          inr (raw, e, parsed),
          subst (λ a. IsInOrder around file cli dsn (connection_of around a)) same
              (filled-IsInOrder dsn),
        )

    -- When the arguments are merged with the configuration file and a DSN is applied to them without an error,
    -- the host, the port, the database, the user and the password are each from the first source that has
    -- one, in this order: the command line, the file, the DSN, the environment, the default. The
    -- environment's password is PG_PASSWORD where that is not empty, else the text of the file that
    -- PG_PASSWORD_FILE names without the whitespace at its end, else that of the password file for the
    -- connection; there is no default. The three certificate files are from the first three sources.
    pub apply_dsn-IsInOrder :
        (args : Args F) (outcome : DsnOutcome)
        → apply_dsn utf8 from_str pg_dsn (merge_config is_default_bloat file cli)
          ≡ done (args, outcome)
        → (dsn : ParsedDsn) × IsDsn dsn × IsInOrder around file cli dsn (connection_of around args)
    unfolding apply_dsn merged merge_config
    apply_dsn-IsInOrder args outcome h =
        let (source, e, k) =
          and_then_done (resolve_dsn_source (or_option cli.dsn file.dsn) pg_dsn)
            (with_source utf8 from_str merged) (args, outcome) h in
        with_source-IsInOrder source args outcome e k
