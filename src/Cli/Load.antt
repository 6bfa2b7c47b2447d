-- ===== src/Cli/Load.antt =====
-- resolve_env_interpolation of src/main.rs, and what load_config_file does with the parsed file.
pub mod Variable
use pg_maintainer.Prelude.{
  ℕ, [], ◌∷◌, Option, none, some, Text, codes, ◌==◌, is_empty, if◌then◌else◌,
}
use pg_maintainer.Dsn.Uri.{strip_prefix}
use pg_maintainer.Cli.Merge.{Config}

-- `strip_suffix(c)`
unfoldable pub strip_suffix : ℕ → Text → Option Text
strip_suffix a [] = none
strip_suffix a (c ∷ s) =
    let rest = strip_suffix a s in
    if is_empty s
    then (if c == a then some [] else none)
    else elim rest [ none ↦ none | some t ↦ some (c ∷ t) ]

-- the name in `${name}`
unfoldable pub variable_name : Text → Option Text
variable_name v = elim (strip_prefix (codes "${") v) [ none ↦ none | some s ↦ strip_suffix b'}' s ]

-- `env` is `std::env::var(_).ok()`.
unfoldable pub interpolate : (Text → Option Text) → Text → Option Text
interpolate env v = elim (variable_name v) [ none ↦ some v | some name ↦ env name ]

unfoldable pub resolve_env_interpolation : (Text → Option Text) → Option Text → Option Text
resolve_env_interpolation env none = none
resolve_env_interpolation env (some v) = interpolate env v

-- The file as it was read, with the variables of its password and its DSN resolved.
unfoldable pub loaded : {F : Type 0} → (Text → Option Text) → Config F → Config F
loaded env cfg = record cfg {
  password = resolve_env_interpolation env cfg.password;
  dsn = resolve_env_interpolation env cfg.dsn;
}
