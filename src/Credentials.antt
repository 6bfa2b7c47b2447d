-- ===== src/Credentials.antt =====
-- src/credentials.rs: the password file. Its place, its permissions and its reading are the caller's.
pub mod Fields
pub mod Lookup
use pg_maintainer.Prelude.{
  decimal, ℕ, Bool, true, false, ◌&&◌, ◌||◌, List, [], ◌∷◌, ◌++◌, Option, none, some, Text, ◌==◌,
  codes, text_eq, is_empty, if◌then◌else◌,
}
use pg_maintainer.Types.Explicit.{trim}
use pg_maintainer.Dsn.Uri.{split_at, starts_with}

-- The loop of split_pgpass_line with its `current` part.
unfoldable pub split_fields : Text → Text → List Text
split_fields current [] = current ∷ []
split_fields current (c ∷ []) =
    if c == b'\\'
    then (current ++ b'\\' ∷ []) ∷ []
    else if c == b':'
    then current ∷ [] ∷ []
    else (current ++ c ∷ []) ∷ []
split_fields current (c ∷ d ∷ s) = elim (c == b'\\') [
  | true ↦ elim (d == b':') [
    | true ↦ split_fields (current ++ b':' ∷ []) s
    | false ↦ elim (d == b'\\') [
      | true ↦ split_fields (current ++ b'\\' ∷ []) s
      | false ↦ split_fields (current ++ b'\\' ∷ []) (d ∷ s)
    ]
  ]
  | false ↦ elim (c == b':') [
    | true ↦ current ∷ split_fields [] (d ∷ s)
    | false ↦ split_fields (current ++ c ∷ []) (d ∷ s)
  ]
]

unfoldable pub split_pgpass_line : Text → List Text
split_pgpass_line line = split_fields [] line

-- empty, the wildcard, or the value itself
unfoldable pub field_matches : Text → Text → Bool
field_matches field value = is_empty field || text_eq field (codes "*") || text_eq field value

module _ (host : Text) (port : ℕ) (database username : Text) where
  -- the password of a line of five parts that matches
  unfoldable pub parts_password : List Text → Option Text
  parts_password (h ∷ p ∷ d ∷ u ∷ pw ∷ []) =
      if field_matches h host
        && field_matches p (decimal port)
        && field_matches d database
        && field_matches u username
      then some pw
      else none
  parts_password _ = none

  -- blank lines and comments have none
  unfoldable pub line_password : Text → Option Text
  line_password line =
      if is_empty line || starts_with (codes "#") line
      then none
      else parts_password (split_pgpass_line line)

  -- the first line that matches
  unfoldable pub password_in : List Text → Option Text
  password_in [] = none
  password_in (line ∷ lines) =
      let rest = password_in lines in
      elim (line_password (trim line)) [ some pw ↦ some pw | none ↦ rest ]

  -- The loop of get_password_from_pgpass over the lines of the content.
  unfoldable pub pgpass_password : Text → Option Text
  pgpass_password content = password_in (split_at b'\n' content)
