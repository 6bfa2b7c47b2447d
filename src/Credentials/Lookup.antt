-- ===== src/Credentials/Lookup.antt =====
-- Lemmas on the lookup in the password file, src/credentials.rs.
use pg_maintainer.Prelude.{
  ◌≡◌, ℕ, Bool, false, ◌&&◌, List, [], ◌∷◌, map, join, Option, none, some, Text, codes, is_empty,
  decimal, if◌then◌else◌,
}
use pg_maintainer.Types.Explicit.{trim}
use pg_maintainer.Dsn.Uri.{starts_with}
use pg_maintainer.Credentials.{field_matches}
use pg_maintainer.Credentials.Fields.{escape_field}

pub record PgpassEntry : Type 0 where
  pub host : Text
  pub port : Text
  pub database : Text
  pub username : Text
  pub password : Text

-- An entry as a line of the file.
abbrev pub line_of : PgpassEntry → Text
line_of e =
    join (b':' ∷ [])
      (map escape_field (e.host ∷ e.port ∷ e.database ∷ e.username ∷ e.password ∷ []))

-- A line that is no comment and not blank, and that no blank surrounds.
abbrev pub IsLine : PgpassEntry → Type 0
IsLine e =
    (trim (line_of e) ≡ line_of e)
    × (is_empty (line_of e) ≡ false)
    × (starts_with (codes "#") (line_of e) ≡ false)

module _ (host : Text) (port : ℕ) (database username : Text) where
  abbrev pub is_for : PgpassEntry → Bool
  is_for e =
      field_matches e.host host
      && field_matches e.port (decimal port)
      && field_matches e.database database
      && field_matches e.username username

  -- the password of the first entry that is for the connection
  abbrev pub first_password : List PgpassEntry → Option Text
  first_password [] = none
  first_password (e ∷ es) = if is_for e then some e.password else first_password es
