-- ===== src/Connection/Readback.antt =====
-- Lemmas on build_connection_string of src/connection.rs.
use pg_maintainer.Prelude.{
  decimal, IsDigit, decimal-IsDigit, decimal-is_empty, ◌≡◌, refl, ap, ◌∙◌, ℕ, false, List, [], ◌∷◌,
  map, join, Option, none, some, Text, codes, is_empty, All, append-nil, arith,
}
use pg_maintainer.Types.Explicit.{is_whitespace}
use pg_maintainer.Dsn.Keyword.{found, split_keyword_pairs}
use pg_maintainer.Dsn.Keyword.Escape.{has_special, escape_libpq_value}
use pg_maintainer.Dsn.Keyword.Roundtrip.{
  IsKey, Reads, Entry, IsEntry, entry_text, entry_pair, plain-Reads, escape_libpq_value-Reads,
  split_keyword_pairs-join,
}
use pg_maintainer.Connection.{ConnectionConfig, password_part, build_connection_string}

has_special-IsDigit : (s : Text) → All IsDigit s → has_special s ≡ false
unfolding has_special is_whitespace
has_special-IsDigit [] h = refl
has_special-IsDigit (c ∷ s) (hc, h) = let ih = has_special-IsDigit s h in ground arith

decimal-Reads : (n : ℕ) → Reads (decimal n) (decimal n)
decimal-Reads n =
    plain-Reads (decimal n) (decimal-is_empty n)
      (has_special-IsDigit (decimal n) (decimal-IsDigit n))

-- the parts of the string, and what each means
entry : Text → Text → Text → Entry
entry key written value = record { key = key; written = written; value = value }

password_entry : Option Text → List Entry
password_entry none = []
password_entry (some pw) = entry (codes "password") (escape_libpq_value pw) pw ∷ []

entries : ConnectionConfig → List Entry
entries c =
    entry (codes "host") (escape_libpq_value c.host) c.host
    ∷ entry (codes "port") (decimal c.port) (decimal c.port)
    ∷ entry (codes "dbname") (escape_libpq_value c.database) c.database
    ∷ entry (codes "user") (escape_libpq_value c.username) c.username
    ∷ entry (codes "connect_timeout") (decimal c.connect_timeout_seconds)
        (decimal c.connect_timeout_seconds)
    ∷ password_entry c.password

-- The pairs that the parameters make.
abbrev pub password_pair : Option Text → List (Text × Text)
password_pair none = []
password_pair (some pw) = (codes "password", pw) ∷ []

abbrev pub config_pairs : ConnectionConfig → List (Text × Text)
config_pairs c =
    (codes "host", c.host)
    ∷ (codes "port", decimal c.port)
    ∷ (codes "dbname", c.database)
    ∷ (codes "user", c.username)
    ∷ (codes "connect_timeout", decimal c.connect_timeout_seconds)
    ∷ password_pair c.password

abbrev pub IsGiven : Option Text → Type 0
IsGiven none = Unit
IsGiven (some t) = is_empty t ≡ false

build_connection_string-entries :
    (c : ConnectionConfig) (password : Option Text)
    → build_connection_string (record c { password = password })
      ≡ join (b' ' ∷ []) (map entry_text (entries (record c { password = password })))
unfolding build_connection_string password_part entries entry password_entry join
build_connection_string-entries c none = rw (append-nil (decimal c.connect_timeout_seconds)) refl
build_connection_string-entries c (some pw) = refl

keys-IsKey :
    IsKey (codes "host")
    × IsKey (codes "port")
    × IsKey (codes "dbname")
    × IsKey (codes "user")
    × IsKey (codes "connect_timeout")
    × IsKey (codes "password")
unfolding is_empty is_whitespace
keys-IsKey = ground arith

password_entry-IsEntry : (o : Option Text) → IsGiven o → All IsEntry (password_entry o)
unfolding password_entry entry
password_entry-IsEntry none h = tt
password_entry-IsEntry (some pw) h = ((keys-IsKey.5, escape_libpq_value-Reads pw h), tt)

entries-IsEntry :
    (c : ConnectionConfig)
    → is_empty c.host ≡ false
    → is_empty c.database ≡ false
    → is_empty c.username ≡ false
    → IsGiven c.password
    → All IsEntry (entries c)
unfolding entries entry
entries-IsEntry c host database username password = (
  (keys-IsKey.0, escape_libpq_value-Reads c.host host),
  (
    (keys-IsKey.1, decimal-Reads c.port),
    (
      (keys-IsKey.2, escape_libpq_value-Reads c.database database),
      (
        (keys-IsKey.3, escape_libpq_value-Reads c.username username),
        (
          (keys-IsKey.4, decimal-Reads c.connect_timeout_seconds),
          password_entry-IsEntry c.password password,
        ),
      ),
    ),
  ),
)

map-password_entry : (o : Option Text) → map entry_pair (password_entry o) ≡ password_pair o
unfolding password_entry entry
map-password_entry none = refl
map-password_entry (some pw) = refl

map-entries : (c : ConnectionConfig) → map entry_pair (entries c) ≡ config_pairs c
unfolding entries entry
map-entries c = rw (map-password_entry c.password) refl

-- Where the host, the database, the user and a password that is given are not empty, the connection string
-- reads as them, with the port and the timeout, whatever characters they hold.
pub build_connection_string-config_pairs :
    (c : ConnectionConfig)
    → is_empty c.host ≡ false
    → is_empty c.database ≡ false
    → is_empty c.username ≡ false
    → IsGiven c.password
    → split_keyword_pairs (build_connection_string c) ≡ found (config_pairs c)
build_connection_string-config_pairs c host database username password =
    ap split_keyword_pairs (build_connection_string-entries c c.password)
    ∙ (split_keyword_pairs-join (entries c) (entries-IsEntry c host database username password)
        ∙ ap found (map-entries c))
