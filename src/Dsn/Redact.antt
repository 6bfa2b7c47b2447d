-- ===== src/Dsn/Redact.antt =====
-- redact of src/dsn.rs.
pub mod Keywords
pub mod Uris
use pg_maintainer.Prelude.{
  Bool, true, false, List, [], ◌∷◌, ◌++◌, Option, none, some, Text, codes, if◌then◌else◌,
  to_ascii_lowercase, text_eq, join, map,
}
use pg_maintainer.Types.Explicit.{trim}
use pg_maintainer.Dsn.Keyword.{KeywordPairs, found, malformed, split_keyword_pairs}
use pg_maintainer.Dsn.Keyword.Escape.{keyword, escaped_pair}
use pg_maintainer.Dsn.Uri.{is_uri, uri_authority, split_once, rsplit_once, replace_first}

abbrev pub mask : Text
mask = codes "***"

-- `key.eq_ignore_ascii_case("password")`
unfoldable pub is_password : Text → Bool
is_password key = text_eq (to_ascii_lowercase key) (codes "password")

unfoldable pub redacted_pair : Text × Text → Text
redacted_pair p = if is_password p.0 then keyword p.0 mask else escaped_pair p

unfoldable pub redact_pairs : KeywordPairs → Text
redact_pairs (found ps) = join (codes " ") (map redacted_pair ps)
redact_pairs (malformed e) = codes "[REDACTED]"

-- The user and the password around the first `:`, before the last `@` of the authority.
unfoldable pub on_userinfo : Text → Text → Text → Option (Text × Text) → Text
on_userinfo trimmed authority host none = trimmed
on_userinfo trimmed authority host (some (user, password)) =
    replace_first authority (user ++ b':' ∷ (mask ++ b'@' ∷ host)) trimmed

unfoldable pub on_authority : Text → Text → Option (Text × Text) → Text
on_authority trimmed authority none = trimmed
on_authority trimmed authority (some (userinfo, host)) =
    on_userinfo trimmed authority host (split_once b':' userinfo)

unfoldable pub redact_trimmed : Text → Text
redact_trimmed trimmed = elim (is_uri trimmed) [
  | true ↦ on_authority trimmed (uri_authority trimmed) (rsplit_once b'@' (uri_authority trimmed))
  | false ↦ redact_pairs (split_keyword_pairs trimmed)
]

unfoldable pub redact : Text → Text
redact raw = redact_trimmed (trim raw)
