-- ===== src/Dsn/Keyword/Escape.antt =====
-- escape_keyword_value of src/dsn.rs and escape_libpq_value of src/connection.rs.
use pg_maintainer.Prelude.{ℕ, Bool, false, [], ◌∷◌, ◌++◌, ◌||◌, Text, ◌==◌, is_empty, if◌then◌else◌}
use pg_maintainer.Types.Explicit.{is_whitespace}

-- `str::replace` of a character by a text
unfoldable pub replace : ℕ → Text → Text → Text
replace a t [] = []
replace a t (c ∷ s) = (if c == a then t else c ∷ []) ++ replace a t s

unfoldable pub has_special : Text → Bool
has_special [] = false
has_special (c ∷ s) = is_whitespace c || c == b'\'' || c == b'\\' || has_special s

unfoldable pub quoted : Text → Text
quoted s =
    let escaped = replace b'\'' (b'\\' ∷ b'\'' ∷ []) (replace b'\\' (b'\\' ∷ b'\\' ∷ []) s) in
    b'\'' ∷ (escaped ++ b'\'' ∷ [])

unfoldable pub escape_keyword_value : Text → Text
escape_keyword_value s = if is_empty s || has_special s then quoted s else s

unfoldable pub escape_libpq_value : Text → Text
escape_libpq_value s = if has_special s then quoted s else s

-- `{key}={value}`
abbrev pub keyword : Text → Text → Text
keyword key value = key ++ b'=' ∷ value

-- `{key}={escape_keyword_value(value)}`
unfoldable pub escaped_pair : Text × Text → Text
escaped_pair p = keyword p.0 (escape_keyword_value p.1)
