-- ===== src/Types/Explicit.antt =====
-- ExplicitTable::parse_list of src/types.rs: the tables of `--also-tables`.
pub mod Listed
use pg_maintainer.Prelude.{
  ℕ, Bool, true, false, List, [], ◌∷◌, ◌++◌, ◌||◌, ◌&&◌, Option, none, some, Text, leb, ◌==◌,
  is_empty, if◌then◌else◌,
}
use pg_maintainer.Types.Modes.{Parsed, ok, invalid}
use pg_maintainer.Types.Tables.{TableKey, key_mem}

-- `char::is_whitespace`
unfoldable pub is_whitespace : ℕ → Bool
is_whitespace c =
    (leb 9 c && leb c 13)
    || c == 32
    || c == 133
    || c == 160
    || c == 5760
    || (leb 8192 c && leb c 8202)
    || c == 8232
    || c == 8233
    || c == 8239
    || c == 8287
    || c == 12288

unfoldable pub trim_start : Text → Text
trim_start [] = []
trim_start (c ∷ s) = let rest = trim_start s in if is_whitespace c then rest else c ∷ s

unfoldable pub trim_end : Text → Text
trim_end [] = []
trim_end (c ∷ s) =
    let rest = trim_end s in if is_empty rest && is_whitespace c then [] else c ∷ rest

unfoldable pub trim : Text → Text
trim s = trim_end (trim_start s)

-- `split_once('.')`
unfoldable pub split_once_dot : Text → Option (Text × Text)
split_once_dot [] = none
split_once_dot (c ∷ s) =
    let rest = split_once_dot s in
    if c == b'.' then some ([], s) else elim rest [ none ↦ none | some p ↦ some (c ∷ p.0, p.1) ]

unfoldable pub contains_dot : Text → Bool
contains_dot [] = false
contains_dot (c ∷ s) = if c == b'.' then true else contains_dot s

-- An entry that is neither empty nor refused.
unfoldable pub parse_parts : Text → Option (Text × Text) → Parsed TableKey
parse_parts entry none = invalid entry
parse_parts entry (some (schema, table)) =
    if is_empty schema || is_empty table
    then invalid entry
    else if contains_dot table
    then invalid entry
    else ok (record { schema = schema; table = table })

-- `if !out.contains(&candidate) { out.push(candidate) }`
unfoldable pub push_new : List TableKey → TableKey → List TableKey
push_new out candidate = if key_mem candidate out then out else out ++ candidate ∷ []

-- The loop over the entries, with what it has collected.
unfoldable pub parse_from : List TableKey → List Text → Parsed (List TableKey)
parse_from out [] = ok out
parse_from out (raw ∷ entries) =
    let skipped = parse_from out entries in
    let parsed : Parsed (List TableKey) =
      elim (parse_parts (trim raw) (split_once_dot (trim raw))) [
        | ok candidate ↦ parse_from (push_new out candidate) entries
        | invalid entry ↦ invalid entry
      ] in
    if is_empty (trim raw) then skipped else parsed

unfoldable pub parse_list : List Text → Parsed (List TableKey)
parse_list entries = parse_from [] entries
