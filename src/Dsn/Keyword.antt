-- ===== src/Dsn/Keyword.antt =====
-- The keyword form of src/dsn.rs: split_keyword_pairs and escape_keyword_value. The position `i` in
-- the characters is the text that is left.
pub mod Escape
pub mod Roundtrip
pub mod Ends
pub mod Keys
use pg_maintainer.Prelude.{
  ℕ, zero, suc, Bool, true, false, List, [], ◌∷◌, ◌++◌, ◌||◌, Option, none, some, Text, ◌==◌, codes,
  is_empty, if◌then◌else◌, length,
}
use pg_maintainer.Types.Explicit.{is_whitespace, trim_start}

pub data KeywordError : Type 0 where
  empty_name : KeywordError
  no_value : Text → KeywordError
  unterminated : Text → KeywordError
  -- the model's own: the loop has gone on for longer than it was given
  out_of_fuel : KeywordError

pub data KeywordPairs : Type 0 where
  found : List (Text × Text) → KeywordPairs
  malformed : KeywordError → KeywordPairs

-- What a round of the loop comes to: the end of the text, a pair with what is left, or an error.
pub data Next : Type 0 where
  finished : Next
  pair : Text → Text → Text → Next
  bad : KeywordError → Next

-- `while chars[i] != '=' && !chars[i].is_whitespace()`: the key, and what is left
unfoldable pub split_key : Text → Text × Text
split_key [] = ([], [])
split_key (c ∷ s) =
    let rest = split_key s in
    if c == b'=' || is_whitespace c then ([], c ∷ s) else (c ∷ rest.0, rest.1)

unfoldable pub push_quoted : ℕ → Option (Text × Text) → Option (Text × Text)
push_quoted c none = none
push_quoted c (some r) = some (c ∷ r.0, r.1)

-- after the opening quote: the value and what is left, if the quote is closed
unfoldable pub quoted_value : Text → Option (Text × Text)
unfolding push_quoted
quoted_value [] = none
quoted_value (c ∷ []) = if c == b'\'' then some ([], []) else none
quoted_value (c ∷ d ∷ s) = elim (c == b'\\') [
  | true ↦ push_quoted d (quoted_value s)
  | false ↦ elim (c == b'\'') [
    | true ↦ some ([], d ∷ s)
    | false ↦ push_quoted c (quoted_value (d ∷ s))
  ]
]

unfoldable pub unquoted_value : Text → Text × Text
unquoted_value [] = ([], [])
unquoted_value (c ∷ []) = if is_whitespace c then ([], c ∷ []) else (c ∷ [], [])
unquoted_value (c ∷ d ∷ s) = elim (is_whitespace c) [
  | true ↦ ([], c ∷ d ∷ s)
  | false ↦ elim (c == b'\\') [
    | true ↦ let r = unquoted_value s in (d ∷ r.0, r.1)
    | false ↦ let r = unquoted_value (d ∷ s) in (c ∷ r.0, r.1)
  ]
]

unfoldable pub split_value : Text → Option (Text × Text)
split_value [] = some ([], [])
split_value (c ∷ s) = if c == b'\'' then quoted_value s else some (unquoted_value (c ∷ s))

unfoldable pub on_value : Text → Option (Text × Text) → Next
on_value key none = bad (unterminated key)
on_value key (some (value, rest)) = pair key value rest

-- after the key and the whitespace behind it
unfoldable pub value_of : Text → Text → Next
value_of key [] = bad (no_value key)
value_of key (c ∷ s) =
    if c == b'=' then on_value key (split_value (trim_start s)) else bad (no_value key)

-- a round of the loop, after the leading whitespace
unfoldable pub next_pair : Text → Next
next_pair [] = finished
next_pair (c ∷ s) =
    let r = split_key (c ∷ s) in
    if is_empty r.0 then bad empty_name else value_of r.0 (trim_start r.1)

-- `pairs.push((key, value))`
unfoldable pub push_pair : Text → Text → KeywordPairs → KeywordPairs
push_pair key value (found ps) = found ((key, value) ∷ ps)
push_pair key value (malformed e) = malformed e

unfoldable pub split_from : ℕ → Text → KeywordPairs
split_from zero s = malformed out_of_fuel
split_from (suc n) s = elim (next_pair (trim_start s)) [
  | finished ↦ found []
  | pair key value rest ↦ push_pair key value (split_from n rest)
  | bad e ↦ malformed e
]

-- A round of the loop takes at least a character, the last one none.
unfoldable pub split_keyword_pairs : Text → KeywordPairs
split_keyword_pairs s = split_from (suc (length s)) s
