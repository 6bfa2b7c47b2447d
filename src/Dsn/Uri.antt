-- ===== src/Dsn/Uri.antt =====
-- The URI form of src/dsn.rs: is_uri, percent_decode, uri_authority, uri_has_explicit_port, and the
-- operations on `str` that they use.
pub mod Decode
pub mod Authority
pub mod Port
use pg_maintainer.Prelude.{
  ℕ, ◌+◌, ◌*◌, ◌-◌, Bool, true, false, not, List, [], ◌∷◌, ◌++◌, ◌||◌, ◌&&◌, Option, none, some,
  Text, ◌==◌, ltb, leb, codes, is_empty, if◌then◌else◌, to_ascii_lowercase, unwrap_or, map,
}

-- `starts_with`, with what is left
unfoldable pub strip_prefix : Text → Text → Option Text
strip_prefix [] s = some s
strip_prefix (c ∷ p) [] = none
strip_prefix (c ∷ p) (d ∷ s) = if c == d then strip_prefix p s else none

unfoldable pub starts_with : Text → Text → Bool
starts_with p s = elim (strip_prefix p s) [ none ↦ false | some rest ↦ true ]

unfoldable pub contains : ℕ → Text → Bool
contains a [] = false
contains a (c ∷ s) = c == a || contains a s

-- `split_once(a)`: around the first `a`
unfoldable pub split_once : ℕ → Text → Option (Text × Text)
split_once a [] = none
split_once a (c ∷ s) =
    let rest = split_once a s in
    if c == a then some ([], s) else elim rest [ none ↦ none | some p ↦ some (c ∷ p.0, p.1) ]

-- around the last `a`, as with `rfind(a)`
unfoldable pub rsplit_once : ℕ → Text → Option (Text × Text)
rsplit_once a [] = none
rsplit_once a (c ∷ s) = elim (rsplit_once a s) [
  | some p ↦ some (c ∷ p.0, p.1)
  | none ↦ if c == a then some ([], s) else none
]

-- `split(a)`
unfoldable pub split_at : ℕ → Text → List Text
split_at a [] = [] ∷ []
split_at a (c ∷ s) =
    let rest = split_at a s in
    if c == a then [] ∷ rest else elim rest [ [] ↦ (c ∷ []) ∷ [] | x ∷ xs ↦ (c ∷ x) ∷ xs ]

-- `replacen(from, to, 1)`
unfoldable pub replace_first : Text → Text → Text → Text
replace_first from to [] = elim (strip_prefix from []) [ some rest ↦ to ++ rest | none ↦ [] ]
replace_first from to (c ∷ s) = elim (strip_prefix from (c ∷ s)) [
  | some rest ↦ to ++ rest
  | none ↦ c ∷ replace_first from to s
]

unfoldable pub is_uri : Text → Bool
is_uri s =
    let lower = to_ascii_lowercase s in
    starts_with (codes "postgres://") lower || starts_with (codes "postgresql://") lower

-- what follows the first `//`
unfoldable pub after_scheme : Text → Option Text
after_scheme [] = none
after_scheme (c ∷ s) = elim (strip_prefix (codes "//") (c ∷ s)) [
  | some rest ↦ some rest
  | none ↦ after_scheme s
]

-- up to the first `/` or `?`
unfoldable pub until_path : Text → Text
until_path [] = []
until_path (c ∷ s) = let rest = until_path s in if c == b'/' || c == b'?' then [] else c ∷ rest

unfoldable pub uri_authority : Text → Text
uri_authority s = elim (after_scheme s) [ none ↦ [] | some rest ↦ until_path rest ]

-- what follows the userinfo
unfoldable pub hostpart : Text → Text
hostpart authority = elim (rsplit_once b'@' authority) [ some p ↦ p.1 | none ↦ authority ]

unfoldable pub names_port : Text → Bool
names_port host = elim (rsplit_once b']' host) [
  | some p ↦ starts_with (codes ":") p.1
  | none ↦ contains b':' host
]

unfoldable pub uri_has_explicit_port : Text → Bool
uri_has_explicit_port s = names_port (hostpart (uri_authority s))

-- A digit of `from_str_radix(_, 16)`.
unfoldable pub hex_digit : ℕ → Option ℕ
hex_digit c =
    if leb b'0' c && leb c b'9'
    then some (c - b'0')
    else if leb b'A' c && leb c b'F'
    then some (c - b'A' + 10)
    else if leb b'a' c && leb c b'f'
    then some (c - b'a' + 10)
    else none

-- `u8::from_str_radix(_, 16)` of two bytes: a sign `+` is taken too.
unfoldable pub hex_byte : ℕ → ℕ → Option ℕ
hex_byte c d =
    let low = hex_digit d in
    if c == b'+' then low else elim (hex_digit c) [
      | none ↦ none
      | some h ↦ elim low [ none ↦ none | some l ↦ some (h * 16 + l) ]
    ]

-- `&s[..]` may end before these bytes: no continuation byte of UTF-8 follows.
unfoldable pub is_boundary : List ℕ → Bool
is_boundary [] = true
is_boundary (b ∷ bs) = not (leb 0x80 b && ltb b 0xC0)

unfoldable pub push_byte : ℕ → Option (List ℕ) → Option (List ℕ)
push_byte b none = none
push_byte b (some bs) = some (b ∷ bs)

-- The loop of percent_decode on the bytes of the text; `none` where the slice of two bytes would
-- end inside of a character, on which the program panics.
unfoldable pub decode_bytes : List ℕ → Option (List ℕ)
decode_bytes [] = some []
decode_bytes (b ∷ []) = some (b ∷ [])
decode_bytes (b ∷ c ∷ []) = some (b ∷ c ∷ [])
decode_bytes (b ∷ c ∷ d ∷ bs) = elim (b == b'%') [
  | false ↦ push_byte b (decode_bytes (c ∷ d ∷ bs))
  | true ↦ elim (is_boundary bs) [
    | false ↦ none
    | true ↦ elim (hex_byte c d) [
      | some v ↦ push_byte v (decode_bytes bs)
      | none ↦ push_byte b (decode_bytes (c ∷ d ∷ bs))
    ]
  ]
]

-- UTF-8, as the standard library has it: the bytes of a text, and `from_utf8_lossy`.
pub record Utf8 : Type 0 where
  pub bytes : Text → List ℕ
  pub from_lossy : List ℕ → Text

unfoldable pub percent_decode : Utf8 → Text → Option Text
percent_decode utf8 s = elim (decode_bytes (utf8.bytes s)) [
  | none ↦ none
  | some bs ↦ some (utf8.from_lossy bs)
]
