-- ===== src/Dsn/Keyword/Roundtrip.antt =====
-- Lemmas on split_keyword_pairs after escape_keyword_value, src/dsn.rs.
use pg_maintainer.Prelude.{
  ◌≡◌, refl, sym, ◌∙◌, ℕ, zero, suc, ◌≤◌, ◌<◌, Bool-cases, true, false, List, [], ◌∷◌, ◌++◌,
  append_assoc, append-nil, map, ◌||◌, some, inl, inr, Text, ◌==◌, ==_iff, ap, is_empty,
  if◌then◌else◌, length, length-append, join, All, arith,
}
use pg_maintainer.Types.Explicit.{is_whitespace, trim_start}
use pg_maintainer.Dsn.Keyword.{
  found, pair, split_key, push_quoted, quoted_value, unquoted_value, split_value, on_value,
  value_of, next_pair, push_pair, split_from, split_keyword_pairs,
}
use pg_maintainer.Dsn.Keyword.Escape.{
  replace, has_special, quoted, escape_keyword_value, escape_libpq_value, keyword, escaped_pair,
}

-- A name that can stand before `=`.
abbrev pub IsKey : Text → Type 0
IsKey key = (is_empty key ≡ false) × All (λ c. (c == b'=' || is_whitespace c) ≡ false) key

split_key-append :
    (key rest : Text)
    → All (λ c. (c == b'=' || is_whitespace c) ≡ false) key
    → split_key (key ++ b'=' ∷ rest) ≡ (key, b'=' ∷ rest)
unfolding split_key
split_key-append [] rest h = refl
split_key-append (c ∷ key) rest (hc, h) = rw (hc, split_key-append key rest h)

trim_start_lem : (c : ℕ) (s : Text) → is_whitespace c ≡ false → trim_start (c ∷ s) ≡ c ∷ s
unfolding trim_start
trim_start_lem c s h = rw h

-- the two replacements at once
escape_chars : Text → Text
escape_chars [] = []
escape_chars (c ∷ s) =
    (if c == b'\\' then b'\\' ∷ b'\\' ∷ [] else if c == b'\'' then b'\\' ∷ b'\'' ∷ [] else c ∷ [])
    ++ escape_chars s

replace-replace :
    (s : Text)
    → replace b'\'' (b'\\' ∷ b'\'' ∷ []) (replace b'\\' (b'\\' ∷ b'\\' ∷ []) s) ≡ escape_chars s
unfolding replace escape_chars
replace-replace [] = refl
replace-replace (c ∷ s) = let ih = replace-replace s in ground arith

quoted_value_close : (s : Text) → quoted_value (b'\'' ∷ s) ≡ some ([], s)
unfolding quoted_value
quoted_value_close [] = refl
quoted_value_close (d ∷ s) = refl

quoted_value_escaped :
    (d : ℕ) (s : Text) → quoted_value (b'\\' ∷ d ∷ s) ≡ push_quoted d (quoted_value s)
unfolding quoted_value
quoted_value_escaped d s = refl

quoted_value_plain :
    (c : ℕ) (s : Text)
    → (c == b'\\') ≡ false
    → (c == b'\'') ≡ false
    → quoted_value (c ∷ s) ≡ push_quoted c (quoted_value s)
unfolding quoted_value push_quoted
quoted_value_plain c [] h q = rw q refl
quoted_value_plain c (d ∷ s) h q = rw (quoted_value, h, q)

quoted_value-escape_chars :
    (s rest : Text) → quoted_value (escape_chars s ++ b'\'' ∷ rest) ≡ some (s, rest)
unfolding escape_chars push_quoted
quoted_value-escape_chars [] rest = quoted_value_close rest
quoted_value-escape_chars (c ∷ s) rest =
    let ih = quoted_value-escape_chars s rest in
    elim (Bool-cases (c == b'\\')) [
      | inl back ↦
          rw (back, quoted_value_escaped b'\\', ih)
            (ap (λ k. some (k ∷ s, rest)) (sym ((==_iff c b'\\').0 back)))
      | inr b ↦ elim (Bool-cases (c == b'\'')) [
        | inl quote ↦
            rw (b, quote, quoted_value_escaped b'\'', ih)
              (ap (λ k. some (k ∷ s, rest)) (sym ((==_iff c b'\'').0 quote)))
        | inr q ↦ rw (b, q, quoted_value_plain c _ b q, ih)
      ]
    ]

unquoted_value_plain :
    (c : ℕ) (s : Text)
    → is_whitespace c ≡ false
    → (c == b'\\') ≡ false
    → unquoted_value (c ∷ s) ≡ (c ∷ (unquoted_value s).0, (unquoted_value s).1)
unfolding unquoted_value
unquoted_value_plain c [] h q = rw h
unquoted_value_plain c (d ∷ s) h q = rw (unquoted_value, h, q)

-- the end of the text, or whitespace
abbrev Stops : Text → Type 0
Stops [] = Unit
Stops (c ∷ s) = is_whitespace c ≡ true

unquoted_value-Stops : (s : Text) → Stops s → unquoted_value s ≡ ([], s)
unfolding unquoted_value
unquoted_value-Stops [] h = refl
unquoted_value-Stops (c ∷ []) h = rw h
unquoted_value-Stops (c ∷ d ∷ s) h = rw (unquoted_value, h)

unquoted_value-append :
    (s rest : Text) → has_special s ≡ false → Stops rest → unquoted_value (s ++ rest) ≡ (s, rest)
unfolding has_special
unquoted_value-append [] rest h stops = unquoted_value-Stops rest stops
unquoted_value-append (c ∷ s) rest h stops =
    let ih = unquoted_value-append s rest in
    let parts : (is_whitespace c ≡ false) × ((c == b'\\') ≡ false) × (has_special s ≡ false) =
      ground arith in
    rw (unquoted_value_plain c _ parts.0 parts.1, ih parts.2 stops)

-- Written as `e`, the value reads as `v`, whatever whitespace or end follows.
abbrev pub Reads : Text → Text → Type 0
Reads e v = (rest : Text) → Stops rest → split_value (trim_start (e ++ rest)) ≡ some (v, rest)

quoted-Reads : (v : Text) → Reads (quoted v) v
unfolding quoted split_value trim_start is_whitespace quoted_value
quoted-Reads v rest stops =
    rw (replace-replace v, append_assoc (escape_chars v) (b'\'' ∷ []) rest)
      (quoted_value-escape_chars v rest)

pub plain-Reads : (v : Text) → is_empty v ≡ false → has_special v ≡ false → Reads v v
unfolding split_value has_special is_empty
plain-Reads [] e h rest stops = ground arith
plain-Reads (c ∷ v) e h rest stops =
    let parts : (is_whitespace c ≡ false) × ((c == b'\'') ≡ false) = ground arith in
    rw (trim_start_lem c (v ++ rest) parts.0, parts.1, unquoted_value-append (c ∷ v) rest h stops)

pub escape_keyword_value-Reads : (v : Text) → Reads (escape_keyword_value v) v
unfolding escape_keyword_value
escape_keyword_value-Reads v rest stops = elim (Bool-cases (is_empty v || has_special v)) [
  | inl special ↦ rw special (quoted-Reads v rest stops)
  | inr plain ↦
      let parts : (is_empty v ≡ false) × (has_special v ≡ false) = ground arith in
      rw plain (plain-Reads v parts.0 parts.1 rest stops)
]

pub escape_libpq_value-Reads : (v : Text) → is_empty v ≡ false → Reads (escape_libpq_value v) v
unfolding escape_libpq_value
escape_libpq_value-Reads v filled rest stops = elim (Bool-cases (has_special v)) [
  | inl special ↦ rw special (quoted-Reads v rest stops)
  | inr plain ↦ rw plain (plain-Reads v filled plain rest stops)
]

next_pair_key :
    (key s : Text)
    → IsKey key
    → next_pair (key ++ b'=' ∷ s) ≡ on_value key (split_value (trim_start s))
unfolding next_pair value_of is_empty trim_start is_whitespace
next_pair_key [] s (filled, h) = ground arith
next_pair_key (c ∷ key) s (filled, h) = rw (split_key-append (c ∷ key) s h) refl

trim_start-IsKey : (key s : Text) → IsKey key → trim_start (key ++ s) ≡ key ++ s
unfolding is_empty
trim_start-IsKey [] s (filled, h) = ground arith
trim_start-IsKey (c ∷ key) s (filled, (hc, h)) = trim_start_lem c (key ++ s) (ground arith)

next_pair_lem :
    (key e v rest : Text)
    → IsKey key
    → Reads e v
    → Stops rest
    → next_pair (trim_start (keyword key e ++ rest)) ≡ pair key v rest
unfolding on_value
next_pair_lem key e v rest h reads stops = rw (
  append_assoc key (b'=' ∷ e) rest,
  trim_start-IsKey key (b'=' ∷ e ++ rest) h,
  next_pair_key key (e ++ rest) h,
  reads rest stops,
)

-- A key, its value as it is written, and the value that is meant.
pub record Entry : Type 0 where
  pub key : Text
  pub written : Text
  pub value : Text

abbrev pub IsEntry : Entry → Type 0
IsEntry e = IsKey e.key × Reads e.written e.value

abbrev pub entry_text : Entry → Text
entry_text e = keyword e.key e.written

abbrev pub entry_pair : Entry → Text × Text
entry_pair e = (e.key, e.value)

-- the entries after the first, each with the blank before it
abbrev tail_of : List Entry → Text
tail_of [] = []
tail_of (e ∷ es) = b' ' ∷ (entry_text e ++ tail_of es)

tail_of-Stops : (es : List Entry) → Stops (tail_of es)
unfolding is_whitespace
tail_of-Stops [] = tt
tail_of-Stops (e ∷ es) = refl

join-tail_of :
    (e : Entry) (es : List Entry)
    → join (b' ' ∷ []) (map entry_text (e ∷ es)) ≡ entry_text e ++ tail_of es
unfolding join
join-tail_of e [] = sym (append-nil (entry_text e))
join-tail_of e (d ∷ es) = rw (join-tail_of d es) refl

-- a round on an entry, then the rest
split_from-entry :
    (n : ℕ) (e : Entry) (es : List Entry)
    → IsEntry e
    → split_from (suc n) (entry_text e ++ tail_of es)
      ≡ push_pair e.key e.value (split_from n (tail_of es))
unfolding split_from
split_from-entry n e es (h, reads) =
    rw (split_from, next_pair_lem e.key e.written e.value (tail_of es) h reads (tail_of-Stops es))
      refl

split_from-blank : (n : ℕ) (s : Text) → split_from n (b' ' ∷ s) ≡ split_from n s
unfolding split_from trim_start is_whitespace
split_from-blank zero s = refl
split_from-blank (suc n) s = refl

split_from-tail_of :
    (n : ℕ) (es : List Entry)
    → length es < n
    → All IsEntry es
    → split_from n (tail_of es) ≡ found (map entry_pair es)
unfolding split_from next_pair trim_start push_pair
split_from-tail_of zero es enough h = ground (arith, enough)
split_from-tail_of (suc n) [] enough h = refl
split_from-tail_of (suc n) (e ∷ es) enough (he, h) =
    rw
      (
        split_from-blank (suc n) (entry_text e ++ tail_of es),
        split_from-entry n e es he,
        split_from-tail_of n es (omega (arith, enough)) h,
      )
      refl

length-tail_of : (es : List Entry) → length es ≤ length (tail_of es)
length-tail_of [] = omega arith
length-tail_of (e ∷ es) =
    omega (arith, length-append (entry_text e) (tail_of es), length-tail_of es)

-- Entries written with a blank between them are read as their keys and values, in their order.
pub split_keyword_pairs-join :
    (es : List Entry)
    → All IsEntry es
    → split_keyword_pairs (join (b' ' ∷ []) (map entry_text es)) ≡ found (map entry_pair es)
unfolding split_keyword_pairs join push_pair
split_keyword_pairs-join [] h = split_from-tail_of 1 [] (omega arith) tt
split_keyword_pairs-join (e ∷ es) (he, h) =
    let enough : length es < length (entry_text e ++ tail_of es) = omega (
      arith,
      length-append (entry_text e) (tail_of es),
      length-append e.key (b'=' ∷ e.written),
      length-tail_of es,
    ) in
    rw
      (
        join-tail_of e es,
        split_from-entry (length (entry_text e ++ tail_of es)) e es he,
        split_from-tail_of (length (entry_text e ++ tail_of es)) es enough h,
      )
      refl

-- The entry that `escaped_pair` writes.
abbrev escaped_entry : Text × Text → Entry
escaped_entry p = record { key = p.0; written = escape_keyword_value p.1; value = p.1 }

escaped_entry-IsEntry :
    (ps : List (Text × Text)) → All (λ p. IsKey p.0) ps → All IsEntry (map escaped_entry ps)
escaped_entry-IsEntry [] h = tt
escaped_entry-IsEntry (p ∷ ps) (hp, h) =
    ((hp, escape_keyword_value-Reads p.1), escaped_entry-IsEntry ps h)

map-escaped_pair :
    (ps : List (Text × Text)) → map escaped_pair ps ≡ map entry_text (map escaped_entry ps)
unfolding escaped_pair
map-escaped_pair [] = refl
map-escaped_pair (p ∷ ps) = ap (λ t. escaped_pair p ∷ t) (map-escaped_pair ps)

map-entry_pair : (ps : List (Text × Text)) → map entry_pair (map escaped_entry ps) ≡ ps
map-entry_pair [] = refl
map-entry_pair (p ∷ ps) = ap (λ t. p ∷ t) (map-entry_pair ps)

-- Where every key is not empty and holds neither `=` nor whitespace, the pairs written with their
-- values escaped and a blank between them are read as the same pairs, whatever the values hold.
pub split_keyword_pairs-escaped_pair :
    (ps : List (Text × Text))
    → All (λ p. IsKey p.0) ps
    → split_keyword_pairs (join (b' ' ∷ []) (map escaped_pair ps)) ≡ found ps
split_keyword_pairs-escaped_pair ps h = rw (map-escaped_pair ps) (
    split_keyword_pairs-join (map escaped_entry ps) (escaped_entry-IsEntry ps h)
    ∙ ap found (map-entry_pair ps))
