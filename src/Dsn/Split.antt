-- ===== src/Dsn/Split.antt =====
-- extract_ssl_params and map_sslmode of src/dsn.rs.
pub mod Pairs
use pg_maintainer.Prelude.{
  ℕ, ltb, length, Bool, true, false, not, List, [], ◌∷◌, ◌++◌, ◌||◌, ◌&&◌, Option, none, some, Text,
  ◌==◌, codes, is_empty, if◌then◌else◌, to_ascii_lowercase, text_eq, text_mem, filter_by, join, map,
  Result, done, error, and_then,
}
use pg_maintainer.Types.Modes.{SslMode, disable, require, verify_ca, verify_full}
use pg_maintainer.Types.Explicit.{trim}
use pg_maintainer.Dsn.Keyword.{KeywordError, KeywordPairs, found, malformed, split_keyword_pairs}
use pg_maintainer.Dsn.Keyword.Escape.{escaped_pair}
use pg_maintainer.Dsn.Uri.{
  is_uri, split_once, split_at, contains, uri_has_explicit_port, Utf8, percent_decode,
}

pub data DsnError : Type 0 where
  empty_dsn not_understood panicked not_readable : DsnError
  bad_keywords : KeywordError → DsnError
  refused_by_driver : DsnError
  many_hosts : ℕ → DsnError
  unsupported_sslmode invalid_sslmode : Text → DsnError

-- SSL_PARAMS
abbrev pub ssl_params : List Text
ssl_params = codes "sslmode" ∷ codes "sslrootcert" ∷ codes "sslcert" ∷ codes "sslkey" ∷ []

-- UNUSED_PARAMS
abbrev pub unused_params : List Text
unused_params =
    codes "application_name"
    ∷ codes "options"
    ∷ codes "target_session_attrs"
    ∷ codes "keepalives"
    ∷ codes "keepalives_idle"
    ∷ codes "channel_binding"
    ∷ []

pub record SplitDsn : Type 0 where
  pub ssl : List (Text × Text)
  pub rest : Text
  pub other_keys : List Text

-- What the loops collect: the SSL parameters, the parts kept, and their keys.
pub record Parts : Type 0 where
  pub ssl : List (Text × Text)
  pub kept : List Text
  pub other_keys : List Text

unfoldable pub no_parts : Parts
no_parts = record { ssl = []; kept = []; other_keys = [] }

unfoldable pub add_ssl : Text → Text → Parts → Parts
add_ssl key value p = record p { ssl = (key, value) ∷ p.ssl }

unfoldable pub add_kept : Text → Text → Parts → Parts
add_kept key part p = record p { kept = part ∷ p.kept; other_keys = key ∷ p.other_keys }

-- the loop over the keyword pairs
unfoldable pub keyword_parts : List (Text × Text) → Parts
keyword_parts [] = no_parts
keyword_parts (p ∷ ps) =
    let lower = to_ascii_lowercase p.0 in
    let rest = keyword_parts ps in
    if text_mem lower ssl_params
    then add_ssl lower p.1 rest
    else add_kept lower (escaped_pair p) rest

unfoldable pub on_pairs : KeywordPairs → Result DsnError SplitDsn
on_pairs (malformed e) = error (bad_keywords e)
on_pairs (found ps) =
    let parts = keyword_parts ps in
    done (record {
      ssl = parts.ssl;
      rest = join (codes " ") parts.kept;
      other_keys = parts.other_keys;
    })

-- a decoded text, or the panic of percent_decode
unfoldable pub or_panic : Option Text → Result DsnError Text
or_panic none = error panicked
or_panic (some t) = done t

unfoldable pub map_parts : (Parts → Parts) → Result DsnError Parts → Result DsnError Parts
map_parts f (done p) = done (f p)
map_parts f (error e) = error e

module _ (utf8 : Utf8) where
  -- what a segment of the query adds to the parts of those that follow
  unfoldable pub add_segment : Text → Text × Text → Result DsnError Parts → Result DsnError Parts
  add_segment segment raw later = and_then (or_panic (percent_decode utf8 raw.0)) λ decoded.
      let key = to_ascii_lowercase decoded in
      elim (text_mem key ssl_params) [
        | true ↦
            and_then (or_panic (percent_decode utf8 raw.1))
              λ value. map_parts (add_ssl key value) later
        | false ↦ map_parts (add_kept key segment) later
      ]

  -- the loop over the segments of the query
  unfoldable pub query_parts : List Text → Result DsnError Parts
  query_parts [] = done no_parts
  query_parts (segment ∷ segments) =
      let later = query_parts segments in
      let raw : Text × Text = elim (split_once b'=' segment) [
        | some p ↦ p
        | none ↦ (segment, [])
      ] in
      if is_empty segment then later else add_segment segment raw later

  unfoldable pub rest_of : Text → List Text → Text
  rest_of base [] = base
  rest_of base (part ∷ kept) = base ++ (codes "?" ++ join (codes "&") (part ∷ kept))

  unfoldable pub on_query : Option (Text × Text) → Text → Result DsnError SplitDsn
  on_query none raw = done (record { ssl = []; rest = raw; other_keys = [] })
  on_query (some (base, query)) raw = and_then (query_parts (split_at b'&' query)) λ parts.
      done
        (record { ssl = parts.ssl; rest = rest_of base parts.kept; other_keys = parts.other_keys })

  unfoldable pub extract_ssl_params : Text → Result DsnError SplitDsn
  extract_ssl_params raw = elim (is_uri raw) [
    | true ↦ on_query (split_once b'?' raw) raw
    | false ↦ on_pairs (split_keyword_pairs raw)
  ]

unfoldable pub map_sslmode : Text → Result DsnError SslMode
map_sslmode value =
    let lower = to_ascii_lowercase value in
    if text_eq lower (codes "disable")
    then done disable
    else if text_eq lower (codes "require")
    then done require
    else if text_eq lower (codes "verify-ca")
    then done verify_ca
    else if text_eq lower (codes "verify-full")
    then done verify_full
    else if text_eq lower (codes "allow") || text_eq lower (codes "prefer")
    then error (unsupported_sslmode value)
    else error (invalid_sslmode lower)
