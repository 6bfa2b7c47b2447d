-- ===== src/Tests/Dsns.antt =====
-- Connection strings on sample values.
use pg_maintainer.Prelude.{
  arith, ℕ, Bool, ◌≡◌, refl, true, false, List, [], ◌∷◌, map, inl, inr, All, none, some, is_some,
  Text, codes, join, is_empty, leb, ◌&&◌, text_eq, text_mem, to_ascii_lowercase, done, and_then,
}
use pg_maintainer.Types.Modes.{require, display_ssl_mode}
use pg_maintainer.Prelude.{◌↔◌}
use pg_maintainer.Types.Explicit.{is_whitespace, trim, trim_start, trim_end}
use pg_maintainer.Dsn.Keyword.{
  found, malformed, out_of_fuel, split_keyword_pairs, split_from, next_pair, split_key, value_of,
  on_value, split_value, quoted_value, unquoted_value, push_quoted, push_pair,
}
use pg_maintainer.Dsn.Keyword.Escape.{escaped_pair}
use pg_maintainer.Dsn.Keyword.Roundtrip.{IsKey, split_keyword_pairs-escaped_pair}
use pg_maintainer.Dsn.Keyword.Ends.{split_keyword_pairs_ends}
use pg_maintainer.Dsn.Uri.{
  Utf8, decode_bytes, is_uri, starts_with, strip_prefix, contains, uri_has_explicit_port,
}
use pg_maintainer.Dsn.Uri.Authority.{uri_text}
use pg_maintainer.Dsn.Uri.Decode.{percent_encode, decode_bytes-percent_encode}
use pg_maintainer.Dsn.Uri.Port.{with_userinfo, with_port, uri_has_explicit_port_lem}
use pg_maintainer.Dsn.Split.{
  SplitDsn, on_pairs, keyword_parts, no_parts, add_ssl, add_kept, extract_ssl_params, map_sslmode,
}
use pg_maintainer.Dsn.Split.Pairs.{IsExtracted, extract_ssl_params-IsExtracted}
use pg_maintainer.Dsn.Parse.{
  DriverConfig, ParsedDsn, tcp, parse, parse_trimmed, on_config, dsn_fields, dsn_port, first,
  first_host, host_text, set_all, set_ssl,
}
use pg_maintainer.Dsn.Parse.Supported.{IsMode, map_sslmode_iff, parse-IsSupported}
use pg_maintainer.Dsn.Redact.{mask, redact}
use pg_maintainer.Dsn.Redact.Uris.{authority_text, redact-uri_text}

abbrev secret_pairs : List (Text × Text)
secret_pairs =
    (codes "host", codes "db")
    ∷ (codes "password", codes "it's\\ x")
    ∷ (codes "sslmode", codes "REQUIRE")
    ∷ []

secret_keys : All (λ p. IsKey p.0) secret_pairs
unfolding is_empty is_whitespace
secret_keys = ground arith

split_keyword_pairs-escaped_pair_example :
    split_keyword_pairs (join (b' ' ∷ []) (map escaped_pair secret_pairs)) ≡ found secret_pairs
split_keyword_pairs-escaped_pair_example = split_keyword_pairs-escaped_pair secret_pairs secret_keys

split_keyword_pairs_ends_example :
    ¬ (split_keyword_pairs (codes "host='db") ≡ malformed out_of_fuel)
split_keyword_pairs_ends_example = split_keyword_pairs_ends (codes "host='db")

abbrev pub keyword_dsn : Text
keyword_dsn = codes "host = db password='it\\'s\\\\ x' sslmode=REQUIRE"

keyword_form : is_uri (trim keyword_dsn) ≡ false
unfolding trim trim_start trim_end is_whitespace is_empty is_uri starts_with strip_prefix
    to_ascii_lowercase
keyword_form = refl

keyword_pairs : split_keyword_pairs (trim keyword_dsn) ≡ found secret_pairs
unfolding trim trim_start trim_end is_whitespace is_empty split_keyword_pairs split_from next_pair
    split_key value_of on_value split_value quoted_value unquoted_value push_quoted push_pair
keyword_pairs = refl

abbrev pub ascii : Utf8
ascii = record { bytes = λ t. t; from_lossy = λ bs. bs }

extract_ssl_params-IsExtracted_example :
    (s : SplitDsn) × (extract_ssl_params ascii (trim keyword_dsn) ≡ done s)
    × IsExtracted secret_pairs s
extract_ssl_params-IsExtracted_example =
    extract_ssl_params-IsExtracted ascii (trim keyword_dsn) secret_pairs keyword_form keyword_pairs

redact-uri_text_example :
    redact (codes " postgres://me:p@:x@db:5432/shop")
    ≡ uri_text
        (codes "postgres:")
        (authority_text (codes "me") mask (codes "db:5432"))
        (codes "/shop")
unfolding trim trim_start trim_end is_whitespace is_empty contains
redact-uri_text_example =
    redact-uri_text (codes " postgres://me:p@:x@db:5432/shop") (codes "postgres:") (codes "me")
      (codes "p@:x") (codes "db:5432") (codes "/shop") refl (inl refl) ((refl, refl), refl)
      (refl, refl) ((refl, refl), refl) refl

abbrev letters : ℕ → Bool
letters b = leb b'a' b && leb b b'z'

decode_bytes-percent_encode_example :
    decode_bytes (percent_encode letters (b'a' ∷ b'%' ∷ 200 ∷ [])) ≡ some (b'a' ∷ b'%' ∷ 200 ∷ [])
decode_bytes-percent_encode_example =
    decode_bytes-percent_encode letters (λ b h. ground (arith, h)) (b'a' ∷ b'%' ∷ 200 ∷ [])
      (omega arith)

uri_has_explicit_port_example :
    uri_has_explicit_port (
      uri_text
        (codes "postgresql:")
        (with_userinfo (some (codes "me:secret")) (with_port (codes "[::1]") none))
        (codes "/shop"))
    ≡ is_some {A = Text} none
unfolding contains
uri_has_explicit_port_example =
    uri_has_explicit_port_lem (codes "postgresql:") (some (codes "me:secret")) (codes "[::1]") none
      (codes "/shop") (inr refl) (refl, refl) (inr (codes "::1", refl), refl) tt refl

abbrev pub sample_config : DriverConfig
sample_config = record {
  hosts = tcp (codes "db") ∷ [];
  ports = [];
  dbname = none;
  user = none;
  password = some (codes "it's\\ x");
  connect_timeout = none;
}

abbrev pub sample_parsed : ParsedDsn
sample_parsed = record {
  host = some (codes "db");
  port = none;
  database = none;
  username = none;
  password = some (codes "it's\\ x");
  sslmode = some require;
  ssl_ca_cert = none;
  ssl_client_cert = none;
  ssl_client_key = none;
  connect_timeout_seconds = none;
  ignored_params = [];
}

pub sample_accepted : parse ascii (λ rest. some sample_config) keyword_dsn ≡ done sample_parsed
unfolding parse parse_trimmed on_config dsn_fields dsn_port first first_host host_text set_all
    set_ssl and_then extract_ssl_params map_sslmode text_eq text_mem to_ascii_lowercase contains
    on_pairs keyword_parts no_parts add_ssl add_kept trim trim_start trim_end is_whitespace is_empty
    is_uri starts_with strip_prefix split_keyword_pairs split_from next_pair split_key value_of
    on_value split_value quoted_value unquoted_value push_quoted push_pair
sample_accepted = refl

parse-IsSupported_example :
    All (λ p. text_eq (to_ascii_lowercase p.0) (codes "sslmode") ≡ true → IsMode p.1) secret_pairs
parse-IsSupported_example =
    parse-IsSupported ascii (λ rest. some sample_config) keyword_dsn secret_pairs sample_parsed
      keyword_form keyword_pairs sample_accepted

map_sslmode_example :
    (map_sslmode (codes "Require") ≡ done require)
    ↔ (to_ascii_lowercase (codes "Require") ≡ display_ssl_mode require)
map_sslmode_example = map_sslmode_iff (codes "Require") require
