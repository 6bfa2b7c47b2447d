-- ===== src/Dsn/Parse/Supported.antt =====
-- Lemmas on the SSL modes that parse of src/dsn.rs accepts.
use mathlib.Core.Path.{subst}
use pg_maintainer.Prelude.{
  ◌≡◌, refl, sym, ◌∙◌, ◌↔◌, Bool, Bool-cases, true, false, List, [], ◌∷◌, inl, inr, Option, none,
  some, Text, codes, ltb, length, if◌then◌else◌, text_eq, text_eq_iff, text_mem, filter_by, map,
  All, arith, to_ascii_lowercase, done, and_then, and_then_done,
}
use pg_maintainer.Types.Modes.{SslMode, disable, require, verify_ca, verify_full, display_ssl_mode}
use pg_maintainer.Types.Explicit.{trim}
use pg_maintainer.Dsn.Keyword.{found, split_keyword_pairs}
use pg_maintainer.Dsn.Uri.{is_uri, Utf8}
use pg_maintainer.Dsn.Split.{SplitDsn, extract_ssl_params, map_sslmode}
use pg_maintainer.Dsn.Split.Pairs.{is_ssl, lower_key, extract_ssl_params-IsExtracted}
use pg_maintainer.Dsn.Parse.{
  ParsedDsn, DriverConfig, set_ssl, set_all, dsn_fields, on_config, parse_trimmed, parse,
}

sslmode_names :
    (l : Text)
    → ((text_eq l (codes "disable") ≡ true) ↔ (l ≡ codes "disable"))
      × ((text_eq l (codes "require") ≡ true) ↔ (l ≡ codes "require"))
      × ((text_eq l (codes "verify-ca") ≡ true) ↔ (l ≡ codes "verify-ca"))
      × ((text_eq l (codes "verify-full") ≡ true) ↔ (l ≡ codes "verify-full"))
sslmode_names l = (text_eq_iff l _, text_eq_iff l _, text_eq_iff l _, text_eq_iff l _)

-- The value names a mode exactly when its ASCII lower case is what the mode prints.
pub map_sslmode_iff :
    (v : Text) (m : SslMode)
    → (map_sslmode v ≡ done m) ↔ (to_ascii_lowercase v ≡ display_ssl_mode m)
unfolding map_sslmode display_ssl_mode
map_sslmode_iff v disable = ground (arith, sslmode_names (to_ascii_lowercase v))
map_sslmode_iff v require = ground (arith, sslmode_names (to_ascii_lowercase v))
map_sslmode_iff v verify_ca = ground (arith, sslmode_names (to_ascii_lowercase v))
map_sslmode_iff v verify_full = ground (arith, sslmode_names (to_ascii_lowercase v))

-- The value prints as a mode does, but for its ASCII letter case.
abbrev pub IsMode : Text → Type 0
IsMode v = (m : SslMode) × (to_ascii_lowercase v ≡ display_ssl_mode m)

-- Where the key is `sslmode`, the value names a mode.
abbrev IsSupported : Text × Text → Type 0
IsSupported p = text_eq p.0 (codes "sslmode") ≡ true → IsMode p.1

set_ssl_mode :
    (key v : Text) (before : ParsedDsn)
    → text_eq key (codes "sslmode") ≡ true
    → set_ssl key v before ≡ and_then (map_sslmode v) λ m. done (record before { sslmode = some m })
unfolding set_ssl
set_ssl_mode key v before e = rw (set_ssl, e) refl

set_ssl-IsSupported :
    (p : Text × Text) (before after : ParsedDsn)
    → set_ssl p.0 p.1 before ≡ done after
    → IsSupported p
set_ssl-IsSupported p before after h e =
    let (m, mapped, _) =
      and_then_done (map_sslmode p.1) (λ m. done (record before { sslmode = some m })) after
        (sym (set_ssl_mode p.0 p.1 before e) ∙ h) in
    (m, (map_sslmode_iff p.1 m).0 mapped)

set_all-IsSupported :
    (ps : List (Text × Text)) (before after : ParsedDsn)
    → set_all ps before ≡ done after
    → All IsSupported ps
unfolding set_all
set_all-IsSupported [] before after h = tt
set_all-IsSupported (p ∷ ps) before after h =
    let (between, first, later) = and_then_done (set_ssl p.0 p.1 before) (set_all ps) after h in
    (set_ssl-IsSupported p before between first, set_all-IsSupported ps between after later)

on_config-IsSupported :
    (t : Text) (split : SplitDsn) (cfg : Option DriverConfig) (parsed : ParsedDsn)
    → on_config t split cfg ≡ done parsed
    → All IsSupported split.ssl
unfolding on_config
on_config-IsSupported t split none parsed h = ground arith
on_config-IsSupported t split (some cfg) parsed h = elim (Bool-cases (ltb 1 (length cfg.hosts))) [
  | inl many ↦ ground (arith, many, h)
  | inr one ↦ set_all-IsSupported split.ssl (dsn_fields t split cfg) parsed (ground (arith, one, h))
]

is_ssl_mode :
    (p : Text × Text) → text_eq (to_ascii_lowercase p.0) (codes "sslmode") ≡ true → is_ssl p ≡ true
unfolding text_mem
is_ssl_mode p e =
    let key = to_ascii_lowercase p.0 in
    ground (arith, e, text_eq_iff key (codes "sslmode"), text_eq_iff (codes "sslmode") key)

-- of the whole string, with keys in any letter case
from_taken :
    (ps : List (Text × Text))
    → All IsSupported (map lower_key (filter_by is_ssl ps))
    → All (λ p. IsSupported (lower_key p)) ps
from_taken [] h = tt
from_taken (p ∷ ps) h = go (is_ssl p) refl (from_taken ps) h
  where
    go :
        (b : Bool)
        → is_ssl p ≡ b
        → (All IsSupported (map lower_key (filter_by is_ssl ps))
            → All (λ q. IsSupported (lower_key q)) ps)
        → All IsSupported
            (map lower_key (if b then p ∷ filter_by is_ssl ps else filter_by is_ssl ps))
        → All (λ q. IsSupported (lower_key q)) (p ∷ ps)
    go true e ih (hp, h) = (hp, ih h)
    go false e ih h = (λ mode. ground (arith, e, is_ssl_mode p mode), ih h)

parse_trimmed-extract :
    (utf8 : Utf8) (from_str : Text → Option DriverConfig) (t : Text) (parsed : ParsedDsn)
    → parse_trimmed utf8 from_str t ≡ done parsed
    → (split : SplitDsn) × (extract_ssl_params utf8 t ≡ done split)
      × (on_config t split (from_str split.rest) ≡ done parsed)
unfolding parse_trimmed
parse_trimmed-extract utf8 from_str t parsed h =
    and_then_done (extract_ssl_params utf8 t) (λ split. on_config t split (from_str split.rest))
      parsed (ground (arith, h))

-- When a keyword string that reads as pairs is accepted, each of its pairs whose key is, in any letter
-- case, `sslmode` has a value that prints as an SSL mode does, but for its letter case: neither `prefer`
-- nor `allow` is taken for another mode, and no earlier `sslmode` is passed over unread.
pub parse-IsSupported :
    (utf8 : Utf8) (from_str : Text → Option DriverConfig) (raw : Text)
    → (ps : List (Text × Text)) (parsed : ParsedDsn) → is_uri (trim raw) ≡ false
    → split_keyword_pairs (trim raw) ≡ found ps
    → parse utf8 from_str raw ≡ done parsed
    → All (λ p. text_eq (to_ascii_lowercase p.0) (codes "sslmode") ≡ true → IsMode p.1) ps
unfolding parse
parse-IsSupported utf8 from_str raw ps parsed form pairs h =
    let (split, e, accepted) = parse_trimmed-extract utf8 from_str (trim raw) parsed h in
    let (s, d, extracted) = extract_ssl_params-IsExtracted utf8 (trim raw) ps form pairs in
    let supported = on_config-IsSupported (trim raw) split (from_str split.rest) parsed accepted in
    let same : split ≡ s = ground (arith, e, d) in
    from_taken ps (
      subst (λ l. All IsSupported l) extracted.taken
        (subst (λ r. All IsSupported r.ssl) same supported))
