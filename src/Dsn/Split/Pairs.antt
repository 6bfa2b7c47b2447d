-- ===== src/Dsn/Split/Pairs.antt =====
-- Lemmas on extract_ssl_params of src/dsn.rs for keyword strings.
use pg_maintainer.Prelude.{
  ◌≡◌, refl, Bool, Bool-cases, false, not, List, [], ◌∷◌, inl, inr, Text, codes, map, join, All,
  to_ascii_lowercase, text_mem, filter_by, done,
}
use pg_maintainer.Dsn.Keyword.{found, split_keyword_pairs}
use pg_maintainer.Dsn.Keyword.Escape.{escaped_pair}
use pg_maintainer.Dsn.Keyword.Roundtrip.{IsKey, split_keyword_pairs-escaped_pair}
use pg_maintainer.Dsn.Keyword.Keys.{split_keyword_pairs-IsKey}
use pg_maintainer.Dsn.Uri.{is_uri, Utf8}
use pg_maintainer.Dsn.Split.{
  ssl_params, SplitDsn, no_parts, add_ssl, add_kept, keyword_parts, on_pairs, extract_ssl_params,
}

-- A pair whose key is one of SSL_PARAMS.
abbrev pub is_ssl : Text × Text → Bool
is_ssl p = text_mem (to_ascii_lowercase p.0) ssl_params

abbrev pub lower_key : Text × Text → Text × Text
lower_key p = (to_ascii_lowercase p.0, p.1)

abbrev pub others : List (Text × Text) → List (Text × Text)
others = filter_by λ p. not (is_ssl p)

-- the loop, as maps and filters
keyword_parts_lem :
    (ps : List (Text × Text))
    → keyword_parts ps ≡ record {
      ssl = map lower_key (filter_by is_ssl ps);
      kept = map escaped_pair (others ps);
      other_keys = map (λ p. to_ascii_lowercase p.0) (others ps);
    }
unfolding keyword_parts no_parts add_ssl add_kept
keyword_parts_lem [] = refl
keyword_parts_lem (p ∷ ps) = elim (Bool-cases (is_ssl p)) [
  | inl ssl ↦ rw (ssl, keyword_parts_lem ps) refl
  | inr other ↦ rw (other, keyword_parts_lem ps) refl
]

others-IsKey :
    (ps : List (Text × Text)) → All (λ p. IsKey p.0) ps → All (λ p. IsKey p.0) (others ps)
others-IsKey [] h = tt
others-IsKey (p ∷ ps) (hp, h) = elim (Bool-cases (is_ssl p)) [
  | inl ssl ↦ rw ssl (others-IsKey ps h)
  | inr other ↦ rw other (hp, others-IsKey ps h)
]

-- What is left of the string for the driver, and what is taken of it.
pub record IsExtracted (ps : List (Text × Text)) (s : SplitDsn) : Type 0 where
  pub taken : s.ssl ≡ map lower_key (filter_by is_ssl ps)
  pub left : split_keyword_pairs s.rest ≡ found (others ps)
  pub reported : s.other_keys ≡ map (λ p. to_ascii_lowercase p.0) (others ps)

extracted : List (Text × Text) → SplitDsn
extracted ps = record {
  ssl = map lower_key (filter_by is_ssl ps);
  rest = join (codes " ") (map escaped_pair (others ps));
  other_keys = map (λ p. to_ascii_lowercase p.0) (others ps);
}

on_pairs_lem : (ps : List (Text × Text)) → on_pairs (found ps) ≡ done (extracted ps)
unfolding on_pairs extracted
on_pairs_lem ps = rw (keyword_parts_lem ps) refl

-- Where a keyword string reads as pairs, extract_ssl_params gives the pairs whose key is, in any
-- letter case, one of the four SSL parameters, with the keys in lower case, and the string for the
-- driver reads as the other pairs, in their order and as they were.
pub extract_ssl_params-IsExtracted :
    (utf8 : Utf8) (raw : Text) (ps : List (Text × Text))
    → is_uri raw ≡ false
    → split_keyword_pairs raw ≡ found ps
    → (s : SplitDsn) × (extract_ssl_params utf8 raw ≡ done s) × IsExtracted ps s
unfolding extract_ssl_params extracted
extract_ssl_params-IsExtracted utf8 raw ps form h = (
  extracted ps,
  rw (extract_ssl_params, form, h) (on_pairs_lem ps),
  record {
    taken = refl;
    left =
        split_keyword_pairs-escaped_pair (others ps)
          (others-IsKey ps (split_keyword_pairs-IsKey raw ps h));
    reported = refl;
  },
)
