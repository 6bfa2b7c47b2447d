-- ===== src/Dsn/Redact/Uris.antt =====
-- Lemmas on redact of src/dsn.rs for URIs.
use pg_maintainer.Prelude.{
  ◌≡◌, refl, ℕ, Bool-cases, true, false, [], ◌∷◌, ◌++◌, append_assoc, ◌||◌, inl, inr, none, some,
  Text, ◌==◌, ==_iff, arith,
}
use pg_maintainer.Types.Explicit.{trim}
use pg_maintainer.Dsn.Uri.{
  strip_prefix, contains, rsplit_once, replace_first, is_uri, uri_authority,
}
use pg_maintainer.Dsn.Uri.Authority.{
  IsClean, IsTail, IsScheme, uri_text, contains-append, split_once-append, rsplit_once-append,
  is_uri_lem, uri_authority_lem,
}
use pg_maintainer.Dsn.Redact.{mask, on_userinfo, on_authority, redact_trimmed, redact}

-- `{user}:{password}@{host}`
abbrev pub authority_text : Text → Text → Text → Text
authority_text user password host = (user ++ b':' ∷ password) ++ b'@' ∷ host

strip_prefix-append : (p s : Text) → strip_prefix p (p ++ s) ≡ some s
unfolding strip_prefix
strip_prefix-append [] s = refl
strip_prefix-append (c ∷ p) s = rw ((==_iff c c).1 refl, strip_prefix-append p s) refl

replace_first-here :
    (from to s rest : Text) → strip_prefix from s ≡ some rest → replace_first from to s ≡ to ++ rest
unfolding replace_first
replace_first-here from to [] rest h = rw (replace_first, h) refl
replace_first-here from to (c ∷ s) rest h = rw (replace_first, h) refl

-- An `@` without a `/` before it is no prefix of a text with a `/` and no `@` before that.
strip_prefix-none :
    (p w s : Text)
    → contains b'@' p ≡ true
    → contains b'/' p ≡ false
    → contains b'@' w ≡ false
    → strip_prefix p (w ++ b'/' ∷ s) ≡ none
unfolding strip_prefix contains
strip_prefix-none [] w s at clean before = ground arith
strip_prefix-none (c ∷ p) [] s at clean before =
    let apart : (c == b'/') ≡ false = ground arith in rw apart refl
strip_prefix-none (c ∷ p) (d ∷ w) s at clean before = elim (Bool-cases (c == d)) [
  | inl same ↦
      let parts : (contains b'@' p ≡ true) × (contains b'/' p ≡ false) × (contains b'@' w ≡ false) =
        ground (arith, ==_iff c d) in
      rw (same, strip_prefix-none p w s parts.0 parts.1 parts.2) refl
  | inr apart ↦ rw apart refl
]

replace_first-past :
    (p to w s : Text)
    → contains b'@' p ≡ true
    → contains b'/' p ≡ false
    → contains b'@' w ≡ false
    → replace_first p to (w ++ b'/' ∷ s) ≡ w ++ b'/' ∷ replace_first p to s
unfolding replace_first contains
replace_first-past p to [] s at clean before =
    rw (replace_first, strip_prefix-none p [] s at clean before) refl
replace_first-past p to (d ∷ w) s at clean before =
    let later : contains b'@' w ≡ false = ground arith in
    rw
      (
        replace_first,
        strip_prefix-none p (d ∷ w) s at clean before,
        replace_first-past p to w s at clean later,
      )
      refl

IsScheme-contains : (scheme : Text) → IsScheme scheme → contains b'@' scheme ≡ false
unfolding contains
IsScheme-contains scheme (inl e) = rw e refl
IsScheme-contains scheme (inr e) = rw e refl

replace_first-authority :
    (scheme p to tail : Text)
    → IsScheme scheme
    → contains b'@' p ≡ true
    → contains b'/' p ≡ false
    → replace_first p to (uri_text scheme p tail) ≡ uri_text scheme to tail
unfolding contains
replace_first-authority scheme p to tail known at clean =
    rw
      (
        replace_first-past p to scheme (b'/' ∷ (p ++ tail)) at clean
            (IsScheme-contains scheme known),
        replace_first-past p to [] (p ++ tail) at clean refl,
        replace_first-here p to (p ++ tail) tail (strip_prefix-append p tail),
      )
      refl

contains-authority_text :
    (a : ℕ) (user password host : Text)
    → contains a (authority_text user password host)
      ≡ ((contains a user || (b':' == a || contains a password)) || (b'@' == a || contains a host))
unfolding contains
contains-authority_text a user password host =
    rw
      (
        contains-append a (user ++ b':' ∷ password) (b'@' ∷ host),
        contains-append a user (b':' ∷ password),
      )
      refl

on_authority_lem :
    (trimmed user password host : Text)
    → contains b':' user ≡ false
    → contains b'@' host ≡ false
    → on_authority trimmed
        (authority_text user password host)
        (rsplit_once b'@' (authority_text user password host))
      ≡ replace_first (authority_text user password host) (authority_text user mask host) trimmed
unfolding on_authority on_userinfo
on_authority_lem trimmed user password host no_colon no_at =
    rw
      (
        rsplit_once-append b'@' (user ++ b':' ∷ password) host no_at,
        split_once-append b':' user password no_colon,
        append_assoc user (b':' ∷ mask) (b'@' ∷ host),
      )
      refl

redact_trimmed_uri :
    (t : Text)
    → is_uri t ≡ true
    → redact_trimmed t ≡ on_authority t (uri_authority t) (rsplit_once b'@' (uri_authority t))
unfolding redact_trimmed
redact_trimmed_uri t form = rw (redact_trimmed, form) refl

-- Of a URI with a user and a password, where the password holds neither `/` nor `?`, redact gives the
-- URI with `***` in place of the password, whatever else the password holds: `:` and `@` included.
pub redact-uri_text :
    (raw scheme user password host tail : Text)
    → trim raw ≡ uri_text scheme (authority_text user password host) tail
    → IsScheme scheme
    → IsClean user × (contains b':' user ≡ false)
    → IsClean password
    → IsClean host × (contains b'@' host ≡ false)
    → IsTail tail
    → redact raw ≡ uri_text scheme (authority_text user mask host) tail
unfolding redact
redact-uri_text raw scheme user password host tail e known (hu, no_colon) hp (hh, no_at) ends =
    let authority = authority_text user password host in
    let clean : IsClean authority = ground (
      arith,
      contains-authority_text b'/' user password host,
      contains-authority_text b'?' user password host,
    ) in
    let at : contains b'@' authority ≡ true =
      ground (arith, contains-authority_text b'@' user password host) in
    rw
      (
        e,
        redact_trimmed_uri (uri_text scheme authority tail)
            (is_uri_lem scheme (authority ++ tail) known),
        uri_authority_lem scheme authority tail known clean ends,
        on_authority_lem (uri_text scheme authority tail) user password host no_colon no_at,
      )
      (replace_first-authority scheme authority (authority_text user mask host) tail known at
        clean.0)
