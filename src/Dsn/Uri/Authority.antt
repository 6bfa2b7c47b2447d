-- ===== src/Dsn/Uri/Authority.antt =====
-- Lemmas on the parts of a URI, src/dsn.rs.
use pg_maintainer.Prelude.{
  ◌≡◌, refl, ℕ, true, false, [], ◌∷◌, ◌++◌, ◌||◌, ◌⊎◌, inl, inr, none, some, Text, ◌==◌, codes,
  arith, to_ascii_lowercase,
}
use pg_maintainer.Dsn.Uri.{
  strip_prefix, starts_with, contains, split_once, rsplit_once, is_uri, after_scheme, until_path,
  uri_authority,
}

-- a text that neither starts a path nor a query
abbrev pub IsClean : Text → Type 0
IsClean s = (contains b'/' s ≡ false) × (contains b'?' s ≡ false)

-- what may follow an authority
abbrev pub IsTail : Text → Type 0
IsTail [] = Unit
IsTail (c ∷ s) = (c == b'/' || c == b'?') ≡ true

abbrev pub IsScheme : Text → Type 0
IsScheme scheme = (scheme ≡ codes "postgres:") ⊎ (scheme ≡ codes "postgresql:")

-- `{scheme}//{authority}{tail}`
abbrev pub uri_text : Text → Text → Text → Text
uri_text scheme authority tail = scheme ++ b'/' ∷ b'/' ∷ (authority ++ tail)

pub contains-append : (a : ℕ) (s t : Text) → contains a (s ++ t) ≡ (contains a s || contains a t)
unfolding contains
contains-append a [] t = refl
contains-append a (c ∷ s) t = let ih = contains-append a s t in ground arith

pub split_once-append :
    (a : ℕ) (s t : Text) → contains a s ≡ false → split_once a (s ++ a ∷ t) ≡ some (s, t)
unfolding split_once contains
split_once-append a [] t h = ground arith
split_once-append a (c ∷ s) t h =
    let ih = split_once-append a s t in
    let parts : ((c == a) ≡ false) × (contains a s ≡ false) = ground arith in
    rw (parts.0, ih parts.1) refl

pub rsplit_once-none : (a : ℕ) (s : Text) → contains a s ≡ false → rsplit_once a s ≡ none
unfolding rsplit_once contains
rsplit_once-none a [] h = refl
rsplit_once-none a (c ∷ s) h =
    let parts : ((c == a) ≡ false) × (contains a s ≡ false) = ground arith in
    rw (rsplit_once-none a s parts.1, parts.0) refl

pub rsplit_once-append :
    (a : ℕ) (s t : Text) → contains a t ≡ false → rsplit_once a (s ++ a ∷ t) ≡ some (s, t)
unfolding rsplit_once
rsplit_once-append a [] t h = rw (rsplit_once-none a t h) (ground arith)
rsplit_once-append a (c ∷ s) t h = rw (rsplit_once-append a s t h) refl

until_path-append : (s tail : Text) → IsClean s → IsTail tail → until_path (s ++ tail) ≡ s
unfolding until_path contains
until_path-append [] [] h ends = refl
until_path-append [] (c ∷ tail) h ends = rw ends refl
until_path-append (c ∷ s) tail (path, query) ends =
    let plain : (c == b'/' || c == b'?') ≡ false = ground arith in
    let clean : IsClean s = ground arith in rw (plain, until_path-append s tail clean ends) refl

pub is_uri_lem :
    (scheme rest : Text) → IsScheme scheme → is_uri (scheme ++ b'/' ∷ b'/' ∷ rest) ≡ true
unfolding is_uri starts_with strip_prefix to_ascii_lowercase
is_uri_lem scheme rest (inl e) = rw e refl
is_uri_lem scheme rest (inr e) = rw e refl

pub uri_authority_lem :
    (scheme authority tail : Text)
    → IsScheme scheme
    → IsClean authority
    → IsTail tail
    → uri_authority (uri_text scheme authority tail) ≡ authority
unfolding uri_authority after_scheme strip_prefix
uri_authority_lem scheme authority tail (inl e) h ends =
    rw e (until_path-append authority tail h ends)
uri_authority_lem scheme authority tail (inr e) h ends =
    rw e (until_path-append authority tail h ends)
