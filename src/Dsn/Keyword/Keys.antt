-- ===== src/Dsn/Keyword/Keys.antt =====
-- Lemmas on the keys that split_keyword_pairs finds, src/dsn.rs.
use pg_maintainer.Prelude.{
  ◌≡◌, refl, ℕ, zero, suc, on_if, false, List, [], ◌∷◌, ◌||◌, Option, none, some, Text, ◌==◌,
  is_empty, if◌then◌else◌, All, length,
}
use mathlib.Core.Path.{subst}
use pg_maintainer.Types.Explicit.{is_whitespace, trim_start}
use pg_maintainer.Dsn.Keyword.{
  KeywordPairs, found, malformed, empty_name, Next, finished, pair, bad, split_key, split_value,
  on_value, value_of, next_pair, push_pair, split_from, split_keyword_pairs,
}
use pg_maintainer.Dsn.Keyword.Roundtrip.{IsKey}

KeyOf : Text × Text → Type 0
KeyOf r = All (λ c. (c == b'=' || is_whitespace c) ≡ false) r.0

split_key-KeyOf : (s : Text) → KeyOf (split_key s)
unfolding split_key KeyOf
split_key-KeyOf [] = tt
split_key-KeyOf (c ∷ s) =
    on_if KeyOf (c == b'=' || is_whitespace c) _ _ (λ stop. tt) λ more. (more, split_key-KeyOf s)

HasKey : Next → Type 0
HasKey finished = Unit
HasKey (pair key value rest) = IsKey key
HasKey (bad e) = Unit

on_value-HasKey : (key : Text) (r : Option (Text × Text)) → IsKey key → HasKey (on_value key r)
unfolding on_value HasKey
on_value-HasKey key none h = tt
on_value-HasKey key (some r) h = h

value_of-HasKey : (key s : Text) → IsKey key → HasKey (value_of key s)
unfolding value_of HasKey
value_of-HasKey key [] h = tt
value_of-HasKey key (c ∷ s) h =
    on_if HasKey (c == b'=') _ _ (λ eq. on_value-HasKey key (split_value (trim_start s)) h)
      λ none. tt

next_pair-HasKey : (s : Text) → HasKey (next_pair s)
unfolding next_pair HasKey KeyOf is_empty
next_pair-HasKey [] = tt
next_pair-HasKey (c ∷ s) = go (split_key (c ∷ s)) (split_key-KeyOf (c ∷ s))
  where
    go :
        (r : Text × Text)
        → KeyOf r
        → HasKey (if is_empty r.0 then bad empty_name else value_of r.0 (trim_start r.1))
    go ([], rest) h = tt
    go (k ∷ key, rest) h = value_of-HasKey (k ∷ key) (trim_start rest) (refl, h)

HasKeys : KeywordPairs → Type 0
HasKeys (found ps) = All (λ p. IsKey p.0) ps
HasKeys (malformed e) = Unit

push_pair-HasKeys :
    (key value : Text) (r : KeywordPairs) → IsKey key → HasKeys r → HasKeys (push_pair key value r)
unfolding push_pair HasKeys
push_pair-HasKeys key value (found ps) h hs = (h, hs)
push_pair-HasKeys key value (malformed e) h hs = tt

split_from-HasKeys : (n : ℕ) (s : Text) → HasKeys (split_from n s)
unfolding split_from HasKeys HasKey
split_from-HasKeys zero s = tt
split_from-HasKeys (suc n) s =
    go (split_from-HasKeys n) (next_pair (trim_start s)) (next_pair-HasKey (trim_start s))
  where
    go :
        ((t : Text) → HasKeys (split_from n t))
        → (r : Next) → HasKey r
        → HasKeys (elim r as (λ q. KeywordPairs) [
          | finished ↦ found []
          | pair key value rest ↦ push_pair key value (split_from n rest)
          | bad e ↦ malformed e
        ])
    go ih finished h = tt
    go ih (pair key value rest) h = push_pair-HasKeys key value _ h (ih rest)
    go ih (bad e) h = tt

pub split_keyword_pairs-IsKey :
    (s : Text) (ps : List (Text × Text))
    → split_keyword_pairs s ≡ found ps
    → All (λ p. IsKey p.0) ps
unfolding split_keyword_pairs HasKeys
split_keyword_pairs-IsKey s ps h = subst HasKeys h (split_from-HasKeys (suc (length s)) s)
