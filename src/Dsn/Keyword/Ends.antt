-- ===== src/Dsn/Keyword/Ends.antt =====
-- Lemmas on the loop of split_keyword_pairs, src/dsn.rs.
use pg_maintainer.Prelude.{
  ◌≡◌, refl, ℕ, zero, suc, ◌+◌, ◌≤◌, ◌<◌, Bool, on_if, true, false, [], ◌∷◌, Option, none, some,
  Text, ◌==◌, is_empty, if◌then◌else◌, length, arith,
}
use pg_maintainer.Types.Explicit.{trim_start}
use pg_maintainer.Dsn.Keyword.{
  empty_name, out_of_fuel, KeywordPairs, found, malformed, Next, finished, pair, bad, split_key,
  push_quoted, quoted_value, unquoted_value, split_value, on_value, value_of, next_pair, push_pair,
  split_from, split_keyword_pairs,
}

length-trim_start : (s : Text) → length (trim_start s) ≤ length s
unfolding trim_start
length-trim_start [] = omega arith
length-trim_start (c ∷ s) = let ih = length-trim_start s in ground arith

length-split_key : (s : Text) → length (split_key s).0 + length (split_key s).1 ≡ length s
unfolding split_key
length-split_key [] = refl
length-split_key (c ∷ s) = let ih = length-split_key s in ground arith

-- What is left of `s` is no longer than it.
Within : Text → Option (Text × Text) → Type 0
Within s none = Unit
Within s (some r) = length r.1 ≤ length s

push_quoted-Within :
    (c : ℕ) (s t : Text) (r : Option (Text × Text))
    → length t ≤ length s
    → Within t r
    → Within s (push_quoted c r)
unfolding Within push_quoted
push_quoted-Within c s t none h w = tt
push_quoted-Within c s t (some r) h w = omega (arith, h, w)

quoted_value-Within : (s : Text) → Within s (quoted_value s)
unfolding quoted_value Within
quoted_value-Within [] = tt
quoted_value-Within (c ∷ []) = ground arith
quoted_value-Within (c ∷ d ∷ s) =
    go (quoted_value s) (quoted_value (d ∷ s)) (c == b'\\') (c == b'\'') (quoted_value-Within s)
      (quoted_value-Within (d ∷ s))
  where
    go :
        (later next : Option (Text × Text)) (escape quote : Bool)
        → Within s later
        → Within (d ∷ s) next
        → Within (c ∷ d ∷ s) (elim escape [
          | true ↦ push_quoted d later
          | false ↦ elim quote [ true ↦ some ([], d ∷ s) | false ↦ push_quoted c next ]
        ])
    go later next true quote hl hn = push_quoted-Within d (c ∷ d ∷ s) s later (omega arith) hl
    go later next false true hl hn = omega arith
    go later next false false hl hn = push_quoted-Within c (c ∷ d ∷ s) (d ∷ s) next (omega arith) hn

length-unquoted_value : (s : Text) → length (unquoted_value s).1 ≤ length s
unfolding unquoted_value
length-unquoted_value [] = omega arith
length-unquoted_value (c ∷ []) = ground arith
length-unquoted_value (c ∷ d ∷ s) =
    let a = length-unquoted_value s in let b = length-unquoted_value (d ∷ s) in ground arith

split_value-Within : (s : Text) → Within s (split_value s)
unfolding split_value Within
split_value-Within [] = omega arith
split_value-Within (c ∷ s) =
    let a = quoted_value-Within s in
    let b = length-unquoted_value (c ∷ s) in go (c == b'\'') (quoted_value s) a
  where
    go :
        (b : Bool) (r : Option (Text × Text))
        → Within s r
        → Within (c ∷ s) (if b then r else some (unquoted_value (c ∷ s)))
    go true none h = tt
    go true (some r) h = omega (arith, h)
    go false r h = length-unquoted_value (c ∷ s)

-- A round that finds a pair leaves less than `s`, and no round runs out.
Shorter : ℕ → Next → Type 0
Shorter n finished = Unit
Shorter n (pair key value rest) = length rest < n
Shorter n (bad e) = ¬ (e ≡ out_of_fuel)

on_value-Shorter :
    (n : ℕ) (key s : Text) (r : Option (Text × Text))
    → length s < n
    → Within s r
    → Shorter n (on_value key r)
unfolding on_value Shorter Within
on_value-Shorter n key s none h w = ground arith
on_value-Shorter n key s (some r) h w = omega (arith, h, w)

value_of-Shorter : (n : ℕ) (key s : Text) → length s ≤ n → Shorter n (value_of key s)
unfolding value_of Shorter
value_of-Shorter n key [] h = ground arith
value_of-Shorter n key (c ∷ s) h =
    on_if (Shorter n) (c == b'=') _ _
      (λ eq.
        on_value-Shorter n key (trim_start s) (split_value (trim_start s))
          (omega (arith, h, length-trim_start s)) (split_value-Within (trim_start s)))
      (ground arith)

next_pair-Shorter : (s : Text) → Shorter (length s) (next_pair s)
unfolding next_pair Shorter is_empty
next_pair-Shorter [] = tt
next_pair-Shorter (c ∷ s) = go (split_key (c ∷ s)) (length-split_key (c ∷ s))
  where
    go :
        (r : Text × Text)
        → length r.0 + length r.1 ≡ suc (length s)
        → Shorter
            (suc (length s))
            (if is_empty r.0 then bad empty_name else value_of r.0 (trim_start r.1))
    go ([], rest) h = ground arith
    go (k ∷ key, rest) h =
        value_of-Shorter (suc (length s)) (k ∷ key) (trim_start rest)
          (omega (arith, h, length-trim_start rest))

push_pair-Ends :
    (key value : Text) (r : KeywordPairs)
    → ¬ (r ≡ malformed out_of_fuel)
    → ¬ (push_pair key value r ≡ malformed out_of_fuel)
unfolding push_pair
push_pair-Ends key value (found ps) h = ground arith
push_pair-Ends key value (malformed e) h = h

split_from-Ends : (n : ℕ) (s : Text) → length s < n → ¬ (split_from n s ≡ malformed out_of_fuel)
unfolding split_from Shorter
split_from-Ends zero s h = omega (arith, h)
split_from-Ends (suc n) s h =
    go (split_from-Ends n) (next_pair (trim_start s)) (next_pair-Shorter (trim_start s))
  where
    go :
        ((t : Text) → length t < n → ¬ (split_from n t ≡ malformed out_of_fuel))
        → (r : Next) → Shorter (length (trim_start s)) r
        → ¬ (
            (elim r as (λ q. KeywordPairs) [
              | finished ↦ found []
              | pair key value rest ↦ push_pair key value (split_from n rest)
              | bad e ↦ malformed e
            ])
            ≡ malformed out_of_fuel)
    go ih finished w = ground arith
    go ih (pair key value rest) w =
        push_pair-Ends key value (split_from n rest)
          (ih rest (omega (arith, h, w, length-trim_start s)))
    go ih (bad e) w = ground arith

-- Splitting a keyword string always comes to an end, with pairs or with one of the source's errors:
-- the rounds of the model never run out.
pub split_keyword_pairs_ends : (s : Text) → ¬ (split_keyword_pairs s ≡ malformed out_of_fuel)
unfolding split_keyword_pairs
split_keyword_pairs_ends s = split_from-Ends (suc (length s)) s (omega arith)
