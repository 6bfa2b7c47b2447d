-- ===== src/Cli/Load/Variable.antt =====
-- Lemmas on the values of a configuration file that name a variable, src/main.rs.
use pg_maintainer.Prelude.{
  ◌≡◌, refl, ap, ◌↔◌, ℕ, Bool-cases, [], ◌∷◌, ◌++◌, inl, inr, Option, none, some, Text, codes, ◌==◌,
  ==_iff, is_empty, arith,
}
use pg_maintainer.Dsn.Uri.{strip_prefix}
use pg_maintainer.Cli.Load.{strip_suffix, variable_name, interpolate, resolve_env_interpolation}

strip_suffix-append : (a : ℕ) (s : Text) → strip_suffix a (s ++ a ∷ []) ≡ some s
unfolding strip_suffix is_empty
strip_suffix-append a [] = rw ((==_iff a a).1 refl) refl
strip_suffix-append a (c ∷ []) = rw ((==_iff a a).1 refl) refl
strip_suffix-append a (c ∷ d ∷ s) = rw (strip_suffix-append a (d ∷ s)) refl

-- What was taken off was there.
Ends : ℕ → Text → Option Text → Type 0
Ends a s none = Unit
Ends a s (some t) = s ≡ t ++ a ∷ []

strip_suffix-Ends : (a : ℕ) (s : Text) → Ends a s (strip_suffix a s)
unfolding strip_suffix is_empty Ends
strip_suffix-Ends a [] = tt
strip_suffix-Ends a (c ∷ []) = elim (Bool-cases (c == a)) [
  | inl same ↦ rw same (ap (λ k. k ∷ []) ((==_iff c a).0 same))
  | inr apart ↦ rw apart tt
]
strip_suffix-Ends a (c ∷ d ∷ s) = go (strip_suffix a (d ∷ s)) (strip_suffix-Ends a (d ∷ s))
  where
    go :
        (o : Option Text)
        → Ends a (d ∷ s) o
        → Ends a (c ∷ d ∷ s) (elim o as (λ q. Option Text) [ none ↦ none | some t ↦ some (c ∷ t) ])
    go none h = tt
    go (some t) h = ap (λ u. c ∷ u) h

-- What was taken off the front was there.
Starts : Text → Text → Option Text → Type 0
Starts p s none = Unit
Starts p s (some t) = s ≡ p ++ t

strip_prefix-Starts : (p s : Text) → Starts p s (strip_prefix p s)
unfolding strip_prefix Starts
strip_prefix-Starts [] s = refl
strip_prefix-Starts (c ∷ p) [] = tt
strip_prefix-Starts (c ∷ p) (d ∷ s) = elim (Bool-cases (c == d)) [
  | inl same ↦ rw same (go (strip_prefix p s) (strip_prefix-Starts p s) ((==_iff c d).0 same))
  | inr apart ↦ rw apart tt
]
  where
    go : (o : Option Text) → Starts p s o → c ≡ d → Starts (c ∷ p) (d ∷ s) o
    go none h same = tt
    go (some t) h same = rw (same, h) refl

-- A value names the variable `name` exactly when it is `${name}`, whatever the name holds.
variable_name_iff :
    (v name : Text) → (variable_name v ≡ some name) ↔ (v ≡ codes "${" ++ (name ++ b'}' ∷ []))
unfolding variable_name strip_prefix Starts Ends
variable_name_iff v name = (
  go (strip_prefix (codes "${") v) (strip_prefix-Starts (codes "${") v),
  λ is. rw (is, strip_suffix-append b'}' name) refl,
)
  where
    inner :
        (s : Text)
        → (o : Option Text) → Ends b'}' s o
        → v ≡ codes "${" ++ s
        → o ≡ some name
        → v ≡ codes "${" ++ (name ++ b'}' ∷ [])
    inner s none h is named = grind arith
    inner s (some t) h is named = cc

    go :
        (o : Option Text)
        → Starts (codes "${") v o
        → elim o as (λ q. Option Text) [ none ↦ none | some s ↦ strip_suffix b'}' s ] ≡ some name
        → v ≡ codes "${" ++ (name ++ b'}' ∷ [])
    go none h named = grind arith
    go (some s) h named = inner s (strip_suffix b'}' s) (strip_suffix-Ends b'}' s) h named

-- `${name}`
abbrev pub reference : Text → Text
reference name = codes "${" ++ (name ++ b'}' ∷ [])

-- A value names the variable `name` exactly when it is `${name}`, whatever characters the name
-- holds, and `${name}` resolves to what the environment has under that name: to no value at all
-- where the variable is unset.
pub reference_iff :
    (env : Text → Option Text)
    → (v name : Text)
    → ((variable_name v ≡ some name) ↔ (v ≡ reference name))
      × (resolve_env_interpolation env (some (reference name)) ≡ env name)
unfolding resolve_env_interpolation interpolate
reference_iff env v name = (
  variable_name_iff v name,
  ap (λ o. elim o as (λ q. Option Text) [ none ↦ some (reference name) | some n ↦ env n ])
      ((variable_name_iff (reference name) name).1 refl),
)
