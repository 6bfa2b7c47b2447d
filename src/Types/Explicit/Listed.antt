-- ===== src/Types/Explicit/Listed.antt =====
-- Lemmas on ExplicitTable::parse_list of src/types.rs.
use pg_maintainer.Prelude.{
  ◌≡◌, refl, Bool-cases, on_if, false, List, [], ◌∷◌, ◌++◌, map, All, ◌==◌, Option, none, some, inl,
  inr, Text, is_empty, arith, if◌then◌else◌,
}
use mathlib.Core.Path.{subst}
use mathlib.Core.List.{Memᴰ}
use pg_maintainer.Types.Modes.{Parsed, ok, invalid}
use pg_maintainer.Types.Tables.{TableKey, key_eq, key_mem}
use pg_maintainer.Types.Tables.Keys.{key_eq_sym}
use pg_maintainer.Types.Explicit.{
  trim, split_once_dot, contains_dot, parse_parts, push_new, parse_from, parse_list,
}

-- `schema.table`
abbrev pub written : TableKey → Text
written t = t.schema ++ b'.' ∷ t.table

-- Both names are there and neither has a dot.
abbrev pub IsNamed : TableKey → Type 0
IsNamed t =
    (is_empty t.schema ≡ false)
    × (is_empty t.table ≡ false)
    × (contains_dot t.schema ≡ false)
    × (contains_dot t.table ≡ false)

abbrev pub AllDistinct : List TableKey → Type 0
AllDistinct [] = Unit
AllDistinct (t ∷ ts) = (key_mem t ts ≡ false) × AllDistinct ts

-- What the collected tables are, given all trimmed entries.
abbrev pub IsListed : List Text → List TableKey → Type 0
IsListed entries tables =
    All (λ t. IsNamed t × Memᴰ (written t) entries) tables × AllDistinct tables

Holds : (List TableKey → Type 0) → Parsed (List TableKey) → Type 0
Holds P (ok tables) = P tables
Holds P (invalid entry) = Unit

Split : Text → Option (Text × Text) → Type 0
Split s none = Unit
Split s (some (a, b)) = (s ≡ a ++ b'.' ∷ b) × (contains_dot a ≡ false)

split_once_dot-Split : (s : Text) → Split s (split_once_dot s)
unfolding split_once_dot contains_dot Split
split_once_dot-Split [] = tt
split_once_dot-Split (c ∷ s) = elim (Bool-cases (c == b'.')) [
  | inl dot ↦ ground (arith, dot)
  | inr plain ↦ go (split_once_dot s) (split_once_dot-Split s) plain
]
  where
    go :
        (r : Option (Text × Text))
        → Split s r
        → (c == b'.') ≡ false
        → Split (c ∷ s) (
            if c == b'.'
            then some ([], s)
            else elim r [ none ↦ none | some p ↦ some (c ∷ p.0, p.1) ])
    go none h plain = ground (arith, plain)
    go (some (a, b)) (e, free) plain = ground (arith, plain, e, free)

-- A candidate that is accepted is named as its entry says.
Named : Text → Parsed TableKey → Type 0
Named entry (ok t) = IsNamed t × (written t ≡ entry)
Named entry (invalid message) = Unit

parse_parts-Named :
    (entry : Text) (parts : Option (Text × Text))
    → Split entry parts
    → Named entry (parse_parts entry parts)
unfolding parse_parts Split Named
parse_parts-Named entry none split = tt
parse_parts-Named entry (some (schema, table)) (e, free) = ground (arith, e, free)

key_mem-snoc :
    (t c : TableKey) (ts : List TableKey)
    → key_mem t ts ≡ false
    → key_eq c t ≡ false
    → key_mem t (ts ++ c ∷ []) ≡ false
unfolding key_mem
key_mem-snoc t c [] fresh apart = ground (arith, apart)
key_mem-snoc t c (u ∷ us) fresh apart = let ih = key_mem-snoc t c us in ground (arith, fresh, apart)

key_mem-head :
    (c u : TableKey) (us : List TableKey)
    → key_mem c (u ∷ us) ≡ false
    → (key_eq u c ≡ false) × (key_mem c us ≡ false)
unfolding key_mem
key_mem-head c u us h = ground (arith, h)

AllDistinct-snoc :
    (c : TableKey) (ts : List TableKey)
    → key_mem c ts ≡ false
    → AllDistinct ts
    → AllDistinct (ts ++ c ∷ [])
unfolding key_mem
AllDistinct-snoc c [] fresh h = (refl, tt)
AllDistinct-snoc c (u ∷ us) fresh (hu, hus) =
    let apart = key_mem-head c u us fresh in
    (key_mem-snoc u c us hu (key_eq_sym u c apart.0), AllDistinct-snoc c us apart.1 hus)

All-snoc :
    (P : TableKey → Type 0) (c : TableKey) (ts : List TableKey)
    → All P ts
    → P c
    → All P (ts ++ c ∷ [])
All-snoc P c [] h hc = (hc, tt)
All-snoc P c (u ∷ us) (hu, h) hc = (hu, All-snoc P c us h hc)

push_new-IsListed :
    (entries : List Text) (out : List TableKey) (c : TableKey)
    → IsNamed c × Memᴰ (written c) entries
    → IsListed entries out
    → IsListed entries (push_new out c)
unfolding push_new
push_new-IsListed entries out c hc (named, distinct) =
    on_if (IsListed entries) (key_mem c out) _ _ (λ there. (named, distinct))
      λ fresh. (All-snoc _ c out named hc, AllDistinct-snoc c out fresh distinct)

module _ (entries : List Text) where
  parse_from-Holds :
      (out : List TableKey) (left : List Text)
      → ((e : Text) → Memᴰ e (map trim left) → Memᴰ e entries)
      → IsListed entries out
      → Holds (IsListed entries) (parse_from out left)
  unfolding parse_from Holds Named
  parse_from-Holds out [] inside h = h
  parse_from-Holds out (raw ∷ left) inside h =
      let later = λ (e : Text) (m : Memᴰ e (map trim left)). inside e (Memᴰ.tail m) in
      on_if (Holds (IsListed entries)) (is_empty (trim raw)) _ _
        (λ blank. parse_from-Holds out left later h)
        λ filled.
          on_parts (parse_parts (trim raw) (split_once_dot (trim raw)))
            (parse_parts-Named (trim raw) _ (split_once_dot-Split (trim raw)))
            (λ out' h'. parse_from-Holds out' left later h')
    where
      on_parts :
          (p : Parsed TableKey)
          → Named (trim raw) p
          → ((out' : List TableKey)
              → IsListed entries out'
              → Holds (IsListed entries) (parse_from out' left))
          → Holds (IsListed entries) (elim p as (λ q. Parsed (List TableKey)) [
            | ok candidate ↦ parse_from (push_new out candidate) left
            | invalid entry ↦ invalid entry
          ])
      on_parts (invalid entry) n go = tt
      on_parts (ok c) (named, e) go =
          go (push_new out c)
            (push_new-IsListed entries out c (named, inside (written c) (Memᴰ.head e)) h)

-- When the list of explicit tables is accepted, its tables are distinct, each has a schema and a name
-- without dots, and each is, as `schema.table`, one of the entries without their surrounding blanks.
pub parse_list-IsListed :
    (entries : List Text) (tables : List TableKey)
    → parse_list entries ≡ ok tables
    → IsListed (map trim entries) tables
unfolding parse_list Holds
parse_list-IsListed entries tables h =
    subst (Holds (IsListed (map trim entries))) h
      (parse_from-Holds (map trim entries) [] entries (λ e m. m) (tt, tt))
