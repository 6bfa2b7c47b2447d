-- ===== src/Operations/Sql/Target.antt =====
-- Lemmas on the statements of src/operations.rs, with a reader that follows PostgreSQL's rule for quoted
-- identifiers: a doubled quote stands for one, a single quote ends the identifier.
use pg_maintainer.Prelude.{
  decimal, decimal_onto, ℕ, suc, zero, ◌≡◌, refl, ◌≢◌, Bool, true, false, List, [], ◌∷◌, ◌++◌,
  Option, none, some, Text, not, codes, join, arith, ◌==◌, ==_iff, Bool-cases, inl, inr, All,
  if◌then◌else◌, ◌+◌, ◌%◌, ◌/◌,
}
use pg_maintainer.Types.Options.{VacuumOptions}
use pg_maintainer.Operations.Sql.{
  quote_ident, qualified, vacuum_statement, push_index_cleanup, push_parallel, push_if,
  freeze_index_cleanup, vacuum_sql, freeze_sql, vacuum_analyze_sql, analyze_sql,
}

prepend : ℕ → Option (Text × Text) → Option (Text × Text)
prepend c none = none
prepend c (some (name, rest)) = some (c ∷ name, rest)

-- The rest of a quoted identifier and what follows it. The flag says that the character before was
-- a quote, which ends the identifier unless another follows.
read_quoted : Bool → Text → Option (Text × Text)
read_quoted false [] = none
read_quoted true [] = some ([], [])
read_quoted false (c ∷ s) =
    let more = prepend c (read_quoted false s) in
    let quote = read_quoted true s in if c == b'"' then quote else more
read_quoted true (c ∷ s) =
    let more = prepend c (read_quoted false s) in if c == b'"' then more else some ([], c ∷ s)

read_second : Text → Option (Text × Text) → Option (Text × Text)
read_second schema none = none
read_second schema (some (table, [])) = some (schema, table)
read_second schema (some (table, c ∷ rest)) = none

read_dot : Option (Text × Text) → Option (Text × Text)
read_dot none = none
read_dot (some (schema, dot ∷ quote ∷ rest)) =
    if dot == b'.'
    then (if quote == b'"' then read_second schema (read_quoted false rest) else none)
    else none
read_dot (some (schema, _)) = none

-- `"schema"."table"` and nothing behind it.
read_qualified : Text → Option (Text × Text)
read_qualified [] = none
read_qualified (c ∷ s) = if c == b'"' then read_dot (read_quoted false s) else none

after_paren : Text → Text
after_paren [] = []
after_paren (c ∷ s) = if c == b')' then s else after_paren s

after_space : Text → Text
after_space [] = []
after_space (c ∷ s) = if c == b' ' then s else after_space s

-- The keyword: what stands before the first blank.
until_blank : Text → Text
until_blank [] = []
until_blank (c ∷ s) = let more = c ∷ until_blank s in if c == b' ' then [] else more

unfoldable pub read_keyword : Text → Text
unfolding until_blank
read_keyword sql = until_blank sql

-- The table of a VACUUM statement: what follows its parenthesised options.
unfoldable pub read_vacuum_target : Text → Option (Text × Text)
unfolding read_qualified after_paren after_space read_dot read_second read_quoted prepend
read_vacuum_target sql = read_qualified (after_space (after_paren sql))

-- The table of an ANALYZE statement: what follows the keyword.
unfoldable pub read_analyze_target : Text → Option (Text × Text)
unfolding read_qualified after_space read_dot read_second read_quoted prepend
read_analyze_target sql = read_qualified (after_space sql)

abbrev NotQuote : Text → Type 0
NotQuote [] = Unit
NotQuote (c ∷ s) = (c == b'"') ≡ false

read_quoted-quote_ident :
    (s rest : Text)
    → NotQuote rest
    → read_quoted false (quote_ident s ++ b'"' ∷ rest) ≡ some (s, rest)
unfolding read_quoted quote_ident prepend
read_quoted-quote_ident [] [] h = refl
read_quoted-quote_ident [] (c ∷ rest) h = rw h
read_quoted-quote_ident (c ∷ s) rest h = elim (Bool-cases (c == b'"')) [
  | inl quote ↦ rw (quote, read_quoted-quote_ident s rest h, (==_iff c b'"').0 quote)
  | inr plain ↦ rw (plain, plain, read_quoted-quote_ident s rest h)
]

read_qualified-qualified : (s t : Text) → read_qualified (qualified s t) ≡ some (s, t)
unfolding read_qualified qualified read_dot read_second
read_qualified-qualified s t =
    rw (read_quoted-quote_ident s (b'.' ∷ b'"' ∷ (quote_ident t ++ b'"' ∷ [])) refl)
      (rw (read_quoted-quote_ident t [] tt))

abbrev NoParen : Text → Type 0
NoParen [] = Unit
NoParen (c ∷ s) = (c ≢ b')') × NoParen s

NoParen-append : (s t : Text) → NoParen s → NoParen t → NoParen (s ++ t)
NoParen-append [] t h k = k
NoParen-append (c ∷ s) t h k = (h.0, NoParen-append s t h.1 k)

NoParen-join : (opts : List Text) → All NoParen opts → NoParen (join (codes ", ") opts)
unfolding join
NoParen-join [] h = tt
NoParen-join (x ∷ []) h = h.0
NoParen-join (x ∷ y ∷ xs) h =
    NoParen-append x _ h.0 (NoParen-append (codes ", ") _ (omega arith) (NoParen-join (y ∷ xs) h.1))

All-append : (xs ys : List Text) → All NoParen xs → All NoParen ys → All NoParen (xs ++ ys)
All-append [] ys h k = k
All-append (x ∷ xs) ys h k = (h.0, All-append xs ys h.1 k)

All-push_if :
    (b : Bool) (opt : Text) (opts : List Text)
    → NoParen opt
    → All NoParen opts
    → All NoParen (push_if b opt opts)
All-push_if true opt opts h k = All-append opts (opt ∷ []) k (h, tt)
All-push_if false opt opts h k = k

decimal_onto-NoParen : (fuel n : ℕ) (acc : Text) → NoParen acc → NoParen (decimal_onto fuel n acc)
unfolding decimal_onto
decimal_onto-NoParen zero n acc h = h
decimal_onto-NoParen (suc fuel) n acc h =
    let digit : b'0' + n % 10 ≢ b')' = omega arith in
    elim (Bool-cases (n / 10 == 0)) [
      | inl last ↦ rw last (digit, h)
      | inr more ↦ rw more (decimal_onto-NoParen fuel (n / 10) _ (digit, h))
    ]

All-push_parallel :
    (opts : List Text) (v : VacuumOptions) → All NoParen opts → All NoParen (push_parallel opts v)
unfolding push_parallel decimal
All-push_parallel opts v k = go v.parallel
  where
    go :
        (p : Option ℕ)
        → All NoParen
            (elim p [ none ↦ opts | some n ↦ opts ++ (codes "PARALLEL " ++ decimal n) ∷ [] ])
    go none = k
    go (some n) = All-append opts _ k (
      NoParen-append (codes "PARALLEL ") _ (omega arith) (decimal_onto-NoParen (suc n) n [] tt),
      tt,
    )

All-push_index_cleanup :
    (c : Option Bool) (opts : List Text)
    → All NoParen opts
    → All NoParen (push_index_cleanup c opts)
unfolding push_index_cleanup
All-push_index_cleanup none opts k = k
All-push_index_cleanup (some true) opts k = All-append opts _ k (omega arith)
All-push_index_cleanup (some false) opts k = All-append opts _ k (omega arith)

All-freeze_index_cleanup :
    (c : Option Bool) (opts : List Text)
    → All NoParen opts
    → All NoParen (freeze_index_cleanup c opts)
unfolding freeze_index_cleanup
All-freeze_index_cleanup none opts k = All-append opts _ k (omega arith)
All-freeze_index_cleanup (some true) opts k = All-append opts _ k (omega arith)
All-freeze_index_cleanup (some false) opts k = All-append opts _ k (omega arith)

after_paren-append : (x rest : Text) → NoParen x → after_paren (x ++ b')' ∷ rest) ≡ rest
unfolding after_paren
after_paren-append [] rest h = refl
after_paren-append (c ∷ x) rest h =
    let other : (c == b')') ≡ false = ground arith in rw other (after_paren-append x rest h.1)

-- What a statement with clean options reads back as.
read-vacuum_statement :
    (opts : List Text) (schema table : Text)
    → All NoParen opts
    → read_vacuum_target (vacuum_statement opts schema table) ≡ some (schema, table)
unfolding read_vacuum_target vacuum_statement
read-vacuum_statement opts schema table h =
    rw
      (after_paren-append (join (codes ", ") opts) (b' ' ∷ qualified schema table)
        (NoParen-join opts h))
      (read_qualified-qualified schema table)

All-flags :
    (v : VacuumOptions) (opts : List Text)
    → All NoParen opts
    → All NoParen (
        push_if v.skip_locked (codes "SKIP_LOCKED") (
          push_if v.disable_page_skipping
            (codes "DISABLE_PAGE_SKIPPING")
            (push_if (not v.truncate) (codes "TRUNCATE FALSE") opts)))
All-flags v opts h = All-push_if v.skip_locked (codes "SKIP_LOCKED") _ (omega arith) (
    All-push_if v.disable_page_skipping (codes "DISABLE_PAGE_SKIPPING") _ (omega arith)
      (All-push_if (not v.truncate) (codes "TRUNCATE FALSE") opts (omega arith) h))

vacuum_sql-target :
    (s t : Text) (v : VacuumOptions) → read_vacuum_target (vacuum_sql s t v) ≡ some (s, t)
unfolding vacuum_sql
vacuum_sql-target s t v = read-vacuum_statement _ s t (
    All-push_parallel _ v
      (All-push_index_cleanup v.index_cleanup _ (All-flags v (codes "VERBOSE" ∷ []) (omega arith))))

freeze_sql-target :
    (s t : Text) (v : VacuumOptions) → read_vacuum_target (freeze_sql s t v) ≡ some (s, t)
unfolding freeze_sql
freeze_sql-target s t v = read-vacuum_statement _ s t (
    All-push_parallel _ v (
      All-flags v _ (
        All-freeze_index_cleanup v.index_cleanup (codes "VERBOSE" ∷ codes "FREEZE" ∷ [])
          (omega arith))))

vacuum_analyze_sql-target :
    (s t : Text) (v : VacuumOptions) → read_vacuum_target (vacuum_analyze_sql s t v) ≡ some (s, t)
unfolding vacuum_analyze_sql
vacuum_analyze_sql-target s t v = read-vacuum_statement _ s t (
    All-push_parallel _ v (
      All-push_index_cleanup v.index_cleanup _
        (All-flags v (codes "VERBOSE" ∷ codes "ANALYZE" ∷ []) (omega arith))))

analyze_sql-target : (s t : Text) → read_analyze_target (analyze_sql s t) ≡ some (s, t)
unfolding analyze_sql read_analyze_target
analyze_sql-target s t = read_qualified-qualified s t

-- The keyword of each of the four statements.
pub statements_keyword :
    (s t : Text) (v : VacuumOptions)
    → (read_keyword (vacuum_sql s t v) ≡ codes "VACUUM")
      × (read_keyword (freeze_sql s t v) ≡ codes "VACUUM")
      × (read_keyword (vacuum_analyze_sql s t v) ≡ codes "VACUUM")
      × (read_keyword (analyze_sql s t) ≡ codes "ANALYZE")
unfolding read_keyword vacuum_sql freeze_sql vacuum_analyze_sql analyze_sql vacuum_statement
statements_keyword s t v = (refl, refl, refl, refl)

-- Whatever characters a schema and a table name hold, quotes included, and whatever options are
-- set, each of the four statements reads back as a statement on that schema and that table.
pub statements_target :
    (s t : Text) (v : VacuumOptions)
    → (read_vacuum_target (vacuum_sql s t v) ≡ some (s, t))
      × (read_vacuum_target (freeze_sql s t v) ≡ some (s, t))
      × (read_vacuum_target (vacuum_analyze_sql s t v) ≡ some (s, t))
      × (read_analyze_target (analyze_sql s t) ≡ some (s, t))
statements_target s t v = (
  vacuum_sql-target s t v,
  freeze_sql-target s t v,
  vacuum_analyze_sql-target s t v,
  analyze_sql-target s t,
)
