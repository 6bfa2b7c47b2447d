-- ===== src/Operations/Sql.antt =====
-- The SQL statements of src/operations.rs: options, quoting, the statement for a table.
pub mod Target
use pg_maintainer.Prelude.{
  decimal, ℕ, zero, suc, ◌+◌, ◌/◌, ◌%◌, Bool, true, false, not, List, [], ◌∷◌, ◌++◌, Option, none,
  some, Text, codes, join, ◌==◌, if◌then◌else◌,
}
use pg_maintainer.Types.Options.{VacuumOptions}

unfoldable pub quote_ident : Text → Text
quote_ident [] = []
quote_ident (c ∷ s) = if c == b'"' then b'"' ∷ b'"' ∷ quote_ident s else c ∷ quote_ident s

unfoldable pub push_parallel : List Text → VacuumOptions → List Text
push_parallel opts v = elim v.parallel [
  | none ↦ opts
  | some n ↦ opts ++ (codes "PARALLEL " ++ decimal n) ∷ []
]

abbrev push_if : Bool → Text → List Text → List Text
push_if b opt opts = if b then opts ++ opt ∷ [] else opts

push_index_cleanup : Option Bool → List Text → List Text
push_index_cleanup none opts = opts
push_index_cleanup (some true) opts = opts ++ codes "INDEX_CLEANUP TRUE" ∷ []
push_index_cleanup (some false) opts = opts ++ codes "INDEX_CLEANUP FALSE" ∷ []

-- `"schema"."table"`
unfoldable pub qualified : Text → Text → Text
qualified schema table =
    b'"' ∷ (quote_ident schema ++ b'"' ∷ b'.' ∷ b'"' ∷ (quote_ident table ++ b'"' ∷ []))

unfoldable pub vacuum_statement : List Text → Text → Text → Text
vacuum_statement opts schema table =
    codes "VACUUM (" ++ (join (codes ", ") opts ++ (codes ") " ++ qualified schema table))

unfoldable pub vacuum_sql : Text → Text → VacuumOptions → Text
unfolding push_index_cleanup
vacuum_sql schema table v =
    let opts = codes "VERBOSE" ∷ [] in
    let opts = push_if (not v.truncate) (codes "TRUNCATE FALSE") opts in
    let opts = push_if v.disable_page_skipping (codes "DISABLE_PAGE_SKIPPING") opts in
    let opts = push_if v.skip_locked (codes "SKIP_LOCKED") opts in
    let opts = push_index_cleanup v.index_cleanup opts in
    vacuum_statement (push_parallel opts v) schema table

freeze_index_cleanup : Option Bool → List Text → List Text
freeze_index_cleanup none opts = opts ++ codes "INDEX_CLEANUP FALSE" ∷ []
freeze_index_cleanup (some true) opts = opts ++ codes "INDEX_CLEANUP TRUE" ∷ []
freeze_index_cleanup (some false) opts = opts ++ codes "INDEX_CLEANUP FALSE" ∷ []

unfoldable pub freeze_sql : Text → Text → VacuumOptions → Text
unfolding freeze_index_cleanup
freeze_sql schema table v =
    let opts = codes "VERBOSE" ∷ codes "FREEZE" ∷ [] in
    let opts = freeze_index_cleanup v.index_cleanup opts in
    let opts = push_if (not v.truncate) (codes "TRUNCATE FALSE") opts in
    let opts = push_if v.disable_page_skipping (codes "DISABLE_PAGE_SKIPPING") opts in
    let opts = push_if v.skip_locked (codes "SKIP_LOCKED") opts in
    vacuum_statement (push_parallel opts v) schema table

unfoldable pub vacuum_analyze_sql : Text → Text → VacuumOptions → Text
unfolding push_index_cleanup
vacuum_analyze_sql schema table v =
    let opts = codes "VERBOSE" ∷ codes "ANALYZE" ∷ [] in
    let opts = push_if (not v.truncate) (codes "TRUNCATE FALSE") opts in
    let opts = push_if v.disable_page_skipping (codes "DISABLE_PAGE_SKIPPING") opts in
    let opts = push_if v.skip_locked (codes "SKIP_LOCKED") opts in
    let opts = push_index_cleanup v.index_cleanup opts in
    vacuum_statement (push_parallel opts v) schema table

unfoldable pub analyze_sql : Text → Text → Text
analyze_sql schema table = codes "ANALYZE " ++ qualified schema table
