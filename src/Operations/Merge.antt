-- ===== src/Operations/Merge.antt =====
-- merge_needs_vacuum_candidates of src/operations.rs: one list of candidates from two queries.
pub mod Order
pub mod Result
use pg_maintainer.Prelude.{
  ℕ, Bool, true, false, List, [], ◌∷◌, ◌++◌, take, Option, none, some, leb, if◌then◌else◌,
}
use pg_maintainer.Prelude.Int.{ℤ, pos, negsuc, leb_ℤ}
use pg_maintainer.Types.Modes.{OrderBy, size, last_maintained}
use pg_maintainer.Types.Tables.{key_mem, TableKey, NeedsVacuumTableInfo}
use pg_maintainer.Operations.Runners.{needs_key}

-- `filter(|t| seen.insert(…))`
unfoldable pub first_of_each : List TableKey → List NeedsVacuumTableInfo → List NeedsVacuumTableInfo
first_of_each seen [] = []
first_of_each seen (t ∷ ts) =
    let kept = t ∷ first_of_each (needs_key t ∷ seen) ts in
    let dropped = first_of_each seen ts in if key_mem (needs_key t) seen then dropped else kept

-- `Option`'s order: `None` is first
abbrev pub leb_option : Option ℕ → Option ℕ → Bool
leb_option none b = true
leb_option (some a) none = false
leb_option (some a) (some b) = leb a b

-- `a` may stand before `b`
unfoldable pub ranks_before : Option OrderBy → NeedsVacuumTableInfo → NeedsVacuumTableInfo → Bool
ranks_before none a b = leb_ℤ b.n_dead_tup a.n_dead_tup
ranks_before (some size) a b = leb_ℤ b.size_bytes a.size_bytes
ranks_before (some last_maintained) a b = leb_option a.last_maintained b.last_maintained

-- `sort_by_key`, a stable sort
unfoldable pub insert_by :
    Option OrderBy → NeedsVacuumTableInfo → List NeedsVacuumTableInfo → List NeedsVacuumTableInfo
insert_by order_by a [] = a ∷ []
insert_by order_by a (b ∷ bs) =
    let later = b ∷ insert_by order_by a bs in
    if ranks_before order_by a b then a ∷ b ∷ bs else later

unfoldable pub sort_by : Option OrderBy → List NeedsVacuumTableInfo → List NeedsVacuumTableInfo
sort_by order_by [] = []
sort_by order_by (a ∷ rest) = insert_by order_by a (sort_by order_by rest)

-- `truncate(usize::try_from(limit).unwrap_or(usize::MAX))`
unfoldable pub truncate_to_limit : ℤ → List NeedsVacuumTableInfo → List NeedsVacuumTableInfo
truncate_to_limit (pos n) ts = take n ts
truncate_to_limit (negsuc n) ts = ts

unfoldable pub merge_needs_vacuum_candidates :
    List NeedsVacuumTableInfo
    → List NeedsVacuumTableInfo
    → Option OrderBy
    → ℤ
    → List NeedsVacuumTableInfo
merge_needs_vacuum_candidates classic max_threshold order_by limit =
    truncate_to_limit limit (sort_by order_by (first_of_each [] (classic ++ max_threshold)))
