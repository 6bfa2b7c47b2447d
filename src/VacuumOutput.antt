-- ===== src/VacuumOutput.antt =====
-- src/vacuum_output.rs: the estimate of dead tuples, over `i64`, and the text for it.

pub mod Estimate
use pg_maintainer.Prelude.{
  zero, ◌-◌, ◌^◌, Bool, true, false, Option, none, some, ◌&&◌, Text, codes, ◌++◌, if◌then◌else◌,
}
use pg_maintainer.Types.Blockers.{signed}
use pg_maintainer.Prelude.Int.{ℤ, pos, negsuc, ltb_ℤ, ◌-ℤ◌}

abbrev pub i64_max : ℤ
i64_max = pos (2 ^ 63 - 1)

-- -(2 ^ 63)
abbrev pub i64_min : ℤ
i64_min = negsuc (2 ^ 63 - 1)

-- `i64::saturating_sub`
unfoldable pub saturating_sub : ℤ → ℤ → ℤ
unfolding ◌-ℤ◌
saturating_sub a b =
    let d = a -ℤ b in if ltb_ℤ i64_max d then i64_max else if ltb_ℤ d i64_min then i64_min else d

unfoldable pub is_zero : ℤ → Bool
is_zero (pos zero) = true
is_zero _ = false

unfoldable pub estimate_dead_tuples_reduced : ℤ → ℤ → Option ℤ
unfolding saturating_sub is_zero
estimate_dead_tuples_reduced n_dead_before n_dead_after =
    let reduced = saturating_sub n_dead_before n_dead_after in
    if is_zero reduced && ltb_ℤ (pos 0) n_dead_before
    then some (pos 0)
    else if ltb_ℤ (pos 0) reduced
    then some reduced
    else none

unfoldable pub format_dead_tuple_change : Text → Text → Text → ℤ → Text
unfolding is_zero
format_dead_tuple_change op schema table reduced =
    let named = op ++ (codes " on \"" ++ (schema ++ (codes "\".\"" ++ table))) in
    if is_zero reduced
    then named
      ++ codes
          "\": estimated dead tuples did not decrease (approx., based on pg_stat_user_tables.n_dead_tup before/after; the table may not have needed vacuuming, concurrent writes may have offset the reduction, or another process already cleaned it up)"
    else named
      ++ (codes "\" reduced estimated dead tuples by ~"
          ++ (signed reduced ++ codes " (approx., from pg_stat_user_tables.n_dead_tup)"))
