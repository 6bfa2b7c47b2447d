-- ===== src/Cli/Validate/Bounds.antt =====
-- Lemmas on main's checks of the command line, src/main.rs.
use pg_maintainer.Prelude.{
  ◌^◌, ◌-◌, ◌≤◌, ◌≡◌, refl, ap, Bool, true, false, not, ◌&&◌, List, [], ◌∷◌, ◌++◌, Option, none,
  some, is_some, All, arith,
}
use mathlib.Core.Path.{subst}
use pg_maintainer.Prelude.Int.{ℤ, pos, leb_ℤ}
use pg_maintainer.Types.Modes.{Mode, Parsed, ok, invalid}
use pg_maintainer.Types.Tables.{TableKey}
use pg_maintainer.Types.Throttle.{Decimal}
use pg_maintainer.Cli.Args.{Args, Complaint, Checked, accepted, rejected, Settings}
use pg_maintainer.Cli.Validate.{
  is_bad, bad_days, first_complaint, enabled, has_vacuum_overdue, has_analyze_overdue, mode_checks,
  target_checks, resource_checks, lock_checks, settings, listed, with_tables, with_modes, validate,
}

Passed : Bool × Complaint → Type 0
Passed check = check.0 ≡ false

first_complaint-none :
    (checks : List (Bool × Complaint)) → first_complaint checks ≡ none → All Passed checks
unfolding first_complaint Passed
first_complaint-none [] h = tt
first_complaint-none ((true, c) ∷ checks) h = ground arith
first_complaint-none ((false, c) ∷ checks) h = (refl, first_complaint-none checks h)

All-left : (xs ys : List (Bool × Complaint)) → All Passed (xs ++ ys) → All Passed xs
All-left [] ys h = tt
All-left (x ∷ xs) ys (h, hs) = (h, All-left xs ys hs)

All-right : (xs ys : List (Bool × Complaint)) → All Passed (xs ++ ys) → All Passed ys
All-right [] ys h = h
All-right (x ∷ xs) ys (h, hs) = All-right xs ys hs

-- `days` is there and in 1..=i32::MAX
abbrev pub HasDays : Option ℤ → Type 0
HasDays days =
    (d : ℤ) × (days ≡ some d) × (leb_ℤ (pos 1) d ≡ true) × (leb_ℤ d (pos (2 ^ 31 - 1)) ≡ true)

has_days :
    (days : Option ℤ) → not (is_some days) ≡ false → is_bad bad_days days ≡ false → HasDays days
unfolding bad_days
has_days none missing bad = ground arith
has_days (some d) missing bad = (d, refl, ground arith, ground arith)

-- The numbers that the session is configured with.
abbrev pub InRange : {F : Type 0} → Args F → Type 0
InRange args =
    (1 ≤ args.lock_timeout_ms)
    × (args.lock_timeout_ms ≤ 60000)
    × (args.lock_timeout_retries ≤ 20)
    × (1 ≤ args.lock_timeout_retry_delay_ms)
    × (args.lock_timeout_retry_delay_ms ≤ 60000)
    × (1 ≤ args.shutdown_grace_seconds)
    × (args.shutdown_grace_seconds ≤ 300)
    × (args.maintenance_work_mem_gb ≤ 32)
    × (leb_ℤ (pos 0) args.xmin_horizon_warn_age ≡ true)

module _ {F : Type 0} (decimal : Decimal F) (args : Args F) where
  ranges :
      All Passed (resource_checks decimal args)
      → All Passed (lock_checks decimal args)
      → InRange args
  unfolding resource_checks lock_checks Passed
  ranges (mem, (delay, (limit, (lag, (age, (parallel, u))))))
        (timeout, (retries, (retry_delay, (grace, u')))) =
      (
        ground (arith, timeout),
        ground (arith, timeout),
        ground (arith, retries),
        ground (arith, retry_delay),
        ground (arith, retry_delay),
        ground (arith, grace),
        ground (arith, grace),
        ground (arith, mem),
        ground (arith, age),
      )

  days_given :
      (modes : List Mode)
      → All Passed (mode_checks decimal args modes)
      → (has_vacuum_overdue modes ≡ true → HasDays args.vacuum_older_than_days)
        × (has_analyze_overdue modes ≡ true → HasDays args.analyze_older_than_days)
  unfolding mode_checks Passed
  days_given modes (va, (vb, (aa, (ab, u)))) = (
    λ on. has_days args.vacuum_older_than_days (ground (arith, va, on)) (ground (arith, vb, on)),
    λ on. has_days args.analyze_older_than_days (ground (arith, aa, on)) (ground (arith, ab, on)),
  )

  apart : All Passed (target_checks decimal args) → (args.force && args.skip_active_vacuum) ≡ false
  unfolding target_checks Passed
  apart (limit, (both, rest)) = both

  -- what an accepted command line has passed
  Passes : List Mode → Type 0
  Passes modes = All Passed (
      mode_checks decimal args modes
      ++ target_checks decimal args
      ++ resource_checks decimal args
      ++ lock_checks decimal args)

  modes_of : Checked (Settings F) → List Mode
  modes_of (rejected e) = []
  modes_of (accepted st) = st.enabled_modes

  with_tables-modes :
      (modes : List Mode) (tables : Parsed (List TableKey)) (st : Settings F)
      → with_tables decimal args modes tables ≡ accepted st
      → modes ≡ st.enabled_modes
  unfolding with_tables settings modes_of
  with_tables-modes modes (invalid entry) st h = ground (arith, h)
  with_tables-modes modes (ok tables) st h = ground (arith, h, ap modes_of h)

  with_modes-Passes :
      (modes : Checked (List Mode)) (st : Settings F)
      → with_modes decimal args modes ≡ accepted st
      → (modes ≡ accepted st.enabled_modes) × Passes st.enabled_modes
  unfolding with_modes Passes
  with_modes-Passes (rejected e) st h = ground (arith, h)
  with_modes-Passes (accepted modes) st h =
      go
        (first_complaint (
          mode_checks decimal args modes
          ++ target_checks decimal args
          ++ resource_checks decimal args
          ++ lock_checks decimal args))
        refl h
    where
      go :
          (c : Option Complaint)
          → first_complaint (
              mode_checks decimal args modes
              ++ target_checks decimal args
              ++ resource_checks decimal args
              ++ lock_checks decimal args)
            ≡ c
          → elim c as (λ c. Checked (Settings F)) [
            | some complaint ↦ rejected complaint
            | none ↦ with_tables decimal args modes (listed decimal args args.also_tables)
          ]
            ≡ accepted st
          → (accepted modes ≡ accepted st.enabled_modes) × Passes st.enabled_modes
      go (some complaint) e h = ground (arith, h)
      go none e h =
          let same = with_tables-modes modes _ st h in
          (ap accepted same, subst Passes same (first_complaint-none _ e))

  past_schema :
      (st : Settings F)
      → validate decimal args ≡ accepted st
      → with_modes decimal args (enabled args.mode) ≡ accepted st
  unfolding validate
  past_schema st h = ground (arith, h)

  -- When main's checks accept a command line, every mode that needs a number of days has one between
  -- 1 and i32::MAX, --force and --skip-active-vacuum are not both set, and the lock timeout, its
  -- retries and their delay, the grace period, the memory and the warning age are in their ranges.
  pub accepted_is_InRange :
      (st : Settings F)
      → validate decimal args ≡ accepted st
      → (has_vacuum_overdue st.enabled_modes ≡ true → HasDays args.vacuum_older_than_days)
        × (has_analyze_overdue st.enabled_modes ≡ true → HasDays args.analyze_older_than_days)
        × ((args.force && args.skip_active_vacuum) ≡ false)
        × InRange args
  unfolding validate Passes
  accepted_is_InRange st h =
      let (modes, passes) = with_modes-Passes (enabled args.mode) st (past_schema st h) in
      let ms = mode_checks decimal args st.enabled_modes in
      let ts = target_checks decimal args in
      let rs = resource_checks decimal args in
      let ls = lock_checks decimal args in
      let but_locks = All-left (ms ++ ts ++ rs) ls passes in
      let first_two = All-left (ms ++ ts) rs but_locks in
      let (vacuum_days, analyze_days) = days_given st.enabled_modes (All-left ms ts first_two) in
      (
        vacuum_days,
        analyze_days,
        apart (All-right ms ts first_two),
        ranges (All-right (ms ++ ts) rs but_locks) (All-right (ms ++ ts ++ rs) ls passes),
      )
