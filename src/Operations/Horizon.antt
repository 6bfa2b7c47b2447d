-- ===== src/Operations/Horizon.antt =====
-- The vacuum-horizon probe of src/operations.rs.
use pg_maintainer.Prelude.{List, [], ◌∷◌, Option, none, some, Text, if◌then◌else◌}
use pg_maintainer.Prelude.Int.{ℤ, leb_ℤ}
use pg_maintainer.Types.Blockers.{XminHorizonBlocker, describe_xmin_blocker}
use pg_maintainer.Session.{
  LogLevel, log, when◌then◌else◌, Server, read, Outcome, ok, fail, no_fuel, Action, pure, call,
  or_context, ◌>>=◌,
}

pub data HorizonObservation : Type 0 where
  unobservable : HorizonObservation
  observed : List XminHorizonBlocker → HorizonObservation

-- `if let Ok(Some(x)) = …`: an error counts as nothing found.
recover : {A : Type 0} → Outcome (Option A) → Outcome (Option A)
recover (ok a) = ok a
recover (fail e) = ok none
recover no_fuel = no_fuel

module _ {F W : Type 0} (server : Server F W) where
  unfoldable pub observe_xmin_horizon : Action F W HorizonObservation
  observe_xmin_horizon = do
    can_read ← call read server.can_read_activity >>= or_context
    when can_read
        then (call read server.xmin_blockers >>= or_context >>= λ rows. pure (observed rows))
        else pure unobservable

  worst : HorizonObservation → Option Text
  worst unobservable = none
  worst (observed []) = none
  worst (observed (b ∷ bs)) = some (describe_xmin_blocker b)

  unfoldable pub describe_worst_xmin_blocker : Action F W (Option Text)
  unfolding worst
  describe_worst_xmin_blocker = observe_xmin_horizon >>= λ o. pure (worst o)

  unfoldable pub try_describe_blocker : Action F W (Option Text)
  unfolding recover
  try_describe_blocker s = let (r, s') = describe_worst_xmin_blocker s in (recover r, s')

  log_horizon : ℤ → HorizonObservation → Action F W (Unit {0})
  log_horizon warn_age_threshold unobservable = log LogLevel.warning
  log_horizon warn_age_threshold (observed []) = log LogLevel.info
  log_horizon warn_age_threshold (observed (b ∷ bs)) =
      when leb_ℤ warn_age_threshold b.xid_age then log LogLevel.warning else log LogLevel.info

  -- The first look at the horizon, before any phase.
  unfoldable pub log_initial_xmin_horizon : ℤ → Action F W (Unit {0})
  unfolding log_horizon
  log_initial_xmin_horizon warn_age_threshold =
      observe_xmin_horizon >>= log_horizon warn_age_threshold
