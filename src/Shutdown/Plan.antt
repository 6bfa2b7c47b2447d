-- ===== src/Shutdown/Plan.antt =====
-- Lemmas on plan_action of src/shutdown.rs.
use pg_maintainer.Prelude.{◌≡◌, ◌↔◌, ◌⊎◌, ℕ, ◌≤◌, ◌<◌, Bool, true, false, arith}
use pg_maintainer.Types.Modes.{ShutdownMode, finish, cancel, terminate}
use pg_maintainer.Shutdown.{cancel_statement, terminate_backend, is_finish, action_for, plan_action}

-- For a statement that is running, and only for one, plan_action terminates exactly in mode terminate or,
-- in mode cancel, from the second signal on, and it cancels exactly in mode cancel on an earlier signal; in
-- mode finish it does neither.
pub plan_action_iff :
    (mode : ShutdownMode) (n : ℕ) (active : Bool)
    → ((plan_action mode n active ≡ terminate_backend)
        ↔ ((active ≡ true) × ((mode ≡ terminate) ⊎ ((mode ≡ cancel) × (2 ≤ n)))))
      × ((plan_action mode n active ≡ cancel_statement)
          ↔ ((active ≡ true) × (mode ≡ cancel) × (n < 2)))
unfolding plan_action action_for is_finish
plan_action_iff finish n active = ground arith
plan_action_iff terminate n true = ground arith
plan_action_iff terminate n false = ground arith
plan_action_iff cancel n true = ground arith
plan_action_iff cancel n false = ground arith
