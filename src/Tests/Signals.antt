-- ===== src/Tests/Signals.antt =====
-- The watcher on a backend that is busy all the time.
use pg_maintainer.Prelude.{
  ◌≡◌, ◌↔◌, ◌⊎◌, refl, ℕ, suc, ◌≤◌, ◌<◌, true, false, [], ◌∷◌, none, some, codes, text_eq, text_eq,
}
use pg_maintainer.Types.Modes.{cancel, terminate}
use pg_maintainer.Shutdown.{
  Backend, BackendState, row, Watcher, observed, cancelled, terminated, plan_action,
  cancel_statement, terminate_backend, handle_signal, watch_once, here, onward, bump, read_state,
  backend_state, is_finish, on_received, on_signal, with_controller, on_connected, served, poll,
  on_state, on_worth, worth_acting, after_poll, act_on, action_for, cancel_then, after_grace,
  escalate, on_same, terminated_with, opt_text_eq,
}
use pg_maintainer.Shutdown.Plan.{plan_action_iff}
use pg_maintainer.Shutdown.Spec.{acts, Conforms, fresh, Watches-Conforms}
use pg_maintainer.Shutdown.Justified.{IsJustified, handle_signal-IsJustified}

abbrev vacuuming : BackendState
vacuuming = record { active = true; maintenance_running = true; query_start = some (codes "10:00") }

-- The world counts what has been sent.
abbrev busy : Backend ℕ
busy = record {
  open_controller = λ w. (true, w);
  activity = λ w. (row vacuuming, w);
  cancel_backend = λ w. suc w;
  terminate_backend = λ w. suc w;
  recv = λ w. (true, w);
  pause = λ w. (false, w);
  wait_grace = λ w. (false, w);
}

abbrev watching : Watcher ℕ
watching = record { count = 0; has_controller = false; world = 0; events = [] }

abbrev asked_once : Watcher ℕ
asked_once = record {
  count = 1;
  has_controller = true;
  world = 2;
  events = observed vacuuming ∷ cancelled 1 ∷ observed vacuuming ∷ terminated 1 ∷ [];
}

first_round : watch_once busy cancel watching ≡ some asked_once
unfolding watch_once on_received on_signal with_controller on_connected served handle_signal poll
    on_state on_worth worth_acting after_poll act_on plan_action action_for is_finish cancel_then
    after_grace escalate on_same terminated_with opt_text_eq text_eq read_state backend_state bump
first_round = refl

plan_action_example :
    ((plan_action cancel 2 true ≡ terminate_backend)
      ↔ ((true ≡ true) × ((cancel ≡ terminate) ⊎ ((cancel ≡ cancel) × (2 ≤ 2)))))
    × ((plan_action cancel 2 true ≡ cancel_statement)
        ↔ ((true ≡ true) × (cancel ≡ cancel) × (2 < 2)))
plan_action_example = plan_action_iff cancel 2 true

Watches-Conforms_example : Conforms cancel 1 (acts asked_once.events)
Watches-Conforms_example =
    Watches-Conforms busy cancel watching asked_once 1 0 (onward here first_round) fresh

handle_signal-IsJustified_example : IsJustified none (handle_signal busy cancel 1 0).events
handle_signal-IsJustified_example = handle_signal-IsJustified busy cancel 1 0 none
