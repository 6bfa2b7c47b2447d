-- ===== src/Shutdown.antt =====
-- src/shutdown.rs: what the watcher does about signals. The backend, its control connection, the
-- channel of signals and the timer are functions of a world that each call moves on.
pub mod Plan
pub mod Spec
pub mod Justified
pub mod Insist
use pg_maintainer.Prelude.{
  ℕ, zero, suc, ◌+◌, ◌%◌, Bool, true, false, ◌&&◌, ◌||◌, List, [], ◌∷◌, ◌++◌, Option, none, some,
  Text, ◌==◌, ◌≡◌, leb, not, text_eq,
}
use pg_maintainer.Types.Modes.{ShutdownMode, finish, cancel, terminate}

pub data ShutdownAction : Type 0 where
  no_action cancel_statement terminate_backend : ShutdownAction

-- the match on a mode that is not Finish
unfoldable pub action_for : ShutdownMode → ℕ → ShutdownAction
action_for terminate n = terminate_backend
action_for finish n = elim (leb 2 n) [ true ↦ terminate_backend | false ↦ cancel_statement ]
action_for cancel n = elim (leb 2 n) [ true ↦ terminate_backend | false ↦ cancel_statement ]

unfoldable pub is_finish : ShutdownMode → Bool
is_finish finish = true
is_finish cancel = false
is_finish terminate = false

unfoldable pub plan_action : ShutdownMode → ℕ → Bool → ShutdownAction
plan_action mode signal_count backend_active = elim (is_finish mode || not backend_active) [
  | true ↦ no_action
  | false ↦ action_for mode signal_count
]

pub record BackendState : Type 0 where
  pub active : Bool
  pub maintenance_running : Bool
  pub query_start : Option Text

-- POLL_ATTEMPTS
abbrev pub poll_attempts : ℕ
poll_attempts = 8

-- `*count += 1` on a u32
unfoldable pub bump : ℕ → ℕ
bump count = (count + 1) % 4294967296

-- What the query for the backend's activity gives: an error, no row, or the row.
pub data Activity : Type 0 where
  failed no_row : Activity
  row : BackendState → Activity

-- BackendController::state, with `none` for its error: without a row, the backend is gone.
unfoldable pub backend_state : Activity → Option BackendState
backend_state failed = none
backend_state no_row =
    some (record { active = false; maintenance_running = false; query_start = none })
backend_state (row s) = some s

-- What the watcher calls. A connection that cannot be opened is `false`.
pub record Backend (W : Type 0) : Type 0 where
  pub open_controller : W → Bool × W
  pub activity : W → Activity × W
  pub cancel_backend : W → W
  pub terminate_backend : W → W
  -- `rx.recv()`: whether there is a signal, or the channel is closed
  pub recv : W → Bool × W
  -- `select!` between a sleep and `rx.recv()`: whether a signal came
  pub pause : W → Bool × W
  pub wait_grace : W → Bool × W

-- What was done for a signal, in its order, with the count of signals at that time.
pub data Event : Type 0 where
  observed : BackendState → Event
  cancelled terminated : ℕ → Event
  signalled : Event

pub data Found : Type 0 where
  target : BackendState → Found
  nobody unreadable : Found

pub record Polled (W : Type 0) : Type 0 where
  pub found : Found
  pub count : ℕ
  pub world : W
  pub events : List Event

pub record Handling (W : Type 0) : Type 0 where
  pub count : ℕ
  pub world : W
  pub events : List Event

unfoldable pub worth_acting : ℕ → BackendState → Bool
worth_acting count s = elim (leb 2 count) [ true ↦ s.active | false ↦ s.maintenance_running ]

unfoldable pub opt_text_eq : Option Text → Option Text → Bool
opt_text_eq none none = true
opt_text_eq none (some b) = false
opt_text_eq (some a) none = false
opt_text_eq (some a) (some b) = text_eq a b

unfoldable pub bump_on : Bool → ℕ → ℕ
unfolding bump
bump_on true count = bump count
bump_on false count = count

unfoldable pub noted : {W : Type 0} → Event → Polled W → Polled W
noted e p = record p { events = e ∷ p.events }

module _ {W : Type 0} (b : Backend W) where
  unfoldable pub read_state : W → Option BackendState × W
  read_state w = (backend_state (b.activity w).0, (b.activity w).1)

  -- between two attempts; after the last one there is no pause
  unfoldable pub pause_then : (ℕ → W → Polled W) → ℕ → ℕ → W → Polled W
  pause_then again zero count w = again count w
  pause_then again (suc n) count w =
      let paused = b.pause w in again (bump_on paused.0 count) paused.1

  unfoldable pub on_worth : (ℕ → W → Polled W) → ℕ → ℕ → W → BackendState → Bool → Polled W
  on_worth again n count w s true = record {
    found = target s;
    count = count;
    world = w;
    events = observed s ∷ [];
  }
  on_worth again n count w s false = noted (observed s) (pause_then again n count w)

  unfoldable pub on_state : (ℕ → W → Polled W) → ℕ → ℕ → W → Option BackendState → Polled W
  on_state again n count w none = record {
    found = unreadable;
    count = count;
    world = w;
    events = [];
  }
  on_state again n count w (some s) = on_worth again n count w s (worth_acting count s)

  -- the attempts that are left, of POLL_ATTEMPTS
  unfoldable pub poll : ℕ → ℕ → W → Polled W
  poll zero count w = record { found = nobody; count = count; world = w; events = [] }
  poll (suc n) count w = on_state (poll n) n count (read_state w).1 (read_state w).0

  unfoldable pub terminated_with : ℕ → W → List Event → Handling W
  terminated_with count w before = record {
    count = count;
    world = b.terminate_backend w;
    events = before ++ terminated count ∷ [];
  }

  unfoldable pub on_same : BackendState → ℕ → W → List Event → Bool → Handling W
  on_same s count w before true = terminated_with count w (before ++ observed s ∷ [])
  on_same s count w before false = record {
    count = count;
    world = w;
    events = before ++ observed s ∷ [];
  }

  -- `Escalate only if it is still the same statement`
  unfoldable pub escalate : BackendState → ℕ → W → List Event → Option BackendState → Handling W
  escalate first count w before none = record { count = count; world = w; events = before }
  escalate first count w before (some s) =
      on_same s count w before (s.active && opt_text_eq s.query_start first.query_start)

  -- after the grace period, or on a signal during it
  unfoldable pub after_grace : BackendState → ℕ → W → Bool → Handling W
  after_grace s count w true = terminated_with (bump count) w (cancelled count ∷ signalled ∷ [])
  after_grace s count w false =
      escalate s count (read_state w).1 (cancelled count ∷ []) (read_state w).0

  unfoldable pub cancel_then : BackendState → ℕ → W → Handling W
  cancel_then s count w =
      let waited = b.wait_grace (b.cancel_backend w) in after_grace s count waited.1 waited.0

  unfoldable pub act_on : BackendState → ℕ → W → ShutdownAction → Handling W
  act_on s count w no_action = record { count = count; world = w; events = [] }
  act_on s count w terminate_backend = terminated_with count w []
  act_on s count w cancel_statement = cancel_then s count w

  unfoldable pub after_poll : ShutdownMode → Polled W → Found → Handling W
  after_poll mode p nobody = record { count = p.count; world = p.world; events = [] }
  after_poll mode p unreadable = record { count = p.count; world = p.world; events = [] }
  after_poll mode p (target s) = act_on s p.count p.world (plan_action mode p.count true)

  unfoldable pub handle_signal : ShutdownMode → ℕ → W → Handling W
  handle_signal mode count w =
      let p = poll poll_attempts count w in
      let h = after_poll mode p p.found in record h { events = p.events ++ h.events }

-- The watcher between two signals.
pub record Watcher (W : Type 0) : Type 0 where
  pub count : ℕ
  pub has_controller : Bool
  pub world : W
  pub events : List Event

module _ {W : Type 0} (b : Backend W) (mode : ShutdownMode) where
  unfoldable pub served : Watcher W → Handling W → Watcher W
  served s h = record {
    count = h.count;
    has_controller = true;
    world = h.world;
    events = s.events ++ h.events;
  }

  unfoldable pub on_connected : Watcher W → W → Bool → Watcher W
  on_connected s w true = served s (handle_signal b mode s.count w)
  on_connected s w false = record s { world = w }

  unfoldable pub with_controller : Watcher W → Bool → Watcher W
  with_controller s true = served s (handle_signal b mode s.count s.world)
  with_controller s false =
      let opened = b.open_controller s.world in on_connected s opened.1 opened.0

  -- A round of the loop on a signal that has come.
  unfoldable pub on_signal : Watcher W → Bool → Watcher W
  on_signal s true = s
  on_signal s false = with_controller s s.has_controller

  unfoldable pub on_received : Watcher W → W → Bool → Option (Watcher W)
  on_received s w true =
      some (on_signal (record s { count = bump s.count; world = w }) (is_finish mode))
  on_received s w false = none

  -- A round of the loop; `none` where the channel is closed.
  unfoldable pub watch_once : Watcher W → Option (Watcher W)
  watch_once s = let received = b.recv s.world in on_received s received.1 received.0

  -- The rounds of run_watcher; the number is that of the signals that it took from the channel, one for
  -- each round.
  pub data Watches (s : Watcher W) : ℕ → Watcher W → Type 0 where
    here : Watches s 0 s
    onward : {k : ℕ} {t u : Watcher W} → Watches s k t → watch_once t ≡ some u → Watches s (suc k) u
