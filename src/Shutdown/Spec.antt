-- ===== src/Shutdown/Spec.antt =====
-- A specification of what the watcher of src/shutdown.rs does for each signal, and lemmas on it.
use pg_maintainer.Prelude.{
  ◌≡◌, refl, ap, ℕ, zero, suc, ◌≤◌, ◌<◌, Bool, true, false, List, [], ◌∷◌, ◌++◌, inl, inr, Option,
  none, some, filter_by, ◌+◌, append-nil, arith,
}
use mathlib.Core.Path.{subst}
use pg_maintainer.Types.Modes.{ShutdownMode, cancel, terminate}
use pg_maintainer.Shutdown.Plan.{plan_action_iff}
use pg_maintainer.Shutdown.{
  ShutdownAction, no_action, cancel_statement, terminate_backend, is_finish, plan_action,
  BackendState, Backend, Event, observed, cancelled, terminated, signalled, Found, target, nobody,
  unreadable, Polled, Handling, noted, read_state, pause_then, on_worth, on_state, poll, on_same,
  after_grace, with_controller, on_connected, on_received, terminated_with, escalate, cancel_then,
  act_on, after_poll, handle_signal, Watcher, served, on_signal, watch_once, Watches, here, onward,
  poll_attempts,
}

abbrev pub is_act : Event → Bool
is_act (observed s) = false
is_act signalled = false
is_act (cancelled n) = true
is_act (terminated n) = true

abbrev pub acts : List Event → List Event
acts = filter_by is_act

-- The acts on the backend that are allowed for one signal, with the count at the time of each.
pub data Allowed : ShutdownMode → List Event → Type 0 where
  nothing : {mode : ShutdownMode} → Allowed mode []
  at_once : (n : ℕ) → Allowed terminate (terminated n ∷ [])
  asked : (n : ℕ) → n < 2 → Allowed cancel (cancelled n ∷ [])
  escalated : (n k : ℕ) → n < 2 → Allowed cancel (cancelled n ∷ terminated k ∷ [])
  insisted : (n : ℕ) → 2 ≤ n → Allowed cancel (terminated n ∷ [])

acts-append : (es ds : List Event) → acts (es ++ ds) ≡ acts es ++ acts ds
acts-append [] ds = refl
acts-append (observed s ∷ es) ds = acts-append es ds
acts-append (signalled ∷ es) ds = acts-append es ds
acts-append (cancelled n ∷ es) ds = ap (λ t. cancelled n ∷ t) (acts-append es ds)
acts-append (terminated n ∷ es) ds = ap (λ t. terminated n ∷ t) (acts-append es ds)

-- A poll that has acted on nothing.
IsPoll : {W : Type 0} → Polled W → Type 0
IsPoll p = acts p.events ≡ []

-- What is done on a target after its count of signals.
IsServed : {W : Type 0} → ShutdownMode → Handling W → Type 0
IsServed mode h = Allowed mode (acts h.events)

module _ {W : Type 0} (b : Backend W) where
  pause_then-IsPoll :
      (again : ℕ → W → Polled W) (n count : ℕ) (w : W)
      → ((c : ℕ) (v : W) → IsPoll (again c v))
      → IsPoll (pause_then b again n count w)
  unfolding pause_then
  pause_then-IsPoll again zero count w h = h _ _
  pause_then-IsPoll again (suc n) count w h = h _ _

  on_worth-IsPoll :
      (again : ℕ → W → Polled W) (n count : ℕ) (w : W) (s : BackendState) (worth : Bool)
      → ((c : ℕ) (v : W) → IsPoll (again c v))
      → IsPoll (on_worth b again n count w s worth)
  unfolding on_worth noted IsPoll
  on_worth-IsPoll again n count w s true h = refl
  on_worth-IsPoll again n count w s false h = pause_then-IsPoll again n count w h

  on_state-IsPoll :
      (again : ℕ → W → Polled W) (n count : ℕ) (w : W) (o : Option BackendState)
      → ((c : ℕ) (v : W) → IsPoll (again c v))
      → IsPoll (on_state b again n count w o)
  unfolding on_state IsPoll
  on_state-IsPoll again n count w none h = refl
  on_state-IsPoll again n count w (some s) h = on_worth-IsPoll again n count w s _ h

  poll-IsPoll : (n count : ℕ) (w : W) → IsPoll (poll b n count w)
  unfolding poll IsPoll
  poll-IsPoll zero count w = refl
  poll-IsPoll (suc n) count w =
      on_state-IsPoll (poll b n) n count (read_state b w).1 (read_state b w).0
        (λ c v. poll-IsPoll n c v)

  -- a cancel, and perhaps a termination
  on_same-IsServed :
      (s : BackendState) (count : ℕ) (w : W) (same : Bool)
      → count < 2
      → IsServed cancel (on_same b s count w (cancelled count ∷ []) same)
  unfolding on_same terminated_with IsServed
  on_same-IsServed s count w true h = escalated count count h
  on_same-IsServed s count w false h = asked count h

  escalate-IsServed :
      (first : BackendState) (count : ℕ) (w : W) (o : Option BackendState)
      → count < 2
      → IsServed cancel (escalate b first count w (cancelled count ∷ []) o)
  unfolding escalate IsServed
  escalate-IsServed first count w none h = asked count h
  escalate-IsServed first count w (some s) h = on_same-IsServed s count w _ h

  after_grace-IsServed :
      (s : BackendState) (count : ℕ) (w : W) (signal : Bool)
      → count < 2
      → IsServed cancel (after_grace b s count w signal)
  unfolding after_grace terminated_with IsServed
  after_grace-IsServed s count w true h = escalated count _ h
  after_grace-IsServed s count w false h = escalate-IsServed s count _ _ h

  act_on-IsServed :
      (mode : ShutdownMode) (s : BackendState) (count : ℕ) (w : W) (a : ShutdownAction)
      → plan_action mode count true ≡ a
      → IsServed mode (act_on b s count w a)
  unfolding act_on cancel_then terminated_with IsServed
  act_on-IsServed mode s count w no_action h = nothing
  act_on-IsServed mode s count w terminate_backend h =
      elim ((plan_action_iff mode count true).0.0 h).1 [
        | inl always ↦ rw always (at_once count)
        | inr (second, many) ↦ rw second (insisted count many)
      ]
  act_on-IsServed mode s count w cancel_statement h =
      let planned = (plan_action_iff mode count true).1.0 h in
      rw planned.1 (after_grace-IsServed s count _ _ planned.2)

  after_poll-IsServed :
      (mode : ShutdownMode) (p : Polled W) (f : Found) → IsServed mode (after_poll b mode p f)
  unfolding after_poll IsServed
  after_poll-IsServed mode p nobody = nothing
  after_poll-IsServed mode p unreadable = nothing
  after_poll-IsServed mode p (target s) = act_on-IsServed mode s p.count p.world _ refl

  polled-IsServed :
      (mode : ShutdownMode) (p : Polled W) (h : Handling W)
      → IsPoll p
      → IsServed mode h
      → IsServed mode (record h { events = p.events ++ h.events })
  unfolding IsPoll IsServed
  polled-IsServed mode p h quiet served = rw (acts-append p.events h.events, quiet) served

  handle_signal-IsServed :
      (mode : ShutdownMode) (count : ℕ) (w : W) → IsServed mode (handle_signal b mode count w)
  unfolding handle_signal
  handle_signal-IsServed mode count w =
      let p = poll b poll_attempts count w in
      polled-IsServed mode p (after_poll b mode p p.found) (poll-IsPoll poll_attempts count w)
        (after_poll-IsServed mode p p.found)

-- The acts of so many signals, one group of acts for each, one after the other.
pub data Conforms (mode : ShutdownMode) : ℕ → List Event → Type 0 where
  fresh : Conforms mode 0 []
  then_served :
      (n : ℕ) (before now : List Event)
      → Conforms mode n before
      → Allowed mode now
      → Conforms mode (suc n) (before ++ now)

unanswered :
    (mode : ShutdownMode) (n : ℕ) (es : List Event) → Conforms mode n es → Conforms mode (suc n) es
unanswered mode n es h =
    subst (Conforms mode (suc n)) (append-nil es) (then_served n es [] h nothing)

Served : {W : Type 0} → ShutdownMode → ℕ → Option (Watcher W) → Type 0
Served mode n none = Unit
Served mode n (some s) = Conforms mode n (acts s.events)

module _ {W : Type 0} (b : Backend W) (mode : ShutdownMode) (n : ℕ) where
  served-Conforms :
      (s : Watcher W) (count : ℕ) (w : W)
      → Conforms mode n (acts s.events)
      → Conforms mode (suc n) (acts (served b mode s (handle_signal b mode count w)).events)
  unfolding served IsServed
  served-Conforms s count w h =
      rw (acts-append s.events (handle_signal b mode count w).events)
        (then_served n _ _ h (handle_signal-IsServed b mode count w))

  on_connected-Conforms :
      (s : Watcher W) (w : W) (opened : Bool)
      → Conforms mode n (acts s.events)
      → Conforms mode (suc n) (acts (on_connected b mode s w opened).events)
  unfolding on_connected
  on_connected-Conforms s w true h = served-Conforms s s.count w h
  on_connected-Conforms s w false h = unanswered mode n _ h

  with_controller-Conforms :
      (s : Watcher W) (connected : Bool)
      → Conforms mode n (acts s.events)
      → Conforms mode (suc n) (acts (with_controller b mode s connected).events)
  unfolding with_controller
  with_controller-Conforms s true h = served-Conforms s s.count s.world h
  with_controller-Conforms s false h =
      on_connected-Conforms s (b.open_controller s.world).1 (b.open_controller s.world).0 h

  on_signal-Conforms :
      (s : Watcher W) (finishing : Bool)
      → Conforms mode n (acts s.events)
      → Conforms mode (suc n) (acts (on_signal b mode s finishing).events)
  unfolding on_signal
  on_signal-Conforms s true h = unanswered mode n _ h
  on_signal-Conforms s false h = with_controller-Conforms s s.has_controller h

  on_received-Served :
      (s : Watcher W) (w : W) (received : Bool)
      → Conforms mode n (acts s.events)
      → Served mode (suc n) (on_received b mode s w received)
  unfolding on_received Served
  on_received-Served s w true h = on_signal-Conforms _ (is_finish mode) h
  on_received-Served s w false h = tt

  watch_once-Served :
      (s : Watcher W) → Conforms mode n (acts s.events) → Served mode (suc n) (watch_once b mode s)
  unfolding watch_once
  watch_once-Served s h = on_received-Served s _ _ h

module _ {W : Type 0} (b : Backend W) (mode : ShutdownMode) where
  -- From a state where what the watcher has done to the backend is one group of acts for each of so many
  -- signals, taking k further signals from the channel leads to one group for each of so many and k
  -- signals, in their order. A group is empty; or in mode terminate one termination; or in mode cancel, on
  -- a count below two, one cancel with at most one termination after it, or on a count of two or more one
  -- termination. In mode finish it is always empty.
  pub Watches-Conforms :
      (s t : Watcher W) (k n : ℕ)
      → Watches b mode s k t
      → Conforms mode n (acts s.events)
      → Conforms mode (k + n) (acts t.events)
  unfolding Served
  Watches-Conforms s _ zero n here h =
      let same : n ≡ 0 + n = omega arith in subst (λ m. Conforms mode m (acts s.events)) same h
  Watches-Conforms s u (suc k) n (onward {t = t} r e) h =
      let same : suc (k + n) ≡ suc k + n = omega arith in
      let last = watch_once-Served b mode (k + n) t (Watches-Conforms s t k n r h) in
      subst (λ m. Conforms mode m (acts u.events)) same (subst (Served mode (suc (k + n))) e last)
