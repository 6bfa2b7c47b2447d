-- ===== src/Shutdown/Justified.antt =====
-- Lemmas on the order of what handle_signal of src/shutdown.rs sees and does.
use pg_maintainer.Prelude.{
  ◌≡◌, refl, ◌⊎◌, ℕ, zero, suc, Bool, true, false, ◌&&◌, List, [], ◌∷◌, ◌++◌, inl, Option, none,
  some, arith,
}
use pg_maintainer.Types.Modes.{ShutdownMode}
use pg_maintainer.Shutdown.Plan.{plan_action_iff}
use pg_maintainer.Shutdown.{
  ShutdownAction, no_action, cancel_statement, terminate_backend, plan_action, BackendState,
  Backend, Event, observed, cancelled, terminated, signalled, Found, target, nobody, unreadable,
  Polled, worth_acting, noted, read_state, pause_then, on_worth, on_state, poll, terminated_with,
  on_same, escalate, after_grace, cancel_then, act_on, after_poll, handle_signal, poll_attempts,
  opt_text_eq,
}

-- What may come directly after what: a cancel after a look that found a VACUUM or ANALYZE running, a
-- termination after a look that found the backend busy, or after a further signal.
abbrev pub Follows : Option Event → Event → Type 0
Follows before (observed s) = Unit
Follows before signalled = Unit
Follows (some (observed s)) (cancelled n) = s.maintenance_running ≡ true
Follows (some signalled) (cancelled n) = ⊥
Follows (some (cancelled k)) (cancelled n) = ⊥
Follows (some (terminated k)) (cancelled n) = ⊥
Follows none (cancelled n) = ⊥
Follows (some (observed s)) (terminated n) = (s.active ≡ true) ⊎ (s.maintenance_running ≡ true)
Follows (some signalled) (terminated n) = Unit
Follows (some (cancelled k)) (terminated n) = ⊥
Follows (some (terminated k)) (terminated n) = ⊥
Follows none (terminated n) = ⊥

abbrev pub IsJustified : Option Event → List Event → Type 0
IsJustified before [] = Unit
IsJustified before (e ∷ es) = Follows before e × IsJustified (some e) es

-- What may come after a poll that has found this.
After : Found → ℕ → List Event → Type 0
After (target s) count rest = worth_acting count s ≡ true → IsJustified (some (observed s)) rest
After nobody count rest = rest ≡ []
After unreadable count rest = rest ≡ []

module _ {W : Type 0} where
  IsLead : Polled W → Type 0
  IsLead p =
      (before : Option Event) (rest : List Event)
      → After p.found p.count rest
      → IsJustified before (p.events ++ rest)

  module _ (b : Backend W) where
    pause_then-IsLead :
        (again : ℕ → W → Polled W) (n count : ℕ) (w : W)
        → ((c : ℕ) (v : W) → IsLead (again c v))
        → IsLead (pause_then b again n count w)
    unfolding pause_then
    pause_then-IsLead again zero count w h = h _ _
    pause_then-IsLead again (suc n) count w h = h _ _

    on_worth-IsLead :
        (again : ℕ → W → Polled W) (n count : ℕ) (w : W) (s : BackendState) (worth : Bool)
        → worth_acting count s ≡ worth
        → ((c : ℕ) (v : W) → IsLead (again c v))
        → IsLead (on_worth b again n count w s worth)
    unfolding on_worth noted IsLead After
    on_worth-IsLead again n count w s true e h before rest after = (tt, after e)
    on_worth-IsLead again n count w s false e h before rest after =
        (tt, pause_then-IsLead again n count w h (some (observed s)) rest after)

    on_state-IsLead :
        (again : ℕ → W → Polled W) (n count : ℕ) (w : W) (o : Option BackendState)
        → ((c : ℕ) (v : W) → IsLead (again c v))
        → IsLead (on_state b again n count w o)
    unfolding on_state IsLead After
    on_state-IsLead again n count w none h = λ before rest after. rw after tt
    on_state-IsLead again n count w (some s) h =
        on_worth-IsLead again n count w s (worth_acting count s) refl h

    poll-IsLead : (n count : ℕ) (w : W) → IsLead (poll b n count w)
    unfolding poll IsLead After
    poll-IsLead zero count w = λ before rest after. rw after tt
    poll-IsLead (suc n) count w =
        on_state-IsLead (poll b n) n count (read_state b w).1 (read_state b w).0
          (λ c v. poll-IsLead n c v)

    on_same-IsJustified :
        (s first : BackendState) (count : ℕ) (w : W) (same : Bool)
        → first.maintenance_running ≡ true
        → (same ≡ true → s.active ≡ true)
        → IsJustified
            (some (observed first))
            (on_same b s count w (cancelled count ∷ []) same).events
    unfolding on_same terminated_with
    on_same-IsJustified s first count w true h busy = (h, (tt, (inl (busy refl), tt)))
    on_same-IsJustified s first count w false h busy = (h, (tt, tt))

    escalate-IsJustified :
        (first : BackendState) (count : ℕ) (w : W) (o : Option BackendState)
        → first.maintenance_running ≡ true
        → IsJustified
            (some (observed first))
            (escalate b first count w (cancelled count ∷ []) o).events
    unfolding escalate
    escalate-IsJustified first count w none h = (h, tt)
    escalate-IsJustified first count w (some s) h =
        on_same-IsJustified s first count w
          (s.active && opt_text_eq s.query_start first.query_start) h λ same. ground (arith, same)

    after_grace-IsJustified :
        (s : BackendState) (count : ℕ) (w : W) (signal : Bool)
        → s.maintenance_running ≡ true
        → IsJustified (some (observed s)) (after_grace b s count w signal).events
    unfolding after_grace terminated_with
    after_grace-IsJustified s count w true h = (h, (tt, (tt, tt)))
    after_grace-IsJustified s count w false h = escalate-IsJustified s count _ _ h

    act_on-IsJustified :
        (mode : ShutdownMode) (s : BackendState) (count : ℕ) (w : W) (a : ShutdownAction)
        → plan_action mode count true ≡ a
        → worth_acting count s ≡ true
        → IsJustified (some (observed s)) (act_on b s count w a).events
    unfolding act_on cancel_then terminated_with worth_acting
    act_on-IsJustified mode s count w no_action h worth = tt
    act_on-IsJustified mode s count w terminate_backend h worth = (ground (arith, worth), tt)
    act_on-IsJustified mode s count w cancel_statement h worth =
        let planned = (plan_action_iff mode count true).1.0 h in
        after_grace-IsJustified s count _ _ (ground (arith, worth, planned.2))

    after_poll-After :
        (mode : ShutdownMode) (p : Polled W) (f : Found)
        → After f p.count (after_poll b mode p f).events
    unfolding after_poll After
    after_poll-After mode p nobody = refl
    after_poll-After mode p unreadable = refl
    after_poll-After mode p (target s) = act_on-IsJustified mode s p.count p.world _ refl

    -- Whatever came before a signal, for the signal the watcher cancels only directly after a look that found
    -- a VACUUM or ANALYZE running, and terminates only directly after a look that found the backend busy,
    -- or after a further signal in the grace period.
    pub handle_signal-IsJustified :
        (mode : ShutdownMode) (count : ℕ) (w : W) (before : Option Event)
        → IsJustified before (handle_signal b mode count w).events
    unfolding handle_signal IsLead
    handle_signal-IsJustified mode count w before =
        let p = poll b poll_attempts count w in
        poll-IsLead poll_attempts count w before (after_poll b mode p p.found).events
          (after_poll-After mode p p.found)
