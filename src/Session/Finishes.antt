-- ===== src/Session/Finishes.antt =====
-- Actions that come to an end: `Finishes P m Q` says that from a state with `P`, `m` does not run out
-- of fuel, and a result `a` comes with `Q a`.
use pg_maintainer.Prelude.{ℕ, ◌≡◌, refl, Bool, true, false}
use pg_maintainer.Session.{
  Server, State, Reply, got, refused, Event, Outcome, ok, fail, no_fuel, Action, LogLevel, pure,
  gets, call, log, modify_gate, or_context, ReplicaLagGate, when◌then◌else◌, continue, ◌>>=◌,
  sleep_or_shutdown,
}

abbrev pub Completes : {F W A : Type 0} → (A → State F W → Type 0) → Outcome A → State F W → Type 0
Completes Q (ok a) s = Q a s
Completes Q (fail e) s = Unit
Completes Q no_fuel s = ⊥

pub record Finishes {F W A : Type 0} (P : State F W → Type 0) (m : Action F W A)
    (Q : A → State F W → Type 0) : Type 0 where
  pub at : (s : State F W) → P s → Completes Q (m s).0 (m s).1

module _ {F W A : Type 0} {P : State F W → Type 0} {Q : A → State F W → Type 0} where
  pub Finishes-pure : (a : A) → ((s : State F W) → P s → Q a s) → Finishes P (pure a) Q
  unfolding pure
  Finishes-pure a h = record { at = h }

  pub Finishes-when :
      (b : Bool) (m n : Action F W A)
      → (b ≡ true → Finishes P m Q)
      → (b ≡ false → Finishes P n Q)
      → Finishes P (when b then m else n) Q
  unfolding when◌then◌else◌
  Finishes-when true m n hm hn = hm refl
  Finishes-when false m n hm hn = hn refl

  pub Finishes-from :
      {P' : State F W → Type 0} {m : Action F W A}
      → ((s : State F W) → P' s → P s)
      → Finishes P m Q
      → Finishes P' m Q
  Finishes-from h hm = record { at = λ s p. hm.at s (h s p) }

  pub Finishes-if_ever : {m : Action F W A} → ((s : State F W) → P s → ⊥) → Finishes P m Q
  Finishes-if_ever h = record { at = λ s p. elim (h s p) [ ] }

  -- an action whose result is an ok of a known value at every state
  pub Finishes-gets :
      (f : State F W → A) → ((s : State F W) → P s → Q (f s) s) → Finishes P (gets f) Q
  unfolding gets
  Finishes-gets f h = record { at = h }

module _ {F W A B : Type 0} {Q : A → State F W → Type 0} {Q' : B → State F W → Type 0} where
  Completes-continue :
      (r : Outcome A) (f : A → Action F W B)
      → ((a : A) → Finishes (Q a) (f a) Q')
      → (s : State F W) → Completes Q r s
      → Completes Q' (continue r f s).0 (continue r f s).1
  Completes-continue (ok a) f hf s h = (hf a).at s h
  Completes-continue (fail e) f hf s h = tt
  Completes-continue no_fuel f hf s h = elim h [ ]

  pub Finishes-bind :
      {P : State F W → Type 0} (m : Action F W A) (f : A → Action F W B)
      → Finishes P m Q
      → ((a : A) → Finishes (Q a) (f a) Q')
      → Finishes P (m >>= f) Q'
  unfolding ◌>>=◌
  Finishes-bind m f hm hf = record {
    at = λ s h. Completes-continue (m s).0 f hf (m s).1 (hm.at s h);
  }

-- What depends on the world only, and how the calls move it.
module _ {F W : Type 0} (T U : W → Type 0) where
  pub Finishes-call :
      {A : Type 0} (event : Event) (query : W → Reply A × W)
      → ((w : W) → T w → U (query w).1)
      → Finishes {F = F} (λ s. T s.world) (call event query) (λ r s. U s.world)
  unfolding call
  Finishes-call event query h = record { at = λ s t. h s.world t }

  pub Finishes-sleep :
      (server : Server F W) (ns : ℕ)
      → ((w : W) → T w → (server.sleep ns w).0 ≡ false → U (server.sleep ns w).1)
      → Finishes (λ s. T s.world) (sleep_or_shutdown server ns) (λ b s. b ≡ false → U s.world)
  unfolding sleep_or_shutdown
  Finishes-sleep server ns h = record { at = λ s t. h s.world t }

module _ {F W : Type 0} (T : W → Type 0) where
  pub Finishes-log :
      (level : LogLevel) → Finishes {F = F} (λ s. T s.world) (log level) (λ u s. T s.world)
  unfolding log
  Finishes-log level = record { at = λ s t. t }

  pub Finishes-modify_gate :
      (f : ReplicaLagGate F → ReplicaLagGate F)
      → Finishes (λ s. T s.world) (modify_gate f) (λ u s. T s.world)
  unfolding modify_gate
  Finishes-modify_gate f = record { at = λ s t. t }

  pub Finishes-or_context :
      {A : Type 0} (r : Reply A)
      → Finishes {F = F} (λ s. T s.world) (or_context r) (λ a s. T s.world)
  unfolding or_context
  Finishes-or_context (got a) = record { at = λ s t. t }
  Finishes-or_context (refused e) = record { at = λ s t. tt }
