-- ===== src/Session/Leads.antt =====
-- What an action leads to: `Leads P m Q R` says that from a state with `P`, a result `a` of `m` comes
-- with `Q a`, and a failure with `R`. One rule for each way to build an action.
use pg_maintainer.Prelude.{◌≡◌, refl, Bool, true, false}
use pg_maintainer.DbError.{Failure}
use pg_maintainer.Session.{
  Server, State, Outcome, ok, fail, no_fuel, Action, pure, raise, gets, stuck, when◌then◌else◌,
  continue, ◌>>=◌, sleep_or_shutdown,
}
use pg_maintainer.Session.Preserves.{Preserves}

abbrev pub Ends :
    {F W A : Type 0}
    → (A → State F W → Type 0)
    → (State F W → Type 0)
    → Outcome A
    → State F W
    → Type 0
Ends Q R (ok a) s = Q a s
Ends Q R (fail e) s = R s
Ends Q R no_fuel s = R s

pub record Leads {F W A : Type 0} (P : State F W → Type 0) (m : Action F W A)
    (Q : A → State F W → Type 0) (R : State F W → Type 0) : Type 0 where
  pub at : (s : State F W) → P s → Ends Q R (m s).0 (m s).1

module _ {F W A : Type 0} {P R : State F W → Type 0} {Q : A → State F W → Type 0} where
  pub Leads-pure : (a : A) → ((s : State F W) → P s → Q a s) → Leads P (pure a) Q R
  unfolding pure
  Leads-pure a h = record { at = h }

  pub Leads-raise : (e : Failure) → ((s : State F W) → P s → R s) → Leads P (raise {A = A} e) Q R
  unfolding raise
  Leads-raise e h = record { at = h }

  pub Leads-stuck : ((s : State F W) → P s → R s) → Leads P (stuck {A = A}) Q R
  unfolding stuck
  Leads-stuck h = record { at = h }

  pub Leads-when :
      (b : Bool) (m n : Action F W A)
      → (b ≡ true → Leads P m Q R)
      → (b ≡ false → Leads P n Q R)
      → Leads P (when b then m else n) Q R
  unfolding when◌then◌else◌
  Leads-when true m n hm hn = hm refl
  Leads-when false m n hm hn = hn refl

module _ {F W A : Type 0} {P R : State F W → Type 0} where
  Ends-kept :
      (r : Outcome A) (s : State F W)
      → ((s : State F W) → P s → R s)
      → P s
      → Ends (λ a s. P s) R r s
  Ends-kept (ok a) s weaken h = h
  Ends-kept (fail e) s weaken h = weaken s h
  Ends-kept no_fuel s weaken h = weaken s h

  -- An action that preserves `P` leads to it.
  pub Leads-kept :
      (m : Action F W A) → ((s : State F W) → P s → R s) → Preserves P m → Leads P m (λ a s. P s) R
  Leads-kept m weaken hm = record { at = λ s h. Ends-kept (m s).0 (m s).1 weaken (hm.at s h) }

module _ {F W A B : Type 0} {R : State F W → Type 0} {Q : A → State F W → Type 0}
    {Q' : B → State F W → Type 0} where
  Ends-continue :
      (r : Outcome A) (f : A → Action F W B)
      → ((a : A) → Leads (Q a) (f a) Q' R)
      → (s : State F W) → Ends Q R r s
      → Ends Q' R (continue r f s).0 (continue r f s).1
  Ends-continue (ok a) f hf s h = (hf a).at s h
  Ends-continue (fail e) f hf s h = h
  Ends-continue no_fuel f hf s h = h

  pub Leads-bind :
      {P : State F W → Type 0} (m : Action F W A) (f : A → Action F W B)
      → Leads P m Q R
      → ((a : A) → Leads (Q a) (f a) Q' R)
      → Leads P (m >>= f) Q' R
  unfolding ◌>>=◌
  Leads-bind m f hm hf = record { at = λ s h. Ends-continue (m s).0 f hf (m s).1 (hm.at s h) }

module _ {F W A B : Type 0} {P R : State F W → Type 0} {Q' : B → State F W → Type 0} where
  -- A value that is read, with a fact that holds of what can be read.
  pub Leads-gets :
      (value : State F W → A) (f : A → Action F W B) (Fact : A → Type 0)
      → ((s : State F W) → Fact (value s))
      → ((a : A) → Fact a → Leads P (f a) Q' R)
      → Leads P (gets value >>= f) Q' R
  unfolding ◌>>=◌ gets
  Leads-gets value f Fact fact hf = record { at = λ s h. (hf (value s) (fact s)).at s h }

module _ {F W B : Type 0} (server : Server F W) {P R : State F W → Type 0}
    {Q' : B → State F W → Type 0} where
  -- A sleep, with a fact that holds of its result.
  pub Leads-sleep :
      (ns : _) (f : Bool → Action F W B) (Fact : Bool → Type 0)
      → ((w : W) → Fact (server.sleep ns w).0)
      → Preserves P (sleep_or_shutdown server ns)
      → ((b : Bool) → Fact b → Leads P (f b) Q' R)
      → Leads P (sleep_or_shutdown server ns >>= f) Q' R
  unfolding ◌>>=◌ sleep_or_shutdown
  Leads-sleep ns f Fact fact kept hf = record {
    at = λ s h. (hf (server.sleep ns s.world).0 (fact s.world)).at _ (kept.at s h);
  }

module _ {F W A : Type 0} {P P' R : State F W → Type 0} {Q : A → State F W → Type 0}
    {m : Action F W A} where
  pub Leads-from : ((s : State F W) → P' s → P s) → Leads P m Q R → Leads P' m Q R
  Leads-from h hm = record { at = λ s p. hm.at s (h s p) }

module _ {F W A : Type 0} {Q Q' : A → State F W → Type 0} where
  Ends-to :
      (R : State F W → Type 0) (r : Outcome A) (s : State F W)
      → ((a : A) (s : State F W) → Q a s → Q' a s)
      → Ends Q R r s
      → Ends Q' R r s
  Ends-to R (ok a) s h e = h a s e
  Ends-to R (fail f) s h e = e
  Ends-to R no_fuel s h e = e

  pub Leads-to :
      {P R : State F W → Type 0} {m : Action F W A}
      → ((a : A) (s : State F W) → Q a s → Q' a s)
      → Leads P m Q R
      → Leads P m Q' R
  Leads-to {R = R} {m = m} h hm = record { at = λ s p. Ends-to R (m s).0 (m s).1 h (hm.at s p) }
