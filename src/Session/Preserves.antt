-- ===== src/Session/Preserves.antt =====
-- Invariants of actions: `Preserves P m` says that `m` leads from states with `P` to states with `P`,
-- however it ends. One rule for each way to build an action.
use pg_maintainer.Prelude.{◌≡◌, refl, Bool, true, false, if◌then◌else◌}
use pg_maintainer.DbError.{Failure}
use pg_maintainer.Session.{
  State, Outcome, ok, fail, no_fuel, Action, Reply, got, refused, pure, raise, gets, stuck,
  or_context, when◌then◌else◌, or_formatted, continue, ◌>>=◌, and_then,
}

pub record Preserves {F W A : Type 0} (P : State F W → Type 0) (m : Action F W A) : Type 0 where
  pub at : (s : State F W) → P s → P (m s).1

module _ {F W A : Type 0} {P : State F W → Type 0} where
  pub Preserves-pure : (a : A) → Preserves P (pure a)
  unfolding pure
  Preserves-pure a = record { at = λ s h. h }

  pub Preserves-raise : (e : Failure) → Preserves P (raise {A = A} e)
  unfolding raise
  Preserves-raise e = record { at = λ s h. h }

  pub Preserves-gets : (f : State F W → A) → Preserves P (gets f)
  unfolding gets
  Preserves-gets f = record { at = λ s h. h }

  pub Preserves-or_context : (r : Reply A) → Preserves P (or_context r)
  unfolding or_context
  Preserves-or_context (got a) = record { at = λ s h. h }
  Preserves-or_context (refused e) = record { at = λ s h. h }

  pub Preserves-or_formatted : (r : Reply A) → Preserves P (or_formatted r)
  unfolding or_formatted
  Preserves-or_formatted (got a) = record { at = λ s h. h }
  Preserves-or_formatted (refused e) = record { at = λ s h. h }

  pub Preserves-when :
      (b : Bool) (m n : Action F W A)
      → (b ≡ true → Preserves P m)
      → (b ≡ false → Preserves P n)
      → Preserves P (when b then m else n)
  unfolding when◌then◌else◌
  Preserves-when true m n hm hn = hm refl
  Preserves-when false m n hm hn = hn refl

module _ {F W : Type 0} {P : State F W → Type 0} where
  pub Preserves-stuck : {A : Type 0} → Preserves P (stuck {A = A})
  unfolding stuck
  Preserves-stuck = record { at = λ s h. h }

module _ {F W A B : Type 0} {P : State F W → Type 0} where
  Preserves-continue :
      (r : Outcome A) (f : A → Action F W B)
      → ((a : A) → Preserves P (f a))
      → (s : State F W) → P s
      → P (continue r f s).1
  Preserves-continue (ok a) f hf s h = (hf a).at s h
  Preserves-continue (fail e) f hf s h = h
  Preserves-continue no_fuel f hf s h = h

  pub Preserves-bind :
      (m : Action F W A) (f : A → Action F W B)
      → Preserves P m
      → ((a : A) → Preserves P (f a))
      → Preserves P (m >>= f)
  unfolding ◌>>=◌
  Preserves-bind m f hm hf = record {
    at = λ s h. let (r, s') = m s in Preserves-continue r f hf s' (hm.at s h);
  }

module _ {F W A B : Type 0} {P : State F W → Type 0} where
  Preserves-reply :
      (f : A → Action F W (Reply B)) (r : Reply A)
      → ((a : A) → Preserves P (f a))
      → Preserves P (elim r [ got a ↦ f a | refused e ↦ pure (refused e) ])
  Preserves-reply f (got a) hf = hf a
  Preserves-reply f (refused e) hf = Preserves-pure (refused e)

  pub Preserves-and_then :
      (m : Action F W (Reply A)) (f : A → Action F W (Reply B))
      → Preserves P m
      → ((a : A) → Preserves P (f a))
      → Preserves P (and_then m f)
  unfolding and_then
  Preserves-and_then m f hm hf = Preserves-bind m _ hm (λ r. Preserves-reply f r hf)

pub ruleset preserves_rules = (
  Preserves-pure, Preserves-raise, Preserves-gets, Preserves-or_context, Preserves-or_formatted,
  Preserves-when, Preserves-stuck, Preserves-bind, Preserves-and_then,
)
