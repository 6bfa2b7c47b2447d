-- ===== src/Operations/Retry/Effects.antt =====
-- Lemmas on what with_lock_timeout_retry of src/operations.rs calls.
use pg_maintainer.Prelude.{ℕ, zero, suc, ◌≡◌, false}
use pg_maintainer.Types.Options.{RunPolicy}
use pg_maintainer.Session.{Server, State, Reply, got, refused, Action, warning}
use pg_maintainer.Session.Preserves.{
  Preserves, Preserves-bind, Preserves-when, Preserves-pure, Preserves-gets,
}
use pg_maintainer.Operations.Allows.{Calls}
use pg_maintainer.Operations.Retry.{doubled, after_attempt, retry_loop, with_lock_timeout_retry}

module _ {F W A : Type 0} (server : Server F W) {policy : RunPolicy} {P : State F W → Type 0}
    (calls : Calls server policy P) (live : policy.dry_run ≡ false) where
  open calls use {on_log, on_sleep}

  after_attempt-Preserves :
      (delay : ℕ) (again : Action F W (Reply A))
      → Preserves P again
      → (r : Reply A) → Preserves P (after_attempt server delay again r)
  unfolding after_attempt
  after_attempt-Preserves delay again h (got a) = Preserves-pure (got a)
  after_attempt-Preserves delay again h (refused e) =
      Preserves-bind _ _ (Preserves-gets _) λ shutdown.
        Preserves-when _ _ _ (λ final. Preserves-pure _)
          λ retry. Preserves-bind _ _ (on_log warning) λ logged.
            Preserves-bind _ _ (on_sleep live _)
              λ stopped. Preserves-when _ _ _ (λ signal. Preserves-pure _) λ quiet. h

  retry_loop-Preserves :
      (op : Action F W (Reply A))
      → Preserves P op
      → (left delay : ℕ) → Preserves P (retry_loop server op left delay)
  unfolding retry_loop
  retry_loop-Preserves op h zero delay = h
  retry_loop-Preserves op h (suc left) delay =
      Preserves-bind _ _ h
        (after_attempt-Preserves delay _ (retry_loop-Preserves op h left (doubled delay)))

  pub with_lock_timeout_retry-Preserves :
      (op : Action F W (Reply A))
      → Preserves P op
      → Preserves P (with_lock_timeout_retry server op policy)
  unfolding with_lock_timeout_retry
  with_lock_timeout_retry-Preserves op h = retry_loop-Preserves op h _ _
