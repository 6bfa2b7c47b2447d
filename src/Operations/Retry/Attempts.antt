-- ===== src/Operations/Retry/Attempts.antt =====
-- Lemmas on with_lock_timeout_retry of src/operations.rs.
use pg_maintainer.Prelude.{ℕ, zero, suc, ◌+◌, ◌≤◌, Bool, true, false, List, [], ◌∷◌, Text, arith}
use pg_maintainer.Types.Options.{RunPolicy}
use pg_maintainer.Types.Tables.{TableKey}
use pg_maintainer.Session.{
  Server, State, Event, logged, read, terminated, maintained, recorded, slept, LogLevel, Outcome,
  ok, fail, no_fuel, Reply, got, refused, Action, warning, when◌then◌else◌, pure, gets, call, log,
  sleep_or_shutdown, and_then, continue, ◌>>=◌,
}
use pg_maintainer.Operations.Statements.{counted_statement, plain_statement}
use pg_maintainer.Operations.Retry.{doubled, after_attempt, retry_loop, with_lock_timeout_retry}

-- The statements of a trace.
abbrev pub sent : List Event → ℕ
sent [] = 0
sent (maintained t sql ∷ es) = suc (sent es)
sent (logged level ∷ es) = sent es
sent (read ∷ es) = sent es
sent (terminated pid ∷ es) = sent es
sent (recorded entry ∷ es) = sent es
sent (slept ns ∷ es) = sent es

-- `m` sends at most `n` statements.
pub record Sends {F W A : Type 0} (n : ℕ) (m : Action F W A) : Type 0 where
  pub at : (s : State F W) → sent (m s).1.trace ≤ sent s.trace + n

module _ {F W A B : Type 0} where
  Sends-continue :
      (n : ℕ) (r : Outcome A) (f : A → Action F W B)
      → ((a : A) → Sends n (f a))
      → (s : State F W) → sent (continue r f s).1.trace ≤ sent s.trace + n
  Sends-continue n (ok a) f hf s = (hf a).at s
  Sends-continue n (fail e) f hf s = omega arith
  Sends-continue n no_fuel f hf s = omega arith

  Sends-bind :
      (k n t : ℕ)
      → k + n ≤ t
      → (m : Action F W A) (f : A → Action F W B) → Sends k m
      → ((a : A) → Sends n (f a))
      → Sends t (m >>= f)
  unfolding ◌>>=◌
  Sends-bind k n t fits m f hm hf = record {
    at = λ s. omega (arith, fits, hm.at s, Sends-continue n (m s).0 f hf (m s).1);
  }

module _ {F W A : Type 0} where
  Sends-more : (k n : ℕ) (m : Action F W A) → k ≤ n → Sends k m → Sends n m
  Sends-more k n m le h = record { at = λ s. omega (arith, h.at s) }

  Sends-pure : (a : A) → Sends {F = F} {W = W} 0 (pure a)
  unfolding pure
  Sends-pure a = record { at = λ s. omega arith }

  Sends-when :
      (n : ℕ) (b : Bool) (m m' : Action F W A)
      → Sends n m
      → Sends n m'
      → Sends n (when b then m else m')
  unfolding when◌then◌else◌
  Sends-when n true m m' h h' = h
  Sends-when n false m m' h h' = h'

  Sends-gets : (f : State F W → A) → Sends 0 (gets f)
  unfolding gets
  Sends-gets f = record { at = λ s. omega arith }

module _ {F W A : Type 0} where
  Sends-read : (query : W → Reply A × W) → Sends {F = F} 0 (call read query)
  unfolding call
  Sends-read query = record { at = λ s. omega arith }

  Sends-maintained :
      (t : TableKey) (sql : Text) (query : W → Reply A × W)
      → Sends {F = F} 1 (call (maintained t sql) query)
  unfolding call
  Sends-maintained t sql query = record { at = λ s. omega arith }

module _ {F W : Type 0} where
  Sends-log : (level : LogLevel) → Sends {F = F} {W = W} 0 (log level)
  unfolding log
  Sends-log level = record { at = λ s. omega arith }

  Sends-sleep : (server : Server F W) (ns : ℕ) → Sends 0 (sleep_or_shutdown server ns)
  unfolding sleep_or_shutdown
  Sends-sleep server ns = record { at = λ s. omega arith }

module _ {F W A B : Type 0} where
  Sends-and_then :
      (k n t : ℕ)
      → k + n ≤ t
      → (m : Action F W (Reply A)) (f : A → Action F W (Reply B)) → Sends k m
      → ((a : A) → Sends n (f a))
      → Sends t (and_then m f)
  unfolding and_then
  Sends-and_then k n t fits m f hm hf = Sends-bind k n t fits m _ hm (λ r. on_answer r)
    where
      on_answer : (r : Reply A) → Sends n (elim r [ got a ↦ f a | refused e ↦ pure (refused e) ])
      on_answer (got a) = hf a
      on_answer (refused e) = Sends-more 0 n _ (omega arith) (Sends-pure (refused e))

module _ {F W A : Type 0} (server : Server F W) (op : Action F W (Reply A))
    (once : Sends 1 op) where
  after_attempt-Sends :
      (n delay : ℕ) (again : Action F W (Reply A)) (r : Reply A)
      → Sends n again
      → Sends n (after_attempt server delay again r)
  unfolding after_attempt
  after_attempt-Sends n delay again (got a) h = Sends-more 0 n _ (omega arith) (Sends-pure (got a))
  after_attempt-Sends n delay again (refused e) h =
      let ends = Sends-more 0 n (pure (refused e)) (omega arith) (Sends-pure (refused e)) in
      Sends-bind 0 n n (omega arith) _ _ (Sends-gets _) λ shutdown. Sends-when n _ _ _ ends (
        Sends-bind 0 n n (omega arith) _ _ (Sends-log warning) λ logged.
          Sends-bind 0 n n (omega arith) _ _ (Sends-sleep server _)
            λ stopped. Sends-when n _ _ _ ends h)

  retry_loop-Sends : (left delay : ℕ) → Sends (left + 1) (retry_loop server op left delay)
  unfolding retry_loop
  retry_loop-Sends zero delay = once
  retry_loop-Sends (suc left) delay =
      Sends-bind 1 (left + 1) (suc left + 1) (omega arith) op _ once
        λ r. after_attempt-Sends (left + 1) delay _ r (retry_loop-Sends left (doubled delay))

module _ {F W : Type 0} (server : Server F W) (t : TableKey) (sql : Text) where
  counted_statement-Sends : Sends 1 (counted_statement server t sql)
  unfolding counted_statement
  counted_statement-Sends = Sends-and_then 0 1 1 (omega arith) _ _ (Sends-read _) λ before.
      Sends-and_then 1 0 1 (omega arith) _ _ (Sends-maintained t sql _)
        λ done. Sends-and_then 0 0 0 (omega arith) _ _ (Sends-read _) λ after. Sends-pure _

  plain_statement-Sends : Sends 1 (plain_statement server t sql)
  unfolding plain_statement
  plain_statement-Sends =
      Sends-and_then 1 0 1 (omega arith) _ _ (Sends-maintained t sql _) λ done. Sends-pure _

  -- A statement on a table, with dead-tuple counts or without, is sent at most once more than there
  -- are retries, whatever the server answers.
  pub with_lock_timeout_retry_lem :
      (policy : RunPolicy) (s : State F W)
      → (sent (with_lock_timeout_retry server (counted_statement server t sql) policy s).1.trace
          ≤ sent s.trace + (policy.lock_timeout_retries + 1))
        × (sent (with_lock_timeout_retry server (plain_statement server t sql) policy s).1.trace
            ≤ sent s.trace + (policy.lock_timeout_retries + 1))
  unfolding with_lock_timeout_retry
  with_lock_timeout_retry_lem policy s = (
    (retry_loop-Sends server _ counted_statement-Sends policy.lock_timeout_retries _).at s,
    (retry_loop-Sends server _ plain_statement-Sends policy.lock_timeout_retries _).at s,
  )
