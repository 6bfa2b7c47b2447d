-- ===== src/Operations/Retry.antt =====
-- Errors of a table's statement in src/operations.rs: lock timeouts, their retries, and the
-- classification of an error.
pub mod Effects
pub mod Attempts
use pg_maintainer.Prelude.{
  ℕ, zero, suc, ◌-◌, ◌*◌, ◌^◌, min, Bool, false, ◌&&◌, ◌||◌, none, some, Text, codes, text_eq, not,
  if◌then◌else◌,
}
use pg_maintainer.Types.Options.{RunPolicy}
use pg_maintainer.DbError.{PgError, is_connection_lost_pg}
use pg_maintainer.Session.{
  when◌then◌else◌, Server, Reply, got, refused, warning, Action, pure, gets, ◌>>=◌, ◌>>◌, log,
  sleep_or_shutdown,
}

abbrev has_code : PgError → Text → Bool
has_code e wanted = elim e.code [ none ↦ false | some c ↦ text_eq c wanted ]

-- SQLSTATE 55P03
unfoldable pub is_lock_timeout : PgError → Bool
is_lock_timeout e = has_code e (codes "55P03")

pub data OpErrorKind : Type 0 where
  lock_timeout connection_lost shutdown_interrupted other : OpErrorKind

-- SQLSTATE 57014 is a cancelled query
unfoldable pub classify_op_error : PgError → Bool → OpErrorKind
classify_op_error e shutdown_requested =
    let lost = is_connection_lost_pg e in
    if shutdown_requested && (lost || has_code e (codes "57014"))
    then shutdown_interrupted
    else if lost
    then connection_lost
    else if is_lock_timeout e
    then lock_timeout
    else other

-- `saturating_mul(2)` on `u64`
unfoldable pub doubled : ℕ → ℕ
doubled delay_ms = min (delay_ms * 2) (2 ^ 64 - 1)

abbrev pub millisecond_ns : ℕ
millisecond_ns = 10 ^ 6

module _ {F W A : Type 0} (server : Server F W) where
  -- What follows an attempt that may be repeated: `again` is the next one.
  unfoldable pub after_attempt : ℕ → Action F W (Reply A) → Reply A → Action F W (Reply A)
  after_attempt delay_ms again (got a) = pure (got a)
  after_attempt delay_ms again (refused e) = do
    shutdown ← gets (λ s. server.shutdown_requested s.world)
    when not (is_lock_timeout e) || shutdown then pure (refused e) else do
      log warning
      stopped ← sleep_or_shutdown server (delay_ms * millisecond_ns)
      when stopped then pure (refused e) else again

module _ {F W A : Type 0} (server : Server F W) (op : Action F W (Reply A)) where
  -- The loop of with_lock_timeout_retry, by the retries that are left (`retries - attempt`).
  unfoldable pub retry_loop : ℕ → ℕ → Action F W (Reply A)
  retry_loop zero delay_ms = op
  retry_loop (suc left) delay_ms =
      let again = retry_loop left (doubled delay_ms) in op >>= after_attempt server delay_ms again

  unfoldable pub with_lock_timeout_retry : RunPolicy → Action F W (Reply A)
  with_lock_timeout_retry policy =
      retry_loop policy.lock_timeout_retries policy.lock_timeout_retry_delay_ms
