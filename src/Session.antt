-- ===== src/Session.antt =====
-- The session that src/operations.rs and src/main.rs work in: the server behind
-- `tokio_postgres::Client`, the clock and the shutdown channel as parameters, and the state that the
-- program itself keeps. An action is a function of that state; `?` is `Outcome.fail`.

pub mod Preserves
pub mod Emits
pub mod Leads
pub mod Keeps
pub mod Finishes
use pg_maintainer.Prelude.{ℕ, ◌+◌, Bool, true, false, List, ◌∷◌, Option, none, some, Text}
use pg_maintainer.Prelude.Int.{ℤ}
use pg_maintainer.Types.Options.{OperationSummary}
use pg_maintainer.Types.Tables.{TableKey}
use pg_maintainer.Types.Blockers.{XminHorizonBlocker}
use pg_maintainer.DbError.{PgError, Failure, with_context, formatted}

-- What a statement gives back: a value or the driver's error.
pub data Reply (A : Type 0) : Type 0 where
  got : A → Reply A
  refused : PgError → Reply A

-- `LogEntry`, a row of the logbook.
pub record LogEntry : Type 0 where
  pub schema : Text
  pub table : Text
  pub operation : Text
  pub mode : Text
  pub status : Text
  pub dead_tuples_before : Option ℤ
  pub dead_tuples_reduced_approx : Option ℤ
  pub duration_ms : ℕ
  pub error_message : Option Text

-- `StandbyLag`; lags are floating-point seconds of the type `F`.
pub record StandbyLag (F : Type 0) : Type 0 where
  pub application_name : Text
  pub state : Text
  pub sync_state : Text
  pub replay_lag_seconds : Option F

-- What the code uses of `f64`: zero, `f64::max` and `>`.
pub record Float (F : Type 0) : Type 0 where
  pub zero_seconds : F
  pub max : F → F → F
  pub gt : F → F → Bool

-- The server, the clock and the signals, as functions of a world `W` that each call moves on.
-- `sleep` is the `select!` of a sleep against the shutdown channel, true if the channel came first.
pub record Server (F W : Type 0) : Type 0 where
  pub is_closed : W → Bool
  pub shutdown_requested : W → Bool
  pub now_ns : W → ℕ
  pub sleep : ℕ → W → Bool × W
  pub find_active_vacuums : TableKey → W → Reply (List (ℕ × Text)) × W
  pub terminate_backend : ℕ → W → Reply (Unit {0}) × W
  pub dead_tuple_count : TableKey → W → Reply ℤ × W
  pub execute : Text → W → Reply (Unit {0}) × W
  pub insert_log : LogEntry → W → Reply (Unit {0}) × W
  pub can_read_replication : W → Reply Bool × W
  pub replication_lag : W → Reply (List (StandbyLag F)) × W
  pub can_read_activity : W → Reply Bool × W
  pub xmin_blockers : W → Reply (List XminHorizonBlocker) × W

-- `ReplicaLagGate`; the three atomics are fields.
pub record ReplicaLagGate (F : Type 0) : Type 0 where
  pub threshold_seconds : F
  pub max_wait_seconds : ℕ
  pub poll_interval_seconds : ℕ
  pub disabled : Bool
  pub total_waited_ms : ℕ
  pub tables_skipped : ℕ

pub data LogLevel : Type 0 where
  info success warning error : LogLevel

-- What the run has done so far, one entry for each call that leaves the program.
pub data Event : Type 0 where
  -- a line of the log
  logged : LogLevel → Event
  -- a query that reads catalogs, settings or statistics
  read : Event
  -- pg_terminate_backend
  terminated : ℕ → Event
  -- VACUUM or ANALYZE of a table, with the SQL text
  maintained : TableKey → Text → Event
  -- a row for the logbook
  recorded : LogEntry → Event
  -- a sleep, in nanoseconds
  slept : ℕ → Event

pub record State (F W : Type 0) : Type 0 where
  pub world : W
  pub lag_gate : Option (ReplicaLagGate F)
  pub summary : OperationSummary
  -- the newest first
  pub trace : List Event

-- How an action ends; `no_fuel` is no end that the program has.
pub data Outcome (A : Type 0) : Type 0 where
  ok : A → Outcome A
  fail : Failure → Outcome A
  no_fuel : Outcome A

abbrev pub Action : (F W A : Type 0) → Type 0
Action F W A = State F W → Outcome A × State F W

module _ {F W A : Type 0} where
  unfoldable pub pure : A → Action F W A
  pure a s = (ok a, s)

  unfoldable pub raise : Failure → Action F W A
  raise e s = (fail e, s)

  unfoldable pub gets : (State F W → A) → Action F W A
  gets f s = (ok (f s), s)

  unfoldable pub stuck : Action F W A
  stuck s = (no_fuel, s)

  -- A call of the server: the world moves on and the trace grows by the call.
  unfoldable pub call : Event → (W → Reply A × W) → Action F W (Reply A)
  call event query s =
      let (r, w) = query s.world in (ok r, record s { world = w; trace = event ∷ s.trace })

  -- `if` between actions
  infix 1 when◌then◌else◌
  unfoldable pub when◌then◌else◌ : Bool → Action F W A → Action F W A → Action F W A
  when true then m else n = m
  when false then m else n = n

  -- `.context("…")?`
  unfoldable pub or_context : Reply A → Action F W A
  or_context (got a) s = (ok a, s)
  or_context (refused e) s = (fail (with_context e), s)

  -- `.map_err(|e| anyhow!("… {e}"))?`
  unfoldable pub or_formatted : Reply A → Action F W A
  or_formatted (got a) s = (ok a, s)
  or_formatted (refused e) s = (fail (formatted e), s)

module _ {F W A B : Type 0} where
  abbrev pub continue : Outcome A → (A → Action F W B) → Action F W B
  continue (ok a) f s = f a s
  continue (fail e) f s = (fail e, s)
  continue no_fuel f s = (no_fuel, s)

  infixl 10 ◌>>=◌ ◌>>◌
  unfoldable pub ◌>>=◌ : Action F W A → (A → Action F W B) → Action F W B
  unfolding when◌then◌else◌ pure raise gets stuck call or_context or_formatted
  ◌>>=◌ m f s = let (r, s') = m s in continue r f s'

  abbrev pub ◌>>◌ : Action F W A → Action F W B → Action F W B
  m >> n = m >>= λ _. n

module _ {F W A B : Type 0} where
  -- `?` on a driver error inside a function that returns one
  unfoldable pub and_then : Action F W (Reply A) → (A → Action F W (Reply B)) → Action F W (Reply B)
  and_then m f = m >>= λ r. elim r [ got a ↦ f a | refused e ↦ pure (refused e) ]

module _ {F W : Type 0} where
  unfoldable pub log : LogLevel → Action F W (Unit {0})
  log level s = (ok tt, record s { trace = logged level ∷ s.trace })

  unfoldable pub count_succeeded : Action F W (Unit {0})
  count_succeeded s =
      (ok tt, record s { summary = record (s.summary) { succeeded = s.summary.succeeded + 1 } })

  unfoldable pub count_failed : Action F W (Unit {0})
  count_failed s =
      (ok tt, record s { summary = record (s.summary) { failed = s.summary.failed + 1 } })

  unfoldable pub count_skipped : Action F W (Unit {0})
  count_skipped s =
      (ok tt, record s { summary = record (s.summary) { skipped = s.summary.skipped + 1 } })

  unfoldable pub set_summary : OperationSummary → Action F W (Unit {0})
  set_summary summary s = (ok tt, record s { summary = summary })

  -- A write through `&ReplicaLagGate`.
  unfoldable pub modify_gate : (ReplicaLagGate F → ReplicaLagGate F) → Action F W (Unit {0})
  modify_gate f s =
      (ok tt, record s { lag_gate = elim s.lag_gate [ none ↦ none | some g ↦ some (f g) ] })

  unfoldable pub sleep_or_shutdown : Server F W → ℕ → Action F W Bool
  sleep_or_shutdown server ns s =
      let (stopped, w) = server.sleep ns s.world in
      (ok stopped, record s { world = w; trace = slept ns ∷ s.trace })
