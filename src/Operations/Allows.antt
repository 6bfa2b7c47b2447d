-- ===== src/Operations/Allows.antt =====
-- What a policy lets a runner of src/operations.rs do: for a property of events (`Allows`), and for a
-- property of states that the calls keep (`Calls`). The lemmas on the runners take either.
use pg_maintainer.Prelude.{ℕ, ◌≡◌, false, All}
use pg_maintainer.Types.Options.{RunPolicy, OperationSummary}
use pg_maintainer.Session.{
  Event, read, logged, slept, terminated, recorded, LogEntry, LogLevel, State, Server, Reply,
  ReplicaLagGate, log, call, sleep_or_shutdown, modify_gate,
}
use pg_maintainer.Session.Preserves.{Preserves}
use pg_maintainer.Session.Keeps.{Keeps-log, Keeps-call, Keeps-sleep, Keeps-modify_gate}
use pg_maintainer.Session.Emits.{Emits-log, Emits-call, Emits-sleep, Emits-modify_gate}

pub record Allows (policy : RunPolicy) (E : Event → Type 0) : Type 0 where
  pub on_log : (level : LogLevel) → E (logged level)
  pub on_read : E read
  pub on_sleep : policy.dry_run ≡ false → (ns : ℕ) → E (slept ns)
  pub on_record : policy.dry_run ≡ false → (entry : LogEntry) → E (recorded entry)
  pub on_terminate :
      policy.dry_run ≡ false → policy.skip_active_vacuum ≡ false → (pid : ℕ) → E (terminated pid)

pub record Calls {F W : Type 0} (server : Server F W) (policy : RunPolicy) (P : State F W → Type 0)
    : Type 1 where
  pub on_log : (level : LogLevel) → Preserves P (log level)
  pub on_read : {A : Type 0} (query : W → Reply A × W) → Preserves P (call read query)
  pub on_sleep : policy.dry_run ≡ false → (ns : ℕ) → Preserves P (sleep_or_shutdown server ns)
  pub on_record :
      policy.dry_run ≡ false
      → (entry : LogEntry) (query : W → Reply (Unit {0}) × W)
      → Preserves P (call (recorded entry) query)
  pub on_gate : (f : ReplicaLagGate F → ReplicaLagGate F) → Preserves P (modify_gate f)

pub calls_of :
    {F W : Type 0} {server : Server F W} {policy : RunPolicy} {E : Event → Type 0}
    → Allows policy E
    → Calls server policy (λ s. All E s.trace)
calls_of allows = record {
  on_log = λ level. Emits-log level (allows.on_log level);
  on_read = λ query. Emits-call read query allows.on_read;
  on_sleep = λ live ns. Emits-sleep _ ns (allows.on_sleep live ns);
  on_record = λ live entry query. Emits-call _ query (allows.on_record live entry);
  on_gate = λ f. Emits-modify_gate f;
}

-- No call touches the summary.
pub calls_of_summary :
    {F W : Type 0} {server : Server F W} {policy : RunPolicy} (T : OperationSummary → Type 0)
    → Calls server policy (λ s. T s.summary)
calls_of_summary T = record {
  on_log = Keeps-log T;
  on_read = Keeps-call T read;
  on_sleep = λ live ns. Keeps-sleep T _ ns;
  on_record = λ live entry query. Keeps-call T _ query;
  on_gate = Keeps-modify_gate T;
}
