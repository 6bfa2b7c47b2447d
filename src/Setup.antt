-- ===== src/Setup.antt =====
-- The set-up of a run: connect of src/connection.rs with the session settings, the advisory lock and
-- the explicit tables of src/operations.rs, ensure_logbook_schema of src/schema.rs, and main's steps
-- between them. The server is a record of functions of a world that each call moves on.
pub mod Steps
pub mod Logbook
pub mod Schemas
pub mod Prepare
pub mod Ensures
pub mod Kept
pub mod Guarded
use pg_maintainer.Prelude.{
  ℕ, Bool, true, false, List, [], ◌∷◌, Option, none, some, Text, Result, done, error,
}
use pg_maintainer.Prelude.Int.{ℤ}
use pg_maintainer.Types.Tables.{TableKey}

pub data SetupError : Type 0 where
  query_failed is_standby no_user_schemas no_schemas lock_held : SetupError
  unsupported_version : ℤ → SetupError

-- What the set-up has done: statements that were sent, and the answers of the server to the two
-- queries of the advisory lock, each with what was asked.
pub data Sent : Type 0 where
  statement : Text → Sent
  hashed : Text → ℤ → Sent
  lock_answered : ℤ → Bool → Sent

pub record SetupState (W : Type 0) : Type 0 where
  pub world : W
  pub sent : List Sent

-- The queries of the set-up; `none` is an error of the driver.
pub record Link (W : Type 0) : Type 0 where
  pub execute : Text → W → Option (Unit {0}) × W
  pub server_version_num : W → Option ℤ × W
  pub is_in_recovery : W → Option Bool × W
  pub backend_pid : W → Option ℤ × W
  pub discover_all_user_schemas : W → Option (List Text) × W
  pub hashtext : Text → W → Option ℤ × W
  pub try_advisory_lock : ℤ → W → Option Bool × W
  pub schema_exists : Text → W → Option Bool × W
  pub shared_buffers : W → Option ℕ × W
  pub max_parallel_workers : W → Option ℕ × W
  pub existing_tables : List TableKey → W → Option (List TableKey) × W

abbrev pub Setup : Type 0 → Type 0 → Type 0
Setup W A = SetupState W → Result SetupError A × SetupState W

unfoldable pub answered : {A : Type 0} → Option A → Result SetupError A
answered none = error query_failed
answered (some a) = done a

unfoldable pub ok_of : {A : Type 0} → Result SetupError A → Option A
ok_of (done a) = some a
ok_of (error e) = none

module _ {W A : Type 0} where
  unfoldable pub give : A → Setup W A
  give a s = (done a, s)

  unfoldable pub ask : (W → Option A × W) → Setup W A
  ask query s = let (o, w) = query s.world in (answered o, record s { world = w })

  -- a `match` whose error branch only warns
  unfoldable pub attempt : Setup W A → Setup W (Option A)
  attempt m s = let (r, t) = m s in (done (ok_of r), t)

module _ {W A B : Type 0} where
  unfoldable pub continue : Result SetupError A → (A → Setup W B) → Setup W B
  continue (done a) k s = k a s
  continue (error e) k s = (error e, s)

  infixl 10 ◌>>=◌ ◌>>◌
  unfoldable pub ◌>>=◌ : Setup W A → (A → Setup W B) → Setup W B
  ◌>>=◌ m k s = let (r, t) = m s in continue r k t

  abbrev pub ◌>>◌ : Setup W A → Setup W B → Setup W B
  m >> n = m >>= λ _. n

module _ {W : Type 0} where
  -- `if !test { return Err(e) }`
  unfoldable pub check : Bool → SetupError → Setup W (Unit {0})
  check true e s = (done tt, s)
  check false e s = (error e, s)

  unfoldable pub note : Sent → Setup W (Unit {0})
  note e s = (done tt, record s { sent = e ∷ s.sent })

  unfoldable pub send : Link W → Text → Setup W (Unit {0})
  send link sql = note (statement sql) >> ask (link.execute sql)

  unfoldable pub when_some : {A : Type 0} → Option A → (A → Setup W (Unit {0})) → Setup W (Unit {0})
  when_some none k = give tt
  when_some (some a) k = k a

module _ {W : Type 0} where
  -- a query with its answer on the record
  unfoldable pub ask_recorded : {A : Type 0} → (A → Sent) → (W → Option A × W) → Setup W A
  ask_recorded event query = ask query >>= λ a. (note (event a) >> give a)

  -- `SELECT hashtext($1)::int`
  unfoldable pub ask_hashtext : Link W → Text → Setup W ℤ
  ask_hashtext link text = ask_recorded (hashed text) (link.hashtext text)

  -- `SELECT pg_try_advisory_lock($1::int)`
  unfoldable pub ask_advisory_lock : Link W → ℤ → Setup W Bool
  ask_advisory_lock link lock_id =
      ask_recorded (lock_answered lock_id) (link.try_advisory_lock lock_id)
