-- ===== src/DbError.antt =====
-- src/db_error.rs: which errors mean that the session is gone, and the exit code of a fatal error.
-- What the code observes of a driver error is its closed flag, its SQLSTATE and, along its sources,
-- the kinds of the I/O errors.
pub mod Codes
use pg_maintainer.Prelude.{
  ℕ, Bool, true, false, ◌||◌, List, [], ◌∷◌, ◌++◌, Option, none, some, Text, codes, text_eq,
  text_mem, if◌then◌else◌,
}

-- `std::io::ErrorKind`; the kinds that the code does not name are one.
pub data ErrorKind : Type 0 where
  broken_pipe connection_reset connection_aborted : ErrorKind
  unexpected_eof not_connected timed_out other_kind : ErrorKind

-- A `tokio_postgres::Error`, by what the code asks of it. A source that is no I/O error is `none`. The code
-- is that of the server's error, `as_db_error`, and is there just when that is; `server_message` is then
-- the server's message. `source_text` is the Display of the first source, `message` that of the error.
pub record PgError : Type 0 where
  pub closed : Bool
  pub code : Option Text
  pub server_message : Text
  pub source_text : Option Text
  pub sources : List (Option ErrorKind)
  pub message : Text

-- `ConnectionLost`
pub record ConnectionLost : Type 0 where
  pub operation : Text
  pub schema : Text
  pub table : Text
  pub position : Option (ℕ × ℕ)
  pub cause : Text

-- One error of an `anyhow` chain.
pub data Cause : Type 0 where
  lost : ConnectionLost → Cause
  pg : PgError → Cause
  io : ErrorKind → Cause
  message : Cause

-- An `anyhow::Error`: its chain, the outermost context first.
abbrev pub Failure : Type 0
Failure = List Cause

unfoldable pub starts_with_08 : Text → Bool
starts_with_08 (a ∷ b ∷ t) = text_eq (a ∷ b ∷ []) (codes "08")
starts_with_08 _ = false

unfoldable pub sqlstate_is_connection_loss : Text → Bool
unfolding starts_with_08
sqlstate_is_connection_loss c =
    starts_with_08 c
    || text_mem c (codes "57P01" ∷ codes "57P02" ∷ codes "57P03" ∷ codes "57P05" ∷ [])

unfoldable pub io_kind_is_connection_loss : ErrorKind → Bool
io_kind_is_connection_loss other_kind = false
io_kind_is_connection_loss _ = true

unfoldable pub any_source_lost : List (Option ErrorKind) → Bool
unfolding io_kind_is_connection_loss
any_source_lost [] = false
any_source_lost (none ∷ rest) = any_source_lost rest
any_source_lost (some k ∷ rest) = io_kind_is_connection_loss k || any_source_lost rest

-- The closed flag, then the SQLSTATE where there is one, then the sources.
unfoldable pub is_connection_lost_pg : PgError → Bool
unfolding sqlstate_is_connection_loss any_source_lost
is_connection_lost_pg e =
    if e.closed
    then true
    else elim e.code [ some c ↦ sqlstate_is_connection_loss c | none ↦ any_source_lost e.sources ]

unfoldable pub format_server_cause : Text → Text → Text
format_server_cause text sqlstate = text ++ (codes " (SQLSTATE " ++ (sqlstate ++ codes ")"))

unfoldable pub describe_pg_error : PgError → Text
describe_pg_error e = elim e.code [
  | some c ↦ format_server_cause e.server_message c
  | none ↦ elim e.source_text [
    | some source ↦ e.message ++ (codes ": " ++ source)
    | none ↦ e.message
  ]
]

unfoldable pub is_cause_lost : Cause → Bool
unfolding is_connection_lost_pg io_kind_is_connection_loss
is_cause_lost (lost c) = true
is_cause_lost (pg e) = is_connection_lost_pg e
is_cause_lost (io k) = io_kind_is_connection_loss k
is_cause_lost message = false

unfoldable pub is_connection_lost : Failure → Bool
unfolding is_cause_lost
is_connection_lost [] = false
is_connection_lost (c ∷ cs) = is_cause_lost c || is_connection_lost cs

unfoldable pub exit_code_for : Failure → ℕ
exit_code_for e = if is_connection_lost e then 3 else 1

abbrev source_causes : List (Option ErrorKind) → Failure
source_causes [] = []
source_causes (none ∷ rest) = message ∷ source_causes rest
source_causes (some k ∷ rest) = io k ∷ source_causes rest

-- A driver error under a context: `.context("…")?`. The chain goes on through its sources.
unfoldable pub with_context : PgError → Failure
with_context e = message ∷ pg e ∷ source_causes e.sources

-- A driver error that is formatted into a new message, `anyhow!("… {e}")`, leaves only that message.
unfoldable pub formatted : PgError → Failure
formatted e = message ∷ []
