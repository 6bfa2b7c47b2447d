-- ===== src/Logger.antt =====
-- src/logging.rs: one line of the log for each event, to the console and to the log file. The log file
-- is a record of functions of a world that each call moves on; the clock's text and the JSON of an
-- event are arguments.
pub mod Calls
use pg_maintainer.Prelude.{
  ℕ, Bool, true, false, not, ◌&&◌, List, [], ◌∷◌, ◌++◌, Option, none, some, Text, codes, decimal,
  if◌then◌else◌,
}
use pg_maintainer.Prelude.Int.{ℤ}
use pg_maintainer.Session.{LogLevel}

unfoldable pub as_str : LogLevel → Text
as_str LogLevel.info = codes "INFO"
as_str LogLevel.warning = codes "WARN"
as_str LogLevel.error = codes "ERROR"
as_str LogLevel.success = codes "SUCCESS"

pub record LogContext (F : Type 0) : Type 0 where
  pub schema : Option Text
  pub table_name : Option Text
  pub operation : Option Text
  pub status : Option Text
  pub duration_secs : Option F
  pub xid_age : Option ℤ
  pub error : Option Text

pub record LogEvent (F : Type 0) : Type 0 where
  pub timestamp : Text
  pub level : Text
  pub message : Text
  pub context : LogContext F

pub record Logger : Type 0 where
  pub silence_mode : Bool
  pub json_mode : Bool

-- The log file: whether it could be opened, whether a write or a flush succeeded, and what dropping
-- the buffered writer leaves.
pub record LogFile (W : Type 0) : Type 0 where
  pub open_append : W → Bool × W
  pub write_all : Text → W → Bool × W
  pub flush : W → Bool × W
  pub close : W → W

pub record LoggerState (W : Type 0) : Type 0 where
  pub world : W
  pub has_handle : Bool
  pub stdout : Text

unfoldable pub no_context : {F : Type 0} → LogContext F
no_context = record {
  schema = none;
  table_name = none;
  operation = none;
  status = none;
  duration_secs = none;
  xid_age = none;
  error = none;
}

unfoldable pub text_line : Text → LogLevel → Text → Text
text_line ts level message =
    codes "[" ++ (ts ++ (codes "] [" ++ (as_str level ++ (codes "] " ++ (message ++ codes "\n")))))

-- What stands for an event that has no JSON.
unfoldable pub without_json : Text → LogLevel → Text → Text
without_json ts level message =
    codes "{\"timestamp\":\""
    ++ (ts
        ++ (codes "\",\"level\":\""
            ++ (as_str level ++ (codes "\",\"message\":\"" ++ (message ++ codes "\"}")))))

unfoldable pub message_only : Text → Text
message_only message = codes "{\"message\":\"" ++ (message ++ codes "\"}")

module _ {F : Type 0} where
  unfoldable pub event_of : Text → LogLevel → Text → LogContext F → LogEvent F
  event_of ts level message ctx = record {
    timestamp = ts;
    level = as_str level;
    message = message;
    context = ctx;
  }

  -- `to_json` is `serde_json::to_string(_).ok()`.
  unfoldable pub event_line :
      (LogEvent F → Option Text) → Logger → Text → LogLevel → Text → LogContext F → Text → Text
  event_line to_json l ts level message ctx otherwise =
      if l.json_mode
      then elim (to_json (event_of ts level message ctx)) [
        | none ↦ otherwise ++ codes "\n"
        | some json ↦ json ++ codes "\n"
      ]
      else text_line ts level message

unfoldable pub is_error : LogLevel → Bool
is_error LogLevel.info = false
is_error LogLevel.warning = false
is_error LogLevel.error = true
is_error LogLevel.success = false

module _ {W : Type 0} where
  unfoldable pub new_logger : W → LoggerState W
  new_logger w = record { world = w; has_handle = false; stdout = [] }

  unfoldable pub ensure_file_handle : LogFile W → LoggerState W → Bool × LoggerState W
  ensure_file_handle file s =
      if s.has_handle
      then (true, s)
      else (let (opened, w) = file.open_append s.world in
          (opened, record s { world = w; has_handle = opened }))

  -- A write that fails drops the writer, and the next line opens the file again.
  unfoldable pub write_line : LogFile W → Bool → Text → LoggerState W → LoggerState W
  write_line file flushes line s =
      let (ok, w) = file.write_all line s.world in
      if ok
      then (if flushes then record s { world = (file.flush w).1 } else record s { world = w })
      else record s { world = file.close w; has_handle = false }

  unfoldable pub to_file : LogFile W → Bool → Text → LoggerState W → LoggerState W
  to_file file flushes line s =
      let (ready, t) = ensure_file_handle file s in
      if ready then write_line file flushes line t else t

  unfoldable pub print : Text → LoggerState W → LoggerState W
  print line s = record s { stdout = s.stdout ++ line }

  unfoldable pub drop_logger : LogFile W → LoggerState W → LoggerState W
  drop_logger file s =
      if s.has_handle
      then record s { world = file.close (file.flush s.world).1; has_handle = false }
      else s

module _ {W F : Type 0} (file : LogFile W) (to_json : LogEvent F → Option Text) (l : Logger) where
  unfoldable pub log_with_context :
      Text → LogLevel → Text → LogContext F → LoggerState W → LoggerState W
  log_with_context ts level message ctx s =
      let line = event_line to_json l ts level message ctx (without_json ts level message) in
      to_file file (is_error level) line (if l.silence_mode then s else print line s)

  unfoldable pub log_always : Text → LogLevel → Text → LoggerState W → LoggerState W
  log_always ts level message s =
      let line = event_line to_json l ts level message no_context (message_only message) in
      to_file file false line (print line s)

  unfoldable pub log_table_start : Text → ℕ → ℕ → Text → Text → Text → LoggerState W → LoggerState W
  log_table_start ts num total schema table op =
      log_with_context ts LogLevel.info
        (codes "["
          ++ (decimal num
              ++ (codes "/"
                  ++ (decimal total
                      ++ (codes "] Starting "
                          ++ (op
                              ++ (codes " on \""
                                  ++ (schema ++ (codes "\".\"" ++ (table ++ codes "\""))))))))))
        (record no_context {
          schema = some schema;
          table_name = some table;
          operation = some op;
          status = some (codes "starting");
        })

  -- `secs` is the duration in seconds, `shown` its text with two decimals.
  unfoldable pub log_table_success :
      Text → Text → Text → Text → F → Text → LoggerState W → LoggerState W
  log_table_success ts schema table op secs shown =
      log_with_context ts LogLevel.success
        (codes "Completed "
          ++ (op
              ++ (codes " on \""
                  ++ (schema ++ (codes "\".\"" ++ (table ++ (codes "\" in " ++ shown)))))))
        (record no_context {
          schema = some schema;
          table_name = some table;
          operation = some op;
          status = some (codes "success");
          duration_secs = some secs;
        })

  unfoldable pub log_table_failed : Text → Text → Text → Text → Text → LoggerState W → LoggerState W
  log_table_failed ts schema table op reason =
      log_with_context ts LogLevel.error
        (codes "Failed "
          ++ (op
              ++ (codes " on \""
                  ++ (schema ++ (codes "\".\"" ++ (table ++ (codes "\" — " ++ reason)))))))
        (record no_context {
          schema = some schema;
          table_name = some table;
          operation = some op;
          status = some (codes "failed");
          error = some reason;
        })
