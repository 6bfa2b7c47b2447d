-- ===== src/Logger/Calls.antt =====
-- Lemmas on runs of calls of the logger of src/logging.rs.
use pg_maintainer.Prelude.{
  Bool, Bool-cases, true, false, List, [], ◌∷◌, ◌++◌, Option, Text, ◌≡◌, refl, sym, ap, ◌∙◌, inl,
  inr, append_assoc, append-nil, if◌then◌else◌,
}
use pg_maintainer.Session.{LogLevel}
use pg_maintainer.Logger.{
  Logger, LogContext, LogEvent, LogFile, LoggerState, event_line, without_json, message_only,
  no_context, new_logger, ensure_file_handle, write_line, to_file, print, drop_logger,
  log_with_context, log_always,
}

-- A call of the logger: log_with_context, or log_always.
pub data Call (F : Type 0) : Type 0 where
  event : Text → LogLevel → Text → LogContext F → Call F
  always : Text → LogLevel → Text → Call F

-- A log file that opens and takes each line, where `kept` is what the file holds once its writer is
-- dropped.
pub record IsReliable {W : Type 0} (file : LogFile W) (kept : W → Text) : Type 0 where
  pub opens : (w : W) → (file.open_append w).0 ≡ true
  pub opened : (w : W) → kept (file.open_append w).1 ≡ kept w
  pub writes : (line : Text) (w : W) → (file.write_all line w).0 ≡ true
  pub written : (line : Text) (w : W) → kept (file.write_all line w).1 ≡ kept w ++ line
  pub flushed : (w : W) → kept (file.flush w).1 ≡ kept w
  pub closed : (w : W) → kept (file.close w) ≡ kept w

unfoldable pub texts : {F : Type 0} → (Call F → Text) → List (Call F) → Text
texts text_of [] = []
texts text_of (c ∷ cs) = text_of c ++ texts text_of cs

module _ {F : Type 0} (to_json : LogEvent F → Option Text) (l : Logger) where
  unfoldable pub line_of_call : Call F → Text
  line_of_call (event ts level message ctx) =
      event_line to_json l ts level message ctx (without_json ts level message)
  line_of_call (always ts level message) =
      event_line to_json l ts level message no_context (message_only message)

  -- Of an event, silence keeps the line from the console.
  unfoldable pub shown_of_call : Call F → Text
  shown_of_call (event ts level message ctx) =
      if l.silence_mode then [] else line_of_call (event ts level message ctx)
  shown_of_call (always ts level message) = line_of_call (always ts level message)

module _ {W F : Type 0} (to_json : LogEvent F → Option Text) (l : Logger) where
  unfoldable pub call : LogFile W → Call F → LoggerState W → LoggerState W
  call file (event ts level message ctx) s = log_with_context file to_json l ts level message ctx s
  call file (always ts level message) s = log_always file to_json l ts level message s

  unfoldable pub calls : LogFile W → List (Call F) → LoggerState W → LoggerState W
  calls file [] s = s
  calls file (c ∷ cs) s = calls file cs (call file c s)

module _ {W : Type 0} (file : LogFile W) where
  ensure_file_handle-stdout : (s : LoggerState W) → (ensure_file_handle file s).1.stdout ≡ s.stdout
  unfolding ensure_file_handle
  ensure_file_handle-stdout s = elim (Bool-cases s.has_handle) [
    | inl h ↦ rw h refl
    | inr h ↦ rw h refl
  ]

  write_line-stdout :
      (flushes : Bool) (line : Text) (s : LoggerState W)
      → (write_line file flushes line s).stdout ≡ s.stdout
  unfolding write_line
  write_line-stdout true line s = elim (Bool-cases (file.write_all line s.world).0) [
    | inl h ↦ rw h refl
    | inr h ↦ rw h refl
  ]
  write_line-stdout false line s = elim (Bool-cases (file.write_all line s.world).0) [
    | inl h ↦ rw h refl
    | inr h ↦ rw h refl
  ]

  -- Whatever the file does, writing to it leaves the console alone.
  to_file-stdout :
      (flushes : Bool) (line : Text) (s : LoggerState W)
      → (to_file file flushes line s).stdout ≡ s.stdout
  unfolding to_file
  to_file-stdout flushes line s = elim (Bool-cases (ensure_file_handle file s).0) [
    | inl h ↦
        rw h (
          write_line-stdout flushes line (ensure_file_handle file s).1
          ∙ ensure_file_handle-stdout s)
    | inr h ↦ rw h (ensure_file_handle-stdout s)
  ]

  module _ (kept : W → Text) (reliable : IsReliable file kept) where
    write_line-kept :
        (flushes : Bool) (line : Text) (s : LoggerState W)
        → kept (write_line file flushes line s).world ≡ kept s.world ++ line
    unfolding write_line
    write_line-kept true line s =
        rw (reliable.writes line s.world)
          (reliable.flushed (file.write_all line s.world).1 ∙ reliable.written line s.world)
    write_line-kept false line s = rw (reliable.writes line s.world) (reliable.written line s.world)

    to_file-kept :
        (flushes : Bool) (line : Text) (s : LoggerState W)
        → kept (to_file file flushes line s).world ≡ kept s.world ++ line
    unfolding to_file ensure_file_handle
    to_file-kept flushes line s = elim (Bool-cases s.has_handle) [
      | inl h ↦ rw h (write_line-kept flushes line (record s { has_handle = true }))
      | inr h ↦
          rw (h, reliable.opens s.world)
            (write_line-kept flushes line
                (record s { world = (file.open_append s.world).1; has_handle = true })
              ∙ ap (λ t. t ++ line) (reliable.opened s.world))
    ]

    drop_logger-kept : (s : LoggerState W) → kept (drop_logger file s).world ≡ kept s.world
    unfolding drop_logger
    drop_logger-kept s = elim (Bool-cases s.has_handle) [
      | inl h ↦ rw h (reliable.closed (file.flush s.world).1 ∙ reliable.flushed s.world)
      | inr h ↦ rw h refl
    ]

module _ {W F : Type 0} (file : LogFile W) (to_json : LogEvent F → Option Text) (l : Logger) where
  call-stdout :
      (c : Call F) (s : LoggerState W)
      → (call to_json l file c s).stdout ≡ s.stdout ++ shown_of_call to_json l c
  unfolding call shown_of_call line_of_call log_with_context log_always print
  call-stdout (event ts level message ctx) s = elim (Bool-cases l.silence_mode) [
    | inl h ↦ rw h (to_file-stdout file _ _ _ ∙ sym (append-nil s.stdout))
    | inr h ↦ rw h (to_file-stdout file _ _ _)
  ]
  call-stdout (always ts level message) s = to_file-stdout file _ _ _

  calls-stdout :
      (cs : List (Call F)) (s : LoggerState W)
      → (calls to_json l file cs s).stdout ≡ s.stdout ++ texts (shown_of_call to_json l) cs
  unfolding calls texts
  calls-stdout [] s = sym (append-nil s.stdout)
  calls-stdout (c ∷ cs) s =
      calls-stdout cs (call to_json l file c s)
      ∙ ap (λ t. t ++ texts (shown_of_call to_json l) cs) (call-stdout c s)
      ∙ append_assoc s.stdout (shown_of_call to_json l c) (texts (shown_of_call to_json l) cs)

  module _ (kept : W → Text) (reliable : IsReliable file kept) where
    call-kept :
        (c : Call F) (s : LoggerState W)
        → kept (call to_json l file c s).world ≡ kept s.world ++ line_of_call to_json l c
    unfolding call line_of_call log_with_context log_always print
    call-kept (event ts level message ctx) s = elim (Bool-cases l.silence_mode) [
      | inl h ↦ rw h (to_file-kept file kept reliable _ _ _)
      | inr h ↦ rw h (to_file-kept file kept reliable _ _ _)
    ]
    call-kept (always ts level message) s = to_file-kept file kept reliable _ _ _

    calls-kept :
        (cs : List (Call F)) (s : LoggerState W)
        → kept (calls to_json l file cs s).world ≡ kept s.world ++ texts (line_of_call to_json l) cs
    unfolding calls texts
    calls-kept [] s = sym (append-nil (kept s.world))
    calls-kept (c ∷ cs) s =
        calls-kept cs (call to_json l file c s)
        ∙ ap (λ t. t ++ texts (line_of_call to_json l) cs) (call-kept c s)
        ∙ append_assoc (kept s.world) (line_of_call to_json l c) (texts (line_of_call to_json l) cs)

    -- Where the log file opens and takes each line, then after any run of calls that starts with a
    -- new logger the console shows, in their order, the lines of the calls that silence lets through
    -- (all of log_always, and those of the events unless the logger is silent), and once the logger
    -- is dropped the file holds what it held before with the lines of all calls behind it, silent or
    -- not.
    pub calls-logged :
        (cs : List (Call F)) (w : W)
        → ((calls to_json l file cs (new_logger w)).stdout ≡ texts (shown_of_call to_json l) cs)
          × (kept (drop_logger file (calls to_json l file cs (new_logger w))).world
              ≡ kept w ++ texts (line_of_call to_json l) cs)
    unfolding new_logger
    calls-logged cs w = (
      calls-stdout cs (new_logger w),
      drop_logger-kept file kept reliable (calls to_json l file cs (new_logger w))
          ∙ calls-kept cs (new_logger w),
    )
