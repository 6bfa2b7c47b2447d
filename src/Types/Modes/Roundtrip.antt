-- ===== src/Types/Modes/Roundtrip.antt =====
-- Lemmas on Display and FromStr of the enumerations of src/types.rs.
use mathlib.Core.Path.{subst}
use pg_maintainer.Prelude.{
  ◌≡◌, refl, ◌↔◌, Bool, true, false, arith, Text, codes, text_eq, text_eq_iff, to_lowercase,
  if◌then◌else◌,
}
use pg_maintainer.Types.Modes.{
  Parsed, ok, invalid, SslMode, LogFormat, ShutdownMode, LogRotation, Mode, OrderBy,
  display_ssl_mode, parse_ssl_mode, display_log_format, parse_log_format, display_shutdown_mode,
  parse_shutdown_mode, display_log_rotation, parse_log_rotation, display_mode, parse_mode,
  display_order_by, parse_order_by,
}

-- The text names `m` exactly when its lower case is what `m` prints.
pub parse_ssl_mode_iff :
    (s : Text) (m : SslMode) → (parse_ssl_mode s ≡ ok m) ↔ (to_lowercase s ≡ display_ssl_mode m)
unfolding parse_ssl_mode display_ssl_mode
parse_ssl_mode_iff s SslMode.disable = ground (
  arith,
  text_eq_iff (to_lowercase s) (codes "disable"),
  text_eq_iff (to_lowercase s) (codes "require"),
  text_eq_iff (to_lowercase s) (codes "verify-ca"),
  text_eq_iff (to_lowercase s) (codes "verify-full"),
)
parse_ssl_mode_iff s SslMode.require = ground (
  arith,
  text_eq_iff (to_lowercase s) (codes "disable"),
  text_eq_iff (to_lowercase s) (codes "require"),
  text_eq_iff (to_lowercase s) (codes "verify-ca"),
  text_eq_iff (to_lowercase s) (codes "verify-full"),
)
parse_ssl_mode_iff s SslMode.verify_ca = ground (
  arith,
  text_eq_iff (to_lowercase s) (codes "disable"),
  text_eq_iff (to_lowercase s) (codes "require"),
  text_eq_iff (to_lowercase s) (codes "verify-ca"),
  text_eq_iff (to_lowercase s) (codes "verify-full"),
)
parse_ssl_mode_iff s SslMode.verify_full = ground (
  arith,
  text_eq_iff (to_lowercase s) (codes "disable"),
  text_eq_iff (to_lowercase s) (codes "require"),
  text_eq_iff (to_lowercase s) (codes "verify-ca"),
  text_eq_iff (to_lowercase s) (codes "verify-full"),
)

-- The text names `m` exactly when its lower case is what `m` prints.
pub parse_log_format_iff :
    (s : Text) (m : LogFormat)
    → (parse_log_format s ≡ ok m) ↔ (to_lowercase s ≡ display_log_format m)
unfolding parse_log_format display_log_format
parse_log_format_iff s LogFormat.text = ground (
  arith,
  text_eq_iff (to_lowercase s) (codes "text"),
  text_eq_iff (to_lowercase s) (codes "json"),
)
parse_log_format_iff s LogFormat.json = ground (
  arith,
  text_eq_iff (to_lowercase s) (codes "text"),
  text_eq_iff (to_lowercase s) (codes "json"),
)

-- The text names `m` exactly when its lower case is what `m` prints.
pub parse_shutdown_mode_iff :
    (s : Text) (m : ShutdownMode)
    → (parse_shutdown_mode s ≡ ok m) ↔ (to_lowercase s ≡ display_shutdown_mode m)
unfolding parse_shutdown_mode display_shutdown_mode
parse_shutdown_mode_iff s ShutdownMode.finish = ground (
  arith,
  text_eq_iff (to_lowercase s) (codes "finish"),
  text_eq_iff (to_lowercase s) (codes "cancel"),
  text_eq_iff (to_lowercase s) (codes "terminate"),
)
parse_shutdown_mode_iff s ShutdownMode.cancel = ground (
  arith,
  text_eq_iff (to_lowercase s) (codes "finish"),
  text_eq_iff (to_lowercase s) (codes "cancel"),
  text_eq_iff (to_lowercase s) (codes "terminate"),
)
parse_shutdown_mode_iff s ShutdownMode.terminate = ground (
  arith,
  text_eq_iff (to_lowercase s) (codes "finish"),
  text_eq_iff (to_lowercase s) (codes "cancel"),
  text_eq_iff (to_lowercase s) (codes "terminate"),
)

-- The text names `m` exactly when its lower case is what `m` prints.
pub parse_log_rotation_iff :
    (s : Text) (m : LogRotation)
    → (parse_log_rotation s ≡ ok m) ↔ (to_lowercase s ≡ display_log_rotation m)
unfolding parse_log_rotation display_log_rotation
parse_log_rotation_iff s LogRotation.unrotated = ground (
  arith,
  text_eq_iff (to_lowercase s) (codes "none"),
  text_eq_iff (to_lowercase s) (codes "daily"),
)
parse_log_rotation_iff s LogRotation.daily = ground (
  arith,
  text_eq_iff (to_lowercase s) (codes "none"),
  text_eq_iff (to_lowercase s) (codes "daily"),
)

-- An accepted mode prints as the lower case of its text.
abbrev NamedBy : Text → Parsed Mode → Type 0
NamedBy s (ok m) = to_lowercase s ≡ display_mode m
NamedBy s (invalid t) = Unit

ladder :
    (s : Text) (b : Bool) (x y : Parsed Mode)
    → (b ≡ true → NamedBy s x)
    → NamedBy s y
    → NamedBy s (if b then x else y)
ladder s true x y hx hy = hx refl
ladder s false x y hx hy = hy

parse_mode-NamedBy : (s : Text) → NamedBy s (parse_mode s)
unfolding parse_mode display_mode
parse_mode-NamedBy s = ladder s _ _ _ (text_eq_iff (to_lowercase s) (codes "never-vacuumed")).0 (
    ladder s _ _ _ (text_eq_iff (to_lowercase s) (codes "never-analyzed")).0 (
      ladder s _ _ _ (text_eq_iff (to_lowercase s) (codes "prevent-wraparound")).0 (
        ladder s _ _ _ (text_eq_iff (to_lowercase s) (codes "prevent-bloat")).0 (
          ladder s _ _ _ (text_eq_iff (to_lowercase s) (codes "needs-vacuum")).0 (
            ladder s _ _ _ (text_eq_iff (to_lowercase s) (codes "vacuum-overdue")).0
              (ladder s _ _ _ (text_eq_iff (to_lowercase s) (codes "analyze-overdue")).0 (tt)))))))

parse_mode-display : (s : Text) (m : Mode) → to_lowercase s ≡ display_mode m → parse_mode s ≡ ok m
unfolding parse_mode display_mode text_eq
parse_mode-display s Mode.never_vacuumed h = rw h
parse_mode-display s Mode.never_analyzed h = rw h
parse_mode-display s Mode.prevent_wraparound h = rw h
parse_mode-display s Mode.prevent_bloat h = rw h
parse_mode-display s Mode.needs_vacuum h = rw h
parse_mode-display s Mode.vacuum_overdue h = rw h
parse_mode-display s Mode.analyze_overdue h = rw h

-- A text is read as the mode `m` exactly when its lower case is what `m` prints.
pub parse_mode_iff :
    (s : Text) (m : Mode) → (parse_mode s ≡ ok m) ↔ (to_lowercase s ≡ display_mode m)
parse_mode_iff s m = (λ h. subst (NamedBy s) h (parse_mode-NamedBy s), parse_mode-display s m)

-- The text names `m` exactly when its lower case is what `m` prints.
pub parse_order_by_iff :
    (s : Text) (m : OrderBy) → (parse_order_by s ≡ ok m) ↔ (to_lowercase s ≡ display_order_by m)
unfolding parse_order_by display_order_by
parse_order_by_iff s OrderBy.size = ground (
  arith,
  text_eq_iff (to_lowercase s) (codes "size"),
  text_eq_iff (to_lowercase s) (codes "last-maintained"),
)
parse_order_by_iff s OrderBy.last_maintained = ground (
  arith,
  text_eq_iff (to_lowercase s) (codes "size"),
  text_eq_iff (to_lowercase s) (codes "last-maintained"),
)

-- For each of the six enumerations, a text is read as a value exactly when its lower case is what the
-- value prints.
pub enumerations_iff :
    (s : Text)
    → ((m : SslMode) → (parse_ssl_mode s ≡ ok m) ↔ (to_lowercase s ≡ display_ssl_mode m))
      × ((m : ShutdownMode)
          → (parse_shutdown_mode s ≡ ok m) ↔ (to_lowercase s ≡ display_shutdown_mode m))
      × ((m : Mode) → (parse_mode s ≡ ok m) ↔ (to_lowercase s ≡ display_mode m))
      × ((m : LogFormat) → (parse_log_format s ≡ ok m) ↔ (to_lowercase s ≡ display_log_format m))
      × ((m : LogRotation)
          → (parse_log_rotation s ≡ ok m) ↔ (to_lowercase s ≡ display_log_rotation m))
      × ((m : OrderBy) → (parse_order_by s ≡ ok m) ↔ (to_lowercase s ≡ display_order_by m))
enumerations_iff s = (
  parse_ssl_mode_iff s,
  parse_shutdown_mode_iff s,
  parse_mode_iff s,
  parse_log_format_iff s,
  parse_log_rotation_iff s,
  parse_order_by_iff s,
)
