-- ===== src/Types/Modes.antt =====
-- The enumerations of src/types.rs that the command line and the configuration file spell out, with
-- their `Display` and their `FromStr`. An error of `FromStr` carries the input that it quotes.
pub mod Roundtrip
use pg_maintainer.Prelude.{Text, codes, text_eq, to_lowercase, if◌then◌else◌}

pub data Parsed (A : Type 0) : Type 0 where
  ok : A → Parsed A
  invalid : Text → Parsed A

pub data SslMode : Type 0 where
  disable require verify_ca verify_full : SslMode

pub data LogFormat : Type 0 where
  text json : LogFormat

pub data ShutdownMode : Type 0 where
  finish cancel terminate : ShutdownMode

pub data LogRotation : Type 0 where
  unrotated daily : LogRotation

pub data Mode : Type 0 where
  never_vacuumed never_analyzed prevent_wraparound prevent_bloat needs_vacuum vacuum_overdue
        analyze_overdue :
      Mode

pub data OrderBy : Type 0 where
  size last_maintained : OrderBy

unfoldable pub display_ssl_mode : SslMode → Text
display_ssl_mode SslMode.disable = codes "disable"
display_ssl_mode SslMode.require = codes "require"
display_ssl_mode SslMode.verify_ca = codes "verify-ca"
display_ssl_mode SslMode.verify_full = codes "verify-full"

unfoldable pub parse_ssl_mode : Text → Parsed SslMode
parse_ssl_mode s =
    let lower = to_lowercase s in
    if text_eq lower (codes "disable")
    then ok SslMode.disable
    else if text_eq lower (codes "require")
    then ok SslMode.require
    else if text_eq lower (codes "verify-ca")
    then ok SslMode.verify_ca
    else if text_eq lower (codes "verify-full")
    then ok SslMode.verify_full
    else invalid s

unfoldable pub display_log_format : LogFormat → Text
display_log_format LogFormat.text = codes "text"
display_log_format LogFormat.json = codes "json"

unfoldable pub parse_log_format : Text → Parsed LogFormat
parse_log_format s =
    let lower = to_lowercase s in
    if text_eq lower (codes "text")
    then ok LogFormat.text
    else if text_eq lower (codes "json")
    then ok LogFormat.json
    else invalid s

unfoldable pub display_shutdown_mode : ShutdownMode → Text
display_shutdown_mode ShutdownMode.finish = codes "finish"
display_shutdown_mode ShutdownMode.cancel = codes "cancel"
display_shutdown_mode ShutdownMode.terminate = codes "terminate"

unfoldable pub parse_shutdown_mode : Text → Parsed ShutdownMode
parse_shutdown_mode s =
    let lower = to_lowercase s in
    if text_eq lower (codes "finish")
    then ok ShutdownMode.finish
    else if text_eq lower (codes "cancel")
    then ok ShutdownMode.cancel
    else if text_eq lower (codes "terminate")
    then ok ShutdownMode.terminate
    else invalid s

unfoldable pub display_log_rotation : LogRotation → Text
display_log_rotation LogRotation.unrotated = codes "none"
display_log_rotation LogRotation.daily = codes "daily"

unfoldable pub parse_log_rotation : Text → Parsed LogRotation
parse_log_rotation s =
    let lower = to_lowercase s in
    if text_eq lower (codes "none")
    then ok LogRotation.unrotated
    else if text_eq lower (codes "daily")
    then ok LogRotation.daily
    else invalid s

unfoldable pub display_mode : Mode → Text
display_mode Mode.never_vacuumed = codes "never-vacuumed"
display_mode Mode.never_analyzed = codes "never-analyzed"
display_mode Mode.prevent_wraparound = codes "prevent-wraparound"
display_mode Mode.prevent_bloat = codes "prevent-bloat"
display_mode Mode.needs_vacuum = codes "needs-vacuum"
display_mode Mode.vacuum_overdue = codes "vacuum-overdue"
display_mode Mode.analyze_overdue = codes "analyze-overdue"

unfoldable pub parse_mode : Text → Parsed Mode
parse_mode s =
    let lower = to_lowercase s in
    if text_eq lower (codes "never-vacuumed")
    then ok Mode.never_vacuumed
    else if text_eq lower (codes "never-analyzed")
    then ok Mode.never_analyzed
    else if text_eq lower (codes "prevent-wraparound")
    then ok Mode.prevent_wraparound
    else if text_eq lower (codes "prevent-bloat")
    then ok Mode.prevent_bloat
    else if text_eq lower (codes "needs-vacuum")
    then ok Mode.needs_vacuum
    else if text_eq lower (codes "vacuum-overdue")
    then ok Mode.vacuum_overdue
    else if text_eq lower (codes "analyze-overdue")
    then ok Mode.analyze_overdue
    else invalid s

unfoldable pub display_order_by : OrderBy → Text
display_order_by OrderBy.size = codes "size"
display_order_by OrderBy.last_maintained = codes "last-maintained"

unfoldable pub parse_order_by : Text → Parsed OrderBy
parse_order_by s =
    let lower = to_lowercase s in
    if text_eq lower (codes "size")
    then ok OrderBy.size
    else if text_eq lower (codes "last-maintained")
    then ok OrderBy.last_maintained
    else invalid s
