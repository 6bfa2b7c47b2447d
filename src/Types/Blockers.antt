-- ===== src/Types/Blockers.antt =====
-- XminHorizonBlocker of src/types.rs, and describe_xmin_blocker of src/operations.rs with its formats.
use pg_maintainer.Prelude.{
  ℕ, suc, ◌/◌, ◌%◌, [], ◌∷◌, ◌++◌, Option, none, some, Text, codes, decimal, ltb, unwrap_or,
  if◌then◌else◌,
}
use pg_maintainer.Prelude.Int.{ℤ, pos, negsuc}
use pg_maintainer.Prelude.{text_eq}

-- What holds the vacuum horizon back; a duration is in whole seconds, as the query gives it.
pub record XminHorizonBlocker : Type 0 where
  pub holder_type : Text
  pub identifier : Text
  pub detail : Option Text
  pub status : Option Text
  pub xid_age : ℤ
  pub xact_duration : Option ℕ
  pub query_duration : Option ℕ
  pub query_snippet : Option Text

-- `{n}` of an i64
unfoldable pub signed : ℤ → Text
signed (pos n) = decimal n
signed (negsuc n) = b'-' ∷ decimal (suc n)

unfoldable pub format_xid_age : ℤ → Text
format_xid_age age = signed age ++ codes " XIDs"

-- `{n:02}`
unfoldable pub two_digits : ℕ → Text
two_digits n = if ltb n 10 then b'0' ∷ decimal n else decimal n

unfoldable pub format_duration : ℕ → Text
format_duration total_secs =
    let hours = total_secs / 3600 in
    let minutes = (total_secs % 3600) / 60 in
    let secs = total_secs % 60 in
    if ltb 0 hours
    then decimal hours
      ++ (codes "h" ++ (two_digits minutes ++ (codes "m" ++ (two_digits secs ++ codes "s"))))
    else if ltb 0 minutes
    then decimal minutes ++ (codes "m" ++ (two_digits secs ++ codes "s"))
    else decimal secs ++ codes "s"

unfoldable pub describe_backend : XminHorizonBlocker → Option ℕ → Option ℕ → Text
describe_backend b (some xact) (some query) =
    let head =
      codes "backend PID "
      ++ (b.identifier ++ (codes " (" ++ unwrap_or b.detail (codes "<unknown>"))) in
    if text_eq (unwrap_or b.status (codes "unknown")) (codes "idle")
    then head
      ++ (codes "), idle in transaction "
          ++ (format_duration xact
              ++ (codes " (last query " ++ (format_duration query ++ codes " ago)"))))
    else head
      ++ (codes "), running for "
          ++ (format_duration xact ++ (codes ": " ++ unwrap_or b.query_snippet [])))
describe_backend b (some xact) none =
    codes "backend PID "
    ++ (b.identifier
        ++ (codes " ("
            ++ (unwrap_or b.detail (codes "<unknown>")
                ++ (codes "), transaction open for " ++ format_duration xact))))
describe_backend b none query = codes "backend PID " ++ b.identifier

unfoldable pub describe_xmin_blocker : XminHorizonBlocker → Text
describe_xmin_blocker b =
    if text_eq b.holder_type (codes "backend")
    then describe_backend b b.xact_duration b.query_duration
    else if text_eq b.holder_type (codes "replication_slot")
    then codes "replication slot '"
      ++ (b.identifier
          ++ (codes "' ("
              ++ (unwrap_or b.detail (codes "unknown")
                  ++ (codes ", active: "
                      ++ (unwrap_or b.status (codes "unknown")
                          ++ (codes "), XID age " ++ format_xid_age b.xid_age))))))
    else if text_eq b.holder_type (codes "prepared_xact")
    then codes "prepared transaction '"
      ++ (b.identifier
          ++ (codes "' (owner: "
              ++ (unwrap_or b.detail (codes "unknown")
                  ++ (codes "), XID age " ++ format_xid_age b.xid_age))))
    else b.holder_type ++ (codes " " ++ b.identifier)
