-- ===== src/Dsn/Redact/Keywords.antt =====
-- Lemmas on redact of src/dsn.rs for keyword strings.
use pg_maintainer.Prelude.{Text, if◌then◌else◌}
use pg_maintainer.Dsn.Redact.{mask, is_password}

-- A pair with its value masked if it is a password.
unfoldable pub masked : Text × Text → Text × Text
masked p = (p.0, if is_password p.0 then mask else p.1)
