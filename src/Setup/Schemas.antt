-- ===== src/Setup/Schemas.antt =====
-- Which schemas and which explicit tables a run is about.
use pg_maintainer.Prelude.{
  Bool, true, false, not, ◌&&◌, List, [], ◌∷◌, map, Option, none, some, unwrap_or, Text, codes,
  is_empty, text_eq, text_mem, filter_by, join,
}
use pg_maintainer.Types.Tables.{TableKey, key_mem}
use pg_maintainer.Types.Explicit.{trim}
use pg_maintainer.Dsn.Uri.{split_at}
use pg_maintainer.Setup.{
  Link, Setup, no_user_schemas, no_schemas, lock_held, give, ask, ask_hashtext, ask_advisory_lock,
  ◌>>=◌, ◌>>◌, check,
}

-- LOGBOOK_SCHEMA_NAME
abbrev pub logbook : Text
logbook = codes "maintainer_logbook"

-- the names of --schema
unfoldable pub requested_schemas : Text → List Text
requested_schemas s = filter_by (λ t. not (is_empty t)) (map trim (split_at b',' s))

unfoldable pub without_logbook : List Text → List Text
without_logbook = filter_by λ s. not (text_eq s logbook)

-- an entry of --also-tables that is in the schemas of the run
unfoldable pub in_scope : List Text → TableKey → Bool
in_scope schemas t = not (text_eq t.schema logbook) && text_mem t.schema schemas

module _ {W : Type 0} (link : Link W) where
  unfoldable pub discovered : Setup W (List Text)
  discovered = ask link.discover_all_user_schemas >>= λ schemas.
      (check (not (is_empty schemas)) no_user_schemas >> give schemas)

  unfoldable pub all_schemas : Bool → Option Text → Setup W (List Text)
  all_schemas true none = discovered
  all_schemas true (some s) = give (requested_schemas s)
  all_schemas false schema = give (requested_schemas (unwrap_or schema []))

  unfoldable pub try_acquire_schema_lock : List Text → Setup W (Unit {0})
  try_acquire_schema_lock schemas = ask_hashtext link (join (codes ",") schemas) >>= λ lock_id.
      (ask_advisory_lock link lock_id >>= λ acquired. check acquired lock_held)

  -- the schemas of the run, with their lock
  unfoldable pub locked_schemas : List Text → Setup W (List Text)
  locked_schemas schemas =
      check (not (is_empty schemas)) no_schemas >> try_acquire_schema_lock schemas >> give schemas

  unfoldable pub guarded_schemas : Bool → Option Text → Setup W (List Text)
  guarded_schemas discover schema =
      all_schemas discover schema >>= λ schemas. locked_schemas (without_logbook schemas)

  unfoldable pub resolve_in_scope : List TableKey → Setup W (List TableKey)
  resolve_in_scope [] = give []
  resolve_in_scope (t ∷ ts) = ask (link.existing_tables (t ∷ ts)) >>= λ existing.
      give (filter_by (λ k. key_mem k existing) (t ∷ ts))

  unfoldable pub resolve_explicit_tables : List TableKey → List Text → Setup W (List TableKey)
  resolve_explicit_tables requested schemas =
      resolve_in_scope (filter_by (in_scope schemas) requested)
