-- ===== src/Setup/Logbook.antt =====
-- src/schema.rs: the statements of the logbook and ensure_logbook_schema.
use pg_maintainer.Prelude.{Bool, true, false, not, Text, codes, ◌++◌}
use pg_maintainer.Setup.{Link, Setup, give, ask, attempt, ◌>>=◌, ◌>>◌, send}

abbrev pub create_schema_sql : Text
create_schema_sql = codes "CREATE SCHEMA maintainer_logbook"

abbrev pub create_logbook_table_sql : Text
create_logbook_table_sql =
    codes "\n"
    ++ (codes "    CREATE TABLE IF NOT EXISTS maintainer_logbook.maintenance_logbook (\n"
        ++ (codes "        id                 BIGSERIAL PRIMARY KEY,\n"
            ++ (codes "        schema_name        VARCHAR(255) NOT NULL,\n"
                ++ (codes "        table_name         VARCHAR(255) NOT NULL,\n"
                    ++ (codes "        operation          VARCHAR(32)  NOT NULL,\n"
                        ++ (codes "        mode               VARCHAR(32)  NOT NULL,\n"
                            ++ (codes "        status             VARCHAR(16)  NOT NULL,\n"
                                ++ (codes "        dead_tuples_before BIGINT,\n"
                                    ++ (codes "        dead_tuples_removed BIGINT,\n"
                                        ++ (codes "        duration_ms        BIGINT,\n"
                                            ++ (codes "        error_message      TEXT,\n"
                                                ++ (codes
                                                      "        logged_at          TIMESTAMPTZ NOT NULL DEFAULT now(),\n"
                                                    ++ (codes
                                                          "        run_started_at     TIMESTAMPTZ NOT NULL\n"
                                                        ++ (codes "    )\n"))))))))))))))

abbrev pub create_index_table_sql : Text
create_index_table_sql =
    codes "\n"
    ++ (codes "    CREATE INDEX IF NOT EXISTS idx_maintenance_logbook_table\n"
        ++ (codes "        ON maintainer_logbook.maintenance_logbook (schema_name, table_name)\n"))

abbrev pub create_index_time_sql : Text
create_index_time_sql =
    codes "\n"
    ++ (codes "    CREATE INDEX IF NOT EXISTS idx_maintenance_logbook_logged_at\n"
        ++ (codes "        ON maintainer_logbook.maintenance_logbook (logged_at)\n"))

abbrev pub comment_before_sql : Text
comment_before_sql =
    codes
      "COMMENT ON COLUMN maintainer_logbook.maintenance_logbook.dead_tuples_before IS 'Approximate: pg_stat_user_tables.n_dead_tup read before the operation (a statistics estimate)'"

abbrev pub comment_removed_sql : Text
comment_removed_sql =
    codes
      "COMMENT ON COLUMN maintainer_logbook.maintenance_logbook.dead_tuples_removed IS 'Approximate: decrease in the n_dead_tup estimate across the operation, not an exact count of removed tuples'"

module _ {W : Type 0} (link : Link W) where
  unfoldable pub create_schema : Bool → Setup W (Unit {0})
  create_schema true = give tt
  create_schema false = send link create_schema_sql

  unfoldable pub ensure_logbook_schema : Setup W Bool
  ensure_logbook_schema = ask (link.schema_exists (codes "maintainer_logbook")) >>= λ exists.
      (create_schema exists
        >> send link create_logbook_table_sql
        >> send link create_index_table_sql
        >> send link create_index_time_sql
        >> attempt (send link comment_before_sql)
        >> attempt (send link comment_removed_sql)
        >> give (not exists))
