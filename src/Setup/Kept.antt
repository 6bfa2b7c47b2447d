-- ===== src/Setup/Kept.antt =====
-- Lemmas on the session settings and the logbook, src/main.rs and src/schema.rs.
use pg_maintainer.Prelude.{Bool, true, false, List, ◌∷◌, Option, ℕ, Text}
use pg_maintainer.Types.Throttle.{ThrottleSettings}
use pg_maintainer.Setup.{Sent, Link}
use pg_maintainer.Setup.Steps.{
  session_settings, set_maintenance_work_mem, set_vacuum_cost_delay, set_vacuum_cost_limit,
  set_vacuum_buffer_usage_limit, set_max_parallel_maintenance_workers, set_lock_timeout,
}
use pg_maintainer.Setup.Logbook.{create_schema, ensure_logbook_schema}
use pg_maintainer.Setup.Ensures.{
  Stays, Stays-give, Stays-ask, Stays-bind, Stays-attempt, Stays-send, Stays-when_some,
}

module _ {W : Type 0} {P : List Sent → Type 0}
    (later : (e : Sent) (l : List Sent) → P l → P (e ∷ l)) (link : Link W) where
  create_schema-Stays : (exists : Bool) → Stays P (create_schema link exists)
  unfolding create_schema
  create_schema-Stays true = Stays-give later tt
  create_schema-Stays false = Stays-send later link _

  pub ensure_logbook_schema-Stays : Stays P (ensure_logbook_schema link)
  unfolding ensure_logbook_schema
  ensure_logbook_schema-Stays = Stays-bind later _ _ (Stays-ask later _) λ exists.
      Stays-bind later _ _
        (Stays-bind later _ _
          (Stays-bind later _ _
            (Stays-bind later _ _
              (Stays-bind later _ _
                (Stays-bind later _ _ (create_schema-Stays exists) λ u. Stays-send later link _)
                λ u. Stays-send later link _)
              λ u. Stays-send later link _)
            λ u. Stays-attempt later _ (Stays-send later link _))
          λ u. Stays-attempt later _ (Stays-send later link _))
        λ u. Stays-give later _

  set_vacuum_buffer_usage_limit-Stays : Stays P (set_vacuum_buffer_usage_limit link)
  unfolding set_vacuum_buffer_usage_limit
  set_vacuum_buffer_usage_limit-Stays =
      Stays-bind later _ _ (Stays-ask later _)
        λ bytes. Stays-bind later _ _ (Stays-send later link _) λ u. Stays-give later _

  set_max_parallel_maintenance_workers-Stays :
      (requested : Option ℕ) → Stays P (set_max_parallel_maintenance_workers link requested)
  unfolding set_max_parallel_maintenance_workers
  set_max_parallel_maintenance_workers-Stays requested =
      Stays-bind later _ _ (Stays-ask later _)
        λ pool. Stays-bind later _ _ (Stays-send later link _) λ u. Stays-give later _

  pub session_settings-Stays :
      {F : Type 0} (print : F → Text) (work_mem_gb : ℕ) (throttle : ThrottleSettings F)
      → (parallel : Option ℕ) (lock_timeout_ms : ℕ)
      → Stays P (session_settings link print work_mem_gb throttle parallel lock_timeout_ms)
  unfolding session_settings set_maintenance_work_mem set_vacuum_cost_delay set_vacuum_cost_limit
      set_lock_timeout
  session_settings-Stays print work_mem_gb throttle parallel lock_timeout_ms =
      Stays-bind later _ _
        (Stays-bind later _ _
          (Stays-bind later _ _
            (Stays-bind later _ _
              (Stays-bind later _ _ (Stays-send later link _)
                λ u. Stays-when_some later throttle.cost_delay_ms _ (λ d. Stays-send later link _))
              λ u. Stays-when_some later throttle.cost_limit _ (λ d. Stays-send later link _))
            λ u. Stays-attempt later _ set_vacuum_buffer_usage_limit-Stays)
          λ u. Stays-attempt later _ (set_max_parallel_maintenance_workers-Stays parallel))
        λ u. Stays-send later link _
