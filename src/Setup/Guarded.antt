-- ===== src/Setup/Guarded.antt =====
-- Lemmas on the lock and the explicit tables of a run that is set up, src/main.rs and src/operations.rs.
use mathlib.Core.Path.{subst}
use mathlib.Core.List.{Memᴰ}
use pg_maintainer.Prelude.{
  ◌≡◌, refl, Bool, Bool-cases, on_if, true, false, not, List, [], ◌∷◌, All, inl, inr, Option, Text,
  text_eq, text_mem, codes, join, is_empty, filter_by, done, arith,
}
use pg_maintainer.Prelude.Int.{ℤ}
use pg_maintainer.Types.Throttle.{ThrottleSettings}
use pg_maintainer.Types.Tables.{TableKey, key_mem}
use pg_maintainer.Cli.Args.{Args}
use pg_maintainer.Setup.{
  no_schemas, lock_held, Sent, hashed, lock_answered, ask_hashtext, ask_advisory_lock, check,
  SetupState, Link,
}
use pg_maintainer.Setup.Schemas.{
  logbook, without_logbook, in_scope, all_schemas, try_acquire_schema_lock, locked_schemas,
  guarded_schemas, resolve_in_scope, resolve_explicit_tables,
}
use pg_maintainer.Setup.Prepare.{with_schemas, prepare}
use pg_maintainer.Setup.Kept.{ensure_logbook_schema-Stays, session_settings-Stays}
use pg_maintainer.Setup.Ensures.{
  Yields, Ensures, Ensures-give, Ensures-ask, Ensures-bind, Ensures-any, Ensures-check,
  Ensures-weaken, Ensures-ask_recorded, Ensures-Stays, Stays-attempt,
}

-- The server has hashed the names to an id, and has answered to the lock of this id that it is granted.
abbrev pub IsGranted : List Text → List Sent → Type 0
IsGranted schemas sent =
    (lock_id : ℤ) × Memᴰ (hashed (join (codes ",") schemas) lock_id) sent
    × Memᴰ (lock_answered lock_id true) sent

-- There are schemas, the logbook's is not among them, and the lock for their joined names is granted.
abbrev pub IsLocked : List Text → List Sent → Type 0
IsLocked schemas sent =
    (is_empty schemas ≡ false) × (text_mem logbook schemas ≡ false) × IsGranted schemas sent

abbrev pub IsScoped : List Text → List TableKey → Type 0
IsScoped schemas = All λ t. (text_mem t.schema schemas ≡ true) × (text_eq t.schema logbook ≡ false)

text_mem-without_logbook : (ss : List Text) → text_mem logbook (without_logbook ss) ≡ false
unfolding without_logbook text_mem
text_mem-without_logbook [] = refl
text_mem-without_logbook (s ∷ ss) = elim (Bool-cases (text_eq s logbook)) [
  | inl same ↦ rw same (text_mem-without_logbook ss)
  | inr apart ↦ rw (apart, apart) (text_mem-without_logbook ss)
]

All-filter_by :
    {A : Type 0} (P : A → Type 0) (p : A → Bool) (xs : List A) → All P xs → All P (filter_by p xs)
All-filter_by P p [] h = tt
All-filter_by P p (x ∷ xs) (hx, h) =
    on_if (All P) (p x) _ _ (λ yes. (hx, All-filter_by P p xs h)) λ no. All-filter_by P p xs h

filter_by-IsScoped :
    (schemas : List Text) (ts : List TableKey) → IsScoped schemas (filter_by (in_scope schemas) ts)
unfolding in_scope
filter_by-IsScoped schemas [] = tt
filter_by-IsScoped schemas (t ∷ ts) =
    on_if (IsScoped schemas) (in_scope schemas t) _ _
      (λ yes. (ground (arith, yes), filter_by-IsScoped schemas ts))
      λ no. filter_by-IsScoped schemas ts

module _ {W : Type 0} (link : Link W) where
  try_acquire_schema_lock-Ensures :
      (P : List Sent → Type 0) (schemas : List Text)
      → ((e : Sent) (l : List Sent) → P l → P (e ∷ l))
      → Ensures P (try_acquire_schema_lock link schemas) (λ u l. P l × IsGranted schemas l)
  unfolding try_acquire_schema_lock ask_hashtext ask_advisory_lock
  try_acquire_schema_lock-Ensures P schemas later =
      let names = join (codes ",") schemas in
      Ensures-bind (λ id l. P l × Memᴰ (hashed names id) l) _ _ _
        (Ensures-ask_recorded (hashed names) (link.hashtext names) later)
        λ id.
          Ensures-bind (λ got l. (P l × Memᴰ (hashed names id) l) × Memᴰ (lock_answered id got) l) _
            _ _
            (Ensures-ask_recorded (lock_answered id) (link.try_advisory_lock id)
              λ e l p. (later e l p.0, Memᴰ.tail p.1))
            λ got.
              Ensures-weaken _ _ (check got lock_held) (Ensures-check got lock_held) λ u l p.
                (p.0.0.0, (id, p.0.0.1, subst (λ b. Memᴰ (lock_answered id b) l) p.1 p.0.1))

  locked_schemas-Ensures :
      (schemas : List Text)
      → text_mem logbook schemas ≡ false
      → Ensures (λ l. Unit) (locked_schemas link schemas) IsLocked
  unfolding locked_schemas
  locked_schemas-Ensures schemas clean =
      let filled = λ (l : List Sent). Unit × (not (is_empty schemas) ≡ true) in
      Ensures-bind (λ u l. filled l × IsGranted schemas l) _ _ _
        (Ensures-bind (λ u l. filled l) _ _ _ (Ensures-check (not (is_empty schemas)) no_schemas)
          λ u. try_acquire_schema_lock-Ensures filled schemas (λ e l p. p))
        λ u. Ensures-give IsLocked schemas λ l p. (ground (arith, p.0.1), clean, p.1)

  guarded_schemas-Ensures :
      (discover : Bool) (schema : Option Text)
      → Ensures (λ l. Unit) (guarded_schemas link discover schema) IsLocked
  unfolding guarded_schemas
  guarded_schemas-Ensures discover schema =
      Ensures-bind (λ ss l. Unit) _ _ _ (Ensures-any _ (all_schemas link discover schema))
        λ ss. locked_schemas-Ensures (without_logbook ss) (text_mem-without_logbook ss)

  resolve_in_scope-Ensures :
      (P : List Sent → Type 0) (schemas : List Text) (ts : List TableKey)
      → IsScoped schemas ts
      → Ensures P (resolve_in_scope link ts) (λ r l. P l × IsScoped schemas r)
  unfolding resolve_in_scope
  resolve_in_scope-Ensures P schemas [] h = Ensures-give _ [] λ l p. (p, tt)
  resolve_in_scope-Ensures P schemas (t ∷ ts) h =
      Ensures-bind (λ existing l. P l) _ _ _ (Ensures-ask (link.existing_tables (t ∷ ts)))
        λ existing.
          Ensures-give _ _ λ l p. (p, All-filter_by _ (λ k. key_mem k existing) (t ∷ ts) h)

  resolve_explicit_tables-Ensures :
      (P : List Sent → Type 0) (requested : List TableKey) (schemas : List Text)
      → Ensures P (resolve_explicit_tables link requested schemas) (λ r l. P l × IsScoped schemas r)
  unfolding resolve_explicit_tables
  resolve_explicit_tables-Ensures P requested schemas =
      resolve_in_scope-Ensures P schemas _ (filter_by-IsScoped schemas requested)

-- The lock has been granted, and the explicit tables are in its schemas.
abbrev pub IsGuarded : List Text × List TableKey → List Sent → Type 0
IsGuarded r sent = IsLocked r.0 sent × IsScoped r.0 r.1

module _ {F W : Type 0} (link : Link W) (print : F → Text) (args : Args F) where
  module _ (throttle : ThrottleSettings F) (also_tables : List TableKey) where
    with_schemas-Ensures :
        (schemas : List Text)
        → Ensures
            (IsLocked schemas)
            (with_schemas link print args throttle also_tables schemas)
            IsGuarded
    unfolding with_schemas
    with_schemas-Ensures schemas =
        let held = IsLocked schemas in
        let later : (e : Sent) (l : List Sent) → held l → held (e ∷ l) =
          λ e l p. (p.0, p.1, (p.2.0, Memᴰ.tail p.2.1, Memᴰ.tail p.2.2)) in
        Ensures-bind (λ tables l. held l × IsScoped schemas tables) IsGuarded _ _
          (Ensures-bind (λ u l. held l) _ _ _
            (Ensures-bind (λ u l. held l) _ _ _
              (Ensures-Stays _ (Stays-attempt later _ (ensure_logbook_schema-Stays later link)))
              λ u. Ensures-Stays _ (session_settings-Stays later link print _ throttle _ _))
            λ u. resolve_explicit_tables-Ensures link held also_tables schemas)
          λ tables. Ensures-give IsGuarded (schemas, tables) λ l p. p

    prepare-Ensures : Ensures (λ l. Unit) (prepare link print args throttle also_tables) IsGuarded
    unfolding prepare
    prepare-Ensures =
        Ensures-bind IsLocked IsGuarded _ _
          (Ensures-bind (λ u l. Unit) IsLocked _ _ (Ensures-any _ _)
            λ u. guarded_schemas-Ensures link args.discover_all_schemas args.schema)
          with_schemas-Ensures

    -- When the set-up succeeds, there are schemas to process, the logbook's schema is not among them, the
    -- server has hashed just their names, joined by commas, to an id and has answered that the advisory
    -- lock of this id is granted, and every explicit table that is left is in one of the schemas and not in
    -- the logbook's.
    pub prepare-IsGuarded :
        (s t : SetupState W) (schemas : List Text) (tables : List TableKey)
        → prepare link print args throttle also_tables s ≡ (done (schemas, tables), t)
        → IsLocked schemas t.sent × IsScoped schemas tables
    prepare-IsGuarded s t schemas tables h =
        subst (λ r. Yields IsGuarded r) h (prepare-Ensures.at s tt)
