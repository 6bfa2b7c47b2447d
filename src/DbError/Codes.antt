-- ===== src/DbError/Codes.antt =====
-- Lemmas on the exit codes of src/db_error.rs.
use pg_maintainer.Prelude.{
  ◌≡◌, ◌↔◌, ◌⊎◌, inl, inr, Bool, true, false, List, [], ◌∷◌, ◌++◌, Bool-cases, Option, none, some,
  Text, codes, text_eq, text_eq_iff, text_mem, arith, ap, sym, take, if◌then◌else◌,
}
use pg_maintainer.DbError.{
  ErrorKind, broken_pipe, connection_reset, connection_aborted, unexpected_eof, not_connected,
  timed_out, other_kind, PgError, Cause, lost, pg, io, message, Failure, starts_with_08,
  sqlstate_is_connection_loss, io_kind_is_connection_loss, any_source_lost, is_connection_lost_pg,
  is_cause_lost, is_connection_lost, exit_code_for,
}

-- The SQLSTATEs of a lost connection: class 08, and the four by which the server ends a session or
-- refuses one.
abbrev pub IsLossCode : Text → Type 0
IsLossCode c =
    ((rest : Text) × (c ≡ codes "08" ++ rest))
    ⊎ (c ≡ codes "57P01")
    ⊎ (c ≡ codes "57P02")
    ⊎ (c ≡ codes "57P03")
    ⊎ (c ≡ codes "57P05")

-- The I/O errors of a lost connection.
abbrev pub IsLossKind : ErrorKind → Type 0
IsLossKind broken_pipe = Unit
IsLossKind connection_reset = Unit
IsLossKind connection_aborted = Unit
IsLossKind unexpected_eof = Unit
IsLossKind not_connected = Unit
IsLossKind timed_out = Unit
IsLossKind other_kind = ⊥

abbrev pub SomeLossKind : List (Option ErrorKind) → Type 0
SomeLossKind [] = ⊥
SomeLossKind (none ∷ rest) = SomeLossKind rest
SomeLossKind (some k ∷ rest) = IsLossKind k ⊎ SomeLossKind rest

-- By the SQLSTATE where the server has reported one, otherwise by the sources.
abbrev pub IsLossReport : Option Text → List (Option ErrorKind) → Type 0
IsLossReport (some c) sources = IsLossCode c
IsLossReport none sources = SomeLossKind sources

abbrev pub IsLoss : Cause → Type 0
IsLoss (lost c) = Unit
IsLoss (pg e) = (e.closed ≡ true) ⊎ IsLossReport e.code e.sources
IsLoss (io k) = IsLossKind k
IsLoss message = ⊥

-- Some error of the chain is a lost connection.
abbrev pub SomeLoss : Failure → Type 0
SomeLoss [] = ⊥
SomeLoss (c ∷ cs) = IsLoss c ⊎ SomeLoss cs

class_iff : (c : Text) → (starts_with_08 c ≡ true) ↔ ((rest : Text) × (c ≡ codes "08" ++ rest))
unfolding starts_with_08
class_iff [] = (λ h. ground (arith, h), λ h. ground (arith, h.1))
class_iff (a ∷ []) = (λ h. ground (arith, h), λ h. ground (arith, h.1))
class_iff (a ∷ b ∷ t) = (
  λ h. (t, ap (λ s. s ++ t) ((text_eq_iff (a ∷ b ∷ []) (codes "08")).0 h)),
  λ h. (text_eq_iff (a ∷ b ∷ []) (codes "08")).1 (ap (take 2) h.1),
)

name_iff : (x c : Text) → (text_eq x c ≡ true) ↔ (c ≡ x)
name_iff x c = (λ h. sym ((text_eq_iff x c).0 h), λ h. (text_eq_iff x c).1 (sym h))

mem_iff :
    (c : Text)
    → (text_mem c (codes "57P01" ∷ codes "57P02" ∷ codes "57P03" ∷ codes "57P05" ∷ []) ≡ true)
      ↔ ((c ≡ codes "57P01") ⊎ (c ≡ codes "57P02") ⊎ (c ≡ codes "57P03") ⊎ (c ≡ codes "57P05"))
unfolding text_mem
mem_iff c = ground (
  arith,
  name_iff (codes "57P01") c,
  name_iff (codes "57P02") c,
  name_iff (codes "57P03") c,
  name_iff (codes "57P05") c,
)

sqlstate_iff : (c : Text) → (sqlstate_is_connection_loss c ≡ true) ↔ IsLossCode c
unfolding sqlstate_is_connection_loss
sqlstate_iff c = ground (arith, class_iff c, mem_iff c)

kind_iff : (k : ErrorKind) → (io_kind_is_connection_loss k ≡ true) ↔ IsLossKind k
unfolding io_kind_is_connection_loss
kind_iff broken_pipe = ground arith
kind_iff connection_reset = ground arith
kind_iff connection_aborted = ground arith
kind_iff unexpected_eof = ground arith
kind_iff not_connected = ground arith
kind_iff timed_out = ground arith
kind_iff other_kind = ground arith

sources_iff : (ks : List (Option ErrorKind)) → (any_source_lost ks ≡ true) ↔ SomeLossKind ks
unfolding any_source_lost
sources_iff [] = ground arith
sources_iff (none ∷ ks) = sources_iff ks
sources_iff (some k ∷ ks) = ground (arith, kind_iff k, sources_iff ks)

pg_iff :
    (e : PgError)
    → (is_connection_lost_pg e ≡ true) ↔ ((e.closed ≡ true) ⊎ IsLossReport e.code e.sources)
unfolding is_connection_lost_pg
pg_iff e = go e.closed e.code
  where
    go :
        (closed : Bool) (code : Option Text)
        → ((if closed then true else elim code [
          | some c ↦ sqlstate_is_connection_loss c
          | none ↦ any_source_lost e.sources
        ])
            ≡ true)
          ↔ ((closed ≡ true) ⊎ IsLossReport code e.sources)
    go true code = ground arith
    go false (some c) = ground (arith, sqlstate_iff c)
    go false none = ground (arith, sources_iff e.sources)

cause_iff : (c : Cause) → (is_cause_lost c ≡ true) ↔ IsLoss c
unfolding is_cause_lost
cause_iff (lost c) = ground arith
cause_iff (pg e) = pg_iff e
cause_iff (io k) = kind_iff k
cause_iff message = ground arith

is_connection_lost_iff : (e : Failure) → (is_connection_lost e ≡ true) ↔ SomeLoss e
unfolding is_connection_lost
is_connection_lost_iff [] = ground arith
is_connection_lost_iff (c ∷ cs) = ground (arith, cause_iff c, is_connection_lost_iff cs)

-- A fatal error exits with 3 exactly if some error of its chain is a lost connection, and with 1
-- exactly if none is. A lost connection is the program's own ConnectionLost, an I/O error of one of the
-- six kinds, or a driver error that is closed, or else has the SQLSTATE 57P01, 57P02, 57P03, 57P05 or one
-- of class 08, or else has no SQLSTATE and such an I/O error among its sources.
pub exit_code_for_iff :
    (e : Failure) → ((exit_code_for e ≡ 3) ↔ SomeLoss e) × ((exit_code_for e ≡ 1) ↔ (¬ SomeLoss e))
unfolding exit_code_for
exit_code_for_iff e = elim (Bool-cases (is_connection_lost e)) [
  | inl h ↦ ground (arith, is_connection_lost_iff e)
  | inr h ↦ ground (arith, is_connection_lost_iff e)
]
