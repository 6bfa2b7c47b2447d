-- ===== src/Operations/Merge/Order.antt =====
-- Lemmas on the order of the merged candidates, src/operations.rs.
use pg_maintainer.Prelude.{
  ℕ, zero, suc, ◌≤◌, ◌≡◌, refl, ap, sym, true, false, Bool-cases, inl, inr, ◌⊎◌, List, [], ◌∷◌,
  take, All, Option, none, some, length, arith,
}
use mathlib.Core.List.{Memᴰ}
use mathlib.Core.Path.{subst}
use pg_maintainer.Prelude.Int.{◌≤ℤ◌}
use pg_maintainer.Types.Modes.{OrderBy, size, last_maintained}
use pg_maintainer.Types.Tables.{NeedsVacuumTableInfo}
use pg_maintainer.Operations.Merge.{ranks_before, leb_option, insert_by, sort_by}

-- A table that was never maintained is before one that was, and an older time before a newer one.
abbrev pub NullsFirst : Option ℕ → Option ℕ → Type 0
NullsFirst none b = Unit
NullsFirst (some a) none = ⊥
NullsFirst (some a) (some b) = a ≤ b

-- The promise of --order-by: most dead tuples first, or the largest first, or the one that was
-- maintained longest ago.
abbrev pub Before : Option OrderBy → NeedsVacuumTableInfo → NeedsVacuumTableInfo → Type 0
Before none a b = b.n_dead_tup ≤ℤ a.n_dead_tup
Before (some size) a b = b.size_bytes ≤ℤ a.size_bytes
Before (some last_maintained) a b = NullsFirst a.last_maintained b.last_maintained

-- Each entry is before all later ones.
abbrev pub InOrder : Option OrderBy → List NeedsVacuumTableInfo → Type 0
InOrder o [] = Unit
InOrder o (t ∷ ts) = All (Before o t) ts × InOrder o ts

NullsFirst-true : (a b : Option ℕ) → leb_option a b ≡ true → NullsFirst a b
NullsFirst-true none b h = tt
NullsFirst-true (some a) none h = ground arith
NullsFirst-true (some a) (some b) h = ground arith

NullsFirst-false : (a b : Option ℕ) → leb_option a b ≡ false → NullsFirst b a
NullsFirst-false none b h = ground arith
NullsFirst-false (some a) none h = tt
NullsFirst-false (some a) (some b) h = ground arith

NullsFirst-trans : (a b c : Option ℕ) → NullsFirst a b → NullsFirst b c → NullsFirst a c
NullsFirst-trans none b c h k = tt
NullsFirst-trans (some a) none c h k = ground arith
NullsFirst-trans (some a) (some b) none h k = ground arith
NullsFirst-trans (some a) (some b) (some c) h k = omega arith

Before-true :
    (o : Option OrderBy) (a b : NeedsVacuumTableInfo) → ranks_before o a b ≡ true → Before o a b
unfolding ranks_before
Before-true none a b h = ground arith
Before-true (some size) a b h = ground arith
Before-true (some last_maintained) a b h = NullsFirst-true a.last_maintained b.last_maintained h

Before-false :
    (o : Option OrderBy) (a b : NeedsVacuumTableInfo) → ranks_before o a b ≡ false → Before o b a
unfolding ranks_before
Before-false none a b h = ground arith
Before-false (some size) a b h = ground arith
Before-false (some last_maintained) a b h = NullsFirst-false a.last_maintained b.last_maintained h

Before-trans :
    (o : Option OrderBy) (a b c : NeedsVacuumTableInfo) → Before o a b → Before o b c → Before o a c
Before-trans none a b c h k = omega arith
Before-trans (some size) a b c h k = omega arith
Before-trans (some last_maintained) a b c h k =
    NullsFirst-trans a.last_maintained b.last_maintained c.last_maintained h k

All-Before :
    (o : Option OrderBy) (a b : NeedsVacuumTableInfo) (ts : List NeedsVacuumTableInfo)
    → Before o a b
    → All (Before o b) ts
    → All (Before o a) ts
All-Before o a b [] h hs = tt
All-Before o a b (t ∷ ts) h (hb, hs) = (Before-trans o a b t h hb, All-Before o a b ts h hs)

All-insert_by :
    (P : NeedsVacuumTableInfo → Type 0) (o : Option OrderBy) (t : NeedsVacuumTableInfo)
    (ts : List NeedsVacuumTableInfo)
    → P t
    → All P ts
    → All P (insert_by o t ts)
unfolding insert_by
All-insert_by P o t [] h hs = (h, tt)
All-insert_by P o t (u ∷ us) h (hu, hus) = elim (Bool-cases (ranks_before o t u)) [
  | inl fits ↦ rw fits (h, (hu, hus))
  | inr late ↦ rw late (hu, All-insert_by P o t us h hus)
]

InOrder-insert_by :
    (o : Option OrderBy) (t : NeedsVacuumTableInfo) (ts : List NeedsVacuumTableInfo)
    → InOrder o ts
    → InOrder o (insert_by o t ts)
unfolding insert_by
InOrder-insert_by o t [] h = (tt, tt)
InOrder-insert_by o t (u ∷ us) (h, hs) = elim (Bool-cases (ranks_before o t u)) [
  | inl fits ↦
      let before = Before-true o t u fits in
      rw fits ((before, All-Before o t u us before h), (h, hs))
  | inr late ↦
      rw late
        (All-insert_by (Before o u) o t us (Before-false o t u late) h, InOrder-insert_by o t us hs)
]

pub InOrder-sort_by :
    (o : Option OrderBy) (ts : List NeedsVacuumTableInfo) → InOrder o (sort_by o ts)
unfolding sort_by
InOrder-sort_by o [] = tt
InOrder-sort_by o (t ∷ ts) = InOrder-insert_by o t (sort_by o ts) (InOrder-sort_by o ts)

pub All-sort_by :
    (P : NeedsVacuumTableInfo → Type 0) (o : Option OrderBy) (ts : List NeedsVacuumTableInfo)
    → All P ts
    → All P (sort_by o ts)
unfolding sort_by
All-sort_by P o [] hs = tt
All-sort_by P o (t ∷ ts) (h, hs) = All-insert_by P o t (sort_by o ts) h (All-sort_by P o ts hs)

Mem-insert_by :
    (o : Option OrderBy) (a t : NeedsVacuumTableInfo) (ts : List NeedsVacuumTableInfo)
    → Memᴰ a (t ∷ ts)
    → Memᴰ a (insert_by o t ts)
unfolding insert_by
Mem-insert_by o a t [] m = m
Mem-insert_by o a t (u ∷ us) (Memᴰ.head e) = elim (Bool-cases (ranks_before o t u)) [
  | inl fits ↦ rw fits (Memᴰ.head e)
  | inr late ↦ rw late (Memᴰ.tail (Mem-insert_by o a t us (Memᴰ.head e)))
]
Mem-insert_by o a t (u ∷ us) (Memᴰ.tail (Memᴰ.head e)) = elim (Bool-cases (ranks_before o t u)) [
  | inl fits ↦ rw fits (Memᴰ.tail (Memᴰ.head e))
  | inr late ↦ rw late (Memᴰ.head e)
]
Mem-insert_by o a t (u ∷ us) (Memᴰ.tail (Memᴰ.tail k)) = elim (Bool-cases (ranks_before o t u)) [
  | inl fits ↦ rw fits (Memᴰ.tail (Memᴰ.tail k))
  | inr late ↦ rw late (Memᴰ.tail (Mem-insert_by o a t us (Memᴰ.tail k)))
]

pub Mem-sort_by :
    (o : Option OrderBy) (a : NeedsVacuumTableInfo) (ts : List NeedsVacuumTableInfo)
    → Memᴰ a ts
    → Memᴰ a (sort_by o ts)
unfolding sort_by
Mem-sort_by o a [] m = elim m [ ]
Mem-sort_by o a (t ∷ ts) (Memᴰ.head e) = Mem-insert_by o a t (sort_by o ts) (Memᴰ.head e)
Mem-sort_by o a (t ∷ ts) (Memᴰ.tail m) =
    Mem-insert_by o a t (sort_by o ts) (Memᴰ.tail (Mem-sort_by o a ts m))

pub All-take :
    (P : NeedsVacuumTableInfo → Type 0) (n : ℕ) (ts : List NeedsVacuumTableInfo)
    → All P ts
    → All P (take n ts)
All-take P zero ts hs = tt
All-take P (suc n) [] hs = tt
All-take P (suc n) (t ∷ ts) (h, hs) = (h, All-take P n ts hs)

pub InOrder-take :
    (o : Option OrderBy) (n : ℕ) (ts : List NeedsVacuumTableInfo)
    → InOrder o ts
    → InOrder o (take n ts)
InOrder-take o zero ts h = tt
InOrder-take o (suc n) [] h = tt
InOrder-take o (suc n) (t ∷ ts) (h, hs) = (All-take (Before o t) n ts h, InOrder-take o n ts hs)

All-Mem :
    (P : NeedsVacuumTableInfo → Type 0) (a : NeedsVacuumTableInfo) (ts : List NeedsVacuumTableInfo)
    → Memᴰ a ts
    → All P ts
    → P a
All-Mem P a [] m h = elim m [ ]
All-Mem P a (t ∷ ts) (Memᴰ.head e) (h, hs) = subst P (sym e) h
All-Mem P a (t ∷ ts) (Memᴰ.tail m) (h, hs) = All-Mem P a ts m hs

-- Of an ordered list, what is cut off is behind a full list of entries that are all before it.
abbrev pub Cut : Option OrderBy → ℕ → NeedsVacuumTableInfo → List NeedsVacuumTableInfo → Type 0
Cut o n t kept = (length kept ≡ n) × All (λ k. Before o k t) kept

pub take-Cut :
    (o : Option OrderBy) (n : ℕ) (a : NeedsVacuumTableInfo) (ts : List NeedsVacuumTableInfo)
    → InOrder o ts
    → Memᴰ a ts
    → Memᴰ a (take n ts) ⊎ Cut o n a (take n ts)
take-Cut o zero a ts h m = inr (refl, tt)
take-Cut o (suc n) a [] h m = elim m [ ]
take-Cut o (suc n) a (t ∷ ts) (h, hs) (Memᴰ.head e) = inl (Memᴰ.head e)
take-Cut o (suc n) a (t ∷ ts) (h, hs) (Memᴰ.tail m) = elim (take-Cut o n a ts hs m) [
  | inl kept ↦ inl (Memᴰ.tail kept)
  | inr (full, before) ↦ inr (ap suc full, (All-Mem (Before o t) a ts m h, before))
]
