-- ===== src/Operations/Merge/Result.antt =====
-- Lemmas on merge_needs_vacuum_candidates of src/operations.rs.
use pg_maintainer.Prelude.{
  ℕ, zero, suc, ◌≤◌, ◌≡◌, refl, ap, ◌∙◌, true, false, List, [], ◌∷◌, ◌++◌, map, take, All, Option,
  length, length-take, text_eq_refl, arith,
}
use mathlib.Core.List.{Memᴰ}
use pg_maintainer.Operations.Merge.Order.{
  InOrder, Cut, InOrder-sort_by, All-sort_by, Mem-sort_by, All-take, InOrder-take, take-Cut,
}
use pg_maintainer.Prelude.{sym, ◌⊎◌, inl, inr, on_if, Bool-cases}
use pg_maintainer.Prelude.Int.{pos}
use pg_maintainer.Types.Modes.{OrderBy}
use pg_maintainer.Types.Tables.Keys.{key_eq_sym, key_eq-path}
use pg_maintainer.Types.Tables.{key_eq, key_mem, TableKey, NeedsVacuumTableInfo}
use pg_maintainer.Operations.Runners.{needs_key}
use pg_maintainer.Operations.Merge.{
  first_of_each, insert_by, sort_by, truncate_to_limit, merge_needs_vacuum_candidates,
}

abbrev pub keys : List NeedsVacuumTableInfo → List TableKey
keys ts = map needs_key ts

-- No entry has the key of a later one.
abbrev pub Distinct : List NeedsVacuumTableInfo → Type 0
Distinct [] = Unit
Distinct (t ∷ ts) = (key_mem (needs_key t) (keys ts) ≡ false) × Distinct ts

-- The first entry with its key: that of the first query wins.
abbrev pub FirstOf : NeedsVacuumTableInfo → List NeedsVacuumTableInfo → Type 0
FirstOf t [] = ⊥
FirstOf t (u ∷ us) = (t ≡ u) ⊎ ((key_eq (needs_key u) (needs_key t) ≡ false) × FirstOf t us)

key_mem-insert_by :
    (o : Option OrderBy) (k : TableKey) (t : NeedsVacuumTableInfo) (ts : List NeedsVacuumTableInfo)
    → key_eq (needs_key t) k ≡ false
    → key_mem k (keys ts) ≡ false
    → key_mem k (keys (insert_by o t ts)) ≡ false
unfolding insert_by key_mem
key_mem-insert_by o k t [] apart fresh = ground arith
key_mem-insert_by o k t (u ∷ us) apart fresh =
    let ih = key_mem-insert_by o k t us apart in ground arith

key_mem-cons :
    (k u : TableKey) (ks : List TableKey)
    → key_mem k (u ∷ ks) ≡ false
    → (key_eq u k ≡ false) × (key_mem k ks ≡ false)
unfolding key_mem
key_mem-cons k u ks h = ground arith

key_mem-head : (k : TableKey) (ks : List TableKey) → key_mem k (k ∷ ks) ≡ true
unfolding key_mem
key_mem-head k ks = ground (arith, text_eq_refl k.schema, text_eq_refl k.table)

key_mem-sort_by :
    (o : Option OrderBy) (k : TableKey) (ts : List NeedsVacuumTableInfo)
    → key_mem k (keys ts) ≡ false
    → key_mem k (keys (sort_by o ts)) ≡ false
unfolding sort_by
key_mem-sort_by o k [] h = h
key_mem-sort_by o k (t ∷ ts) h =
    let (apart, fresh) = key_mem-cons k (needs_key t) (keys ts) h in
    key_mem-insert_by o k t (sort_by o ts) apart (key_mem-sort_by o k ts fresh)

Distinct-insert_by :
    (o : Option OrderBy) (t : NeedsVacuumTableInfo) (ts : List NeedsVacuumTableInfo)
    → key_mem (needs_key t) (keys ts) ≡ false
    → Distinct ts
    → Distinct (insert_by o t ts)
unfolding insert_by
Distinct-insert_by o t [] fresh h = (fresh, tt)
Distinct-insert_by o t (u ∷ us) fresh (hu, hus) =
    let (apart, fresh') = key_mem-cons (needs_key t) (needs_key u) (keys us) fresh in
    let ih = Distinct-insert_by o t us fresh' hus in
    let later =
      key_mem-insert_by o (needs_key u) t us (key_eq_sym (needs_key u) (needs_key t) apart) hu in
    ground (arith, fresh, hu, hus, ih, later)

Distinct-sort_by :
    (o : Option OrderBy) (ts : List NeedsVacuumTableInfo) → Distinct ts → Distinct (sort_by o ts)
unfolding sort_by
Distinct-sort_by o [] h = tt
Distinct-sort_by o (t ∷ ts) (fresh, h) =
    Distinct-insert_by o t (sort_by o ts) (key_mem-sort_by o (needs_key t) ts fresh)
      (Distinct-sort_by o ts h)

key_mem-take :
    (k : TableKey) (n : ℕ) (ts : List NeedsVacuumTableInfo)
    → key_mem k (keys ts) ≡ false
    → key_mem k (keys (take n ts)) ≡ false
unfolding key_mem
key_mem-take k zero ts h = refl
key_mem-take k (suc n) [] h = refl
key_mem-take k (suc n) (t ∷ ts) h = let ih = key_mem-take k n ts in ground arith

Distinct-take : (n : ℕ) (ts : List NeedsVacuumTableInfo) → Distinct ts → Distinct (take n ts)
Distinct-take zero ts h = tt
Distinct-take (suc n) [] h = tt
Distinct-take (suc n) (t ∷ ts) (fresh, h) =
    (key_mem-take (needs_key t) n ts fresh, Distinct-take n ts h)

key_mem-same :
    (a b : TableKey) (ks : List TableKey)
    → key_eq a b ≡ true
    → key_mem b ks ≡ true
    → key_mem a ks ≡ true
key_mem-same a b ks h m = ap (λ k. key_mem k ks) (key_eq-path a b h) ∙ m

key_mem-more :
    (k u : TableKey) (ks : List TableKey) → key_mem k ks ≡ true → key_mem k (u ∷ ks) ≡ true
unfolding key_mem
key_mem-more k u ks h = ground arith

-- what is kept was not seen, and is kept once
first_of_each-fresh :
    (k : TableKey) (seen : List TableKey) (ts : List NeedsVacuumTableInfo)
    → key_mem k seen ≡ true
    → key_mem k (keys (first_of_each seen ts)) ≡ false
unfolding first_of_each key_mem
first_of_each-fresh k seen [] h = refl
first_of_each-fresh k seen (t ∷ ts) h =
    let kept =
      first_of_each-fresh k (needs_key t ∷ seen) ts (key_mem-more k (needs_key t) seen h) in
    let dropped = first_of_each-fresh k seen ts h in
    let same = key_mem-same (needs_key t) k seen in ground (arith, h, kept, dropped, same)

Distinct-first_of_each :
    (seen : List TableKey) (ts : List NeedsVacuumTableInfo) → Distinct (first_of_each seen ts)
unfolding first_of_each
Distinct-first_of_each seen [] = tt
Distinct-first_of_each seen (t ∷ ts) =
    let kept = Distinct-first_of_each (needs_key t ∷ seen) ts in
    let dropped = Distinct-first_of_each seen ts in
    let fresh =
      first_of_each-fresh (needs_key t) (needs_key t ∷ seen) ts (key_mem-head (needs_key t) seen) in
    ground (arith, kept, dropped, fresh)

key_mem-none : (k : TableKey) → key_mem k [] ≡ false
unfolding key_mem
key_mem-none k = refl

-- what is kept is the first entry with its key, and its key was not seen
abbrev New : List TableKey → List NeedsVacuumTableInfo → NeedsVacuumTableInfo → Type 0
New seen ts t = FirstOf t ts × (key_mem (needs_key t) seen ≡ false)

All-weaken :
    (P Q : NeedsVacuumTableInfo → Type 0) (ts : List NeedsVacuumTableInfo)
    → ((t : NeedsVacuumTableInfo) → P t → Q t)
    → All P ts
    → All Q ts
All-weaken P Q [] f hs = tt
All-weaken P Q (t ∷ ts) f (h, hs) = (f t h, All-weaken P Q ts f hs)

New-kept :
    (seen : List TableKey) (u : NeedsVacuumTableInfo) (us : List NeedsVacuumTableInfo)
    (t : NeedsVacuumTableInfo)
    → New (needs_key u ∷ seen) us t
    → New seen (u ∷ us) t
New-kept seen u us t (first, fresh) =
    let (apart, unseen) = key_mem-cons (needs_key t) (needs_key u) seen fresh in
    (inr (apart, first), unseen)

New-dropped :
    (seen : List TableKey) (u : NeedsVacuumTableInfo) (us : List NeedsVacuumTableInfo)
    (t : NeedsVacuumTableInfo)
    → key_mem (needs_key u) seen ≡ true
    → New seen us t
    → New seen (u ∷ us) t
New-dropped seen u us t dup (first, fresh) =
    elim (Bool-cases (key_eq (needs_key u) (needs_key t))) [
      | inl same ↦
          let path : needs_key u ≡ needs_key t = key_eq-path (needs_key u) (needs_key t) same in
          let clash : key_mem (needs_key u) seen ≡ false = ap (λ k. key_mem k seen) path ∙ fresh in
          ground (arith, dup, clash)
      | inr apart ↦ (inr (apart, first), fresh)
    ]

first_of_each-New :
    (seen : List TableKey) (ts : List NeedsVacuumTableInfo)
    → All (New seen ts) (first_of_each seen ts)
unfolding first_of_each
first_of_each-New seen [] = tt
first_of_each-New seen (u ∷ us) =
    on_if (All (New seen (u ∷ us))) (key_mem (needs_key u) seen) _ _
      (λ dup.
        All-weaken (New seen us) _ _ (λ t. New-dropped seen u us t dup) (first_of_each-New seen us))
      (λ fresh. (
        (inl refl, fresh),
        All-weaken (New (needs_key u ∷ seen) us) _ _ (New-kept seen u us)
            (first_of_each-New (needs_key u ∷ seen) us),
      ))

key_mem-neither :
    (k u : TableKey) (ks : List TableKey)
    → key_eq u k ≡ false
    → key_mem k ks ≡ false
    → key_mem k (u ∷ ks) ≡ false
unfolding key_mem
key_mem-neither k u ks apart fresh = ground arith

first_of_each-Mem :
    (seen : List TableKey) (ts : List NeedsVacuumTableInfo) (t : NeedsVacuumTableInfo)
    → FirstOf t ts
    → key_mem (needs_key t) seen ≡ false
    → Memᴰ t (first_of_each seen ts)
unfolding first_of_each
first_of_each-Mem seen [] t first fresh = elim first [ ]
first_of_each-Mem seen (u ∷ us) t (inl e) fresh =
    let unseen : key_mem (needs_key u) seen ≡ false =
      ap (λ x. key_mem (needs_key x) seen) (sym e) ∙ fresh in
    rw unseen (Memᴰ.head e)
first_of_each-Mem seen (u ∷ us) t (inr (apart, first)) fresh =
    on_if (Memᴰ t) (key_mem (needs_key u) seen) _ _ (λ dup. first_of_each-Mem seen us t first fresh)
      (λ unseen. Memᴰ.tail (
        first_of_each-Mem (needs_key u ∷ seen) us t first
          (key_mem-neither (needs_key t) (needs_key u) seen apart fresh)))

-- Of two lists that are not both empty, the merged candidates are distinct tables in the order that was asked for, no more than a limit
-- that is not negative, and each is the first entry with its key of the first list with the second
-- behind it. Of these first entries none is lost: one that is not among the merged candidates was cut
-- off by the limit, with that many candidates before it in the order.
pub merge_needs_vacuum_candidates_lem :
    (classic max_threshold : List NeedsVacuumTableInfo) (o : Option OrderBy) (limit : ℕ)
    (t : NeedsVacuumTableInfo)
    → FirstOf t (classic ++ max_threshold)
    → Distinct (merge_needs_vacuum_candidates classic max_threshold o (pos limit))
      × InOrder o (merge_needs_vacuum_candidates classic max_threshold o (pos limit))
      × (length (merge_needs_vacuum_candidates classic max_threshold o (pos limit)) ≤ limit)
      × All
          (λ r. FirstOf r (classic ++ max_threshold))
          (merge_needs_vacuum_candidates classic max_threshold o (pos limit))
      × (Memᴰ t (merge_needs_vacuum_candidates classic max_threshold o (pos limit))
          ⊎ Cut o limit t (merge_needs_vacuum_candidates classic max_threshold o (pos limit)))
unfolding merge_needs_vacuum_candidates truncate_to_limit
merge_needs_vacuum_candidates_lem classic max_threshold o limit t first =
    let all = classic ++ max_threshold in
    let found = first_of_each [] all in
    let sorted = sort_by o found in
    let ordered = InOrder-sort_by o found in
    (
      Distinct-take limit sorted (Distinct-sort_by o found (Distinct-first_of_each [] all)),
      InOrder-take o limit sorted ordered,
      omega (arith, length-take limit sorted),
      All-take _ limit sorted (
          All-sort_by _ o found
            (All-weaken (New [] all) _ found (λ r n. n.0) (first_of_each-New [] all))),
      take-Cut o limit t sorted ordered
          (Mem-sort_by o t found (first_of_each-Mem [] all t first (key_mem-none (needs_key t)))),
    )
