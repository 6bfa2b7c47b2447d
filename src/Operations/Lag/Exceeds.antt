-- ===== src/Operations/Lag/Exceeds.antt =====
-- Lemmas on LagObservation::exceeds of src/types.rs.
use pg_maintainer.Prelude.{◌≡◌, refl, ◌↔◌, ◌⊎◌, true, false, ◌||◌, List, [], ◌∷◌, unwrap_or, arith}
use pg_maintainer.Session.{Float, StandbyLag}
use pg_maintainer.Operations.Lag.{
  no_replicas, unobservable, observed, fold_lag, max_lag_seconds, exceeds,
}

-- The larger of two lags is over a threshold exactly if one of them is.
abbrev pub IsMaximum : {F : Type 0} → Float F → Type 0
IsMaximum {F = F} float = (a b t : F) → float.gt (float.max a b) t ≡ (float.gt a t || float.gt b t)

module _ {F : Type 0} (float : Float F) where
  -- Some standby lags by more than the threshold; one that reports no lag is caught up.
  abbrev pub SomeOver : F → List (StandbyLag F) → Type 0
  SomeOver threshold [] = ⊥
  SomeOver threshold (s ∷ rest) =
      (float.gt (unwrap_or s.replay_lag_seconds float.zero_seconds) threshold ≡ true)
      ⊎ SomeOver threshold rest

module _ {F : Type 0} (float : Float F) (maximum : IsMaximum float) (threshold : F) where
  fold_lag_iff :
      (acc : F) (standbys : List (StandbyLag F))
      → (float.gt (fold_lag float acc standbys) threshold ≡ true)
        ↔ ((float.gt acc threshold ≡ true) ⊎ SomeOver float threshold standbys)
  unfolding fold_lag
  fold_lag_iff acc [] = ground arith
  fold_lag_iff acc (s ∷ rest) =
      let lag = unwrap_or s.replay_lag_seconds float.zero_seconds in
      ground (arith, fold_lag_iff (float.max acc lag) rest, maximum acc lag threshold)

  -- Observed lag is over a threshold that zero is not over exactly if some standby is over it; an
  -- instance without replicas is never over such a threshold, and one that cannot be observed is over none.
  pub exceeds_iff :
      float.gt float.zero_seconds threshold ≡ false
      → (standbys : List (StandbyLag F))
      → ((exceeds float (observed standbys) threshold ≡ true) ↔ SomeOver float threshold standbys)
        × (exceeds float no_replicas threshold ≡ false)
        × (exceeds float unobservable threshold ≡ false)
  unfolding exceeds max_lag_seconds
  exceeds_iff positive standbys =
      (ground (arith, positive, fold_lag_iff float.zero_seconds standbys), positive, refl)
