-- ===== src/Setup/Ensures.antt =====
-- What holds of what the set-up has sent when a step succeeds: `Ensures P m Q` leads from `P` to `Q` of the
-- result. One rule for each way to build a step.
use pg_maintainer.Prelude.{
  ◌≡◌, refl, Bool, true, false, List, ◌∷◌, Option, none, some, Text, Result, done, error,
}
use mathlib.Core.List.{Memᴰ}
use pg_maintainer.Setup.{
  SetupError, Sent, statement, SetupState, Link, Setup, answered, give, ask, attempt, continue,
  ◌>>=◌, check, note, send, when_some, ask_recorded,
}

-- of the result, if there is one
abbrev pub Yields :
    {W A : Type 0} → (A → List Sent → Type 0) → Result SetupError A × SetupState W → Type 0
Yields Q (done a, s) = Q a s.sent
Yields Q (error e, s) = Unit

pub record Ensures {W A : Type 0} (P : List Sent → Type 0) (m : Setup W A)
    (Q : A → List Sent → Type 0) : Type 0 where
  pub at : (s : SetupState W) → P s.sent → Yields Q (m s)

-- What has been sent stays, whether the step succeeds or not.
pub record Stays {W A : Type 0} (P : List Sent → Type 0) (m : Setup W A) : Type 0 where
  pub at : (s : SetupState W) → P s.sent → P (m s).1.sent

module _ {W A : Type 0} {P : List Sent → Type 0} where
  pub Ensures-give :
      (Q : A → List Sent → Type 0) (a : A)
      → ((l : List Sent) → P l → Q a l)
      → Ensures {W = W} P (give a) Q
  unfolding give
  Ensures-give Q a h = record { at = λ s p. h s.sent p }

  pub Ensures-ask : (query : W → Option A × W) → Ensures P (ask query) (λ a l. P l)
  unfolding ask answered
  Ensures-ask query = record { at = λ s p. go (query s.world).0 (query s.world).1 s p }
    where
      go :
          (o : Option A) (w : W) (s : SetupState W)
          → P s.sent
          → Yields (λ a l. P l) (answered o, record s { world = w })
      go none w s p = tt
      go (some a) w s p = p

-- nothing is claimed
pub Ensures-any :
    {W A : Type 0} (P : List Sent → Type 0) (m : Setup W A) → Ensures P m (λ a l. Unit)
Ensures-any {W = W} {A = A} P m = record { at = λ s p. go (m s).0 (m s).1 }
  where
    go : (r : Result SetupError A) (t : SetupState W) → Yields {A = A} (λ a l. Unit) (r, t)
    go (done a) t = tt
    go (error e) t = tt

module _ {W A B : Type 0} where
  Ensures-continue :
      (Q : A → List Sent → Type 0) (R : B → List Sent → Type 0) (k : A → Setup W B)
      → ((a : A) → Ensures (Q a) (k a) R)
      → (r : Result SetupError A) (s : SetupState W) → Yields Q (r, s)
      → Yields R (continue r k s)
  unfolding continue
  Ensures-continue Q R k hk (done a) s q = (hk a).at s q
  Ensures-continue Q R k hk (error e) s q = tt

  pub Ensures-bind :
      {P : List Sent → Type 0} (Q : A → List Sent → Type 0) (R : B → List Sent → Type 0)
      (m : Setup W A) (k : A → Setup W B)
      → Ensures P m Q
      → ((a : A) → Ensures (Q a) (k a) R)
      → Ensures P (m >>= k) R
  unfolding ◌>>=◌
  Ensures-bind Q R m k hm hk = record {
    at = λ s p. Ensures-continue Q R k hk (m s).0 (m s).1 (hm.at s p);
  }

module _ {W : Type 0} {P : List Sent → Type 0} where
  pub Ensures-check :
      (b : Bool) (e : SetupError) → Ensures {W = W} P (check b e) (λ u l. P l × (b ≡ true))
  unfolding check
  Ensures-check true e = record { at = λ s p. (p, refl) }
  Ensures-check false e = record { at = λ s p. tt }

  pub Ensures-note :
      (Q : List Sent → Type 0) (e : Sent)
      → ((l : List Sent) → P l → Q (e ∷ l))
      → Ensures {W = W} P (note e) (λ u l. Q l)
  unfolding note
  Ensures-note Q e h = record { at = λ s p. h s.sent p }

-- A property that what is sent later cannot undo.
module _ {W : Type 0} {P : List Sent → Type 0}
    (later : (e : Sent) (l : List Sent) → P l → P (e ∷ l)) where
  pub Stays-give : {A : Type 0} (a : A) → Stays {W = W} P (give a)
  unfolding give
  Stays-give a = record { at = λ s p. p }

  pub Stays-ask : {A : Type 0} (query : W → Option A × W) → Stays P (ask query)
  unfolding ask
  Stays-ask query = record { at = λ s p. p }

  Stays-continue :
      {A B : Type 0} (k : A → Setup W B)
      → ((a : A) → Stays P (k a))
      → (r : Result SetupError A) (s : SetupState W) → P s.sent
      → P (continue r k s).1.sent
  unfolding continue
  Stays-continue k hk (done a) s p = (hk a).at s p
  Stays-continue k hk (error e) s p = p

  pub Stays-bind :
      {A B : Type 0} (m : Setup W A) (k : A → Setup W B)
      → Stays P m
      → ((a : A) → Stays P (k a))
      → Stays P (m >>= k)
  unfolding ◌>>=◌
  Stays-bind m k hm hk = record { at = λ s p. Stays-continue k hk (m s).0 (m s).1 (hm.at s p) }

  pub Stays-attempt : {A : Type 0} (m : Setup W A) → Stays P m → Stays P (attempt m)
  unfolding attempt
  Stays-attempt m hm = record { at = λ s p. hm.at s p }

  pub Stays-note : (e : Sent) → Stays {W = W} P (note e)
  unfolding note
  Stays-note e = record { at = λ s p. later e s.sent p }

  pub Stays-send : (link : Link W) (sql : Text) → Stays P (send link sql)
  unfolding send
  Stays-send link sql =
      Stays-bind _ _ (Stays-note (statement sql)) (λ u. Stays-ask (link.execute sql))

  pub Stays-when_some :
      {A : Type 0} (o : Option A) (k : A → Setup W (Unit {0}))
      → ((a : A) → Stays P (k a))
      → Stays P (when_some o k)
  unfolding when_some
  Stays-when_some none k h = Stays-give tt
  Stays-when_some (some a) k h = h a

-- A step that undoes nothing keeps what holds on success too.
pub Ensures-Stays :
    {W A : Type 0} {P : List Sent → Type 0} (m : Setup W A) → Stays P m → Ensures P m (λ a l. P l)
Ensures-Stays {W = W} {A = A} {P = P} m hm = record { at = λ s p. go (m s).0 (m s).1 (hm.at s p) }
  where
    go : (r : Result SetupError A) (t : SetupState W) → P t.sent → Yields (λ a l. P l) (r, t)
    go (done a) t p = p
    go (error e) t p = tt

-- What a step ensures can be read as less.
pub Ensures-weaken :
    {W A : Type 0} {P : List Sent → Type 0} (Q R : A → List Sent → Type 0) (m : Setup W A)
    → Ensures P m Q
    → ((a : A) (l : List Sent) → Q a l → R a l)
    → Ensures P m R
Ensures-weaken {W = W} {A = A} Q R m hm f = record { at = λ s p. go (m s).0 (m s).1 (hm.at s p) }
  where
    go : (r : Result SetupError A) (t : SetupState W) → Yields Q (r, t) → Yields R (r, t)
    go (done a) t q = f a t.sent q
    go (error e) t q = tt

-- The answer of a recorded query is on the record.
pub Ensures-ask_recorded :
    {W A : Type 0} {P : List Sent → Type 0} (event : A → Sent) (query : W → Option A × W)
    → ((e : Sent) (l : List Sent) → P l → P (e ∷ l))
    → Ensures P (ask_recorded event query) (λ a l. P l × Memᴰ (event a) l)
unfolding ask_recorded
Ensures-ask_recorded {P = P} event query later =
    Ensures-bind (λ a l. P l) _ _ _ (Ensures-ask query)
      λ a.
        Ensures-bind (λ u l. P l × Memᴰ (event a) l) _ _ _
          (Ensures-note _ (event a) λ l p. (later _ l p, Memᴰ.head refl))
          λ u. Ensures-give _ a λ l p. p
