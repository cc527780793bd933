-- ===== src/Exec/From.antt =====
-- What an action does to the database from a state that meets a precondition, whatever fails.
use dilion.Base.{ℕ, ◌+◌, ◌≡◌, refl, sym, ap, subst, Bool, true, false, List, [], ◌∷◌, if◌then◌else◌}
use dilion.Exec.Defs.{
  World, Tick, Result, ok, err, Exec, pure, now, ◌>>=◌, continue, statement, settle,
}
use dilion.Exec.Grows.{IsPreorder, Grows}
use dilion.Exec.Yields.{Post, Yields, Yields-statement}

pub record GrowsFrom {S E A : Type 0} (P : S → Type 0) (R : S → S → Type 0) (m : Exec S E A)
    : Type 0 where
  pub at : (w : World S) → P w.db → R w.db (m w).0.db

module _ {S E A : Type 0} {R : S → S → Type 0} where
  pub GrowsFrom-of_Grows : {P : S → Type 0} (m : Exec S E A) → Grows R m → GrowsFrom P R m
  GrowsFrom-of_Grows m g = record { at = λ w p. g.at w }

  pub GrowsFrom-if :
      {P : S → Type 0} (b : Bool) (m n : Exec S E A)
      → (b ≡ true → GrowsFrom P R m)
      → (b ≡ false → GrowsFrom P R n)
      → GrowsFrom P R (if b then m else n)
  GrowsFrom-if true m n hm hn = hm refl
  GrowsFrom-if false m n hm hn = hn refl

module _ {S E : Type 0} {R : S → S → Type 0} (pre : IsPreorder R) where
  module _ {A : Type 0} where
    settle-Grows :
        (e : E) (f : S → S × A) (w : World S) (ts : List Tick)
        → R w.db (f w.db).0
        → R w.db (settle e f w ts).0.db
    settle-Grows e f w [] h = h
    settle-Grows e f w (t ∷ ts) h =
        elim t.fails
          as (λ b.
            R w.db
              (elim b as (λ _. World S × Result E A) [
                | true ↦ (record { db = w.db; clock = w.clock + t.takes; ticks = ts }, err e)
                | false ↦ (
                  record { db = (f w.db).0; clock = w.clock + t.takes; ticks = ts },
                  ok (f w.db).1,
                )
              ]).0.db) [ true ↦ pre.same w.db | false ↦ h ]

    pub GrowsFrom-statement :
        {P : S → Type 0} (e : E) (f : S → S × A)
        → ((s : S) → P s → R s (f s).0)
        → GrowsFrom P R (statement e f)
    unfolding statement
    GrowsFrom-statement e f h = record { at = λ w p. settle-Grows e f w w.ticks (h w.db p) }

    pub GrowsFrom-same : {P : S → Type 0} (a : A) → GrowsFrom P R (pure {E = E} a)
    unfolding pure
    GrowsFrom-same a = record { at = λ w p. pre.same w.db }

  module _ {A B : Type 0} where
    continue-Grows :
        (Q : A → S → Type 0) (s : S) (x : World S × Result E A) (f : A → Exec S E B)
        → R s x.0.db
        → Post Q x
        → ((a : A) → GrowsFrom (Q a) R (f a))
        → R s (continue x.0 x.1 f).0.db
    continue-Grows Q s (w, ok a) f h q hf = pre.chain s w.db _ h ((hf a).at w q)
    continue-Grows Q s (w, err e) f h q hf = h

    -- The rest may use what holds when the first action returns.
    pub GrowsFrom-bind :
        {P : S → Type 0} (Q : A → S → Type 0) (m : Exec S E A) (f : A → Exec S E B)
        → GrowsFrom P R m
        → Yields P m Q
        → ((a : A) → GrowsFrom (Q a) R (f a))
        → GrowsFrom P R (m >>= f)
    unfolding ◌>>=◌
    GrowsFrom-bind Q m f hm y hf = record {
      at = λ w p. continue-Grows Q w.db (m w) f (hm.at w p) (y.at w p) hf;
    }

-- A query hands on what it reads, and leaves the database as it is.
module _ {S E A : Type 0} where
  pub Yields-query :
      {P : S → Type 0} (e : E) (g : S → A)
      → Yields P (statement e (λ s. (s, g s))) (λ a s. P s × (a ≡ g s))
  Yields-query e g = Yields-statement e _ (λ s p. (p, refl))

module _ {S E A : Type 0} {R : S → S → Type 0} where
  pub Grows-of_GrowsFrom : (m : Exec S E A) → GrowsFrom (λ s. Unit {0}) R m → Grows R m
  Grows-of_GrowsFrom m g = record { at = λ w. g.at w tt }

-- An action that starts by reading: `R` need only be reflexive.
module _ {S E A B : Type 0} (R : S → S → Type 0) (same : (s : S) → R s s) where
  settle-then :
      (e : E) (g : S → A) (f : A → Exec S E B) (w : World S) (ts : List Tick)
      → ((v : World S) → v.db ≡ w.db → R w.db (f (g w.db) v).0.db)
      → R w.db (continue (settle e (λ s. (s, g s)) w ts).0 (settle e (λ s. (s, g s)) w ts).1 f).0.db
  settle-then e g f w [] h = h w refl
  settle-then e g f w (t ∷ ts) h =
      elim t.fails
        as (λ b.
          let x = elim b as (λ _. World S × Result E A) [
            | true ↦ (record { db = w.db; clock = w.clock + t.takes; ticks = ts }, err e)
            | false ↦ (record { db = w.db; clock = w.clock + t.takes; ticks = ts }, ok (g w.db))
          ] in
          R w.db (continue x.0 x.1 f).0.db) [ true ↦ same w.db | false ↦ h _ refl ]

  pub GrowsFrom-query :
      (P : S → Type 0) (e : E) (g : S → A) (f : A → Exec S E B)
      → ((a : A) → GrowsFrom (λ s. P s × (a ≡ g s)) R (f a))
      → GrowsFrom P R (statement e (λ s. (s, g s)) >>= f)
  unfolding ◌>>=◌ statement
  GrowsFrom-query P e g f hf = record {
    at = λ w p. settle-then e g f w w.ticks (λ v h.
        subst (λ s. R s (f (g w.db) v).0.db) h
          ((hf (g w.db)).at v (subst P (sym h) p, ap g (sym h))));
  }

module _ {S E B : Type 0} {P : S → Type 0} {R : S → S → Type 0} where
  pub GrowsFrom-now :
      (f : ℕ → Exec S E B) → ((t : ℕ) → GrowsFrom P R (f t)) → GrowsFrom P R (now >>= f)
  unfolding ◌>>=◌ now
  GrowsFrom-now f h = record { at = λ w p. (h w.clock).at w p }

module _ {S E A : Type 0} where
  settle-step :
      (R : S → S → Type 0)
      → ((s : S) → R s s)
      → (e : E) (f : S → S × A) (w : World S) (ts : List Tick) → R w.db (f w.db).0
      → R w.db (settle e f w ts).0.db
  settle-step R same e f w [] h = h
  settle-step R same e f w (t ∷ ts) h =
      elim t.fails
        as (λ b.
          R w.db
            (elim b as (λ _. World S × Result E A) [
              | true ↦ (record { db = w.db; clock = w.clock + t.takes; ticks = ts }, err e)
              | false ↦
                  (record { db = (f w.db).0; clock = w.clock + t.takes; ticks = ts }, ok (f w.db).1)
            ]).0.db) [ true ↦ same w.db | false ↦ h ]

module _ {S E A : Type 0} {P : S → Type 0} {R : S → S → Type 0} where
  pub GrowsFrom-update :
      ((s : S) → R s s)
      → (e : E) (f : S → S × A) → ((s : S) → P s → R s (f s).0)
      → GrowsFrom P R (statement e f)
  unfolding statement
  GrowsFrom-update same e f h = record { at = λ w p. settle-step R same e f w w.ticks (h w.db p) }

  pub GrowsFrom-never : (m : Exec S E A) → ((s : S) → P s → false ≡ true) → GrowsFrom P R m
  GrowsFrom-never m h = record { at = λ w p. cc (h w.db p) }

module _ {S E A : Type 0} {P P' : S → Type 0} {R : S → S → Type 0} where
  pub GrowsFrom-narrow :
      {m : Exec S E A} → ((s : S) → P' s → P s) → GrowsFrom P R m → GrowsFrom P' R m
  GrowsFrom-narrow h g = record { at = λ w p. g.at w (h w.db p) }
