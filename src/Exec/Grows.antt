-- ===== src/Exec/Grows.antt =====
-- What an action does to the database, whatever fails on the way: a reflexive and transitive
-- relation between the database before and after. Invariants, monotone tables and frames are such.
use dilion.Base.{◌+◌, Bool, true, false, List, [], ◌∷◌, if◌then◌else◌}
use dilion.Exec.Defs.{
  World, Tick, Result, ok, err, Exec, pure, raise, lift, now, ◌>>=◌, continue, statement, settle,
  attempt, in_tx, rollback, check_ctx,
}

pub record IsPreorder {S : Type 0} (R : S → S → Type 0) : Type 0 where
  pub same : (s : S) → R s s
  pub chain : (s t u : S) → R s t → R t u → R s u

pub record Grows {S E A : Type 0} (R : S → S → Type 0) (m : Exec S E A) : Type 0 where
  pub at : (w : World S) → R w.db (m w).0.db

module _ {S E : Type 0} {R : S → S → Type 0} (pre : IsPreorder R) where
  module _ {A : Type 0} where
    pub Grows-pure : (a : A) → Grows R (pure {E = E} a)
    unfolding pure
    Grows-pure a = record { at = λ w. pre.same w.db }

    pub Grows-raise : (e : E) → Grows R (raise {A = A} e)
    unfolding raise
    Grows-raise e = record { at = λ w. pre.same w.db }

    pub Grows-lift : (r : Result E A) → Grows R (lift r)
    unfolding lift
    Grows-lift r = record { at = λ w. pre.same w.db }

    settle-Grows :
        (e : E) (f : S → S × A) (w : World S) (ts : List Tick)
        → ((s : S) → R s (f s).0)
        → R w.db (settle e f w ts).0.db
    settle-Grows e f w [] h = h w.db
    settle-Grows e f w (t ∷ ts) h =
        elim t.fails
          as (λ b.
            R w.db
              (elim b as (λ _. World S × Result E A) [
                | true ↦ (record { db = w.db; clock = w.clock + t.takes; ticks = ts }, err e)
                | false ↦ (
                  record { db = (f w.db).0; clock = w.clock + t.takes; ticks = ts },
                  ok (f w.db).1,
                )
              ]).0.db) [ true ↦ pre.same w.db | false ↦ h w.db ]

    pub Grows-statement :
        (e : E) (f : S → S × A) → ((s : S) → R s (f s).0) → Grows R (statement e f)
    unfolding statement
    Grows-statement e f h = record { at = λ w. settle-Grows e f w w.ticks h }

    pub Grows-query : (e : E) (f : S → A) → Grows R (statement e (λ s. (s, f s)))
    Grows-query e f = Grows-statement e (λ s. (s, f s)) pre.same

    pub Grows-if :
        (b : Bool) (m n : Exec S E A) → Grows R m → Grows R n → Grows R (if b then m else n)
    Grows-if true m n hm hn = hm
    Grows-if false m n hm hn = hn

    pub Grows-attempt : (m : Exec S E A) → Grows R m → Grows R (attempt m)
    unfolding attempt
    Grows-attempt m h = record { at = λ w. h.at w }

    rollback-Grows : (s : S) (x : World S × Result E A) → R s x.0.db → R s (rollback s x).0.db
    rollback-Grows s (w, ok a) h = h
    rollback-Grows s (w, err e) h = pre.same s

  pub Grows-now : Grows R (now {E = E})
  unfolding now
  Grows-now = record { at = λ w. pre.same w.db }

  module _ {A B : Type 0} where
    continue-Grows :
        (s : S) (w : World S) (r : Result E A) (f : A → Exec S E B)
        → R s w.db
        → ((a : A) → Grows R (f a))
        → R s (continue w r f).0.db
    continue-Grows s w (ok a) f h hf = pre.chain s w.db _ h ((hf a).at w)
    continue-Grows s w (err e) f h hf = h

    pub Grows-bind :
        (m : Exec S E A) (f : A → Exec S E B)
        → Grows R m
        → ((a : A) → Grows R (f a))
        → Grows R (m >>= f)
    unfolding ◌>>=◌
    Grows-bind m f hm hf = record {
      at = λ w. let (w', r) = m w in continue-Grows w.db w' r f (hm.at w) hf;
    }

module _ {S E A : Type 0} {R : S → S → Type 0} (pre : IsPreorder R) where
  pub Grows-in_tx : (e : E) (m : Exec S E A) → Grows R m → Grows R (in_tx e m)
  unfolding in_tx
  Grows-in_tx e m h = record {
    at = λ w. rollback-Grows pre w.db _ (
        (Grows-bind pre (check_ctx e) _ (Grows-statement pre e _ pre.same) (λ _.
            Grows-bind pre m _ h (λ a.
              Grows-bind pre (check_ctx e) _ (Grows-statement pre e _ pre.same)
                (λ _. Grows-pure pre a)))).at
          w);
  }

module _ {S E A : Type 0} {R R' : S → S → Type 0} where
  pub Grows-weaken : (m : Exec S E A) → ((s t : S) → R s t → R' s t) → Grows R m → Grows R' m
  Grows-weaken m h g = record { at = λ w. h w.db _ (g.at w) }
