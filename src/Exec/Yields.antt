-- ===== src/Exec/Yields.antt =====
-- What holds when an action returns a value: preconditions and postconditions on the database.
use dilion.Base.{ℕ, ◌+◌, ◌≡◌, refl, subst, Bool, true, false, List, [], ◌∷◌, if◌then◌else◌}
use dilion.Exec.Defs.{
  World, Tick, Result, ok, err, Exec, pure, raise, lift, now, in_tx, rollback, check_ctx, ◌>>=◌,
  continue, statement, settle,
}
use dilion.Exec.Grows.{Grows}

module _ {S E A : Type 0} where
  -- The postcondition of a run: an error promises nothing.
  abbrev pub Post : (A → S → Type 0) → World S × Result E A → Type 0
  Post Q (w, ok a) = Q a w.db
  Post Q (w, err e) = Unit

  pub any-Post : (x : World S × Result E A) → Post (λ _ s. Unit {0}) x
  any-Post (w, ok a) = tt
  any-Post (w, err e) = tt

  pub Post-ok :
      (Q : A → S → Type 0) (a : A) (x : World S × Result E A) → x.1 ≡ ok a → Post Q x → Q a x.0.db
  Post-ok Q a (w, r) e q = subst (λ y. Post Q (w, y)) e q

  pub record Yields (P : S → Type 0) (m : Exec S E A) (Q : A → S → Type 0) : Type 0 where
    pub at : (w : World S) → P w.db → Post Q (m w)

  pub Yields-pure :
      {P : S → Type 0} {Q : A → S → Type 0} (a : A) → ((s : S) → P s → Q a s) → Yields P (pure a) Q
  unfolding pure
  Yields-pure a h = record { at = λ w p. h w.db p }

  pub Yields-raise : {P : S → Type 0} {Q : A → S → Type 0} (e : E) → Yields P (raise e) Q
  unfolding raise
  Yields-raise e = record { at = λ w p. tt }

  settle-Yields :
      (P : S → Type 0) (Q : A → S → Type 0) (e : E) (f : S → S × A) (w : World S) (ts : List Tick)
      → P w.db
      → ((s : S) → P s → Q (f s).1 (f s).0)
      → Post Q (settle e f w ts)
  settle-Yields P Q e f w [] p h = h w.db p
  settle-Yields P Q e f w (t ∷ ts) p h =
      elim t.fails
        as (λ b. Post Q (elim b as (λ _. World S × Result E A) [
          | true ↦ (record { db = w.db; clock = w.clock + t.takes; ticks = ts }, err e)
          | false ↦
              (record { db = (f w.db).0; clock = w.clock + t.takes; ticks = ts }, ok (f w.db).1)
        ])) [ true ↦ tt | false ↦ h w.db p ]

  pub Yields-statement :
      {P : S → Type 0} {Q : A → S → Type 0} (e : E) (f : S → S × A)
      → ((s : S) → P s → Q (f s).1 (f s).0)
      → Yields P (statement e f) Q
  unfolding statement
  Yields-statement {P} {Q} e f h = record { at = λ w p. settle-Yields P Q e f w w.ticks p h }

  pub Yields-if :
      {P : S → Type 0} {Q : A → S → Type 0} (b : Bool) (m n : Exec S E A)
      → (b ≡ true → Yields P m Q)
      → (b ≡ false → Yields P n Q)
      → Yields P (if b then m else n) Q
  Yields-if true m n hm hn = hm refl
  Yields-if false m n hm hn = hn refl

  pub Yields-anything : {P : S → Type 0} (m : Exec S E A) → Yields P m (λ _ s. Unit {0})
  Yields-anything m = record { at = λ w p. any-Post (m w) }

  pub Yields-impossible :
      {P : S → Type 0} {m : Exec S E A} {Q : A → S → Type 0} → false ≡ true → Yields P m Q
  Yields-impossible h = record { at = λ w p. cc }

  weaken-Post :
      (Q Q' : A → S → Type 0) (x : World S × Result E A)
      → ((a : A) (s : S) → Q a s → Q' a s)
      → Post Q x
      → Post Q' x
  weaken-Post Q Q' (w, ok a) h q = h a w.db q
  weaken-Post Q Q' (w, err e) h q = tt

  pub Yields-weaken :
      {P P' : S → Type 0} {Q Q' : A → S → Type 0} (m : Exec S E A)
      → ((s : S) → P' s → P s)
      → ((a : A) (s : S) → Q a s → Q' a s)
      → Yields P m Q
      → Yields P' m Q'
  Yields-weaken {Q = Q} {Q' = Q'} m hp hq y = record {
    at = λ w p. weaken-Post Q Q' (m w) hq (y.at w (hp w.db p));
  }

  frame-Post :
      (s : S) (R : S → S → Type 0) (x : World S × Result E A) → R s x.0.db → Post (λ _ t. R s t) x
  frame-Post s R (w, ok a) h = h
  frame-Post s R (w, err e) h = tt

  -- What an action does to the database holds when it returns, too.
  pub Yields-of_Grows :
      (P : S → Type 0) (m : Exec S E A) → Grows (λ s t. P s → P t) m → Yields P m (λ _. P)
  Yields-of_Grows P m g = record {
    at = λ w p.
        weaken-Post (λ _ t. P w.db → P t) (λ _. P) (m w) (λ a s f. f p)
          (frame-Post w.db (λ s t. P s → P t) (m w) (g.at w));
  }

  both-Post :
      (Q Q' : A → S → Type 0) (x : World S × Result E A)
      → Post Q x
      → Post Q' x
      → Post (λ a s. Q a s × Q' a s) x
  both-Post Q Q' (w, ok a) q q' = (q, q')
  both-Post Q Q' (w, err e) q q' = tt

  pub Yields-both :
      {P P' : S → Type 0} {Q Q' : A → S → Type 0} (m : Exec S E A)
      → Yields P m Q
      → Yields P' m Q'
      → Yields (λ s. P s × P' s) m (λ a s. Q a s × Q' a s)
  Yields-both {Q = Q} {Q' = Q'} m y y' = record {
    at = λ w p. both-Post Q Q' (m w) (y.at w p.0) (y'.at w p.1);
  }

module _ {S E A B : Type 0} where
  continue-Post :
      (Q : A → S → Type 0) (Q' : B → S → Type 0) (x : World S × Result E A) (f : A → Exec S E B)
      → Post Q x
      → ((a : A) → Yields (Q a) (f a) Q')
      → Post Q' (continue x.0 x.1 f)
  continue-Post Q Q' (w, ok a) f q h = (h a).at w q
  continue-Post Q Q' (w, err e) f q h = tt

  pub Yields-bind :
      {P : S → Type 0} (Q : A → S → Type 0) {Q' : B → S → Type 0} (m : Exec S E A)
      (f : A → Exec S E B)
      → Yields P m Q
      → ((a : A) → Yields (Q a) (f a) Q')
      → Yields P (m >>= f) Q'
  unfolding ◌>>=◌
  Yields-bind Q {Q'} m f y h = record { at = λ w p. continue-Post Q Q' (m w) f (y.at w p) h }

module _ {S E : Type 0} where
  pub Yields-now :
      {P : S → Type 0} {Q : ℕ → S → Type 0}
      → ((t : ℕ) (s : S) → P s → Q t s)
      → Yields P (now {E = E}) Q
  unfolding now
  Yields-now h = record { at = λ w p. h w.clock w.db p }

module _ {S E A : Type 0} where
  rollback-Post :
      (Q : A → S → Type 0) (s : S) (x : World S × Result E A) → Post Q x → Post Q (rollback s x)
  rollback-Post Q s (w, ok a) h = h
  rollback-Post Q s (w, err e) h = tt

  pub Yields-in_tx :
      {P : S → Type 0} {Q : A → S → Type 0} (e : E) (m : Exec S E A)
      → Yields P m Q
      → Yields P (in_tx e m) Q
  unfolding in_tx
  Yields-in_tx {P} {Q} e m y = record {
    at = λ w p. rollback-Post Q w.db _ (
        (Yields-bind (λ _. P) (check_ctx e) _ (Yields-statement e _ (λ s h. h))
            (λ _. Yields-bind Q m _ y (λ a.
              Yields-bind (λ _. Q a) (check_ctx e) _ (Yields-statement e _ (λ s h. h))
                (λ _. Yields-pure a (λ s h. h))))).at
          w p);
  }

  -- A value computed without effect is handed on.
  pub Yields-lift :
      {P : S → Type 0} {Q : A → S → Type 0} (r : Result E A)
      → ((a : A) (s : S) → r ≡ ok a → P s → Q a s)
      → Yields P (lift r) Q
  unfolding lift
  Yields-lift (ok a) h = record { at = λ w p. h a w.db refl p }
  Yields-lift (err e) h = record { at = λ w p. tt }
