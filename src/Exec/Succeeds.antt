-- ===== src/Exec/Succeeds.antt =====
-- Runs without failures: the action returns, and what then holds.
use dilion.Base.{ℕ, ◌≡◌, refl, sym, subst, Bool, true, false, List, [], ◌∷◌, if◌then◌else◌}
use dilion.Exec.Defs.{
  World, Tick, Result, ok, err, Exec, pure, lift, now, attempt, as_value, ◌>>=◌, continue,
  statement, settle,
}

module _ {S E A : Type 0} where
  -- A run that returned, with no failure left to meet.
  abbrev pub Ended : (A → S → Type 0) → World S × Result E A → Type 0
  Ended Q (w, ok a) = (w.ticks ≡ []) × Q a w.db
  Ended Q (w, err e) = false ≡ true

  pub record Succeeds (P : S → Type 0) (m : Exec S E A) (Q : A → S → Type 0) : Type 0 where
    pub at : (w : World S) → w.ticks ≡ [] → P w.db → Ended Q (m w)

  pub Succeeds-pure :
      {P : S → Type 0} {Q : A → S → Type 0} (a : A)
      → ((s : S) → P s → Q a s)
      → Succeeds P (pure a) Q
  unfolding pure
  Succeeds-pure a h = record { at = λ w quiet p. (quiet, h w.db p) }

  settle-Ended :
      (P : S → Type 0) (Q : A → S → Type 0) (e : E) (f : S → S × A) (w : World S) (ts : List Tick)
      → ts ≡ []
      → w.ticks ≡ []
      → Q (f w.db).1 (f w.db).0
      → Ended Q (settle e f w ts)
  settle-Ended P Q e f w [] h quiet q = (quiet, q)
  settle-Ended P Q e f w (t ∷ ts) h quiet q = cc

  pub Succeeds-statement :
      {P : S → Type 0} {Q : A → S → Type 0} (e : E) (f : S → S × A)
      → ((s : S) → P s → Q (f s).1 (f s).0)
      → Succeeds P (statement e f) Q
  unfolding statement
  Succeeds-statement {P} {Q} e f h = record {
    at = λ w quiet p. settle-Ended P Q e f w w.ticks quiet quiet (h w.db p);
  }

  pub Succeeds-if :
      {P : S → Type 0} {Q : A → S → Type 0} (b : Bool) (m n : Exec S E A)
      → (b ≡ true → Succeeds P m Q)
      → (b ≡ false → Succeeds P n Q)
      → Succeeds P (if b then m else n) Q
  Succeeds-if true m n hm hn = hm refl
  Succeeds-if false m n hm hn = hn refl

module _ {S E A B : Type 0} where
  continue-Ended :
      (Q : A → S → Type 0) (Q' : B → S → Type 0) (x : World S × Result E A) (f : A → Exec S E B)
      → Ended Q x
      → ((a : A) → Succeeds (Q a) (f a) Q')
      → Ended Q' (continue x.0 x.1 f)
  continue-Ended Q Q' (w, ok a) f h hf = (hf a).at w h.0 h.1
  continue-Ended Q Q' (w, err e) f h hf = cc

  pub Succeeds-bind :
      {P : S → Type 0} (Q : A → S → Type 0) {Q' : B → S → Type 0} (m : Exec S E A)
      (f : A → Exec S E B)
      → Succeeds P m Q
      → ((a : A) → Succeeds (Q a) (f a) Q')
      → Succeeds P (m >>= f) Q'
  unfolding ◌>>=◌
  Succeeds-bind Q {Q'} m f h hf = record {
    at = λ w quiet p. continue-Ended Q Q' (m w) f (h.at w quiet p) hf;
  }

module _ {S E : Type 0} where
  pub Succeeds-now :
      {P : S → Type 0} {Q : ℕ → S → Type 0}
      → ((t : ℕ) (s : S) → P s → Q t s)
      → Succeeds P (now {E = E}) Q
  unfolding now
  Succeeds-now h = record { at = λ w quiet p. (quiet, h w.clock w.db p) }

module _ {S E A : Type 0} where
  as_value-Ended :
      (P : S → Type 0) (x : World S × Result E A) → Ended (λ _. P) x → Ended (λ _. P) (as_value x)
  as_value-Ended P (w, ok a) h = h
  as_value-Ended P (w, err e) h = cc

  pub Succeeds-attempt :
      {P : S → Type 0} (m : Exec S E A) → Succeeds P m (λ _. P) → Succeeds P (attempt m) (λ _. P)
  unfolding attempt
  Succeeds-attempt {P} m h = record { at = λ w quiet p. as_value-Ended P (m w) (h.at w quiet p) }

  pub Succeeds-lift :
      {P : S → Type 0} {Q : A → S → Type 0} (r : Result E A) (a : A)
      → r ≡ ok a
      → ((s : S) → P s → Q a s)
      → Succeeds P (lift r) Q
  unfolding lift
  Succeeds-lift {P} {Q} r a e h = record {
    at = λ w quiet p. subst (λ x. Ended Q (w, x)) (sym e) (quiet, h w.db p);
  }
