-- ===== src/Exec/Defs.antt =====
-- The actions themselves, and how they are put together.
use dilion.Base.{ℕ, ◌+◌, Bool, true, false, List, [], ◌∷◌}

-- What the next statement meets: whether it fails, and how much time passes.
pub record Tick : Type 0 where
  pub fails : Bool
  pub takes : ℕ

-- When no tick is left, statements succeed at once.
pub record World (S : Type 0) : Type 0 where
  pub db : S
  pub clock : ℕ
  pub ticks : List Tick

pub data Result (E A : Type 0) : Type 0 where
  ok : A → Result E A
  err : E → Result E A

abbrev pub Exec : Type 0 → Type 0 → Type 0 → Type 0
Exec S E A = World S → World S × Result E A

module _ {S E A : Type 0} where
  unfoldable pub pure : A → Exec S E A
  pure a w = (w, ok a)

  unfoldable pub raise : E → Exec S E A
  raise e w = (w, err e)

  -- A value computed without effect.
  unfoldable pub lift : Result E A → Exec S E A
  lift r w = (w, r)

module _ {S E A B : Type 0} where
  abbrev pub continue : World S → Result E A → (A → Exec S E B) → World S × Result E B
  continue w (ok a) f = f a w
  continue w (err e) f = (w, err e)

  infixl 10 ◌>>=◌ ◌>>◌
  unfoldable pub ◌>>=◌ : Exec S E A → (A → Exec S E B) → Exec S E B
  unfolding pure raise lift
  ◌>>=◌ m f w = let (w', r) = m w in continue w' r f

  abbrev pub ◌>>◌ : Exec S E A → Exec S E B → Exec S E B
  m >> n = m >>= λ _. n

-- `a.now()`, `e.now()`.
module _ {S E : Type 0} where
  unfoldable pub now : Exec S E ℕ
  now w = (w, ok w.clock)

-- One statement: a failing one returns `e` and changes nothing.
module _ {S E A : Type 0} where
  abbrev pub settle : E → (S → S × A) → World S → List Tick → World S × Result E A
  settle e f w [] = let (s, a) = f w.db in (record w { db = s }, ok a)
  settle e f w (t ∷ ts) =
      let (s, a) = f w.db in
      let after = w.clock + t.takes in
      elim t.fails [
        | true ↦ (record { db = w.db; clock = after; ticks = ts }, err e)
        | false ↦ (record { db = s; clock = after; ticks = ts }, ok a)
      ]

  unfoldable pub statement : E → (S → S × A) → Exec S E A
  statement e f w = settle e f w w.ticks

  -- `Query` and `QueryRow`.
  abbrev pub query : E → (S → A) → Exec S E A
  query e f = statement e (λ s. (s, f s))

  -- What a failure becomes where the caller logs it and goes on.
  abbrev pub as_value : World S × Result E A → World S × Result E (Result E A)
  as_value (w, r) = (w, ok r)

  unfoldable pub attempt : Exec S E A → Exec S E (Result E A)
  attempt m w = as_value (m w)

module _ {S E : Type 0} where
  -- `Exec`.
  abbrev pub exec : E → (S → S) → Exec S E (Unit {0})
  exec e f = statement e (λ s. (f s, tt))

  -- `if ctx.Err() != nil`.
  abbrev pub check_ctx : E → Exec S E (Unit {0})
  check_ctx e = exec e (λ s. s)

module _ {S E A : Type 0} where
  -- A rolled back transaction leaves the database as it was at the start.
  abbrev pub rollback : S → World S × Result E A → World S × Result E A
  rollback s (w, ok a) = (w, ok a)
  rollback s (w, err x) = (record w { db = s }, err x)

  -- `Begin`, `Commit`, and `Rollback` on every error path.
  unfoldable pub in_tx : E → Exec S E A → Exec S E A
  unfolding ◌>>=◌ statement
  in_tx e m w = rollback w.db ((check_ctx e >>= λ _. m >>= λ a. check_ctx e >>= λ _. pure a) w)
