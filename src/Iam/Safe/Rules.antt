-- ===== src/Iam/Safe/Rules.antt =====
-- The lookups of internal/iam change nothing, and how a write follows what was checked.
use dilion.Base.{ℕ, Bool, String, List, if◌then◌else◌}
use dilion.Exec.{Result, pure, raise, lift, now, statement, ◌>>=◌}
use dilion.Exec.Grows.{
  IsPreorder, Grows, Grows-pure, Grows-raise, Grows-lift, Grows-query, Grows-if, Grows-now,
  Grows-bind,
}
use dilion.Exec.Yields.{Yields-now, Yields-anything}
use dilion.Exec.From.{GrowsFrom, GrowsFrom-of_Grows, GrowsFrom-statement, GrowsFrom-bind}
use dilion.Iam.Db.{Db, M, Error}
use dilion.Iam.Roles.{role_permissions, get_role}
use dilion.Iam.Assignments.{get_assignment}
use dilion.Iam.Keys.{get_key}

-- `now`, and a write that may rest on what was checked.
module _ {R : Db → Db → Type 0} (pre : IsPreorder R) {P : Db → Type 0} {A : Type 0} where
  pub timed : (m : ℕ → M A) → ((t : ℕ) → GrowsFrom P R (m t)) → GrowsFrom P R (now >>= m)
  timed m h =
      GrowsFrom-bind pre (λ _. P) now m (GrowsFrom-of_Grows _ (Grows-now pre))
        (Yields-now (λ t s p. p)) h

  pub writes :
      (e : Error) (f : Db → Db × Result Error A)
      → ((s : Db) → P s → R s (f s).0)
      → GrowsFrom P R (statement e f >>= lift)
  writes e f h =
      GrowsFrom-bind pre (λ _ s. Unit {0}) _ _ (GrowsFrom-statement pre e f h) (Yields-anything _)
        (λ r. GrowsFrom-of_Grows _ (Grows-lift pre r))

module _ {R : Db → Db → Type 0} (pre : IsPreorder R) where
  in_order :
      {A B : Type 0} (m : M A) (f : A → M B)
      → Grows R m
      → ((a : A) → Grows R (f a))
      → Grows R (m >>= f)
  in_order = Grows-bind pre

  either :
      {A : Type 0} (b : Bool) (m n : M A) → Grows R m → Grows R n → Grows R (if b then m else n)
  either = Grows-if pre

  returns : {A : Type 0} (a : A) → Grows R (pure {E = Error} a)
  returns = Grows-pure pre

  fails : {A : Type 0} (e : Error) → Grows R (raise {A = A} e)
  fails = Grows-raise pre

  answers : {A : Type 0} (r : Result Error A) → Grows R (lift r)
  answers = Grows-lift pre

  reads : {A : Type 0} (e : Error) (f : Db → A) → Grows R (statement e (λ s. (s, f s)))
  reads = Grows-query pre

  reads_time : Grows R (now {E = Error})
  reads_time = Grows-now pre

  pub get_role-Safe : (id : String) → Grows R (get_role id)
  unfolding get_role
  get_role-Safe id = search (in_order, reads, answers) depth 12

  pub role_permissions-Safe : (ps : List String) → Grows R (role_permissions ps)
  unfolding role_permissions
  role_permissions-Safe ps = search (in_order, either, returns, fails, reads) depth 14

  pub get_assignment-Safe : (id : ℕ) → Grows R (get_assignment id)
  unfolding get_assignment
  get_assignment-Safe id = search (in_order, reads, answers) depth 12

  pub get_key-Safe : (id : String) → Grows R (get_key id)
  unfolding get_key
  get_key-Safe id = search (in_order, reads, answers) depth 12
