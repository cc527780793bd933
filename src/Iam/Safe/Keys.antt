-- ===== src/Iam/Safe/Keys.antt =====
-- A relation that the writes keep is kept by the operations on API keys (internal/iam/keys.go).
use dilion.Base.{ℕ, ◌≡◌, true, String, List, Option, none, some, all, if◌then◌else◌}
use dilion.Exec.{pure, raise}
use dilion.Exec.Grows.{
  IsPreorder, Grows, Grows-pure, Grows-raise, Grows-statement, Grows-query, Grows-if, Grows-now,
  Grows-bind,
}
use dilion.Exec.Yields.{Yields, Yields-pure, Yields-raise, Yields-if}
use dilion.Exec.From.{GrowsFrom-of_Grows, GrowsFrom-bind, Yields-query, Grows-of_GrowsFrom}
use dilion.Iam.Db.{Db, Deps, ApiKey, invalid, database}
use dilion.Iam.Roles.{known_names}
use dilion.Iam.Keys.{
  scope_allowed, create_scoped, create_key, verify_loaded, verify_key, revoke_key_row,
  revoke_key_missing, revoke_key,
}
use dilion.Iam.Safe.Writes.{IsIamSafe, stamped}
use dilion.Iam.Safe.Rules.{writes}

module _ {deps : Deps} {R : Db → Db → Type 0} (k : IsIamSafe deps R) where
  scoped_Yields :
      (scopes known : List String)
      → Yields
          (λ s. Unit {0} × (known ≡ known_names scopes s))
          (if all (scope_allowed known) scopes then pure tt else raise invalid)
          (λ _ s. all (scope_allowed (known_names scopes s)) scopes ≡ true)
  scoped_Yields scopes known =
      Yields-if (all (scope_allowed known) scopes) _ _ (λ e. Yields-pure tt (λ s p. rw (← p.1) e))
        (λ e. Yields-raise invalid)

  create_scoped-Safe :
      (name : String) (scopes : List String) (expires : Option ℕ) (by by_type : String) (t : ℕ)
      → Grows R (create_scoped deps name scopes expires by by_type t)
  unfolding create_scoped
  create_scoped-Safe name scopes expires by by_type t = Grows-of_GrowsFrom _ (
      GrowsFrom-bind k.pre (λ known s. Unit {0} × (known ≡ known_names scopes s)) _ _
        (GrowsFrom-of_Grows _ (Grows-query k.pre _ _)) (Yields-query database _)
        (λ known.
          GrowsFrom-bind k.pre (λ _ s. all (scope_allowed (known_names scopes s)) scopes ≡ true) _ _
            (GrowsFrom-of_Grows _ (Grows-if k.pre _ _ _ (Grows-pure k.pre _) (Grows-raise k.pre _)))
            (scoped_Yields scopes known)
            (λ _. writes k.pre _ _ (λ s v. k.issues name scopes expires by by_type t s v))))

  pub create_key-Safe :
      (name : String) (scopes : List String) (expires : Option ℕ) (by by_type : String)
      → Grows R (create_key deps name scopes expires by by_type)
  unfolding create_key
  create_key-Safe name scopes expires by by_type =
      Grows-bind k.pre _ _ (Grows-query k.pre _ _) (λ _.
        Grows-bind k.pre _ _ (Grows-if k.pre _ _ _ (Grows-raise k.pre _) (Grows-pure k.pre _)) (λ _.
          Grows-bind k.pre _ _ (Grows-now k.pre) (λ t.
            Grows-bind k.pre _ _ (Grows-if k.pre _ _ _ (Grows-raise k.pre _) (Grows-pure k.pre _))
              (λ _. create_scoped-Safe name _ expires by by_type t))))

module _ {R : Db → Db → Type 0} (pre : IsPreorder R) where
  verify_loaded-Grows :
      (deps : Deps)
      → ((id : String) (t : ℕ) (s : Db) → R s (stamped id t s))
      → (x : Option ApiKey) → Grows R (verify_loaded deps x)
  unfolding verify_loaded
  verify_loaded-Grows deps stamps none = Grows-raise pre _
  verify_loaded-Grows deps stamps (some x) = Grows-bind pre _ _ (Grows-now pre) (λ t.
      Grows-bind pre _ _ (Grows-if pre _ _ _ (Grows-raise pre _) (Grows-pure pre _))
        (λ _. Grows-bind pre _ _ (Grows-statement pre _ _ (stamps x.id t)) (λ _. Grows-pure pre _)))

  pub verify_key-Grows :
      (deps : Deps)
      → ((id : String) (t : ℕ) (s : Db) → R s (stamped id t s))
      → (token : String) → Grows R (verify_key deps token)
  unfolding verify_key
  verify_key-Grows deps stamps token = Grows-bind pre _ _ (Grows-query pre _ _) (λ _.
      Grows-bind pre _ _ (Grows-if pre _ _ _ (Grows-pure pre _) (Grows-raise pre _))
        (λ _. Grows-bind pre _ _ (Grows-query pre _ _) (verify_loaded-Grows deps stamps)))

  pub revoke_key_missing-Grows :
      (id : String) (x : Option ApiKey) → Grows R (revoke_key_missing id x)
  unfolding revoke_key_missing
  revoke_key_missing-Grows id (some x) = Grows-pure pre x
  revoke_key_missing-Grows id none =
      Grows-bind pre _ _ (Grows-query pre _ _)
        (λ exists. Grows-if pre exists _ _ (Grows-raise pre _) (Grows-raise pre _))

  pub revoke_key-Grows :
      ((id by : String) (t : ℕ) (s : Db) → R s (revoke_key_row id by t s).0)
      → (id by : String) → Grows R (revoke_key id by)
  unfolding revoke_key
  revoke_key-Grows cancels id by = Grows-bind pre _ _ (Grows-query pre _ _) (λ _.
      Grows-bind pre _ _ (Grows-now pre) (λ t.
        Grows-bind pre _ _ (Grows-statement pre _ _ (cancels id by t))
          (revoke_key_missing-Grows id)))
