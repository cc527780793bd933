-- ===== src/Iam/Safe/Writes.antt =====
-- The writes of internal/iam that a relation between the tables has to bear, each with what the code
-- has checked before it.
use dilion.Base.{
  ℕ, ◌≡◌, refl, Bool, true, false, String, ◌==◌, List, Option, some, any, all, contains,
  update_where, if◌then◌else◌,
}
use dilion.Exec.{Result, ok, pure, raise, lift}
use dilion.Exec.Grows.{IsPreorder}
use dilion.Exec.Yields.{Yields, Yields-pure, Yields-raise, Yields-if, Yields-bind, Yields-lift}
use dilion.Exec.From.{Yields-query}
use dilion.Iam.Db.{Db, Error, Deps, invalid, database, owner_only_permissions}
use dilion.Iam.Roles.{
  validate_custom_permission, insert_permission, dedupe, known_names, is_empty, role_permissions,
  insert_role, set_permissions,
}
use dilion.Iam.Assignments.{active_grant, insert_assignment, revoke_row}
use dilion.Iam.Keys.{scope_allowed, new_key, insert_key, revoke_key_row}

-- What `rolePermissions` has checked.
abbrev pub Vetted : List String → Db → Type 0
Vetted perms s =
    (any (contains owner_only_permissions) perms ≡ false)
    × (all (contains (known_names perms s)) perms ≡ true)

abbrev pub stamped : String → ℕ → Db → Db
stamped id t s = record s {
  api_keys = update_where (λ x. x.id == id) (λ x. record x { last_used_at = some t }) s.api_keys;
}

-- The writes, each with what the code has checked before it.
pub record IsIamSafe (deps : Deps) (R : Db → Db → Type 0) : Type 0 where
  pub pre : IsPreorder R
  pub registers :
      (name : String) (t : ℕ) (s : Db)
      → validate_custom_permission name ≡ ok tt
      → R s (insert_permission (record { name = name; builtin = false; created_at = t }) s).0
  pub adds :
      (name : String) (perms : List String) (t : ℕ) (s : Db)
      → Vetted perms s
      → R s
          (insert_role
            (record {
              id = deps.new_role_id s;
              name = name;
              permissions = perms;
              builtin = false;
              created_at = t;
            })
            s).0
  pub changes :
      (id : String) (perms : List String) (s : Db)
      → Vetted perms s
      → R s (set_permissions id perms s).0
  pub grants :
      (role actor by : String) (t : ℕ) (s : Db)
      → any (active_grant role actor) s.assignments ≡ false
      → R s (insert_assignment role actor by t s).0
  pub revokes : (id : ℕ) (by : String) (t : ℕ) (s : Db) → R s (revoke_row id by t s).0
  pub issues :
      (name : String) (scopes : List String) (expires : Option ℕ) (by by_type : String) (t : ℕ)
      (s : Db)
      → all (scope_allowed (known_names scopes s)) scopes ≡ true
      → R s (insert_key (new_key deps name scopes expires by by_type t s) s).0
  pub cancels : (id by : String) (t : ℕ) (s : Db) → R s (revoke_key_row id by t s).0
  pub stamps : (id : String) (t : ℕ) (s : Db) → R s (stamped id t s)

-- What a guard before the rest has established.
module _ {P : Db → Type 0} where
  pub guarded_Yields :
      (b : Bool) (e : Error) → Yields P (if b then pure tt else raise e) (λ _ s. P s × (b ≡ true))
  guarded_Yields true e = Yields-pure tt (λ s p. (p, refl))
  guarded_Yields false e = Yields-raise e

  pub blocked_Yields :
      (b : Bool) (e : Error) → Yields P (if b then raise e else pure tt) (λ _ s. P s × (b ≡ false))
  blocked_Yields true e = Yields-raise e
  blocked_Yields false e = Yields-pure tt (λ s p. (p, refl))

pub validated :
    (r : Result Error (Unit {0})) → Yields {S = Db} (λ s. Unit {0}) (lift r) (λ u s. r ≡ ok tt)
validated r = Yields-lift r (λ u s e p. e)

known_Vetted :
    (perms known : List String)
    → any (contains owner_only_permissions) perms ≡ false
    → Yields
        (λ s. Unit {0} × (known ≡ known_names perms s))
        (if all (contains known) perms then pure perms else raise invalid)
        Vetted
known_Vetted perms known free =
    Yields-if (all (contains known) perms) _ _
      (λ e. Yields-pure perms (λ s p. (free, rw (← p.1) e))) (λ e. Yields-raise invalid)

pub role_permissions-Vetted :
    (ps : List String) → Yields (λ s. Unit {0}) (role_permissions ps) Vetted
unfolding role_permissions
role_permissions-Vetted ps =
    let perms = dedupe ps in
    Yields-if (is_empty perms) _ _ (λ e. Yields-raise invalid)
      (λ e.
        Yields-if (any (contains owner_only_permissions) perms) _ _ (λ e'. Yields-raise invalid)
          (λ free.
            Yields-bind (λ known s. Unit {0} × (known ≡ known_names perms s)) _ _
              (Yields-query database (known_names perms)) (λ known. known_Vetted perms known free)))
