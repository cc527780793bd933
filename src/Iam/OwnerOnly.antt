-- ===== src/Iam/OwnerOnly.antt =====
-- The permissions that belong to the builtin roles alone (internal/iam/iam.go, OwnerOnlyPermissions).
use dilion.Base.{
  all-append, all-update_where, ℕ, ◌≡◌, refl, Bool, true, false, ◌&&◌, ◌||◌, not, String, ◌==◌,
  List, [], ◌∷◌, any, all, contains, update_where, eq_iff, is_none, arith, Bool-cases, inl, inr,
}
use dilion.Exec.{World}
use dilion.Exec.Grows.{IsPreorder}
use dilion.Iam.Db.{Db, Deps, Role, ApiKey, Assignment, Permission, owner_only_permissions}
use dilion.Iam.Roles.{insert_permission, insert_role, set_permissions, custom, known_names}
use dilion.Iam.Assignments.{grants}
use dilion.Iam.Keys.{insert_key, scope_allowed, revocable_key, revoked_key}
use dilion.Iam.Authorizer.{is_allowed, assigned, keyed}
use dilion.Iam.Handlers.{RequestInfo}
use dilion.Iam.Ops.{Operation, perform_all}
use dilion.Iam.Safe.Writes.{IsIamSafe}
use dilion.Iam.Safe.Run.{perform_all-Safe}

abbrev owns : List String → Bool
owns ps = any (contains owner_only_permissions) ps

abbrev modest_role : Role → Bool
modest_role r = r.builtin || not (owns r.permissions)

abbrev modest_key : ApiKey → Bool
modest_key k = not (owns k.scopes)

-- No custom role and no key has such a permission.
abbrev pub IsModest : Db → Type 0
IsModest s = (all modest_role s.roles ≡ true) × (all modest_key s.api_keys ≡ true)

scopes_modest :
    (known scopes : List String) → all (scope_allowed known) scopes ≡ true → owns scopes ≡ false
scopes_modest known [] h = refl
scopes_modest known (p ∷ ps) h = ground (arith, scopes_modest known ps)

abbrev Keeps : Db → Db → Type 0
Keeps s t = IsModest s → IsModest t

pre : IsPreorder Keeps
pre = record { same = λ s h. h; chain = λ s t u h k p. k (h p) }

registers : (p : Permission) (s : Db) → Keeps s (insert_permission p s).0
registers p s h = ground arith

adds : (r : Role) (s : Db) → owns r.permissions ≡ false → Keeps s (insert_role r s).0
adds r s e h = ground (arith, all-append modest_role s.roles r)

changes :
    (id : String) (ps : List String) (s : Db)
    → owns ps ≡ false
    → Keeps s (set_permissions id ps s).0
changes id ps s e h = ground (
  arith,
  all-update_where modest_role (custom id) (λ r. record r { permissions = ps })
      (λ r k. ground arith) s.roles,
)

issues : (k : ApiKey) (s : Db) → owns k.scopes ≡ false → Keeps s (insert_key k s).0
issues k s e h = ground (arith, all-append modest_key s.api_keys k)

keys_leaf :
    (p : ApiKey → Bool) (f : ApiKey → ApiKey) (s : Db)
    → ((k : ApiKey) → (f k).scopes ≡ k.scopes)
    → Keeps s (record s { api_keys = update_where p f s.api_keys })
keys_leaf p f s same h =
    (h.0, all-update_where modest_key p f (λ k e. rw (same k) e) s.api_keys h.1)

safe : (deps : Deps) → IsIamSafe deps Keeps
safe deps = record {
  pre = pre;
  registers = λ name t s v. registers _ s;
  adds = λ name perms t s v. adds _ s v.0;
  changes = λ id perms s v. changes id perms s v.0;
  grants = λ role actor by t s free h. h;
  revokes = λ id by t s h. h;
  issues = λ name scopes expires by by_type t s v.
      issues _ s (scopes_modest (known_names scopes s) scopes v);
  cancels = λ id by t s. keys_leaf (revocable_key id) (revoked_key by t) s (λ k. refl);
  stamps = λ id t s. keys_leaf (λ x. x.id == id) _ s (λ k. refl);
}

-- The role that gives the permission is builtin.
abbrev builtin_grant : String → Assignment → Role → Bool
builtin_grant p a r = r.builtin && grants p a r

abbrev pub by_builtin : String → String → Db → Bool
by_builtin p actor s =
    any (λ a. a.actor_id == actor && (is_none a.revoked_at && any (builtin_grant p a) s.roles))
      s.assignments

module _ (p : String) (reserved : contains owner_only_permissions p ≡ true) where
  owns_of : (ps : List String) → contains ps p ≡ true → owns ps ≡ true
  owns_of [] h = cc
  owns_of (q ∷ ps) h = elim (Bool-cases (q == p)) [
    | inl same ↦ rw ((eq_iff q p).0 same, reserved) refl
    | inr other ↦ ground (arith, owns_of ps)
  ]

  roles_lem :
      (a : Assignment) (rs : List Role)
      → all modest_role rs ≡ true
      → any (grants p a) rs ≡ true
      → any (builtin_grant p a) rs ≡ true
  roles_lem a [] h k = k
  roles_lem a (r ∷ rs) h k = ground (arith, owns_of r.permissions, roles_lem a rs)

  assignments_lem :
      (actor : String) (rs : List Role) (as_ : List Assignment)
      → all modest_role rs ≡ true
      → any (assigned actor p rs) as_ ≡ true
      → any (λ a. a.actor_id == actor && (is_none a.revoked_at && any (builtin_grant p a) rs)) as_
        ≡ true
  assignments_lem actor rs [] h k = k
  assignments_lem actor rs (a ∷ as_) h k =
      ground (arith, roles_lem a rs, assignments_lem actor rs as_ h)

  keys_lem :
      (t : ℕ) (actor : String) (s : Db) (ks : List ApiKey)
      → all modest_key ks ≡ true
      → any (keyed t actor p s) ks ≡ false
  keys_lem t actor s [] h = refl
  keys_lem t actor s (k ∷ ks) h = ground (arith, owns_of k.scopes, keys_lem t actor s ks)

  modest_decision :
      (t : ℕ) (actor : String) (s : Db)
      → IsModest s
      → is_allowed t actor p s ≡ true
      → by_builtin p actor s ≡ true
  unfolding is_allowed
  modest_decision t actor s h k =
      ground
        (arith, assignments_lem actor s.roles s.assignments h.0, keys_lem t actor s s.api_keys h.1)

-- A permission of the owner only: if no custom role and no key has one at the start, then after any
-- operations, with any failures, the authorizer grants it at most to an actor who holds it by an
-- active assignment of a builtin role.
pub owner_only_stays_builtin :
    (deps : Deps) (os : List (RequestInfo × Operation)) (w : World Db) (t : ℕ) (actor p : String)
    → IsModest w.db
    → contains owner_only_permissions p ≡ true
    → is_allowed t actor p (perform_all deps os w).0.db ≡ true
    → by_builtin p actor (perform_all deps os w).0.db ≡ true
owner_only_stays_builtin deps os w t actor p h reserved allowed =
    modest_decision p reserved t actor _ ((perform_all-Safe (safe deps) os).at w h) allowed
