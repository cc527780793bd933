-- ===== src/Iam/Authorizer.antt =====
-- The builtin authorizer (internal/iam/authorizer.go). `any (grants p a) roles` is the join with the
-- roles.
use dilion.Base.{
  ℕ, Bool, true, false, ◌&&◌, ◌||◌, not, String, ◌==◌, List, [], ◌∷◌, ◌++◌, Option, none, some, any,
  contains, if◌then◌else◌, is_none, holds_text,
}
use dilion.Exec.{pure, now, query, ◌>>=◌, ◌>>◌}
use dilion.Iam.Db.{
  Db, M, Role, Assignment, ApiKey, Actor, database, resolve_pool, type_service_role, type_user,
}
use dilion.Iam.Assignments.{grants}
use dilion.Iam.Keys.{is_active}

-- An active assignment of the actor gives the permission.
abbrev pub assigned : String → String → List Role → Assignment → Bool
assigned actor p roles a = a.actor_id == actor && (is_none a.revoked_at && any (grants p a) roles)

abbrev pub by_role : String → String → Db → Bool
by_role actor p db = any (assigned actor p db.roles) db.assignments

-- The same for a nullable column, `cra.actor_id = k.created_by`.
abbrev pub by_role_of : Option String → String → Db → Bool
by_role_of none p db = false
by_role_of (some creator) p db = by_role creator p db

-- `k.created_by_type is distinct from 'user' or exists (...)`.
abbrev pub still_backed : ApiKey → String → Db → Bool
still_backed k p db = not (holds_text k.created_by_type type_user) || by_role_of k.created_by p db

-- The second branch of `Can`.
abbrev pub keyed : ℕ → String → String → Db → ApiKey → Bool
keyed t actor p db k =
    k.id == actor && (is_active t k && (contains k.scopes p && still_backed k p db))

abbrev pub by_key : ℕ → String → String → Db → Bool
by_key t actor p db = any (keyed t actor p db) db.api_keys

unfoldable pub is_allowed : ℕ → String → String → Db → Bool
is_allowed t actor p db = by_role actor p db || by_key t actor p db

-- `Can`.
unfoldable pub can : Actor → String → M Bool
can actor p =
    if actor.type == type_service_role
    then pure true
    else if actor.id == "" || p == ""
    then pure false
    else (do resolve_pool; t ← now; query database (is_allowed t actor.id p))

-- `select unnest(r.permissions) ... where ra.actor_id = $1 and ra.revoked_at is null`.
unfoldable pub permissions_of_roles : String → List Role → List String
permissions_of_roles id [] = []
permissions_of_roles id (r ∷ rs) =
    let rest = permissions_of_roles id rs in if r.id == id then r.permissions ++ rest else rest

unfoldable pub role_permissions_of : String → List Role → List Assignment → List String
role_permissions_of actor roles [] = []
role_permissions_of actor roles (a ∷ as_) =
    let rest = role_permissions_of actor roles as_ in
    if a.actor_id == actor && is_none a.revoked_at
    then permissions_of_roles a.role_id roles ++ rest
    else rest

-- The scopes of a key that count.
unfoldable pub scopes_of : Db → ApiKey → List String → List String
scopes_of db k [] = []
scopes_of db k (p ∷ ps) =
    let rest = scopes_of db k ps in if still_backed k p db then p ∷ rest else rest

unfoldable pub key_permissions_of : ℕ → String → Db → List ApiKey → List String
key_permissions_of t actor db [] = []
key_permissions_of t actor db (k ∷ ks) =
    let rest = key_permissions_of t actor db ks in
    if k.id == actor && is_active t k then scopes_of db k k.scopes ++ rest else rest

-- `array_agg(distinct p)`, but for the order.
unfoldable pub distinct : List String → List String
distinct [] = []
distinct (x ∷ xs) = let rest = distinct xs in if contains rest x then rest else x ∷ rest

unfoldable pub held_permissions : ℕ → String → Db → List String
held_permissions t actor db =
    distinct (
      role_permissions_of actor db.roles db.assignments
      ++ key_permissions_of t actor db db.api_keys)

-- `Permissions`.
unfoldable pub permissions : Actor → M (List String)
permissions actor =
    if actor.id == ""
    then pure []
    else (do resolve_pool; t ← now; query database (held_permissions t actor.id))
