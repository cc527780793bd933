-- ===== src/Iam/Roles.antt =====
-- Permissions and roles (internal/iam/iam.go).
use dilion.Base.{
  ℕ, Bool, true, false, ◌&&◌, ◌||◌, not, String, ◌==◌, List, [], ◌∷◌, ◌++◌, Option, none, some, any,
  all, find, update_where, contains, map, leb, eqb, if◌then◌else◌, select_where,
}
use dilion.Exec.{Result, ok, err, pure, raise, lift, now, statement, query, ◌>>=◌, ◌>>◌}
use dilion.Iam.Db.{
  Db, M, Error, Deps, Permission, Role, not_found, conflict, invalid, builtin_immutable, database,
  resolve_pool, owner_only_permissions, builtin_permissions,
}
use dilion.Text.Codes.{codes}
use dilion.Text.Trim.{trim}

-- `customPermissionRe`, `^[a-z][a-z0-9-]*\.[a-z0-9.-]+$`.
abbrev is_lower : ℕ → Bool
is_lower c = leb b'a' c && leb c b'z'

abbrev is_word : ℕ → Bool
is_word c = is_lower c || ((leb b'0' c && leb c b'9') || eqb c b'-')

abbrev is_tail : List ℕ → Bool
is_tail [] = false
is_tail (c ∷ s) = all (λ d. is_word d || eqb d b'.') (c ∷ s)

is_rest : List ℕ → Bool
is_rest [] = false
is_rest (c ∷ s) = if eqb c b'.' then is_tail s else is_word c && is_rest s

abbrev is_custom : List ℕ → Bool
is_custom [] = false
is_custom (c ∷ s) = is_lower c && is_rest s

-- `ValidateCustomPermission`.
unfoldable pub validate_custom_permission : String → Result Error (Unit {0})
unfolding is_rest codes
validate_custom_permission name =
    if not (is_custom (codes name))
    then err invalid
    else if contains builtin_permissions name
    then err invalid
    else ok tt

-- `insert ... on conflict (name) do nothing returning created_at`.
abbrev pub insert_permission : Permission → Db → Db × Result Error Permission
insert_permission p db =
    if any (λ q. q.name == p.name) db.permissions
    then (db, err conflict)
    else (record db { permissions = db.permissions ++ p ∷ [] }, ok p)

-- `CreatePermission`.
unfoldable pub create_permission : String → M Permission
create_permission name = do
  resolve_pool
  lift (validate_custom_permission name)
  t ← now
  r ←
      statement database
        (λ db. insert_permission (record { name = name; builtin = false; created_at = t }) db)
  lift r

-- `dedupe`.
unfoldable pub dedupe_onto : List String → List String → List String
dedupe_onto out [] = out
dedupe_onto out (v ∷ vs) =
    let s = trim v in dedupe_onto (if s == "" || contains out s then out else out ++ s ∷ []) vs

abbrev pub dedupe : List String → List String
dedupe vs = dedupe_onto [] vs

-- `select coalesce(array_agg(name), '{}') from dilion_authz.permissions where name = any($1)`.
unfoldable pub known_names : List String → Db → List String
known_names ps db = map (λ p. p.name) (select_where (λ p. contains ps p.name) db.permissions)

abbrev pub is_empty : List String → Bool
is_empty [] = true
is_empty (x ∷ xs) = false

-- `rolePermissions`.
unfoldable pub role_permissions : List String → M (List String)
role_permissions permissions =
    let perms = dedupe permissions in
    if is_empty perms
    then raise invalid
    else if any (contains owner_only_permissions) perms
    then raise invalid
    else (do
      known ← query database (known_names perms)
      if all (contains known) perms then pure perms else raise invalid)

-- `insert ... on conflict (name) do nothing returning created_at`; the primary key is the id.
abbrev pub insert_role : Role → Db → Db × Result Error Role
insert_role r db =
    if any (λ q. q.name == r.name) db.roles
    then (db, err conflict)
    else if any (λ q. q.id == r.id) db.roles
    then (db, err database)
    else (record db { roles = db.roles ++ r ∷ [] }, ok r)

-- `CreateRole`.
unfoldable pub create_role : Deps → String → List String → M Role
create_role deps name permissions = do
  resolve_pool
  (if trim name == "" then raise invalid else pure tt)
  perms ← role_permissions permissions
  t ← now
  r ← statement database (λ db.
      insert_role
        (record {
          id = deps.new_role_id db;
          name = trim name;
          permissions = perms;
          builtin = false;
          created_at = t;
        })
        db)
  lift r

abbrev pub found : {A : Type 0} → Option A → Result Error A
found none = err not_found
found (some a) = ok a

-- `GetRole`.
unfoldable pub get_role : String → M Role
get_role id = do
  resolve_pool
  r ← query database (λ db. find (λ r. r.id == id) db.roles)
  lift (found r)

abbrev pub custom : String → Role → Bool
custom id r = r.id == id && not r.builtin

-- `update ... where id = $1 and not builtin returning permissions`.
abbrev pub set_permissions : String → List String → Db → Db × Result Error (Unit {0})
set_permissions id perms db =
    if any (custom id) db.roles
    then (
      record db {
        roles = update_where (custom id) (λ r. record r { permissions = perms }) db.roles;
      },
      ok tt,
    )
    else (db, err not_found)

-- `UpdateRole`.
unfoldable pub update_role : String → List String → M Role
update_role id permissions = do
  resolve_pool
  cur ← get_role id
  (if cur.builtin then raise builtin_immutable else pure tt)
  perms ← role_permissions permissions
  r ← statement database (set_permissions id perms)
  lift r
  pure (record cur { permissions = perms })
