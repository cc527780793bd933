-- ===== src/Iam/Assignments.antt =====
-- Role assignments, whose history is kept (internal/iam/iam.go).
use dilion.Base.{
  ℕ, ◌+◌, Bool, ◌&&◌, String, ◌==◌, List, [], ◌∷◌, ◌++◌, Option, none, some, any, find,
  update_where, contains, eqb, if◌then◌else◌, select_where, is_none, not_empty,
}
use dilion.Exec.{pure, raise, lift, now, statement, query, ◌>>=◌, ◌>>◌}
use dilion.Iam.Db.{Db, M, Role, Assignment, not_found, conflict, invalid, database, resolve_pool}
use dilion.Iam.Roles.{get_role, found}
use dilion.Text.Trim.{trim}

-- The test of the existence check of `GrantRole`.
abbrev pub active_grant : String → String → Assignment → Bool
active_grant role actor a = a.role_id == role && (a.actor_id == actor && is_none a.revoked_at)

abbrev pub new_assignment : String → String → String → ℕ → ℕ → Assignment
new_assignment role actor by id t = record {
  id = id;
  actor_id = actor;
  role_id = role;
  granted_by = not_empty by;
  granted_at = t;
  revoked_by = none;
  revoked_at = none;
}

-- `insert into dilion_authz.role_assignments ... returning`.
abbrev pub insert_assignment : String → String → String → ℕ → Db → Db × Assignment
insert_assignment role actor by t db =
    let a = new_assignment role actor by db.next_id t in
    (record db { assignments = db.assignments ++ a ∷ []; next_id = db.next_id + 1 }, a)

-- `GrantRole` from the existence check on.
unfoldable pub grant_missing : String → String → String → M Assignment
grant_missing role actor by = do
  active ← query database (λ db. any (active_grant role actor) db.assignments)
  (if active then raise conflict else pure tt)
  t ← now
  statement database (insert_assignment role actor by t)

-- `GrantRole`.
unfoldable pub grant_role : String → String → String → M Assignment
grant_role role actor by = do
  resolve_pool
  (if trim actor == "" then raise invalid else pure tt)
  get_role role
  grant_missing role actor by

abbrev pub with_id : ℕ → Assignment → Bool
with_id id a = eqb a.id id

-- `GetAssignment`.
unfoldable pub get_assignment : ℕ → M Assignment
get_assignment id = do
  resolve_pool
  a ← query database (λ db. find (with_id id) db.assignments)
  lift (found a)

abbrev pub revocable : ℕ → Assignment → Bool
revocable id a = eqb a.id id && is_none a.revoked_at

abbrev pub revoked : String → ℕ → Assignment → Assignment
revoked by t a = record a { revoked_by = not_empty by; revoked_at = some t }

abbrev revoked_row : String → ℕ → Option Assignment → Option Assignment
revoked_row by t none = none
revoked_row by t (some a) = some (revoked by t a)

-- `update ... where id = $1 and revoked_at is null returning ...`.
abbrev pub revoke_row : ℕ → String → ℕ → Db → Db × Option Assignment
revoke_row id by t db = (
  record db { assignments = update_where (revocable id) (revoked by t) db.assignments },
  revoked_row by t (find (revocable id) db.assignments),
)

-- No row was updated: it is revoked already, or there is none.
unfoldable pub revoke_missing : ℕ → Option Assignment → M Assignment
revoke_missing id (some a) = pure a
revoke_missing id none = do
  exists ← query database (λ db. any (with_id id) db.assignments)
  if exists then raise conflict else raise not_found

-- `RevokeAssignment`.
unfoldable pub revoke_assignment : ℕ → String → M Assignment
revoke_assignment id by = do
  resolve_pool
  t ← now
  a ← statement database (revoke_row id by t)
  revoke_missing id a

-- The rows of the recertification report.
pub record Holder : Type 0 where
  pub actor_id : String
  pub role_id : String
  pub role_name : String
  pub granted_by : Option String
  pub granted_at : ℕ

-- The roles that an assignment is joined with.
abbrev pub grants : String → Assignment → Role → Bool
grants permission a r = r.id == a.role_id && contains r.permissions permission

unfoldable pub holders_of : Assignment → List Role → List Holder
holders_of a [] = []
holders_of a (r ∷ rs) =
    record {
      actor_id = a.actor_id;
      role_id = r.id;
      role_name = r.name;
      granted_by = a.granted_by;
      granted_at = a.granted_at;
    }
    ∷ holders_of a rs

-- The join of the report, in the order of the assignments.
unfoldable pub holders : String → List Role → List Assignment → List Holder
holders permission roles [] = []
holders permission roles (a ∷ as_) =
    let rest = holders permission roles as_ in
    if is_none a.revoked_at
    then holders_of a (select_where (grants permission a) roles) ++ rest
    else rest

-- `Recertification`; the rows are sorted for the reader.
unfoldable pub recertification : String → M (List Holder)
recertification permission = do
  resolve_pool
  (if trim permission == "" then raise invalid else pure tt)
  query database (λ db. holders permission db.roles db.assignments)
