-- ===== src/Iam/Handlers.antt =====
-- The handlers that grant and revoke, and the ceiling of what a caller may grant
-- (internal/api/security.go and internal/api/iam.go). What they write to the access log and the shape
-- of the answer are left out.
use dilion.Base.{
  ℕ, Bool, true, false, not, String, ◌==◌, List, [], ◌∷◌, ◌++◌, Option, contains, if◌then◌else◌,
}
use dilion.Exec.{pure, raise, ◌>>=◌, ◌>>◌}
use dilion.Iam.Db.{
  M, Deps, Role, Assignment, ApiKey, Actor, permission_denied, type_api_key, type_service_role,
}
use dilion.Iam.Roles.{create_role, update_role, get_role, is_empty}
use dilion.Iam.Assignments.{grant_role, get_assignment, revoke_assignment}
use dilion.Iam.Keys.{create_key, get_key, revoke_key}
use dilion.Iam.Authorizer.{can}

-- `requestInfo`: the caller, and the scopes of its API key.
pub record RequestInfo : Type 0 where
  pub actor : Actor
  pub scopes : List String

-- `scopesAllow`.
abbrev pub scopes_allow : RequestInfo → String → Bool
scopes_allow ri p = if not (ri.actor.type == type_api_key) then true else contains ri.scopes p

-- The rule of the guard.
unfoldable pub holds : RequestInfo → String → M Bool
holds ri p = if scopes_allow ri p then can ri.actor p else pure false

abbrev pub add_missing : List String → String → Bool → List String
add_missing missing p held = if held then missing else missing ++ p ∷ []

-- The loop of `grantCeiling`.
unfoldable pub missing_of : RequestInfo → List String → List String → M (List String)
missing_of ri missing [] = pure missing
missing_of ri missing (p ∷ ps) = do
  held ← if contains missing p then pure true else holds ri p
  missing_of ri (add_missing missing p held) ps

-- `grantCeiling`; the answer lists the missing permissions in order.
unfoldable pub grant_ceiling : RequestInfo → List String → M (Unit {0})
grant_ceiling ri perms = if ri.actor.type == type_service_role then pure tt else (do
  missing ← missing_of ri [] perms
  if is_empty missing then pure tt else raise (permission_denied missing))

module _ (deps : Deps) (ri : RequestInfo) where
  -- `createRole`.
  unfoldable pub handle_create_role : String → List String → M Role
  handle_create_role name perms = do grant_ceiling ri perms; create_role deps name perms

  -- `updateRole`.
  unfoldable pub handle_update_role : String → List String → M Role
  handle_update_role id perms = do
    cur ← get_role id
    grant_ceiling ri (cur.permissions ++ perms)
    update_role id perms

  -- `createRoleAssignment`.
  unfoldable pub handle_grant_role : String → String → M Assignment
  handle_grant_role id actor = do
    role ← get_role id
    grant_ceiling ri role.permissions
    grant_role id actor ri.actor.id

  -- `revokeRoleAssignment`.
  unfoldable pub handle_revoke_assignment : ℕ → M Assignment
  handle_revoke_assignment id = do
    cur ← get_assignment id
    role ← get_role cur.role_id
    grant_ceiling ri role.permissions
    revoke_assignment id ri.actor.id

  -- `createApiKey`.
  unfoldable pub handle_create_key : String → List String → Option ℕ → M ApiKey
  handle_create_key name scopes expires =
      if ri.actor.type == type_api_key then raise (permission_denied []) else (do
        grant_ceiling ri scopes
        create_key deps name scopes expires ri.actor.id ri.actor.type)

  -- `revokeApiKey`.
  unfoldable pub handle_revoke_key : String → M ApiKey
  handle_revoke_key id = do cur ← get_key id; grant_ceiling ri cur.scopes; revoke_key id ri.actor.id
