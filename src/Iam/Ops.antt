-- ===== src/Iam/Ops.antt =====
-- What a client may do to roles and keys, one operation after the other. `verify` stands for an
-- authentication by a key.
use dilion.Base.{ℕ, String, List, [], ◌∷◌, Option}
use dilion.Exec.{pure, attempt, ◌>>◌}
use dilion.Iam.Db.{M, Deps}
use dilion.Iam.Roles.{create_permission}
use dilion.Iam.Keys.{verify_key}
use dilion.Iam.Handlers.{
  RequestInfo, handle_create_role, handle_update_role, handle_grant_role, handle_revoke_assignment,
  handle_create_key, handle_revoke_key,
}

pub data Operation : Type 0 where
  register : String → Operation
  add_role : String → List String → Operation
  change_role : String → List String → Operation
  grant : String → String → Operation
  revoke : ℕ → Operation
  issue_key : String → List String → Option ℕ → Operation
  cancel_key : String → Operation
  verify : String → Operation

module _ (deps : Deps) where
  -- The answer goes to the caller; what follows does not depend on it.
  unfoldable pub perform : RequestInfo → Operation → M (Unit {0})
  perform ri (register name) = attempt (create_permission name) >> pure tt
  perform ri (add_role name perms) = attempt (handle_create_role deps ri name perms) >> pure tt
  perform ri (change_role id perms) = attempt (handle_update_role deps ri id perms) >> pure tt
  perform ri (grant id actor) = attempt (handle_grant_role deps ri id actor) >> pure tt
  perform ri (revoke id) = attempt (handle_revoke_assignment deps ri id) >> pure tt
  perform ri (issue_key name scopes expires) =
      attempt (handle_create_key deps ri name scopes expires) >> pure tt
  perform ri (cancel_key id) = attempt (handle_revoke_key deps ri id) >> pure tt
  perform ri (verify token) = attempt (verify_key deps token) >> pure tt

  -- Each operation has its own caller.
  unfoldable pub perform_all : List (RequestInfo × Operation) → M (Unit {0})
  perform_all [] = pure tt
  perform_all ((ri, o) ∷ os) = perform ri o >> perform_all os
