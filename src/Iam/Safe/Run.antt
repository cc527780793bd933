-- ===== src/Iam/Safe/Run.antt =====
-- A relation that the writes keep is kept by every sequence of calls of the API
-- (internal/api/iam.go).
use dilion.Base.{ℕ, true, false, ◌||◌, ◌==◌, String, List, [], ◌∷◌, Option}
use dilion.Exec.{pure, now, attempt, ◌>>=◌}
use dilion.Exec.Grows.{
  IsPreorder, Grows, Grows-pure, Grows-raise, Grows-query, Grows-if, Grows-attempt, Grows-now,
  Grows-bind,
}
use dilion.Iam.Db.{Db, M, Deps, Actor, database, resolve_pool, type_service_role}
use dilion.Iam.Authorizer.{can, is_allowed}
use dilion.Iam.Handlers.{
  RequestInfo, holds, missing_of, grant_ceiling, handle_create_role, handle_update_role,
  handle_grant_role, handle_revoke_assignment, handle_create_key, handle_revoke_key,
}
use dilion.Iam.Ops.{
  Operation, register, add_role, change_role, grant, revoke, issue_key, cancel_key, verify, perform,
  perform_all,
}
use dilion.Iam.Safe.Writes.{IsIamSafe}
use dilion.Iam.Safe.Rules.{get_role-Safe, get_assignment-Safe, get_key-Safe}
use dilion.Iam.Safe.Tables.{
  create_permission-Grows, create_role-Safe, update_role-Safe, grant_role-Safe,
  revoke_assignment-Grows,
}
use dilion.Iam.Safe.Keys.{create_key-Safe, verify_key-Grows, revoke_key-Grows}

-- A decision and the ceiling only read.
module _ {R : Db → Db → Type 0} (pre : IsPreorder R) where
  can-Safe : (a : Actor) (p : String) → Grows R (can a p)
  unfolding can
  can-Safe a p = Grows-if pre (a.type == type_service_role) _ _ (Grows-pure pre true) (
      Grows-if pre (a.id == "" || p == "") _ _ (Grows-pure pre false) (
        Grows-bind pre resolve_pool _ (Grows-query pre database (λ s. tt)) (λ _.
          Grows-bind pre now _ (Grows-now pre)
            (λ t. Grows-query pre database (is_allowed t a.id p)))))

  holds-Safe : (ri : RequestInfo) (p : String) → Grows R (holds ri p)
  unfolding holds
  holds-Safe ri p = Grows-if pre _ _ _ (can-Safe ri.actor p) (Grows-pure pre _)

  missing_of-Safe :
      (ri : RequestInfo) (missing ps : List String) → Grows R (missing_of ri missing ps)
  unfolding missing_of
  missing_of-Safe ri missing [] = Grows-pure pre _
  missing_of-Safe ri missing (p ∷ ps) =
      Grows-bind pre _ _ (Grows-if pre _ _ _ (Grows-pure pre _) (holds-Safe ri p))
        (λ held. missing_of-Safe ri _ ps)

  pub grant_ceiling-Safe : (ri : RequestInfo) (ps : List String) → Grows R (grant_ceiling ri ps)
  unfolding grant_ceiling
  grant_ceiling-Safe ri ps = Grows-if pre _ _ _ (Grows-pure pre _) (
      Grows-bind pre _ _ (missing_of-Safe ri [] ps)
        (λ m. Grows-if pre _ _ _ (Grows-pure pre _) (Grows-raise pre _)))

module _ {deps : Deps} {R : Db → Db → Type 0} (k : IsIamSafe deps R) where
  module _ (ri : RequestInfo) where
    handle_create_role-Safe :
        (name : String) (ps : List String) → Grows R (handle_create_role deps ri name ps)
    unfolding handle_create_role
    handle_create_role-Safe name ps =
        Grows-bind k.pre _ _ (grant_ceiling-Safe k.pre ri ps) (λ _. create_role-Safe k name ps)

    handle_update_role-Safe :
        (id : String) (ps : List String) → Grows R (handle_update_role deps ri id ps)
    unfolding handle_update_role
    handle_update_role-Safe id ps = Grows-bind k.pre _ _ (get_role-Safe k.pre id) (λ cur.
        Grows-bind k.pre _ _ (grant_ceiling-Safe k.pre ri _) (λ _. update_role-Safe k id ps))

    handle_grant_role-Safe : (id actor : String) → Grows R (handle_grant_role deps ri id actor)
    unfolding handle_grant_role
    handle_grant_role-Safe id actor = Grows-bind k.pre _ _ (get_role-Safe k.pre id) (λ role.
        Grows-bind k.pre _ _ (grant_ceiling-Safe k.pre ri _) (λ _. grant_role-Safe k id actor _))

    handle_revoke_assignment-Safe : (id : ℕ) → Grows R (handle_revoke_assignment deps ri id)
    unfolding handle_revoke_assignment
    handle_revoke_assignment-Safe id = Grows-bind k.pre _ _ (get_assignment-Safe k.pre id) (λ cur.
        Grows-bind k.pre _ _ (get_role-Safe k.pre _) (λ role.
          Grows-bind k.pre _ _ (grant_ceiling-Safe k.pre ri _)
            (λ _. revoke_assignment-Grows k.pre k.revokes id _)))

    handle_create_key-Safe :
        (name : String) (scopes : List String) (expires : Option ℕ)
        → Grows R (handle_create_key deps ri name scopes expires)
    unfolding handle_create_key
    handle_create_key-Safe name scopes expires = Grows-if k.pre _ _ _ (Grows-raise k.pre _) (
        Grows-bind k.pre _ _ (grant_ceiling-Safe k.pre ri scopes)
          (λ _. create_key-Safe k name scopes expires _ _))

    handle_revoke_key-Safe : (id : String) → Grows R (handle_revoke_key deps ri id)
    unfolding handle_revoke_key
    handle_revoke_key-Safe id = Grows-bind k.pre _ _ (get_key-Safe k.pre id) (λ cur.
        Grows-bind k.pre _ _ (grant_ceiling-Safe k.pre ri _)
          (λ _. revoke_key-Grows k.pre k.cancels id _))

  tried : {A : Type 0} (m : M A) → Grows R m → Grows R (attempt m >>= λ _. pure tt)
  tried m h = Grows-bind k.pre _ _ (Grows-attempt k.pre m h) (λ _. Grows-pure k.pre _)

  perform-Safe : (ri : RequestInfo) (o : Operation) → Grows R (perform deps ri o)
  unfolding perform
  perform-Safe ri (register name) = tried _ (create_permission-Grows k.pre k.registers name)
  perform-Safe ri (add_role name ps) = tried _ (handle_create_role-Safe ri name ps)
  perform-Safe ri (change_role id ps) = tried _ (handle_update_role-Safe ri id ps)
  perform-Safe ri (grant id actor) = tried _ (handle_grant_role-Safe ri id actor)
  perform-Safe ri (revoke id) = tried _ (handle_revoke_assignment-Safe ri id)
  perform-Safe ri (issue_key name scopes expires) =
      tried _ (handle_create_key-Safe ri name scopes expires)
  perform-Safe ri (cancel_key id) = tried _ (handle_revoke_key-Safe ri id)
  perform-Safe ri (verify token) = tried _ (verify_key-Grows k.pre deps k.stamps token)

  pub perform_all-Safe : (os : List (RequestInfo × Operation)) → Grows R (perform_all deps os)
  unfolding perform_all
  perform_all-Safe [] = Grows-pure k.pre _
  perform_all-Safe ((ri, o) ∷ os) =
      Grows-bind k.pre _ _ (perform-Safe ri o) (λ _. perform_all-Safe os)
