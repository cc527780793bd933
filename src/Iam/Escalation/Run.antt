-- ===== src/Iam/Escalation/Run.antt =====
-- Sequences of calls by the members of a group (internal/api/iam.go).
use dilion.Base.{
  ℕ, ◌≡◌, refl, Bool, true, false, String, ◌==◌, List, [], ◌∷◌, ◌++◌, Option, some, contains, find,
  ◌⊎◌, arith,
}
use dilion.Exec.{World, pure, attempt, ◌>>=◌}
use dilion.Exec.Grows.{Grows, Grows-pure, Grows-raise, Grows-attempt, Grows-bind, Grows-if}
use dilion.Exec.Yields.{Yields, Yields-weaken}
use dilion.Exec.From.{Grows-of_GrowsFrom}
use dilion.Iam.Db.{Db, M, Deps, type_service_role, permission_denied}
use dilion.Iam.Keys.{revocable_key, revoked_key}
use dilion.Iam.Authorizer.{is_allowed}
use dilion.Iam.Handlers.{
  RequestInfo, grant_ceiling, handle_create_role, handle_update_role, handle_grant_role,
  handle_revoke_assignment, handle_create_key, handle_revoke_key,
}
use dilion.Iam.Ops.{
  Operation, register, add_role, change_role, grant, revoke, issue_key, cancel_key, verify, perform,
  perform_all,
}
use dilion.Iam.Safe.Run.{grant_ceiling-Safe}
use dilion.Iam.Safe.Rules.{get_role-Safe, get_assignment-Safe, get_key-Safe}
use dilion.Iam.Safe.Tables.{create_permission-Grows, revoke_assignment-Grows}
use dilion.Iam.Safe.Keys.{verify_key-Grows, revoke_key-Grows}
use dilion.Iam.Escalation.Ceiling.{grant_ceiling-HoldsAll}
use dilion.Iam.Escalation.Clean.{IsClean}
use dilion.Iam.Escalation.Writes.{Contained, Contained-preorder, AllHeldBy, HeldBy, register_leaf}
use dilion.Iam.Escalation.GrantWrites.{revoke_leaf, keys_leaf}
use dilion.Iam.Escalation.Grants.{
  reading, get_role-found, create_role-Contained, update_role-Contained, grant_role-Contained,
  create_key-Contained,
}

contains_left :
    (xs ys : List String) (p : String) → contains ys p ≡ true → contains (xs ++ ys) p ≡ true
contains_left [] ys p h = h
contains_left (x ∷ xs) ys p h = ground (arith, contains_left xs ys p)

-- A caller of the group who does not use the service role.
abbrev pub IsMember : (String → Bool) → RequestInfo → Type 0
IsMember group ri = (group ri.actor.id ≡ true) × ((ri.actor.type == type_service_role) ≡ false)

-- The callers of a sequence are members.
abbrev pub AllMembers : (String → Bool) → List (RequestInfo × Operation) → Type 0
AllMembers group [] = Unit
AllMembers group ((ri, o) ∷ os) = IsMember group ri × AllMembers group os

module _ (group : String → Bool) (deps : Deps) where
  abbrev R : Db → Db → Type 0
  R = Contained group

  module _ (ri : RequestInfo) (member : IsMember group ri) where
    passed :
        (P : Db → Type 0) (ps : List String)
        → Yields P (grant_ceiling ri ps) (λ _ s. P s × AllHeldBy group ps s)
    passed P ps =
        Yields-weaken _ (λ s p. p) (λ u s h. (h.0, λ p k. (ri.actor.id, member.0, h.1 p k)))
          (grant_ceiling-HoldsAll ri member.1 P ps)

    ceiling_reads : (ps : List String) → Grows R (grant_ceiling ri ps)
    ceiling_reads ps = grant_ceiling-Safe (Contained-preorder group) ri ps

    handle_create_role-Contained :
        (name : String) (ps : List String) → Grows R (handle_create_role deps ri name ps)
    unfolding handle_create_role
    handle_create_role-Contained name ps = Grows-of_GrowsFrom _ (
        reading group (λ _ s. Unit {0} × AllHeldBy group ps s) _ _ (ceiling_reads ps)
          (passed (λ s. Unit {0}) ps)
          (λ _. record { at = λ w p. (create_role-Contained group deps name ps).at w p.1 }))

    handle_update_role-Contained :
        (id : String) (ps : List String) → Grows R (handle_update_role deps ri id ps)
    unfolding handle_update_role
    handle_update_role-Contained id ps =
        Grows-bind (Contained-preorder group) _ _ (get_role-Safe (Contained-preorder group) id)
          (λ cur. Grows-of_GrowsFrom _ (
            reading group (λ _ s. Unit {0} × AllHeldBy group (cur.permissions ++ ps) s) _ _
              (ceiling_reads (cur.permissions ++ ps))
              (passed (λ s. Unit {0}) (cur.permissions ++ ps))
              (λ _. record {
                at = λ w p.
                    (update_role-Contained group id ps).at w
                      (λ q k. p.1 q (contains_left cur.permissions ps q k));
              })))

    handle_grant_role-Contained : (id actor : String) → Grows R (handle_grant_role deps ri id actor)
    unfolding handle_grant_role
    handle_grant_role-Contained id actor = Grows-of_GrowsFrom _ (
        reading group (λ r s. Unit {0} × (find (λ x. x.id == id) s.roles ≡ some r)) _ _
          (get_role-Safe (Contained-preorder group) id) (get_role-found id)
          (λ r.
            reading group
              (λ _ s.
                (Unit {0} × (find (λ x. x.id == id) s.roles ≡ some r))
                × AllHeldBy group r.permissions s)
              _ _ (ceiling_reads r.permissions)
              (passed (λ s. Unit {0} × (find (λ x. x.id == id) s.roles ≡ some r)) r.permissions)
              (λ _. record {
                at = λ w p. (grant_role-Contained group id actor ri.actor.id r).at w (p.1, p.0.1);
              })))

    handle_create_key-Contained :
        (name : String) (scopes : List String) (expires : Option ℕ)
        → Grows R (handle_create_key deps ri name scopes expires)
    unfolding handle_create_key
    handle_create_key-Contained name scopes expires =
        Grows-if (Contained-preorder group) _ _ _
          (Grows-raise (Contained-preorder group) (permission_denied []))
          (Grows-of_GrowsFrom _ (
            reading group (λ _ s. Unit {0} × AllHeldBy group scopes s) _ _ (ceiling_reads scopes)
              (passed (λ s. Unit {0}) scopes)
              (λ _. record {
                at = λ w p.
                    (create_key-Contained group deps name scopes expires ri.actor.id
                        ri.actor.type).at
                      w p.1;
              })))

    handle_revoke_assignment-Contained : (id : ℕ) → Grows R (handle_revoke_assignment deps ri id)
    unfolding handle_revoke_assignment
    handle_revoke_assignment-Contained id =
        Grows-bind (Contained-preorder group) _ _
          (get_assignment-Safe (Contained-preorder group) id)
          (λ cur.
            Grows-bind (Contained-preorder group) _ _
              (get_role-Safe (Contained-preorder group) cur.role_id)
              (λ role.
                Grows-bind (Contained-preorder group) _ _ (ceiling_reads role.permissions) (λ _.
                  revoke_assignment-Grows (Contained-preorder group) (revoke_leaf group) id
                    ri.actor.id)))

    handle_revoke_key-Contained : (id : String) → Grows R (handle_revoke_key deps ri id)
    unfolding handle_revoke_key
    handle_revoke_key-Contained id =
        Grows-bind (Contained-preorder group) _ _ (get_key-Safe (Contained-preorder group) id)
          (λ cur. Grows-bind (Contained-preorder group) _ _ (ceiling_reads cur.scopes) (λ _.
            revoke_key-Grows (Contained-preorder group)
              (λ id by t s.
                keys_leaf group (revocable_key id) (revoked_key by t) s
                  (λ time y p u k hit e. ground arith) (λ k. refl))
              id ri.actor.id))

    tried : {A : Type 0} (m : M A) → Grows R m → Grows R (attempt m >>= λ _. pure tt)
    tried m h =
        Grows-bind (Contained-preorder group) _ _ (Grows-attempt (Contained-preorder group) m h)
          (λ _. Grows-pure (Contained-preorder group) _)

    perform-Contained : (o : Operation) → Grows R (perform deps ri o)
    unfolding perform
    perform-Contained (register name) = tried _ (
        create_permission-Grows (Contained-preorder group) (λ n t s v. register_leaf group _ s)
          name)
    perform-Contained (add_role name ps) = tried _ (handle_create_role-Contained name ps)
    perform-Contained (change_role id ps) = tried _ (handle_update_role-Contained id ps)
    perform-Contained (grant id actor) = tried _ (handle_grant_role-Contained id actor)
    perform-Contained (revoke id) = tried _ (handle_revoke_assignment-Contained id)
    perform-Contained (issue_key name scopes expires) =
        tried _ (handle_create_key-Contained name scopes expires)
    perform-Contained (cancel_key id) = tried _ (handle_revoke_key-Contained id)
    perform-Contained (verify token) = tried _ (
        verify_key-Grows (Contained-preorder group) deps
          (λ id t s. keys_leaf group (λ x. x.id == id) _ s (λ time y p u k hit e. e) (λ k. refl))
          token)

  perform_all-Contained :
      (os : List (RequestInfo × Operation)) → AllMembers group os → Grows R (perform_all deps os)
  unfolding perform_all
  perform_all-Contained [] m = Grows-pure (Contained-preorder group) _
  perform_all-Contained ((ri, o) ∷ os) m =
      Grows-bind (Contained-preorder group) _ _ (perform-Contained ri m.0 o)
        (λ _. perform_all-Contained os m.1)

-- No escalation: if callers of a group, none of them the service role, call the API in any order and
-- with any failures, then an actor whom the authorizer grants a permission afterwards was granted it
-- before at the same time, or someone of the group was granted it before. The tables are well formed
-- at the start: role ids are unique and permissions are stored trimmed.
pub perform_all_no_escalation :
    (group : String → Bool) (deps : Deps) (os : List (RequestInfo × Operation)) (w : World Db)
    (time : ℕ) (actor p : String)
    → AllMembers group os
    → IsClean w.db
    → is_allowed time actor p (perform_all deps os w).0.db ≡ true
    → (is_allowed time actor p w.db ≡ true) ⊎ HeldBy group w.db p
perform_all_no_escalation group deps os w time actor p members clean =
    ((perform_all-Contained group deps os members).at w clean).1 time actor p
