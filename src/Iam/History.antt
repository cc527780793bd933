-- ===== src/Iam/History.antt =====
-- The history of role assignments (internal/iam/iam.go, GrantRole and RevokeAssignment).
use dilion.Base.{
  ℕ, ◌≡◌, ◌≤◌, refl, ◌∙◌, true, false, ◌&&◌, String, ◌==◌, List, [], ◌∷◌, ◌++◌, any, count,
  update_where, eq_iff, is_none, if◌then◌else◌, arith, Bool-cases, inl, inr, both_true,
  count-update_where, count-append_none, count-append_one,
}
use dilion.Exec.{World}
use dilion.Exec.Grows.{IsPreorder}
use dilion.Iam.Db.{Db, Deps, Assignment, Role, Permission, ApiKey}
use dilion.Iam.Roles.{insert_permission, insert_role, set_permissions}
use dilion.Iam.Assignments.{active_grant, new_assignment, revocable, revoked}
use dilion.Iam.Keys.{insert_key}
use dilion.Iam.Handlers.{RequestInfo}
use dilion.Iam.Ops.{Operation, perform_all}
use dilion.Iam.Safe.Writes.{IsIamSafe}
use dilion.Iam.Safe.Run.{perform_all-Safe}

-- Writes to the other tables leave the assignments as they are.
module _ (s : Db) where
  insert_permission-assignments :
      (p : Permission) → (insert_permission p s).0.assignments ≡ s.assignments
  insert_permission-assignments p = ground arith

  insert_role-assignments : (r : Role) → (insert_role r s).0.assignments ≡ s.assignments
  insert_role-assignments r = ground arith

  set_permissions-assignments :
      (id : String) (ps : List String) → (set_permissions id ps s).0.assignments ≡ s.assignments
  set_permissions-assignments id ps = ground arith

  insert_key-assignments : (k : ApiKey) → (insert_key k s).0.assignments ≡ s.assignments
  insert_key-assignments k = ground arith

-- A relation that looks at the assignments only.
module _ {R : Db → Db → Type 0} (deps : Deps) (pre : IsPreorder R)
    (elsewhere : (s t : Db) → t.assignments ≡ s.assignments → R s t) where
  pub on_assignments :
      ((role actor by : String) (t id : ℕ) (s : Db)
        → any (active_grant role actor) s.assignments ≡ false
        → R s (record s {
          assignments = s.assignments ++ new_assignment role actor by s.next_id t ∷ [];
          next_id = id;
        }))
      → ((id : ℕ) (by : String) (t : ℕ) (s : Db)
          → R s
              (record s { assignments = update_where (revocable id) (revoked by t) s.assignments }))
      → IsIamSafe deps R
  on_assignments grants revokes = record {
    pre = pre;
    registers = λ name t s v. elsewhere s _ (insert_permission-assignments s _);
    adds = λ name perms t s v. elsewhere s _ (insert_role-assignments s _);
    changes = λ id perms s v. elsewhere s _ (set_permissions-assignments s id perms);
    grants = λ role actor by t s v. grants role actor by t _ s v;
    revokes = revokes;
    issues = λ name scopes expires by by_type t s v. elsewhere s _ (insert_key-assignments s _);
    cancels = λ id by t s. elsewhere s _ refl;
    stamps = λ id t s. elsewhere s _ refl;
  }

-- A row of the history later: a revoked one is as it was, and an active one is at most revoked.
pub record Later (a b : Assignment) : Type 0 where
  pub same_id : b.id ≡ a.id
  pub same_actor : b.actor_id ≡ a.actor_id
  pub same_role : b.role_id ≡ a.role_id
  pub same_granted_by : b.granted_by ≡ a.granted_by
  pub same_granted_at : b.granted_at ≡ a.granted_at
  pub kept : is_none a.revoked_at ≡ false → b ≡ a

-- Every row is still there, in its place.
abbrev Extends : List Assignment → List Assignment → Type 0
Extends [] bs = Unit
Extends (a ∷ as_) [] = ⊥
Extends (a ∷ as_) (b ∷ bs) = Later a b × Extends as_ bs

abbrev pub KeepsHistory : Db → Db → Type 0
KeepsHistory s t = Extends s.assignments t.assignments

Later-same : (a : Assignment) → Later a a
Later-same a = ground arith

Later-trans : (a b c : Assignment) → Later a b → Later b c → Later a c
Later-trans a b c h k = record {
  same_id = cc;
  same_actor = cc;
  same_role = cc;
  same_granted_by = cc;
  same_granted_at = cc;
  kept = λ e. k.kept (rw (h.kept e) e) ∙ h.kept e;
}

Extends-same : (as_ : List Assignment) → Extends as_ as_
Extends-same [] = tt
Extends-same (a ∷ as_) = (Later-same a, Extends-same as_)

Extends-trans : (as_ bs cs : List Assignment) → Extends as_ bs → Extends bs cs → Extends as_ cs
Extends-trans [] bs cs h k = tt
Extends-trans (a ∷ as_) [] cs h k = absurd h
Extends-trans (a ∷ as_) (b ∷ bs) [] h k = absurd k
Extends-trans (a ∷ as_) (b ∷ bs) (c ∷ cs) h k =
    (Later-trans a b c h.0 k.0, Extends-trans as_ bs cs h.1 k.1)

Extends-append : (as_ bs : List Assignment) → Extends as_ (as_ ++ bs)
Extends-append [] bs = tt
Extends-append (a ∷ as_) bs = (Later-same a, Extends-append as_ bs)

Later-revoked :
    (id : ℕ) (by : String) (t : ℕ) (a : Assignment)
    → Later a (if revocable id a then revoked by t a else a)
Later-revoked id by t a = ground arith

Extends-revoke :
    (id : ℕ) (by : String) (t : ℕ) (as_ : List Assignment)
    → Extends as_ (update_where (revocable id) (revoked by t) as_)
Extends-revoke id by t [] = tt
Extends-revoke id by t (a ∷ as_) = (Later-revoked id by t a, Extends-revoke id by t as_)

history_pre : IsPreorder KeepsHistory
history_pre = record {
  same = λ s. Extends-same s.assignments;
  chain = λ s t u. Extends-trans s.assignments t.assignments u.assignments;
}

-- Whatever is done to roles and keys, in any order and with any failures, every assignment stays in
-- the history: who got which role, from whom and when is as it was, and a revoked assignment is not
-- changed at all.
pub perform_all-KeepsHistory :
    (deps : Deps) (os : List (RequestInfo × Operation)) (w : World Db)
    → KeepsHistory w.db (perform_all deps os w).0.db
perform_all-KeepsHistory deps os w =
    (perform_all-Safe
        (on_assignments deps history_pre (λ s t e. rw e (Extends-same s.assignments))
          (λ role actor by t id s v. Extends-append s.assignments _)
          (λ id by t s. Extends-revoke id by t s.assignments))
        os).at
      w

abbrev pub OneActive : Db → Type 0
OneActive s = (role actor : String) → count (active_grant role actor) s.assignments ≤ 1

same_pair :
    (role actor role' actor' : String) (as_ : List Assignment)
    → (role' == role) ≡ true
    → (actor' == actor) ≡ true
    → any (active_grant role' actor') as_ ≡ false
    → any (active_grant role actor) as_ ≡ false
same_pair role actor role' actor' as_ r a free =
    rw (← (eq_iff role' role).0 r, ← (eq_iff actor' actor).0 a) free

-- Who gets the new assignment has no other one that is active.
granted_once :
    (role actor role' actor' by : String) (id t : ℕ) (as_ : List Assignment)
    → any (active_grant role' actor') as_ ≡ false
    → count (active_grant role actor) as_ ≤ 1
    → count (active_grant role actor) (as_ ++ new_assignment role' actor' by id t ∷ []) ≤ 1
granted_once role actor role' actor' by id t as_ free one =
    let a = new_assignment role' actor' by id t in
    elim (Bool-cases (active_grant role actor a)) [
      | inl mine ↦
          let (r, rest) = both_true (role' == role) ((actor' == actor) && true) mine in
          count-append_one (active_grant role actor) as_ a
            (same_pair role actor role' actor' as_ r (both_true (actor' == actor) true rest).0 free)
      | inr other ↦ rw (count-append_none (active_grant role actor) as_ a other) one
    ]

active_pre : IsPreorder (λ s t. OneActive s → OneActive t)
active_pre = record { same = λ s h. h; chain = λ s t u h k p. k (h p) }

-- Whatever is done to roles and keys, in any order and with any failures, no actor ever holds a role
-- by two active assignments, if none did at the start.
pub perform_all-OneActiveGrant :
    (deps : Deps) (os : List (RequestInfo × Operation)) (w : World Db)
    → OneActive w.db
    → OneActive (perform_all deps os w).0.db
perform_all-OneActiveGrant deps os w =
    (perform_all-Safe
        (on_assignments deps active_pre (λ s t e h role actor. rw e (h role actor))
          (λ role' actor' by t id s free h role actor.
            granted_once role actor role' actor' by s.next_id t s.assignments free (h role actor))
          (λ id by t s h role actor. ground (
            arith,
            h role actor,
            count-update_where (active_grant role actor) (revocable id) (revoked by t)
                (λ x p q. ground arith) s.assignments,
          )))
        os).at
      w
