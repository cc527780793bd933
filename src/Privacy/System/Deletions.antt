-- ===== src/Privacy/System/Deletions.antt =====
-- At most one active deletion per person.
use dilion.Base.{
  ℕ, ◌≤◌, ◌≡◌, refl, sym, ◌∙◌, Bool, true, false, ◌&&◌, String, ◌==◌, List, [], ◌∷◌, ◌++◌, none,
  some, any, count, update_where, eq_iff, Bool-cases, inl, inr, arith, any-cong, both_true,
  count-update_where, count-append_none, count-append_one,
}
use dilion.Exec.{World}
use dilion.Exec.Grows.{IsPreorder, Grows}
use dilion.Privacy.Db.{
  Db, Deps, Request, RequestStatus, requested, processing, done, manual_review, canceled,
}
use dilion.Privacy.Requests.Create.{
  active_deletion_of, is_active, is_deletion, clashes, same_key, insert_request, new_request,
}
use dilion.Privacy.Requests.Cancel.{cancelable, cancel}
use dilion.Privacy.Holds.Ops.{held_request, resumed, is_parked}
use dilion.Privacy.Pipeline.Common.{parked, is_open_request}
use dilion.Privacy.Pipeline.Runner.{process_request, is_requested}
use dilion.Privacy.Pipeline.Safe.Steps.{IsStepSafe}
use dilion.Privacy.Pipeline.Safe.Run.{process_request-Safe}
use dilion.Privacy.Tasks.Delivery.{Peers}
use dilion.Privacy.System.Ops.{Operation, perform_all}
use dilion.Privacy.System.Safe.{IsServiceSafe}
use dilion.Privacy.System.Sequence.{perform_all-Safe}

abbrev pub active_deletions : String → Db → ℕ
active_deletions user s = count (active_deletion_of user) s.requests

abbrev pub OneActive : Db → Type 0
OneActive s = (user : String) → active_deletions user s ≤ 1

abbrev Keeps : Db → Db → Type 0
Keeps s t = OneActive s → OneActive t

pre : IsPreorder Keeps
pre = record { same = λ s h. h; chain = λ s t u h k p. k (h p) }

-- An update that makes no deletion active.
update_leaf :
    (p : Request → Bool) (f : Request → Request)
    → ((user : String) (x : Request)
        → p x ≡ true
        → active_deletion_of user (f x) ≡ true
        → active_deletion_of user x ≡ true)
    → (s : Db) → Keeps s (record s { requests = update_where p f s.requests })
update_leaf p f back s h user =
    ground (arith, count-update_where (active_deletion_of user) p f (back user) s.requests, h user)

-- The rows that the updates touch are active already.
open_active : (st : RequestStatus) → is_open_request st ≡ true → is_active st ≡ true
open_active requested h = refl
open_active processing h = refl
open_active done h = cc
open_active manual_review h = cc
open_active canceled h = cc

requested_active : (st : RequestStatus) → is_requested st ≡ true → is_active st ≡ true
requested_active requested h = refl
requested_active processing h = cc
requested_active done h = cc
requested_active manual_review h = cc
requested_active canceled h = cc

parked_active : (st : RequestStatus) → is_parked st ≡ true → is_active st ≡ true
parked_active requested h = cc
parked_active processing h = cc
parked_active done h = cc
parked_active manual_review h = refl
parked_active canceled h = cc

safe : IsStepSafe Keeps
safe = record {
  pre = pre;
  elsewhere = λ s t e e' h user. rw e (h user);
  parks = λ i reason.
      update_leaf (λ r. r.id == i && is_open_request r.status) (parked reason)
        (λ user x h k. ground (arith, open_active x.status));
  starts = λ i.
      update_leaf (λ r. r.id == i && is_requested r.status) (λ r. record r { status = processing })
        (λ user x h k. ground (arith, requested_active x.status));
  records = λ l s h. h;
}

-- The owner of an active deletion that does not clash has no other.
unclashed :
    (user : String) (r : Request) (rs : List Request)
    → active_deletion_of user r ≡ true
    → any (clashes r) rs ≡ false
    → any (active_deletion_of user) rs ≡ false
unclashed user r rs mine free =
    let (same, rest) =
      both_true (r.user_id == user) (is_deletion r.type && is_active r.status) mine in
    let (del, act) = both_true (is_deletion r.type) (is_active r.status) rest in
    sym (
      any-cong (clashes r) (active_deletion_of user)
        (λ x. rw (del, act, (eq_iff r.user_id user).0 same) refl) rs)
    ∙ free

grown :
    (user : String) (r : Request) (rs : List Request)
    → any (clashes r) rs ≡ false
    → count (active_deletion_of user) rs ≤ 1
    → count (active_deletion_of user) (rs ++ r ∷ []) ≤ 1
grown user r rs free one = elim (Bool-cases (active_deletion_of user r)) [
  | inl mine ↦ count-append_one (active_deletion_of user) rs r (unclashed user r rs mine free)
  | inr other ↦ rw (count-append_none (active_deletion_of user) rs r other) one
]

insert_leaf : (r : Request) (s : Db) → Keeps s (insert_request r s).0
insert_leaf r s h user = elim (Bool-cases (any (λ x. x.id == r.id) s.requests)) [
  | inl same ↦ rw same (h user)
  | inr fresh ↦ elim (Bool-cases (any (same_key r.idempotency_key) s.requests)) [
    | inl used ↦ rw (fresh, used) (h user)
    | inr unused ↦ elim (Bool-cases (any (clashes r) s.requests)) [
      | inl active ↦ rw (fresh, unused, active) (h user)
      | inr free ↦ rw (fresh, unused, free) (grown user r s.requests free (h user))
    ]
  ]
]

module _ (deps : Deps) where
  runs : (id : String) → Grows Keeps (process_request deps id)
  runs id =
      process_request-Safe safe deps
        (λ i t.
          update_leaf _
            (λ r. record r { status = done; completed_at = some t; manual_review_reason = none })
            (λ user x h k. ground arith))
        id

  service : IsServiceSafe deps Keeps
  service = record {
    pre = pre;
    inserts = λ input user policy_id policy t s.
        insert_leaf (new_request deps input user policy_id policy t s) s;
    cancels = λ id. update_leaf (cancelable id) cancel (λ user x e k. ground arith);
    elsewhere = λ s t e e' h user. rw e (h user);
    resumes = λ user.
        update_leaf (held_request user) resumed
          (λ user x e k. ground (arith, parked_active x.status));
  }

-- Whatever is done to the engine, in any order and with any failures, no person ever has two active
-- deletion requests, if none had at the start.
pub perform_all-OneActive :
    (deps : Deps) (peers : Peers) (os : List Operation) (w : World Db)
    → OneActive w.db
    → OneActive (perform_all deps peers os w).0.db
perform_all-OneActive deps peers os w = (perform_all-Safe (service deps) peers (runs deps) os).at w
