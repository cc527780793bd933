-- ===== src/Privacy/Pipeline/Liveness/Done.antt =====
-- A due request of a person under no hold is carried out (internal/privacy/pipeline.go).
use dilion.Base.{
  ℕ, ◌≡◌, refl, ◌∙◌, ap, ◌≤◌, Bool, true, false, ◌==◌, [], some, any, count, find, ltb,
  if◌then◌else◌, arith,
}
use dilion.Exec.{World, Result, ok, err, pure, now, statement, ◌>>=◌}
use dilion.Exec.Succeeds.{
  Succeeds, Ended, Succeeds-pure, Succeeds-statement, Succeeds-if, Succeeds-bind,
}
use dilion.Privacy.Db.{
  Db, Error, Deps, Request, RequestStatus, requested, processing, done, manual_review, canceled,
  pipeline_start,
}
use dilion.Privacy.Pipeline.Common.{is_open_request}
use dilion.Privacy.Pipeline.Evidence.{task_of, enabled_ids}
use dilion.Privacy.Pipeline.Runner.{
  blocks, active_hold_for, advance, context_of, process_loaded, process_found, process_request,
  mark_processing, is_processing, is_requested,
}
use dilion.Privacy.Pipeline.Completion.Quiet.{is_closed}
use dilion.Privacy.Pipeline.Liveness.Steps.{IsCalm}
use dilion.Privacy.Pipeline.Liveness.Gates.{IsReadable}
use dilion.Privacy.Pipeline.Liveness.Run.{
  AcceptsAll, advance-Over, found_requested, found_started, found_processing,
}
use dilion.Privacy.Requests.Replay.{later}

positive : (n : ℕ) → 1 ≤ n → ltb 0 n ≡ true
positive n h = ground arith

open_cases :
    (st : RequestStatus)
    → is_open_request st ≡ true
    → is_requested st ≡ false
    → is_processing st ≡ true
open_cases requested h k = cc
open_cases processing h k = refl
open_cases done h k = cc
open_cases manual_review h k = cc
open_cases canceled h k = cc

module _ (deps : Deps) (accepts : AcceptsAll deps) (r : Request)
    (is_open : is_open_request r.status ≡ true) where
  -- The loaded row is in the table, and there is nothing to deliver for it.
  abbrev IsLoaded : Db → Type 0
  IsLoaded s =
      (find (λ x. x.id == r.id) s.requests ≡ some r)
      × ((enabled_ids s.destinations ≡ []) × (count (task_of r.id) s.tasks ≡ 0))

  abbrev IsOurs : Bool → Db → Type 0
  IsOurs ours s = (ours ≡ true) × IsCalm r.id s

  mark_processing-IsOurs :
      is_requested r.status ≡ true → Succeeds IsLoaded (mark_processing r.id) IsOurs
  unfolding mark_processing
  mark_processing-IsOurs e =
      Succeeds-bind (λ n s. (1 ≤ n) × IsCalm r.id s) _ _
        (Succeeds-statement _ _ (λ s p. (
          found_requested r.id s.requests r p.0 e,
          (p.1.0, (p.1.1, found_started r.id s.requests r p.0 e)),
        )))
        (λ n. Succeeds-pure (ltb 0 n) (λ s p. (positive n p.0, p.1)))

  claim-IsOurs :
      Succeeds IsLoaded (if is_requested r.status then mark_processing r.id else pure true) IsOurs
  claim-IsOurs = Succeeds-if (is_requested r.status) _ _ mark_processing-IsOurs (λ e.
      Succeeds-pure true (λ s p. (
        refl,
        (p.1.0, (p.1.1, found_processing r.id s.requests r p.0 (open_cases r.status is_open e))),
      )))

  advance-IsClosed :
      (ours : Bool)
      → IsReadable r.policy_snapshot
      → Succeeds
          (IsOurs ours)
          (advance deps (context_of deps r) ours)
          (λ _ s. any (is_closed r.id) s.requests ≡ true)
  advance-IsClosed true readable = record {
    at = λ w q p. (advance-Over deps accepts (context_of deps r) readable).at w q p.1;
  }
  advance-IsClosed false readable = record { at = λ w q p. cc (p.0) }

  process_loaded-IsClosed :
      IsReadable r.policy_snapshot
      → Succeeds
          (λ s. IsLoaded s × (any (blocks r.user_id "") s.legal_holds ≡ false))
          (process_loaded deps r)
          (λ _ s. any (is_closed r.id) s.requests ≡ true)
  unfolding process_loaded active_hold_for
  process_loaded-IsClosed readable =
      Succeeds-bind (λ held s. (held ≡ false) × IsLoaded s) _ _
        (Succeeds-statement _ _ (λ s p. (p.1, p.0)))
        (λ held.
          Succeeds-if held _ _ (λ e. record { at = λ w q p. cc (e, p.0) })
            (λ e. rw (accepts (pipeline_start r.id r.user_id)) (
              Succeeds-bind IsOurs _ _ (record { at = λ w q p. claim-IsOurs.at w q p.1 })
                (λ ours. advance-IsClosed ours readable))))

ended_db :
    {A : Type 0} (Q : Db → Type 0) (x : World Db × Result Error A) → Ended (λ _. Q) x → Q x.0.db
ended_db Q (w, ok a) h = h.1
ended_db Q (w, err e) h = cc

-- In a run without failures the row is loaded, and it is open and due.
process_request_loads :
    (deps : Deps) (r : Request) (s : Db) (c : ℕ)
    → find (λ x. x.id == r.id) s.requests ≡ some r
    → is_open_request r.status ≡ true
    → ltb c r.scheduled_at ≡ false
    → process_request deps r.id (later s c) ≡ process_loaded deps r (later s c)
unfolding process_request process_found ◌>>=◌ statement now
process_request_loads deps r s c found opened due = rw (found, opened, due) refl

-- A run without failures makes a request DONE that is open and due, if the person is under no hold,
-- no hook stands in the way, no destination is enabled and no task was made for the request, and
-- the period of its policy for the consent evidence can be read.
pub process_request_completes :
    (deps : Deps) (r : Request) (s : Db) (c : ℕ)
    → AcceptsAll deps
    → find (λ x. x.id == r.id) s.requests ≡ some r
    → is_open_request r.status ≡ true
    → ltb c r.scheduled_at ≡ false
    → any (blocks r.user_id "") s.legal_holds ≡ false
    → enabled_ids s.destinations ≡ []
    → count (task_of r.id) s.tasks ≡ 0
    → IsReadable r.policy_snapshot
    → any (is_closed r.id) (process_request deps r.id (later s c)).0.db.requests ≡ true
process_request_completes deps r s c accepts found opened due free none_enabled no_task readable =
    ap (λ x. any (is_closed r.id) x.0.db.requests)
      (process_request_loads deps r s c found opened due)
    ∙ ended_db (λ t. any (is_closed r.id) t.requests ≡ true) (process_loaded deps r (later s c))
        ((process_loaded-IsClosed deps accepts r opened readable).at (later s c) refl
          ((found, (none_enabled, no_task)), free))
