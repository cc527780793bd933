-- ===== src/Privacy/Tests/Requests.antt =====
-- Requests and holds on the tables of one person.
use dilion.Base.{◌≡◌, refl, arith, true, String, [], ◌∷◌, none, some}
use dilion.Exec
use dilion.Exec.{World, ok}
use dilion.Privacy.Policy
use dilion.Privacy.Db.{Db, Request, deletion, requested, SubjectKey, consent_scope}
use dilion.Privacy.Requests.Create
use dilion.Privacy.Requests.Create.{CreateRequestInput, create_request}
use dilion.Privacy.Requests.Cancel.{cancel, cancel_request}
use dilion.Privacy.Requests.Canceled.{canceled_never_runs}
use dilion.Privacy.Requests.Replay.{later, create_request_replays}
use dilion.Privacy.Holds.Ops.{released, release_hold, after_release, resume_requests}
use dilion.Privacy.Holds.Resume.{IsResumed, release_hold-IsResumed}
use dilion.Privacy.Pipeline.Runner
use dilion.Privacy.Pipeline.Runner.{process_request}
use dilion.Privacy.Retention.Sweep.{sweep_consent_shred_due}
use dilion.Privacy.Retention.Gate.{SparesHeld, sweep_consent_shred_due-SparesHeld}
use dilion.Privacy.Tests.World.{deps, request, db, gdpr, due, held, hold, world}

abbrev ended : Db
ended = (cancel_request "pr_1" (world due)).0.db

canceled_now : (cancel_request "pr_1" (world due)).1 ≡ ok (cancel (request "pr_1" "ada" requested))
unfolding cancel_request Exec.◌>>=◌ Exec.statement Exec.pure
canceled_now = refl

canceled_never_runs_example : (process_request deps "pr_1" (world ended)).0.db ≡ ended
canceled_never_runs_example =
    canceled_never_runs deps "pr_1" (cancel (request "pr_1" "ada" requested)) (world due)
      (world ended) (ground arith) canceled_now refl

abbrev input : CreateRequestInput
input = record {
  user_id = "ada";
  type = deletion;
  immediate = true;
  idempotency_key = "k1";
  requested_by = "";
}

abbrev made : Request
made = record {
  id = "new";
  user_id = "ada";
  type = deletion;
  status = requested;
  policy_id = "gdpr";
  policy_snapshot = gdpr;
  scheduled_at = 10;
  requested_at = 10;
  completed_at = none;
  idempotency_key = some "k1";
  requested_by = none;
  manual_review_reason = none;
}

abbrev idle : Db
idle = db [] []

made_now : (create_request deps input (world idle)).1 ≡ ok made
unfolding create_request Exec.◌>>=◌ Exec.statement Exec.pure Create.valid_uuid Create.create_valid
    Create.valid_request_type Create.request_by_idempotency_key Create.replay Create.create_new
    Create.has_active_deletion Create.resolve_policy Exec.now Create.insert_locked Exec.in_tx
    Create.insert_statement Policy.manual_review Policy.resolve
made_now = refl

create_request_replays_example :
    create_request deps input (later (create_request deps input (world idle)).0.db 50)
    ≡ (later (create_request deps input (world idle)).0.db 50, ok made)
create_request_replays_example =
    create_request_replays deps input made (world idle) 50 refl made_now

released_now : (release_hold "hold_1" "admin" (world held)).1 ≡ ok (released 10 "admin" hold)
unfolding release_hold after_release resume_requests Runner.active_hold_for Exec.now Exec.◌>>=◌
    Exec.statement Exec.pure
released_now = refl

release_hold-IsResumed_example :
    IsResumed (released 10 "admin" hold) (release_hold "hold_1" "admin" (world held)).0.db
release_hold-IsResumed_example =
    release_hold-IsResumed "hold_1" "admin" (released 10 "admin" hold) (world held) released_now

abbrev consent_key : String → SubjectKey
consent_key user = record {
  user_id = user;
  scope = consent_scope;
  wrapped_dek = some "dek";
  shredded_at = none;
  shred_after = some 5;
}

abbrev expired : Db
expired = record held { subject_keys = consent_key "ada" ∷ consent_key "bob" ∷ [] }

sweep_consent_shred_due-SparesHeld_example :
    SparesHeld expired (sweep_consent_shred_due 10 100 (world expired)).0.db
sweep_consent_shred_due-SparesHeld_example =
    sweep_consent_shred_due-SparesHeld 10 100 (world expired)
