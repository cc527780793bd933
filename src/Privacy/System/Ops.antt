-- ===== src/Privacy/System/Ops.antt =====
-- What a client or a worker may do, one operation after the other (`Service` of internal/privacy/
-- service.go, and the runs of the workers in internal/privacy/workers.go).
use dilion.Base.{ℕ, Bool, String, List, [], ◌∷◌}
use dilion.Exec.{pure, now, attempt, ◌>>=◌, ◌>>◌}
use dilion.Privacy.Db.{M, Deps}
use dilion.Privacy.Requests.Create.{CreateRequestInput, create_request}
use dilion.Privacy.Requests.Cancel.{cancel_request}
use dilion.Privacy.Holds.Ops.{CreateHoldInput, create_hold, release_hold}
use dilion.Privacy.Pipeline.Poll.{run_pipeline_once}
use dilion.Privacy.Tasks.Delivery.{Peers, run_tasks_once}
use dilion.Privacy.Retention.Sweep.{sweep_consent_shred_due}

-- A pipeline pass is given the requests that another runner owns, a sweep its batch size.
pub data Operation : Type 0 where
  create : CreateRequestInput → Operation
  cancel : String → Operation
  place_hold : CreateHoldInput → Operation
  lift_hold : String → String → Operation
  run_pipeline : (String → Bool) → Operation
  run_tasks : Operation
  run_retention : ℕ → Operation

module _ (deps : Deps) (peers : Peers) where
  -- The answer goes to the caller or to the log; what follows does not depend on it.
  unfoldable pub perform : Operation → M (Unit {0})
  perform (create input) = attempt (create_request deps input) >> pure tt
  perform (cancel id) = attempt (cancel_request id) >> pure tt
  perform (place_hold input) = attempt (create_hold deps input) >> pure tt
  perform (lift_hold id by) = attempt (release_hold id by) >> pure tt
  perform (run_pipeline taken) = attempt (run_pipeline_once deps taken) >> pure tt
  perform run_tasks = attempt (run_tasks_once peers) >> pure tt
  perform (run_retention batch) = attempt (now >>= λ t. sweep_consent_shred_due t batch) >> pure tt

  unfoldable pub perform_all : List Operation → M (Unit {0})
  perform_all [] = pure tt
  perform_all (o ∷ os) = perform o >> perform_all os
