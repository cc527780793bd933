-- ===== src/Privacy/Tests/Delivery.antt =====
-- Deliveries for one request.
use dilion.Base.{◌≡◌, refl, ◌≤◌, ◌+◌, ◌*◌, ◌/◌, arith, true, [], ◌∷◌, none, some}
use dilion.Calendar.{second}
use dilion.Exec
use dilion.Exec.{World, ok}
use dilion.Privacy.Db.{Db, Task, TaskStatus, completed, task_delete, Destination, webhook, tasks}
use dilion.Privacy.Domain.{execute}
use dilion.Privacy.Pipeline.Common.{RunCtx, finished}
use dilion.Privacy.Pipeline.Evidence
use dilion.Privacy.Pipeline.Evidence.{step_external_system}
use dilion.Privacy.Pipeline.Receipts.{AllAnswered, step_external_system_waits}
use dilion.Privacy.Tasks.Backoff.{least, backoff_for, backoff_cap}
use dilion.Privacy.Tasks.Bounds.{backoff_for_bounds}
use dilion.Privacy.Tests.World.{deps, gdpr, due, world}

abbrev context : RunCtx
context = record { request_id = "pr_1"; user_id = "ada"; policy = gdpr }

abbrev delivery : TaskStatus → Task
delivery status = record {
  id = "tsk_1";
  request_id = "pr_1";
  user_id = "ada";
  destination_id = "d1";
  action = task_delete;
  status = status;
  attempt_count = 1;
  created_at = 1;
  next_attempt_at = 1;
  started_at = some 2;
  completed_at = none;
  error_code = none;
}

abbrev crm : Destination
crm = record {
  id = "d1";
  type = webhook;
  url = "https://crm.example.com/erase";
  connector_name = "";
  enabled = true;
}

abbrev answered : Db
answered = record due { tasks = delivery completed ∷ []; destinations = crm ∷ [] }

answered_now :
    (step_external_system deps context execute (world answered)).1 ≡ ok (finished (tasks 1))
unfolding step_external_system Evidence.enabled_ids Evidence.fan_out Evidence.roll_up Exec.now
    Exec.◌>>=◌ Exec.statement Exec.pure
answered_now = refl

step_external_system_waits_example :
    AllAnswered deps context (step_external_system deps context execute (world answered)).0.db
step_external_system_waits_example =
    step_external_system_waits deps context execute (tasks 1) (world answered) answered_now

backoff_for_bounds_example :
    (5 * second ≤ backoff_for least 70 7) × (backoff_for least 70 7 ≤ backoff_cap + backoff_cap / 4)
backoff_for_bounds_example = backoff_for_bounds least 70 7 (omega arith)
