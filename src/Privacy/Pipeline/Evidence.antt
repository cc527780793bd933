-- ===== src/Privacy/Pipeline/Evidence.antt =====
-- Steps 700 and 800 of an erasure run: external systems and the access log
-- (internal/privacy/pipeline.go).
use dilion.Base.{
  ℕ, Bool, true, false, ◌&&◌, ◌||◌, not, String, ◌==◌, List, [], ◌∷◌, ◌++◌, none, if◌then◌else◌,
  is_some, any, delete_where, update_where, count, ltb,
}
use dilion.Exec.{pure, now, statement, query, exec, ◌>>=◌, ◌>>◌}
use dilion.Privacy.Domain.{ErasureAction}
use dilion.Privacy.Db.{
  Db, M, Deps, task_failed, Task, TaskStatus, pending, running, failed, dead, task_delete,
  Destination, tasks, subjects_events, AuditEvent, AuditSubject, database,
}
use dilion.Privacy.Pipeline.Common.{
  RunCtx, Outcome, finished, halted, table_exists, skip_missing, set_manual_review, is_delete,
}

abbrev pub task_of : String → Task → Bool
task_of id t = t.request_id == id

abbrev pub is_open_task : TaskStatus → Bool
is_open_task pending = true
is_open_task running = true
is_open_task failed = true
is_open_task _ = false

abbrev pub is_dead_task : TaskStatus → Bool
is_dead_task dead = true
is_dead_task _ = false

unfoldable pub enabled_ids : List Destination → List String
enabled_ids [] = []
enabled_ids (d ∷ ds) = if d.enabled then d.id ∷ enabled_ids ds else enabled_ids ds

-- `insert ... on conflict (request_id, destination_id) do nothing`.
abbrev pub insert_task : Task → List Task → List Task
insert_task t ts =
    if any (λ s. s.request_id == t.request_id && s.destination_id == t.destination_id) ts
    then ts
    else ts ++ t ∷ []

abbrev pub open_tasks : String → Db → ℕ
open_tasks id db = count (λ t. task_of id t && is_open_task t.status) db.tasks

abbrev pub dead_tasks : String → Db → ℕ
dead_tasks id db = count (λ t. task_of id t && is_dead_task t.status) db.tasks

module _ (deps : Deps) where
  abbrev pub new_task : RunCtx → String → ℕ → Db → Task
  new_task rc d t db = record {
    id = deps.new_id db;
    request_id = rc.request_id;
    user_id = rc.user_id;
    destination_id = d;
    action = task_delete;
    status = pending;
    attempt_count = 0;
    created_at = t;
    next_attempt_at = t;
    started_at = none;
    completed_at = none;
    error_code = none;
  }

  unfoldable pub fan_out : RunCtx → List String → M (Unit {0})
  fan_out rc [] = pure tt
  fan_out rc (d ∷ ds) = do
    t ← now
    exec database (λ db. record db { tasks = insert_task (new_task rc d t db) db.tasks })
    fan_out rc ds

  unfoldable pub roll_up : RunCtx → ℕ × ℕ × ℕ → M Outcome
  roll_up rc (total, open_count, dead_count) =
      if ltb 0 dead_count
      then set_manual_review rc.request_id task_failed >> pure halted
      else if ltb 0 open_count
      then pure halted
      else pure (finished (tasks total))

  -- 700 external-system.
  unfoldable pub step_external_system : RunCtx → ErasureAction → M Outcome
  step_external_system rc a = do
    ids ← query database (λ db. enabled_ids db.destinations)
    fan_out rc ids
    counts ← query database (λ db. (
      count (task_of rc.request_id) db.tasks,
      open_tasks rc.request_id db,
      dead_tasks rc.request_id db,
    ))
    roll_up rc counts

abbrev pub acted_by : String → AuditEvent → Bool
acted_by u e = e.actor_id == u

abbrev pub has_origin : AuditEvent → Bool
has_origin e = is_some e.ip || is_some e.user_agent

-- The subject rows of the events that the person performed.
abbrev pub performed : String → List AuditEvent → AuditSubject → Bool
performed u events s = any (λ e. acted_by u e && e.event_id == s.event_id) events

unfoldable pub delete_events : RunCtx → ℕ → M Outcome
delete_events rc subjects = do
  exec database (λ db. record db {
    audit_subjects = delete_where (performed rc.user_id db.audit_events) db.audit_subjects;
  })
  n ← statement database (λ db. (
    record db { audit_events = delete_where (acted_by rc.user_id) db.audit_events },
    count (acted_by rc.user_id) db.audit_events,
  ))
  pure (finished (subjects_events subjects n))

unfoldable pub blank_events : RunCtx → ℕ → M Outcome
blank_events rc subjects = do
  n ← statement database (λ db. (
    record db {
      audit_events =
          update_where (λ e. acted_by rc.user_id e && has_origin e)
            (λ e. record e { ip = none; user_agent = none }) db.audit_events;
    },
    count (λ e. acted_by rc.user_id e && has_origin e) db.audit_events,
  ))
  pure (finished (subjects_events subjects n))

-- 800 audit-log.
unfoldable pub step_audit_log : RunCtx → ErasureAction → M Outcome
step_audit_log rc a = do
  events ← table_exists "dilion_audit.events"
  subjects ← if events then table_exists "dilion_audit.subjects" else pure false
  if not subjects then skip_missing "dilion_audit.events" else do
    n ← statement database (λ db. (
      record db {
        audit_subjects = delete_where (λ s. s.subject_id == rc.user_id) db.audit_subjects;
      },
      count (λ s. s.subject_id == rc.user_id) db.audit_subjects,
    ))
    if is_delete a then delete_events rc n else blank_events rc n
