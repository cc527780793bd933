-- ===== src/Privacy/Tasks/Delivery.antt =====
-- `runTasksOnce`, `executeTask` and what they call (internal/privacy/tasks.go). The JSON evidence of
-- an attempt and the body of the event are left out.
use dilion.Base.{
  ℕ, suc, ◌+◌, ◌-◌, ◌^◌, any, Bool, true, false, ◌&&◌, ◌||◌, not, String, ◌==◌, List, [], ◌∷◌,
  Option, none, some, ltb, leb, if◌then◌else◌, take, select_where, update_where, find, contains,
  map,
}
use dilion.Exec.{
  Result, ok, err, pure, lift, now, attempt, statement, query, exec, check_ctx, ◌>>=◌, ◌>>◌,
}
use dilion.Privacy.Db.{
  Db, Error, M, Task, TaskStatus, pending, running, failed, completed, dead, ErrorCode,
  destination_missing, destination_load_failed, destination_disabled, unknown_destination_type,
  url_missing, secret_unavailable, request_build_failed, transport_error, http_status,
  connector_not_registered, connector_error, connector_code, Destination, DestinationType, webhook,
  connector, unknown_destination, database, canceled_context,
}
use dilion.Privacy.Tasks.Backoff.{
  max_task_attempts, max_tasks_per_tick, stuck_running_after, backoff_for, Conversion,
}

-- What comes back from a webhook, and from a connector.
pub data Reply : Type 0 where
  no_response : Reply
  response : ℕ → Reply

pub data ConnectorReply : Type 0 where
  failure : ConnectorReply
  receipt : String → String → ConnectorReply

-- The world outside: random numbers, the processor's conversion of a large float, secrets, URLs and the peers of the deliveries. Nothing is
-- assumed of them.
pub record Peers : Type 0 where
  pub draw : Db → ℕ
  pub conversion : Conversion
  pub has_secret : Destination → Bool
  pub is_url : String → Bool
  pub post : Destination → Task → Reply
  pub connectors : String → Option (Destination → Task → ConnectorReply)

abbrev pub is_waiting : TaskStatus → Bool
is_waiting pending = true
is_waiting failed = true
is_waiting _ = false

abbrev pub is_running : TaskStatus → Bool
is_running running = true
is_running _ = false

abbrev pub is_stuck : ℕ → Option ℕ → Bool
is_stuck t none = false
is_stuck t (some s) = ltb (s + stuck_running_after) t

abbrev pub is_due : ℕ → Task → Bool
is_due t k =
    (is_waiting k.status && leb k.next_attempt_at t)
    || (is_running k.status && is_stuck t k.started_at)

-- `order by next_attempt_at`.
unfoldable pub insert_by_time : Task → List Task → List Task
insert_by_time k [] = k ∷ []
insert_by_time k (x ∷ xs) =
    let rest = insert_by_time k xs in
    if leb k.next_attempt_at x.next_attempt_at then k ∷ x ∷ xs else x ∷ rest

unfoldable pub by_time : List Task → List Task
by_time [] = []
by_time (k ∷ ks) = insert_by_time k (by_time ks)

unfoldable pub due_ids : ℕ → List Task → List String
due_ids t ks = map (λ k. k.id) (take max_tasks_per_tick (by_time (select_where (is_due t) ks)))

abbrev pub claimed : ℕ → Task → Task
claimed t k = record k {
  status = running;
  started_at = some t;
  attempt_count = suc k.attempt_count;
}

abbrev max_int4 : ℕ
max_int4 = 2 ^ 31 - 1

-- The claim: the tasks that are due, or were left running for too long. `attempt_count` is an int of
-- 32 bits, so the statement fails when it would run over.
abbrev pub runs_over : List String → Task → Bool
runs_over ids k = contains ids k.id && leb max_int4 k.attempt_count

abbrev pub claim_rows : ℕ → List String → Db → Db × Result Error (List Task)
claim_rows t ids db = if any (runs_over ids) db.tasks then (db, err database) else (
  record db { tasks = update_where (λ k. contains ids k.id) (claimed t) db.tasks },
  ok (
      select_where (λ k. contains ids k.id)
        (update_where (λ k. contains ids k.id) (claimed t) db.tasks)),
)

unfoldable pub claim_tasks : M (List Task)
claim_tasks = do t ← now; statement database (λ db. claim_rows t (due_ids t db.tasks) db) >>= lift

-- `completeTask`.
abbrev pub finish : ℕ → Task → Task
finish t k = record k { status = completed; completed_at = some t; error_code = none }

unfoldable pub complete_task : Task → M (Unit {0})
complete_task k = do
  t ← now
  exec database (λ db. record db { tasks = update_where (λ x. x.id == k.id) (finish t) db.tasks })

-- `failTask`: another attempt later, or the dead-letter state.
abbrev pub is_final : Task → Bool → Bool
is_final k terminal = terminal || leb max_task_attempts k.attempt_count

abbrev pub mark_failed : Bool → ErrorCode → ℕ → Task → Task
mark_failed final code next k = record k {
  status = if final then dead else failed;
  error_code = some code;
  next_attempt_at = next;
}

-- `e.now().Add(...)`.
abbrev pub next_attempt : Bool → ℕ → ℕ → ℕ
next_attempt final t delay = if final then t else t + delay

module _ (peers : Peers) where
  unfoldable pub fail_task : Task → ErrorCode → Bool → M (Unit {0})
  fail_task k code terminal = do
    t ← now
    exec database (λ db. record db {
      tasks =
          update_where (λ x. x.id == k.id)
            (mark_failed (is_final k terminal) code (
              next_attempt (is_final k terminal) t
                (backoff_for peers.conversion k.attempt_count (peers.draw db))))
            db.tasks;
    })

  unfoldable pub after_post : Task → Reply → M (Unit {0})
  after_post k no_response = fail_task k transport_error false
  after_post k (response code) =
      if ltb code 200 || leb 300 code then fail_task k (http_status code) false else complete_task k

  -- `executeWebhook`; `eventBody` reads the request.
  unfoldable pub execute_webhook : Task → Destination → M (Unit {0})
  execute_webhook k d = if d.url == "" then fail_task k url_missing true else (do
    r ← query database (λ db. find (λ r. r.id == k.request_id) db.requests)
    if not (peers.has_secret d)
        then fail_task k secret_unavailable false
        else if not (peers.is_url d.url)
        then fail_task k request_build_failed true
        else after_post k (peers.post d k))

  unfoldable pub after_receipt : Task → ConnectorReply → M (Unit {0})
  after_receipt k failure = fail_task k connector_error false
  after_receipt k (receipt status code) =
      if not (status == "completed")
      then fail_task k (connector_code code) false
      else complete_task k

  -- `executeConnector`.
  unfoldable pub execute_connector :
      Task → Destination → Option (Destination → Task → ConnectorReply) → M (Unit {0})
  execute_connector k d none = fail_task k connector_not_registered true
  execute_connector k d (some c) = after_receipt k (c d k)

  unfoldable pub execute_by_type : Task → Destination → DestinationType → M (Unit {0})
  execute_by_type k d webhook = execute_webhook k d
  execute_by_type k d connector = execute_connector k d (peers.connectors d.connector_name)
  execute_by_type k d (unknown_destination s) = fail_task k unknown_destination_type true

  -- `executeTask` with the answer of `loadDestination`: no row, or a failing query.
  unfoldable pub execute_loaded : Task → Result Error (Option Destination) → M (Unit {0})
  execute_loaded k (err e) = fail_task k destination_load_failed false
  execute_loaded k (ok none) = fail_task k destination_missing true
  execute_loaded k (ok (some d)) =
      if not d.enabled then fail_task k destination_disabled true else execute_by_type k d d.type

  unfoldable pub execute_task : Task → M (Unit {0})
  execute_task k = do
    r ← attempt (query database (λ db. find (λ d. d.id == k.destination_id) db.destinations))
    execute_loaded k r

  unfoldable pub execute_all : List Task → M (Unit {0})
  execute_all [] = pure tt
  execute_all (k ∷ ks) = do check_ctx canceled_context; attempt (execute_task k); execute_all ks

  -- `runTasksOnce`.
  unfoldable pub run_tasks_once : M (Unit {0})
  run_tasks_once = do ks ← claim_tasks; execute_all ks
