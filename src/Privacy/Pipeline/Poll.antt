-- ===== src/Privacy/Pipeline/Poll.antt =====
-- `runPipelineOnce` and `withRequestLock` (internal/privacy/pipeline.go).
use dilion.Base.{
  ℕ, Bool, ◌&&◌, not, String, List, [], ◌∷◌, if◌then◌else◌, leb, take, map, select_where,
}
use dilion.Exec.{pure, now, attempt, query, check_ctx, ◌>>=◌, ◌>>◌}
use dilion.Privacy.Db.{Db, M, Deps, Request, database, canceled_context}
use dilion.Privacy.Requests.Create.{is_deletion}
use dilion.Privacy.Pipeline.Common.{is_open_request}
use dilion.Privacy.Pipeline.Runner.{process_request}

abbrev pub max_requests_per_tick : ℕ
max_requests_per_tick = 20

abbrev pub is_runnable : ℕ → Request → Bool
is_runnable t r = is_deletion r.type && (is_open_request r.status && leb r.scheduled_at t)

-- `order by scheduled_at`.
unfoldable pub insert_by_schedule : Request → List Request → List Request
insert_by_schedule r [] = r ∷ []
insert_by_schedule r (x ∷ xs) =
    let rest = insert_by_schedule r xs in
    if leb r.scheduled_at x.scheduled_at then r ∷ x ∷ xs else x ∷ rest

unfoldable pub by_schedule : List Request → List Request
by_schedule [] = []
by_schedule (r ∷ rs) = insert_by_schedule r (by_schedule rs)

unfoldable pub runnable_ids : ℕ → Db → List String
runnable_ids t db =
    map (λ r. r.id)
      (take max_requests_per_tick (by_schedule (select_where (is_runnable t) db.requests)))

module _ (deps : Deps) (taken : String → Bool) where
  -- `taken` says which requests another runner owns. Acquiring a connection and taking the lock may
  -- fail; the release of the lock is only logged.
  unfoldable pub with_request_lock : String → M (Unit {0}) → M (Unit {0})
  with_request_lock id body = do
    check_ctx database
    got ← query database (λ db. not (taken id))
    if not got then pure tt else body

  unfoldable pub run_requests : List String → M (Unit {0})
  run_requests [] = pure tt
  run_requests (id ∷ ids) = do
    check_ctx canceled_context
    attempt (with_request_lock id (process_request deps id))
    run_requests ids

  -- `runPipelineOnce`.
  unfoldable pub run_pipeline_once : M (Unit {0})
  run_pipeline_once = do t ← now; ids ← query database (runnable_ids t); run_requests ids
