-- ===== src/Privacy/Pipeline/Common.antt =====
-- What the steps of an erasure run share (internal/privacy/pipeline.go).
use dilion.Base.{Bool, true, false, ◌&&◌, not, String, ◌==◌, some, update_where, contains}
use dilion.Exec.{Result, ok, err, pure, attempt, query, exec, ◌>>=◌}
use dilion.Privacy.Domain.{ErasureAction, delete}
use dilion.Privacy.Policy.{Policy}
use dilion.Privacy.Db.{
  Error, M, Request, RequestStatus, requested, processing, manual_review, ReviewReason, Note,
  skipped_table_absent, Owned, database,
}

-- `runCtx`.
pub record RunCtx : Type 0 where
  pub request_id : String
  pub user_id : String
  pub policy : Policy

-- The note and `halt` of a `stepFunc`.
pub data Outcome : Type 0 where
  finished : Note → Outcome
  halted : Outcome

abbrev or_false : Result Error Bool → Bool
or_false (ok b) = b
or_false (err e) = false

-- `tableExists`: a failing check counts as absent.
unfoldable pub table_exists : String → M Bool
table_exists t = do
  r ← attempt (query database (λ db. not (contains db.absent_tables t)))
  pure (or_false r)

-- `skipMissing`.
abbrev pub skip_missing : String → M Outcome
skip_missing t = pure (finished (skipped_table_absent t))

abbrev pub owned_by : String → Owned → Bool
owned_by u r = r.user_id == u

abbrev pub is_open_request : RequestStatus → Bool
is_open_request requested = true
is_open_request processing = true
is_open_request _ = false

abbrev pub parked : ReviewReason → Request → Request
parked reason r = record r { status = manual_review; manual_review_reason = some reason }

-- `setManualReview` (requests.go).
unfoldable pub set_manual_review : String → ReviewReason → M (Unit {0})
set_manual_review id reason = exec database (λ db. record db {
  requests = update_where (λ r. r.id == id && is_open_request r.status) (parked reason) db.requests;
})

abbrev pub is_delete : ErasureAction → Bool
is_delete delete = true
is_delete _ = false
