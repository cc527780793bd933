-- ===== src/Privacy/Requests/Cancel.antt =====
-- `GetRequest` and `CancelRequest` (internal/privacy/requests.go).
use dilion.Base.{Bool, true, false, ◌&&◌, String, ◌==◌, Option, none, some, find, update_where}
use dilion.Exec.{pure, raise, statement, query, ◌>>=◌, ◌>>◌}
use dilion.Privacy.Db.{
  M, Request, RequestStatus, requested, canceled, database, not_found, conflict,
}

abbrev is_requested : RequestStatus → Bool
is_requested requested = true
is_requested _ = false

-- A row still inside its grace period.
abbrev pub cancelable : String → Request → Bool
cancelable id r = r.id == id && is_requested r.status

abbrev pub cancel : Request → Request
cancel r = record r { status = canceled }

abbrev pub or_missing : Option Request → M Request
or_missing none = raise not_found
or_missing (some r) = pure r

-- `GetRequest`.
unfoldable pub get_request : String → M Request
get_request id = do r ← query database (λ db. find (λ r. r.id == id) db.requests); or_missing r

-- "Gone", or "no longer cancelable".
unfoldable pub cancel_missing : String → M Request
cancel_missing id = do get_request id; raise conflict

abbrev pub cancel_result : String → Option Request → M Request
cancel_result id none = cancel_missing id
cancel_result id (some r) = pure (cancel r)

-- `CancelRequest`.
unfoldable pub cancel_request : String → M Request
cancel_request id = do
  r ← statement database (λ db. (
    record db { requests = update_where (cancelable id) cancel db.requests },
    find (cancelable id) db.requests,
  ))
  cancel_result id r
