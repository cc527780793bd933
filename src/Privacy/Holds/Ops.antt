-- ===== src/Privacy/Holds/Ops.antt =====
-- `CreateHold` and `ReleaseHold` (internal/privacy/holds.go).
use dilion.Base.{
  ℕ, Bool, true, false, ◌&&◌, not, String, ◌==◌, [], ◌∷◌, ◌++◌, Option, none, some, if◌then◌else◌,
  any, find, update_where, is_none, not_empty,
}
use dilion.Text.Codes.{is_blank}
use dilion.Exec.{Result, ok, err, pure, raise, lift, now, statement, query, exec, ◌>>=◌, ◌>>◌}
use dilion.Privacy.Domain.{is_retention_domain}
use dilion.Privacy.Db.{
  Db, Error, M, Deps, Request, RequestStatus, requested, manual_review, ReviewReason, legal_hold,
  LegalHold, database, not_found, conflict, invalid_input,
}
use dilion.Privacy.Pipeline.Runner.{active_hold_for}
use dilion.Privacy.Requests.Create.{valid_uuid, refused, is_deletion}

pub record CreateHoldInput : Type 0 where
  pub user_id : String
  pub domain : Option String
  pub reason : String
  pub basis : String
  pub created_by : String

abbrev bad_domain : Option String → Bool
bad_domain none = false
bad_domain (some d) = not (d == "") && not (is_retention_domain d)

abbrev pub new_hold : CreateHoldInput → String → String → ℕ → LegalHold
new_hold input id user t = record {
  id = id;
  user_id = user;
  domain = input.domain;
  reason = input.reason;
  basis = not_empty input.basis;
  created_by = not_empty input.created_by;
  created_at = t;
  released_at = none;
  released_by = none;
}

-- The primary key is unique.
abbrev pub insert_hold : LegalHold → Db → Db × Result Error LegalHold
insert_hold h db =
    if any (λ x. x.id == h.id) db.legal_holds
    then (db, err database)
    else (record db { legal_holds = db.legal_holds ++ h ∷ [] }, ok h)

-- `CreateHold`.
unfoldable pub create_hold : Deps → CreateHoldInput → M LegalHold
create_hold deps input = do
  user ← lift (valid_uuid deps input.user_id)
  refused invalid_input (is_blank input.reason)
  refused invalid_input (bad_domain input.domain)
  t ← now
  h ← statement database (λ db. insert_hold (new_hold input (deps.new_id db) user t) db)
  lift h

abbrev pub unreleased : String → LegalHold → Bool
unreleased id h = h.id == id && is_none h.released_at

abbrev pub released : ℕ → String → LegalHold → LegalHold
released t by h = record h { released_at = some t; released_by = not_empty by }

abbrev pub is_parked : RequestStatus → Bool
is_parked manual_review = true
is_parked _ = false

abbrev by_hold : Option ReviewReason → Bool
by_hold (some legal_hold) = true
by_hold _ = false

-- A deletion that a hold has parked.
abbrev pub held_request : String → Request → Bool
held_request user r =
    r.user_id == user
    && (is_deletion r.type && (is_parked r.status && by_hold r.manual_review_reason))

abbrev pub resumed : Request → Request
resumed r = record r { status = requested; manual_review_reason = none }

unfoldable pub resume_requests : String → M (Unit {0})
resume_requests user =
    exec database
      (λ db. record db { requests = update_where (held_request user) resumed db.requests })

abbrev pub hold_or_missing : Option LegalHold → M LegalHold
hold_or_missing none = raise not_found
hold_or_missing (some h) = pure h

-- `getHold`.
unfoldable pub get_hold : String → M LegalHold
get_hold id = do h ← query database (λ db. find (λ h. h.id == id) db.legal_holds); hold_or_missing h

-- The rest of `ReleaseHold`, with the row that the update returned.
unfoldable pub after_release : String → Option LegalHold → M LegalHold
after_release id none = get_hold id >> raise conflict
after_release id (some h) = do
  still ← active_hold_for h.user_id ""
  if still then pure tt else resume_requests h.user_id
  pure h

abbrev pub release_row : ℕ → String → Option LegalHold → Option LegalHold
release_row t by none = none
release_row t by (some h) = some (released t by h)

-- `ReleaseHold`.
unfoldable pub release_hold : String → String → M LegalHold
release_hold id by = do
  t ← now
  h ← statement database (λ db. (
    record db { legal_holds = update_where (unreleased id) (released t by) db.legal_holds },
    release_row t by (find (unreleased id) db.legal_holds),
  ))
  after_release id h
