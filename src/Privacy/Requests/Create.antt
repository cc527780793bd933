-- ===== src/Privacy/Requests/Create.antt =====
-- `CreateRequest` and what it calls (internal/privacy/requests.go).
use dilion.Base.{
  ℕ, suc, ◌-◌, ◌^◌, Bool, true, false, ◌&&◌, ◌||◌, not, String, ◌==◌, [], ◌∷◌, ◌++◌, Option, none,
  some, if◌then◌else◌, any, find, not_empty, holds_text,
}
use dilion.Calendar.{add_date}
use dilion.Exec.{Result, ok, err, pure, raise, lift, now, statement, query, in_tx, ◌>>=◌, ◌>>◌}
use dilion.Privacy.Policy.{ℤ, pos, negsuc, Policy, lookup, resolve, grace_days, manual_review}
use dilion.Privacy.Db.{
  manual_review as in_review, Db, Error, M, Deps, Request, RequestType, deletion, export,
  consent_withdrawal, unknown_type, RequestStatus, requested, done, canceled, by_policy,
  before_user_delete, database, conflict, idempotency_replay, policy_violation, invalid_input,
}

pub record CreateRequestInput : Type 0 where
  pub user_id : String
  pub type : RequestType
  pub immediate : Bool
  pub idempotency_key : String
  pub requested_by : String

unfoldable pub valid_request_type : RequestType → Bool
valid_request_type (unknown_type s) = false
valid_request_type _ = true

abbrev pub is_deletion : RequestType → Bool
is_deletion deletion = true
is_deletion _ = false

abbrev pub same_type : RequestType → RequestType → Bool
same_type deletion deletion = true
same_type export export = true
same_type consent_withdrawal consent_withdrawal = true
same_type (unknown_type s) (unknown_type t) = s == t
same_type _ _ = false

-- `status in ('REQUESTED','PROCESSING','MANUAL_REVIEW')`.
abbrev pub is_active : RequestStatus → Bool
is_active done = false
is_active canceled = false
is_active _ = true

abbrev pub active_deletion_of : String → Request → Bool
active_deletion_of user r = r.user_id == user && (is_deletion r.type && is_active r.status)

abbrev refuse_reserved : String → String → Result Error String
refuse_reserved system u = if u == system then err invalid_input else ok u

abbrev parsed_uuid : String → Option String → Result Error String
parsed_uuid system none = err invalid_input
parsed_uuid system (some u) = refuse_reserved system u

abbrev or_default : String → Option String → String
or_default def none = def
or_default def (some p) = if p == "" then def else p

abbrev pub resolved : String → String → Option Policy × Bool → String × Option Policy
resolved id def (p, known) = (if known then id else def, p)

-- The snapshot of a nil policy is the empty document.
abbrev pub snapshot : Option Policy → Policy
snapshot none = record { id = ""; erasure = none; retention = none; consent = none }
snapshot (some p) = p

-- An int as its 64-bit pattern.
abbrev pub pattern_of : ℤ → ℕ
pattern_of (pos n) = n
pattern_of (negsuc n) = 2 ^ 64 - suc n

-- What a unique index refuses.
abbrev pub same_key : Option String → Request → Bool
same_key none r = false
same_key (some k) r = holds_text r.idempotency_key k

abbrev pub clashes : Request → Request → Bool
clashes r x = is_deletion r.type && (is_active r.status && active_deletion_of r.user_id x)

-- The insertion: the primary key, the idempotency key and the one active deletion of a person are
-- unique, and a violation is told by the name of its constraint.
abbrev pub insert_request : Request → Db → Db × Result Error Request
insert_request r db =
    if any (λ x. x.id == r.id) db.requests
    then (db, err conflict)
    else if any (same_key r.idempotency_key) db.requests
    then (db, err idempotency_replay)
    else if any (clashes r) db.requests
    then (db, err conflict)
    else (record db { requests = db.requests ++ r ∷ [] }, ok r)

abbrev pub refused : Error → Bool → M (Unit {0})
refused e b = if b then raise e else pure tt

-- `requestByIdempotencyKey`.
unfoldable pub request_by_idempotency_key : String → M (Option Request)
request_by_idempotency_key key =
    query database (λ db. find (λ r. holds_text r.idempotency_key key) db.requests)

unfoldable pub has_active_deletion : String → M Bool
has_active_deletion user = query database (λ db. any (active_deletion_of user) db.requests)

module _ (deps : Deps) where
  -- `validUUID` (engine.go), on the trimmed text.
  unfoldable pub valid_uuid : String → Result Error String
  valid_uuid s = parsed_uuid deps.system_uuid (deps.parse_uuid s)

  abbrev pub policy_of : Option String → String × Option Policy
  policy_of assigned =
      let id = or_default deps.policies.default_policy assigned in
      resolved id deps.policies.default_policy (resolve deps.policies id)

  -- `resolvePolicy`.
  unfoldable pub resolve_policy : String → M (String × Option Policy)
  resolve_policy user = do
    assigned ← query database (λ db. lookup user db.subject_policies)
    pure (policy_of assigned)

  abbrev pub new_request : CreateRequestInput → String → String → Option Policy → ℕ → Db → Request
  new_request input user policy_id policy t db =
      let reviewed = is_deletion input.type && manual_review policy in
      record {
        id = deps.new_id db;
        user_id = user;
        type = input.type;
        status = if reviewed then in_review else requested;
        policy_id = policy_id;
        policy_snapshot = snapshot policy;
        scheduled_at =
            if input.immediate then t else add_date t 0 0 (pattern_of (grace_days policy));
        requested_at = t;
        completed_at = none;
        idempotency_key = not_empty input.idempotency_key;
        requested_by = not_empty input.requested_by;
        manual_review_reason = if reviewed then some by_policy else none;
      }

  -- `insert into personal_data_requests ... returning`.
  unfoldable pub insert_statement :
      CreateRequestInput → String → String × Option Policy → ℕ → M Request
  insert_statement input user (policy_id, policy) t = do
    r ← statement database (λ db. insert_request (new_request input user policy_id policy t db) db)
    lift r

  -- A deletion looks once more for an active one, under the person's lock.
  unfoldable pub insert_locked :
      CreateRequestInput → String → String × Option Policy → ℕ → M Request
  insert_locked input user p t =
      if is_deletion input.type
      then in_tx database (
          has_active_deletion user >>= λ active.
          refused conflict active >>= λ _. insert_statement input user p t)
      else insert_statement input user p t

  -- The hook gate of a deletion.
  abbrev pub vetoed : CreateRequestInput → String → String × Option Policy → Bool
  vetoed input user p =
      is_deletion input.type
      && not (deps.hook_accepts (before_user_delete user p.0 input.immediate input.requested_by))

  -- `CreateRequest` from the duplicate check on.
  unfoldable pub create_new : CreateRequestInput → String → M Request
  create_new input user = do
    active ← if is_deletion input.type then has_active_deletion user else pure false
    refused conflict active
    p ← resolve_policy user
    refused policy_violation (vetoed input user p)
    t ← now
    insert_locked input user p t

  -- What an idempotency key answers: the request it made before.
  unfoldable pub replay : CreateRequestInput → String → Option Request → M Request
  replay input user none = create_new input user
  replay input user (some prev) =
      if not (prev.user_id == user) || not (same_type prev.type input.type)
      then raise idempotency_replay
      else pure prev

  unfoldable pub create_valid : CreateRequestInput → String → M Request
  create_valid input user =
      if not (valid_request_type input.type)
      then raise invalid_input
      else if input.idempotency_key == ""
      then create_new input user
      else (do prev ← request_by_idempotency_key input.idempotency_key; replay input user prev)

  -- `CreateRequest`.
  unfoldable pub create_request : CreateRequestInput → M Request
  create_request input = do user ← lift (valid_uuid input.user_id); create_valid input user
