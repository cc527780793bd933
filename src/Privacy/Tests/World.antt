-- ===== src/Privacy/Tests/World.antt =====
-- A person, a due deletion request, and what an engine is given.
use dilion.Base.{ℕ, Bool, true, false, String, List, [], ◌∷◌, Option, none, some}
use dilion.Exec.{World}
use dilion.Privacy.Policy.{Policy, pos}
use dilion.Privacy.Tasks.Delivery.{Peers, Reply, response, ConnectorReply}
use dilion.Privacy.Tasks.Backoff.{least}
use dilion.Privacy.Db.{
  Destination, Task, Db, Deps, Request, RequestStatus, deletion, requested, canceled, LegalHold,
  Owned, User, SubjectKey, default_scope, HookCall,
}

abbrev pub gdpr : Policy
gdpr = record {
  id = "gdpr";
  erasure = some (record { grace_period_days = pos 0; manual_review = false; domains = [] });
  retention = none;
  consent = none;
}

abbrev accept : HookCall → Bool
accept call = true

abbrev tombstone : String → String
tombstone id = id

abbrev released_id : String → String → String → String
released_id user provider id = "released"

abbrev fresh : Db → String
fresh s = "new"

abbrev uuid : String → Option String
uuid s = some s

abbrev pub deps : Deps
deps = record {
  hook_accepts = accept;
  tombstone_id = tombstone;
  released_provider_id = released_id;
  new_id = fresh;
  parse_uuid = uuid;
  system_uuid = "system";
  policies = record {
    default_policy = "gdpr";
    retention_batch_size = pos 10;
    policies = ("gdpr", gdpr) ∷ [];
  };
}

abbrev pub request : String → String → RequestStatus → Request
request id user status = record {
  id = id;
  user_id = user;
  type = deletion;
  status = status;
  policy_id = "gdpr";
  policy_snapshot = gdpr;
  scheduled_at = 5;
  requested_at = 5;
  completed_at = none;
  idempotency_key = none;
  requested_by = none;
  manual_review_reason = none;
}

abbrev pub owned : String → String → Owned
owned id user = record { id = id; user_id = user }

abbrev pub person : String → User
person id = record {
  id = id;
  encrypted_password = "hash";
  email = some "a@example.com";
  phone = none;
  raw_user_meta_data = [];
  raw_app_meta_data = ("provider", "email") ∷ [];
  email_change = "";
  phone_change = "";
  confirmation_token = "";
  recovery_token = "";
  email_change_token_current = "";
  email_change_token_new = "";
  phone_change_token = "";
  reauthentication_token = "";
  deleted_at = none;
}

abbrev pub key : String → SubjectKey
key user = record {
  user_id = user;
  scope = default_scope;
  wrapped_dek = some "dek";
  shredded_at = none;
  shred_after = none;
}

abbrev pub db : List Request → List LegalHold → Db
db requests holds = record {
  requests = requests;
  subject_policies = [];
  legal_holds = holds;
  tasks = [];
  destinations = [];
  destruction_logs = [];
  erasure_registry = [];
  subject_keys = key "ada" ∷ key "bob" ∷ [];
  users = person "ada" ∷ person "bob" ∷ [];
  opaque_credentials = [];
  refresh_tokens = owned "r1" "ada" ∷ owned "r2" "bob" ∷ [];
  sessions = owned "s1" "ada" ∷ owned "s2" "bob" ∷ [];
  oauth_consents = [];
  oauth_authorizations = [];
  mfa_factors = [];
  webauthn_credentials = [];
  identities = [];
  audit_events = [];
  audit_subjects = [];
  user_profiles = owned "p1" "ada" ∷ [];
  consent_state = [];
  role_assignments = [];
  profile_search_index = [];
  absent_tables = "dilion_audit.subjects" ∷ [];
}

abbrev pub hold : LegalHold
hold = record {
  id = "hold_1";
  user_id = "ada";
  domain = none;
  reason = "litigation";
  basis = none;
  created_by = none;
  created_at = 1;
  released_at = none;
  released_by = none;
}

abbrev pub world : Db → World Db
world s = record { db = s; clock = 10; ticks = [] }

abbrev pub due : Db
due = db (request "pr_1" "ada" requested ∷ []) []

abbrev pub held : Db
held = db (request "pr_1" "ada" requested ∷ []) (hold ∷ [])

abbrev pub withdrawn : Db
withdrawn = db (request "pr_1" "ada" canceled ∷ []) []

abbrev nothing_drawn : Db → ℕ
nothing_drawn s = 0

abbrev secret : Destination → Bool
secret d = true

abbrev url : String → Bool
url s = true

abbrev accepted : Destination → Task → Reply
accepted d k = response 200

abbrev no_connectors : String → Option (Destination → Task → ConnectorReply)
no_connectors name = none

abbrev pub peers : Peers
peers = record {
  draw = nothing_drawn;
  conversion = least;
  has_secret = secret;
  is_url = url;
  post = accepted;
  connectors = no_connectors;
}
