-- ===== src/Privacy/Db.antt =====
-- The tables that internal/privacy works on (migrations/), as lists of rows in the order of their
-- keys, and what the engine is given from outside.
use dilion.Base.{ℕ, Bool, String, List, Option}
use dilion.Exec.{Exec}
use dilion.Privacy.Domain.{ErasureAction}
use dilion.Privacy.Policy.{Policy, PolicySet}

pub data RequestType : Type 0 where
  deletion export consent_withdrawal : RequestType
  unknown_type : String → RequestType

pub data RequestStatus : Type 0 where
  requested processing done manual_review canceled : RequestStatus

pub data ReviewReason : Type 0 where
  by_policy legal_hold hook_rejected task_failed : ReviewReason

-- dilion_privacy.personal_data_requests.
pub record Request : Type 0 where
  pub id : String
  pub user_id : String
  pub type : RequestType
  pub status : RequestStatus
  pub policy_id : String
  pub policy_snapshot : Policy
  pub scheduled_at : ℕ
  pub requested_at : ℕ
  pub completed_at : Option ℕ
  pub idempotency_key : Option String
  pub requested_by : Option String
  pub manual_review_reason : Option ReviewReason

-- dilion_privacy.legal_holds.
pub record LegalHold : Type 0 where
  pub id : String
  pub user_id : String
  pub domain : Option String
  pub reason : String
  pub basis : Option String
  pub created_by : Option String
  pub created_at : ℕ
  pub released_at : Option ℕ
  pub released_by : Option String

pub data TaskStatus : Type 0 where
  pending running failed completed dead : TaskStatus

pub data TaskAction : Type 0 where
  task_delete reconfirm_notice : TaskAction

-- Why an attempt failed.
pub data ErrorCode : Type 0 where
  destination_missing destination_load_failed destination_disabled unknown_destination_type :
      ErrorCode
  url_missing secret_unavailable request_build_failed transport_error : ErrorCode
  connector_not_registered connector_error : ErrorCode
  http_status : ℕ → ErrorCode
  connector_code : String → ErrorCode

-- dilion_privacy.tasks.
pub record Task : Type 0 where
  pub id : String
  pub request_id : String
  pub user_id : String
  pub destination_id : String
  pub action : TaskAction
  pub status : TaskStatus
  pub attempt_count : ℕ
  pub created_at : ℕ
  pub next_attempt_at : ℕ
  pub started_at : Option ℕ
  pub completed_at : Option ℕ
  pub error_code : Option ErrorCode

pub data DestinationType : Type 0 where
  webhook connector : DestinationType
  unknown_destination : String → DestinationType

-- dilion_privacy.destinations, with the fields of `config` that the engine reads.
pub record Destination : Type 0 where
  pub id : String
  pub type : DestinationType
  pub url : String
  pub connector_name : String
  pub enabled : Bool

-- What a step reports for the destruction log: the text that the source formats.
pub data Note : Type 0 where
  skipped_table_absent : String → Note
  opaque_rows rows tasks : ℕ → Note
  subjects_events : ℕ → ℕ → Note
  consent_dek_shred_after : ℕ → Note
  consent_dek_shredded_immediately : Note
  tombstone : String → Note

pub data Basis : Type 0 where
  policy_basis : String → Basis
  step_note : Note → Basis

-- dilion_privacy.destruction_logs.
pub record DestructionLog : Type 0 where
  pub request_id : String
  pub domain : String
  pub action : ErasureAction
  pub basis : Option Basis
  pub executed_at : ℕ

pub data KeyScope : Type 0 where
  default_scope consent_scope : KeyScope

-- dilion_pii.subject_keys; a wrapped key that was overwritten by random bytes is `none`.
pub record SubjectKey : Type 0 where
  pub user_id : String
  pub scope : KeyScope
  pub wrapped_dek : Option String
  pub shredded_at : Option ℕ
  pub shred_after : Option ℕ

-- auth.users: the columns that an erasure touches.
pub record User : Type 0 where
  pub id : String
  pub encrypted_password : String
  pub email : Option String
  pub phone : Option String
  pub raw_user_meta_data : List (String × String)
  pub raw_app_meta_data : List (String × String)
  pub email_change : String
  pub phone_change : String
  pub confirmation_token : String
  pub recovery_token : String
  pub email_change_token_current : String
  pub email_change_token_new : String
  pub phone_change_token : String
  pub reauthentication_token : String
  pub deleted_at : Option ℕ

-- A row that belongs to a user, of a table whose other columns the engine does not read.
pub record Owned : Type 0 where
  pub id : String
  pub user_id : String

-- auth.identities.
pub record Identity : Type 0 where
  pub user_id : String
  pub provider : String
  pub provider_id : String
  pub identity_data : List (String × String)
  pub updated_at : ℕ

-- dilion_audit.events and dilion_audit.subjects.
pub record AuditEvent : Type 0 where
  pub event_id : String
  pub actor_id : String
  pub ip : Option String
  pub user_agent : Option String
  pub created_at : ℕ

pub record AuditSubject : Type 0 where
  pub event_id : String
  pub subject_id : String

-- dilion_authz.role_assignments.
pub record RoleAssignment : Type 0 where
  pub actor_id : String
  pub role_id : String
  pub revoked_at : Option ℕ
  pub revoked_by : Option String

-- dilion_privacy.erasure_registry.
pub record Tombstone : Type 0 where
  pub tombstone_id : String
  pub erased_at : ℕ
  pub request_id : String

pub record Db : Type 0 where
  pub requests : List Request
  pub subject_policies : List (String × String)
  pub legal_holds : List LegalHold
  pub tasks : List Task
  pub destinations : List Destination
  pub destruction_logs : List DestructionLog
  pub erasure_registry : List Tombstone
  pub subject_keys : List SubjectKey
  pub users : List User
  pub opaque_credentials : List Owned
  pub refresh_tokens : List Owned
  pub sessions : List Owned
  pub oauth_consents : List Owned
  pub oauth_authorizations : List Owned
  pub mfa_factors : List Owned
  pub webauthn_credentials : List Owned
  pub identities : List Identity
  pub audit_events : List AuditEvent
  pub audit_subjects : List AuditSubject
  pub user_profiles : List Owned
  pub consent_state : List Owned
  pub role_assignments : List RoleAssignment
  pub profile_search_index : List Owned
  -- The optional tables that no migration has created.
  pub absent_tables : List String

pub data Error : Type 0 where
  database canceled_context kms_failed not_found conflict idempotency_replay : Error
  policy_violation invalid_input bad_period : Error

abbrev pub M : Type 0 → Type 0
M A = Exec Db Error A

-- The payloads of the hooks that the engine runs.
pub data HookCall : Type 0 where
  before_user_delete : String → String → Bool → String → HookCall
  legal_hold_blocked pipeline_start after_erasure : String → String → HookCall
  before_step : String → String → String → ErasureAction → ℕ → HookCall

-- What is given from outside: the answers of the registered hooks, keyed hashes, new identifiers
-- (any function of the state, so nothing is assumed of them) and UUID parsing.
pub record Deps : Type 0 where
  pub hook_accepts : HookCall → Bool
  pub tombstone_id : String → String
  pub released_provider_id : String → String → String → String
  pub new_id : Db → String
  pub parse_uuid : String → Option String
  pub system_uuid : String
  pub policies : PolicySet
