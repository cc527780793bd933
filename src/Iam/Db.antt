-- ===== src/Iam/Db.antt =====
-- The tables of internal/iam (migrations 0300 to 0307), its errors, and what is given from outside.
use dilion.Base.{ℕ, Bool, String, List, [], ◌∷◌, Option}
use dilion.Exec.{Exec, check_ctx}

-- `database` stands for a failed statement or connection, which the API answers by an internal
-- error. `permission_denied` names the missing permissions.
pub data Error : Type 0 where
  not_found conflict invalid unauthenticated builtin_immutable database : Error
  permission_denied : List String → Error

pub record Permission : Type 0 where
  pub name : String
  pub builtin : Bool
  pub created_at : ℕ

pub record Role : Type 0 where
  pub id : String
  pub name : String
  pub permissions : List String
  pub builtin : Bool
  pub created_at : ℕ

pub record Assignment : Type 0 where
  pub id : ℕ
  pub actor_id : String
  pub role_id : String
  pub granted_by : Option String
  pub granted_at : ℕ
  pub revoked_by : Option String
  pub revoked_at : Option ℕ

-- A row of `dilion_authz.api_keys`; an `APIKey` has its fields but the hash and the creator's type.
pub record ApiKey : Type 0 where
  pub id : String
  pub name : Option String
  pub key_hash : String
  pub scopes : List String
  pub created_at : ℕ
  pub created_by : Option String
  pub created_by_type : Option String
  pub expires_at : Option ℕ
  pub revoked_at : Option ℕ
  pub revoked_by : Option String
  pub last_used_at : Option ℕ

-- `next_id` is the sequence of `role_assignments.id`.
pub record Db : Type 0 where
  pub permissions : List Permission
  pub roles : List Role
  pub assignments : List Assignment
  pub next_id : ℕ
  pub api_keys : List ApiKey

-- What the code draws at random, and SHA-256.
pub record Deps : Type 0 where
  pub new_role_id : Db → String
  pub new_key_id : Db → String
  pub new_token : Db → String
  pub hash_token : String → String

abbrev pub M : Type 0 → Type 0
M A = Exec Db Error A

-- `s.db(ctx)`: the pool of the request's instance, which may be missing.
abbrev pub resolve_pool : M (Unit {0})
resolve_pool = check_ctx database

-- `ports.Actor`.
pub record Actor : Type 0 where
  pub id : String
  pub type : String

abbrev pub type_api_key : String
type_api_key = "api_key"

abbrev pub type_user : String
type_user = "user"

abbrev pub type_service_role : String
type_service_role = "service_role"

abbrev pub owner_only_permissions : List String
owner_only_permissions = "auth.settings.manage" ∷ []

abbrev pub builtin_permissions : List String
builtin_permissions =
    "users.read" ∷ "pii.read" ∷ "pii.reveal" ∷ "pii.write" ∷ "pii.export" ∷ "consents.write"
    ∷ "privacy.requests.manage" ∷ "holds.manage" ∷ "policies.manage" ∷ "destinations.manage"
    ∷ "keys.manage" ∷ "roles.manage" ∷ "audit.read" ∷ "users.admin" ∷ "auth.settings.manage" ∷ []
