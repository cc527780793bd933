-- ===== src/Iam/Tests.antt =====
-- A deployment with an owner, what the owner does, and the properties there.
use dilion.Base.{
  ◌≡◌, ◌≢◌, ◌⊎◌, refl, Bool, true, String, ◌==◌, List, [], ◌∷◌, none, some, any, contains, arith,
}
use dilion.Exec
use dilion.Exec.{World, ok, pure, ◌>>=◌}
use dilion.Text.Trim
use dilion.Iam.Db.{Db, Deps, Role, Assignment, ApiKey, type_user, type_api_key, builtin_permissions}
use dilion.Iam.Roles
use dilion.Iam.Assignments
use dilion.Iam.Assignments.{Holder, holders}
use dilion.Iam.Keys
use dilion.Iam.Keys.{revoke_key, verify_key}
use dilion.Iam.Authorizer
use dilion.Iam.Authorizer.{is_allowed, assigned, can, permissions}
use dilion.Iam.Handlers
use dilion.Iam.Handlers.{RequestInfo}
use dilion.Iam.Ops.{Operation, grant, perform, perform_all}
use dilion.Iam.History.{
  KeepsHistory, OneActive, perform_all-KeepsHistory, perform_all-OneActiveGrant,
}
use dilion.Iam.OwnerOnly.{by_builtin, owner_only_stays_builtin}
use dilion.Iam.Decision.{can-permissions, holders-by_role}
use dilion.Iam.Revoked.{revoked_key_stays_out}
use dilion.Iam.Escalation.Writes.{HeldBy}
use dilion.Iam.Escalation.Run.{perform_all_no_escalation}

abbrev fresh_role : Db → String
fresh_role s = "role_new"

abbrev fresh_key : Db → String
fresh_key s = "key_new"

abbrev fresh_token : Db → String
fresh_token s = "dk_new"

abbrev same_text : String → String
same_text s = s

abbrev deps : Deps
deps = record {
  new_role_id = fresh_role;
  new_key_id = fresh_key;
  new_token = fresh_token;
  hash_token = same_text;
}

abbrev owner : Role
owner = record {
  id = "role_owner";
  name = "owner";
  permissions = builtin_permissions;
  builtin = true;
  created_at = 0;
}

abbrev held_by_root : Assignment
held_by_root = record {
  id = 1;
  actor_id = "root";
  role_id = "role_owner";
  granted_by = none;
  granted_at = 1;
  revoked_by = none;
  revoked_at = none;
}

abbrev root_key : ApiKey
root_key = record {
  id = "key_1";
  name = none;
  key_hash = "dk_1";
  scopes = "users.read" ∷ [];
  created_at = 1;
  created_by = some "root";
  created_by_type = some type_user;
  expires_at = none;
  revoked_at = none;
  revoked_by = none;
  last_used_at = none;
}

abbrev db : Db
db = record {
  permissions = [];
  roles = owner ∷ [];
  assignments = held_by_root ∷ [];
  next_id = 2;
  api_keys = root_key ∷ [];
}

abbrev world : World Db
world = record { db = db; clock = 10; ticks = [] }

abbrev root : RequestInfo
root = record { actor = record { id = "root"; type = type_user }; scopes = [] }

abbrev promote : List (RequestInfo × Operation)
promote = (root, grant "role_owner" "ada") ∷ []

perform_all-KeepsHistory_example : KeepsHistory db (perform_all deps promote world).0.db
perform_all-KeepsHistory_example = perform_all-KeepsHistory deps promote world

db-OneActive : OneActive db
db-OneActive role actor = ground arith

perform_all-OneActiveGrant_example : OneActive (perform_all deps promote world).0.db
perform_all-OneActiveGrant_example = perform_all-OneActiveGrant deps promote world db-OneActive

promoted : is_allowed 20 "ada" "auth.settings.manage" (perform_all deps promote world).0.db ≡ true
unfolding perform_all perform Exec.◌>>=◌ Exec.attempt Exec.pure Exec.raise Exec.lift Exec.now
    Exec.statement Handlers.handle_grant_role Handlers.grant_ceiling Handlers.missing_of
    Handlers.holds Authorizer.can Authorizer.is_allowed Roles.get_role Assignments.grant_role
    Assignments.grant_missing Trim.trim
promoted = refl

owner_only_stays_builtin_example :
    by_builtin "auth.settings.manage" "ada" (perform_all deps promote world).0.db ≡ true
owner_only_stays_builtin_example =
    owner_only_stays_builtin deps promote world 20 "ada" "auth.settings.manage" (refl, refl) refl
      promoted

can-permissions_example :
    can root.actor "pii.read" world
    ≡ (permissions root.actor >>= λ ps. pure (contains ps "pii.read")) world
can-permissions_example = can-permissions root.actor "pii.read" world refl refl

holders-by_role_example :
    any (λ (h : Holder). h.actor_id == "root") (holders "pii.read" db.roles db.assignments)
    ≡ any (assigned "root" "pii.read" db.roles) db.assignments
holders-by_role_example = holders-by_role "root" "pii.read" db.roles db.assignments

abbrev revoked_copy : ApiKey
revoked_copy = record root_key { revoked_at = some 10; revoked_by = some "root" }

revocation : (revoke_key "key_1" "root" world).1 ≡ ok revoked_copy
unfolding revoke_key Exec.◌>>=◌ Exec.now Exec.statement Exec.pure Keys.revoke_key_missing
revocation = refl

revoked_key_stays_out_example :
    (verify_key deps "dk_1" (perform_all deps promote (revoke_key "key_1" "root" world).0).0).1
    ≢ ok (record { id = "key_1"; type = type_api_key }, "users.read" ∷ [])
revoked_key_stays_out_example =
    revoked_key_stays_out deps "key_1" "root" "dk_1" promote world revoked_copy
      (record { id = "key_1"; type = type_api_key }, "users.read" ∷ []) (refl, refl) revocation

abbrev only_root : String → Bool
only_root x = x == "root"

perform_all_no_escalation_example :
    (is_allowed 20 "ada" "auth.settings.manage" db ≡ true)
    ⊎ HeldBy only_root db "auth.settings.manage"
unfolding Trim.trim
perform_all_no_escalation_example =
    perform_all_no_escalation only_root deps promote world 20 "ada" "auth.settings.manage"
      ((refl, refl), tt) (record { ids = refl; roles = refl; keys = refl }) promoted
