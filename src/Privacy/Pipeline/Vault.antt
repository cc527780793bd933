-- ===== src/Privacy/Pipeline/Vault.antt =====
-- Steps 900 and 1000 of an erasure run: the subject's keys and the account
-- (internal/privacy/pipeline.go, and DestroyDEK of internal/kmslocal/kmslocal.go).
use dilion.Base.{
  ℕ, Bool, true, false, ◌&&◌, ◌||◌, String, ◌==◌, List, [], ◌∷◌, ◌++◌, Option, none, some,
  if◌then◌else◌, is_none, coalesce, any, select_where, delete_where, update_where,
}
use dilion.Exec.{Result, ok, err, pure, lift, now, exec, ◌>>=◌, ◌>>◌}
use dilion.Privacy.Domain
use dilion.Privacy.Domain.{ErasureAction, delete}
use dilion.Privacy.Duration.{Duration, DurationError, parse_iso_duration, add_to}
use dilion.Privacy.Policy.{RetentionRule, retention_for, from_erasure}
use dilion.Privacy.Db.{
  Error, M, Deps, consent_dek_shred_after, consent_dek_shredded_immediately, tombstone, KeyScope,
  default_scope, consent_scope, SubjectKey, User, database, kms_failed, bad_period,
}
use dilion.Privacy.Pipeline.Common.{RunCtx, Outcome, finished, table_exists, owned_by}

abbrev pub is_default : KeyScope → Bool
is_default default_scope = true
is_default consent_scope = false

abbrev pub is_consent : KeyScope → Bool
is_consent default_scope = false
is_consent consent_scope = true

abbrev pub key_of : String → KeyScope → SubjectKey → Bool
key_of u default_scope k = k.user_id == u && is_default k.scope
key_of u consent_scope k = k.user_id == u && is_consent k.scope

-- `DestroyDEK` of internal/kmslocal: the key is overwritten and stamped, and where there is none a
-- stamped row is left so that no key can be made later.
abbrev pub destroyed : ℕ → SubjectKey → SubjectKey
destroyed t k = record k { wrapped_dek = none; shredded_at = coalesce k.shredded_at t }

abbrev pub new_key : String → KeyScope → ℕ → SubjectKey
new_key u sc t = record {
  user_id = u;
  scope = sc;
  wrapped_dek = none;
  shredded_at = some t;
  shred_after = none;
}

abbrev pub destroy_key : String → KeyScope → ℕ → List SubjectKey → List SubjectKey
destroy_key u sc t ks =
    if any (key_of u sc) ks
    then update_where (key_of u sc) (destroyed t) ks
    else ks ++ new_key u sc t ∷ []

unfoldable pub destroy_dek : String → KeyScope → M (Unit {0})
destroy_dek u sc = do
  t ← now
  exec kms_failed (λ db. record db { subject_keys = destroy_key u sc t db.subject_keys })

-- `set shredded_at = coalesce(shredded_at, now)`.
unfoldable pub stamp_key : String → KeyScope → M (Unit {0})
stamp_key u sc = do
  t ← now
  exec database (λ db. record db {
    subject_keys =
        update_where (key_of u sc) (λ k. record k { shredded_at = coalesce k.shredded_at t })
          db.subject_keys;
  })

-- The last rule whose clock starts at the erasure.
unfoldable pub from_erasure_rule : List RetentionRule → Option RetentionRule → Option RetentionRule
from_erasure_rule [] found = found
from_erasure_rule (r ∷ rs) found =
    from_erasure_rule rs (if r.from == from_erasure then some r else found)

abbrev pub period_of : Result DurationError Duration → Result Error Duration
period_of (ok d) = ok d
period_of (err e) = err bad_period

unfoldable pub schedule_shred : RunCtx → RetentionRule → M Outcome
schedule_shred rc rule = do
  d ← lift (period_of (parse_iso_duration rule.period))
  t ← now
  exec database (λ db. record db {
    subject_keys =
        update_where (λ k. key_of rc.user_id consent_scope k && is_none k.shredded_at)
          (λ k. record k { shred_after = some (add_to d t) }) db.subject_keys;
  })
  pure (finished (consent_dek_shred_after (add_to d t)))

unfoldable pub shred_consent : RunCtx → M Outcome
shred_consent rc = do
  destroy_dek rc.user_id consent_scope
  stamp_key rc.user_id consent_scope
  pure (finished consent_dek_shredded_immediately)

unfoldable pub consent_key : RunCtx → Option RetentionRule → M Outcome
consent_key rc (some rule) = schedule_shred rc rule
consent_key rc none = shred_consent rc

-- 900 subject-key.
unfoldable pub step_subject_key : RunCtx → ErasureAction → M Outcome
step_subject_key rc a = do
  destroy_dek rc.user_id default_scope
  there ← table_exists "dilion_pii.subject_keys"
  if there then stamp_key rc.user_id default_scope else pure tt
  consent_key rc (from_erasure_rule (retention_for (some rc.policy) Domain.consent_evidence) none)

abbrev pub is_provider_key : String × String → Bool
is_provider_key (k, v) = k == "provider" || k == "providers"

-- Every column that names or reaches the person is emptied.
abbrev pub truncated : ℕ → User → User
truncated t u = record u {
  email = none;
  phone = none;
  raw_user_meta_data = [];
  email_change = "";
  phone_change = "";
  confirmation_token = "";
  recovery_token = "";
  email_change_token_current = "";
  email_change_token_new = "";
  phone_change_token = "";
  reauthentication_token = "";
  raw_app_meta_data = select_where is_provider_key u.raw_app_meta_data;
  deleted_at = coalesce u.deleted_at t;
}

unfoldable pub truncate_user : RunCtx → M (Unit {0})
truncate_user rc = do
  t ← now
  exec database
      (λ db. record db { users = update_where (λ u. u.id == rc.user_id) (truncated t) db.users })

unfoldable pub revoke_roles : RunCtx → M (Unit {0})
revoke_roles rc = do
  t ← now
  exec database (λ db. record db {
    role_assignments =
        update_where (λ a. a.actor_id == rc.user_id && is_none a.revoked_at)
          (λ a. record a { revoked_at = some t; revoked_by = some "system:erasure" })
          db.role_assignments;
  })

module _ (deps : Deps) where
  unfoldable pub register_tombstone : RunCtx → M (Unit {0})
  register_tombstone rc = do
    t ← now
    exec database (λ db. record db {
      erasure_registry =
          if any (λ e. e.tombstone_id == deps.tombstone_id rc.user_id) db.erasure_registry
          then db.erasure_registry
          else db.erasure_registry
            ++ record {
              tombstone_id = deps.tombstone_id rc.user_id;
              erased_at = t;
              request_id = rc.request_id;
            }
              ∷ [];
    })

  -- 1000 account.
  unfoldable pub step_account : RunCtx → ErasureAction → M Outcome
  step_account rc a = do
    users_there ← table_exists "auth.users"
    if users_there then truncate_user rc else pure tt
    exec database
        (λ db. record db { user_profiles = delete_where (owned_by rc.user_id) db.user_profiles })
    exec database
        (λ db. record db { consent_state = delete_where (owned_by rc.user_id) db.consent_state })
    roles_there ← table_exists "dilion_authz.role_assignments"
    if roles_there then revoke_roles rc else pure tt
    exec database (λ db. record db {
      profile_search_index = delete_where (owned_by rc.user_id) db.profile_search_index;
    })
    register_tombstone rc
    pure (finished (tombstone (deps.tombstone_id rc.user_id)))
