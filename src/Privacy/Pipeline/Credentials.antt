-- ===== src/Privacy/Pipeline/Credentials.antt =====
-- Steps 100 to 600 of an erasure run: what a person signs in with (internal/privacy/pipeline.go).
use dilion.Base.{ℕ, Bool, not, String, ◌==◌, [], if◌then◌else◌, delete_where, update_where, count}
use dilion.Exec.{pure, now, statement, exec, ◌>>=◌, ◌>>◌}
use dilion.Privacy.Domain.{ErasureAction}
use dilion.Privacy.Db.{Db, M, Deps, opaque_rows, rows, Identity, database}
use dilion.Privacy.Pipeline.Common.{
  RunCtx, Outcome, finished, table_exists, skip_missing, owned_by, is_delete,
}

-- 100 credential.
unfoldable pub step_credential : RunCtx → ErasureAction → M Outcome
step_credential rc a = do
  there ← table_exists "auth.users"
  if not there then skip_missing "auth.users" else do
    exec database (λ db. record db {
      users =
          update_where (λ u. u.id == rc.user_id) (λ u. record u { encrypted_password = "" })
            db.users;
    })
    opaque ← table_exists "dilion_auth.opaque_credentials"
    if not opaque then skip_missing "dilion_auth.opaque_credentials" else do
      n ← statement database (λ db. (
        record db { opaque_credentials = delete_where (owned_by rc.user_id) db.opaque_credentials },
        count (owned_by rc.user_id) db.opaque_credentials,
      ))
      pure (finished (opaque_rows n))

-- 200 refresh-token.
unfoldable pub step_refresh_token : RunCtx → ErasureAction → M Outcome
step_refresh_token rc a = do
  there ← table_exists "auth.refresh_tokens"
  if not there then skip_missing "auth.refresh_tokens" else do
    n ← statement database (λ db. (
      record db { refresh_tokens = delete_where (owned_by rc.user_id) db.refresh_tokens },
      count (owned_by rc.user_id) db.refresh_tokens,
    ))
    pure (finished (rows n))

-- A grant table of the OAuth server is passed over where it is absent.
unfoldable pub delete_grants : String → (Db → Db) → M (Unit {0})
delete_grants t f = do there ← table_exists t; if not there then pure tt else exec database f

-- 300 session.
unfoldable pub step_session : RunCtx → ErasureAction → M Outcome
step_session rc a = do
  there ← table_exists "auth.sessions"
  if not there then skip_missing "auth.sessions" else do
    n ← statement database (λ db. (
      record db { sessions = delete_where (owned_by rc.user_id) db.sessions },
      count (owned_by rc.user_id) db.sessions,
    ))
    delete_grants "auth.oauth_consents"
        (λ db. record db { oauth_consents = delete_where (owned_by rc.user_id) db.oauth_consents })
    delete_grants "auth.oauth_authorizations" (λ db. record db {
      oauth_authorizations = delete_where (owned_by rc.user_id) db.oauth_authorizations;
    })
    pure (finished (rows n))

-- 400 mfa-factor.
unfoldable pub step_mfa_factor : RunCtx → ErasureAction → M Outcome
step_mfa_factor rc a = do
  there ← table_exists "auth.mfa_factors"
  if not there then skip_missing "auth.mfa_factors" else do
    n ← statement database (λ db. (
      record db { mfa_factors = delete_where (owned_by rc.user_id) db.mfa_factors },
      count (owned_by rc.user_id) db.mfa_factors,
    ))
    pure (finished (rows n))

-- 500 passkey.
unfoldable pub step_passkey : RunCtx → ErasureAction → M Outcome
step_passkey rc a = do
  there ← table_exists "auth.webauthn_credentials"
  if not there then skip_missing "auth.webauthn_credentials" else do
    n ← statement database (λ db. (
      record db {
        webauthn_credentials = delete_where (owned_by rc.user_id) db.webauthn_credentials;
      },
      count (owned_by rc.user_id) db.webauthn_credentials,
    ))
    pure (finished (rows n))

abbrev pub identity_of : String → Identity → Bool
identity_of u r = r.user_id == u

unfoldable pub delete_identities : RunCtx → M Outcome
delete_identities rc = do
  n ← statement database (λ db. (
    record db { identities = delete_where (identity_of rc.user_id) db.identities },
    count (identity_of rc.user_id) db.identities,
  ))
  pure (finished (rows n))

module _ (deps : Deps) where
  abbrev pub released : ℕ → Identity → Identity
  released t r = record r {
    identity_data = [];
    provider_id = deps.released_provider_id r.user_id r.provider r.provider_id;
    updated_at = t;
  }

  unfoldable pub release_identities : RunCtx → M Outcome
  release_identities rc = do
    t ← now
    n ← statement database (λ db. (
      record db { identities = update_where (identity_of rc.user_id) (released t) db.identities },
      count (identity_of rc.user_id) db.identities,
    ))
    pure (finished (rows n))

  -- 600 oauth-identity.
  unfoldable pub step_oauth_identity : RunCtx → ErasureAction → M Outcome
  step_oauth_identity rc a = do
    there ← table_exists "auth.identities"
    if not there
        then skip_missing "auth.identities"
        else if is_delete a
        then delete_identities rc
        else release_identities rc
