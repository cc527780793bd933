-- ===== src/Privacy/Pipeline/Isolation/Credentials.antt =====
-- The frame of steps 100 to 600.
use dilion.Base.{
  ℕ, refl, String, ◌==◌, delete_where, update_where, others-delete_where, others-update_where,
  arith,
}
use dilion.Privacy.Db.{Db, Deps}
use dilion.Privacy.Domain.{ErasureAction}
use dilion.Privacy.Pipeline.Common.{RunCtx}
use dilion.Privacy.Pipeline.Credentials.{
  identity_of, step_credential, step_refresh_token, step_session, delete_grants, step_mfa_factor,
  step_passkey, step_oauth_identity, delete_identities, release_identities, released,
}
use dilion.Exec.Grows.{IsPreorder, Grows}
use dilion.Privacy.Pipeline.Isolation.Spares.{Spares, Spares-preorder}
use dilion.Privacy.Pipeline.Isolation.Frame.{
  mfa_factors_leaf, oauth_authorizations_leaf, oauth_consents_leaf, opaque_credentials_leaf,
  refresh_tokens_leaf, sessions_leaf, spares_rules, users_leaf, webauthn_credentials_leaf,
}

module _ (deps : Deps) (rc : RunCtx) where
  abbrev R : Db → Db → Type 0
  R = Spares rc.user_id rc.request_id

  pre : IsPreorder R
  pre = Spares-preorder rc.user_id rc.request_id

  pub step_refresh_token-Spares : (a : ErasureAction) → Grows R (step_refresh_token rc a)
  unfolding step_refresh_token
  step_refresh_token-Spares a = search (spares_rules, (refresh_tokens_leaf rc)) depth 12

  pub step_mfa_factor-Spares : (a : ErasureAction) → Grows R (step_mfa_factor rc a)
  unfolding step_mfa_factor
  step_mfa_factor-Spares a = search (spares_rules, (mfa_factors_leaf rc)) depth 12

  pub step_passkey-Spares : (a : ErasureAction) → Grows R (step_passkey rc a)
  unfolding step_passkey
  step_passkey-Spares a = search (spares_rules, (webauthn_credentials_leaf rc)) depth 12

  password_leaf :
      (s : Db)
      → R s (record s {
        users =
            update_where
              (λ u. u.id == rc.user_id)
              (λ u. record u { encrypted_password = "" })
              s.users;
      })
  password_leaf s = (users_leaf rc) _ s (λ u. refl)

  pub step_credential-Spares : (a : ErasureAction) → Grows R (step_credential rc a)
  unfolding step_credential
  step_credential-Spares a =
      search (spares_rules, password_leaf, (opaque_credentials_leaf rc)) depth 12

  delete_grants-Spares :
      (t : String) (f : Db → Db) → ((s : Db) → R s (f s)) → Grows R (delete_grants t f)
  unfolding delete_grants
  delete_grants-Spares t f h = search (spares_rules, h) depth 12

  pub step_session-Spares : (a : ErasureAction) → Grows R (step_session rc a)
  unfolding step_session
  step_session-Spares a =
      search
        (
          spares_rules,
          (sessions_leaf rc),
          (oauth_consents_leaf rc),
          (oauth_authorizations_leaf rc),
          delete_grants-Spares,
        )
        depth 12

  identities_leaf :
      (s : Db) → R s (record s { identities = delete_where (identity_of rc.user_id) s.identities })
  identities_leaf s = ground (
    arith,
    others-delete_where (identity_of rc.user_id) (identity_of rc.user_id) (λ x h. h) s.identities,
  )

  delete_identities-Spares : Grows R (delete_identities rc)
  unfolding delete_identities
  delete_identities-Spares = search (spares_rules, identities_leaf) depth 12

  release_leaf :
      (t : ℕ) (s : Db)
      → R s (record s {
        identities = update_where (identity_of rc.user_id) (released deps t) s.identities;
      })
  release_leaf t s = ground (
    arith,
    others-update_where (identity_of rc.user_id) (identity_of rc.user_id) (λ x h. h)
        (released deps t) s.identities (λ x h. h),
  )

  release_identities-Spares : Grows R (release_identities deps rc)
  unfolding release_identities
  release_identities-Spares = search (spares_rules, release_leaf) depth 12

  pub step_oauth_identity-Spares : (a : ErasureAction) → Grows R (step_oauth_identity deps rc a)
  unfolding step_oauth_identity
  step_oauth_identity-Spares a =
      search (spares_rules, delete_identities-Spares, release_identities-Spares) depth 12
