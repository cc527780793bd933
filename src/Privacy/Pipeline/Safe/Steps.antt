-- ===== src/Privacy/Pipeline/Safe/Steps.antt =====
-- A relation between database states that every statement of a run keeps, run through the steps
-- (internal/privacy/pipeline.go).
use dilion.Base.{
  ℕ, Bool, if◌then◌else◌, ◌≡◌, refl, ◌&&◌, String, ◌==◌, List, [], ◌∷◌, update_where, Option, none,
  some,
}
use dilion.Privacy.Db.{
  Db, Error, M, processing, ReviewReason, Deps, DestructionLog, Basis, KeyScope,
}
use dilion.Privacy.Domain.{ErasureAction}
use dilion.Privacy.Policy.{RetentionRule}
use dilion.Privacy.Pipeline.Common.{
  RunCtx, table_exists, set_manual_review, parked, is_open_request,
}
use dilion.Privacy.Pipeline.Credentials.{
  step_credential, step_refresh_token, step_session, delete_grants, step_mfa_factor, step_passkey,
  step_oauth_identity, delete_identities, release_identities,
}
use dilion.Privacy.Pipeline.Evidence.{
  delete_events, blank_events, step_audit_log, roll_up, fan_out, step_external_system,
}
use dilion.Privacy.Pipeline.Vault.{
  destroy_dek, stamp_key, consent_key, schedule_shred, shred_consent, step_subject_key,
  truncate_user, revoke_roles, register_tombstone, step_account,
}
use dilion.Privacy.Pipeline.Runner.{
  is_requested, mark_processing, insert_log, new_log, log_destruction,
}
use dilion.Exec.{pure, now, statement, ◌>>=◌}
use dilion.Exec.Grows.{
  IsPreorder, Grows, Grows-bind, Grows-attempt, Grows-query, Grows-pure, Grows-if, Grows-now,
  Grows-lift, Grows-statement,
}

-- What a relation has to bear: parking and starting a request, an entry of the destruction log, and
-- any update of other tables.
pub record IsStepSafe (R : Db → Db → Type 0) : Type 0 where
  pub pre : IsPreorder R
  pub elsewhere :
      (s t : Db) → t.requests ≡ s.requests → t.destruction_logs ≡ s.destruction_logs → R s t
  pub parks :
      (i : String) (reason : ReviewReason) (s : Db)
      → R s (record s {
        requests =
            update_where (λ r. r.id == i && is_open_request r.status) (parked reason) s.requests;
      })
  pub starts :
      (i : String) (s : Db)
      → R s (record s {
        requests =
            update_where
              (λ r. r.id == i && is_requested r.status)
              (λ r. record r { status = processing })
              s.requests;
      })
  pub records :
      (l : DestructionLog) (s : Db)
      → R s (record s { destruction_logs = insert_log l s.destruction_logs })

module _ {R : Db → Db → Type 0} (k : IsStepSafe R) where
  pub set_manual_review-Safe :
      (i : String) (reason : ReviewReason) → Grows R (set_manual_review i reason)
  unfolding set_manual_review
  set_manual_review-Safe i reason = Grows-statement k.pre _ _ (k.parks i reason)

  pub mark_processing-Safe : (i : String) → Grows R (mark_processing i)
  unfolding mark_processing
  mark_processing-Safe i =
      Grows-bind k.pre _ _ (Grows-statement k.pre _ _ (k.starts i)) (λ n. Grows-pure k.pre _)

  pub log_destruction-Safe :
      (i d : String) (a : ErasureAction) (b : Option Basis) → Grows R (log_destruction i d a b)
  unfolding log_destruction
  log_destruction-Safe i d a b =
      Grows-bind k.pre _ _ (Grows-now k.pre)
        (λ t. Grows-statement k.pre _ _ (k.records (new_log i d a b t)))

  table_exists-Safe : (t : String) → Grows R (table_exists t)
  unfolding table_exists
  table_exists-Safe t =
      Grows-bind k.pre _ _ (Grows-attempt k.pre _ (Grows-query k.pre _ _)) (λ r. Grows-pure k.pre _)

  in_order :
      {A B : Type 0} (m : M A) (f : A → M B)
      → Grows R m
      → ((a : A) → Grows R (f a))
      → Grows R (m >>= f)
  in_order = Grows-bind k.pre

  either :
      {A : Type 0} (b : Bool) (m n : M A) → Grows R m → Grows R n → Grows R (if b then m else n)
  either = Grows-if k.pre

  returns : {A : Type 0} (a : A) → Grows R (pure {E = Error} a)
  returns = Grows-pure k.pre

  reads_time : Grows R (now {E = Error})
  reads_time = Grows-now k.pre

  reads : {A : Type 0} (e : Error) (f : Db → A) → Grows R (statement e (λ s. (s, f s)))
  reads = Grows-query k.pre

  updates_elsewhere :
      {A : Type 0} (e : Error) (f : Db → Db × A)
      → ((s : Db) → (f s).0.requests ≡ s.requests)
      → ((s : Db) → (f s).0.destruction_logs ≡ s.destruction_logs)
      → Grows R (statement e f)
  updates_elsewhere e f h g = Grows-statement k.pre e f (λ s. k.elsewhere s (f s).0 (h s) (g s))

  ruleset safe_rules =
      (in_order, either, returns, reads_time, reads, table_exists-Safe, updates_elsewhere, refl)

  module _ (rc : RunCtx) where
    pub step_refresh_token-Safe : (a : ErasureAction) → Grows R (step_refresh_token rc a)
    unfolding step_refresh_token
    step_refresh_token-Safe a = search (safe_rules) depth 20

    pub step_mfa_factor-Safe : (a : ErasureAction) → Grows R (step_mfa_factor rc a)
    unfolding step_mfa_factor
    step_mfa_factor-Safe a = search (safe_rules) depth 20

    pub step_passkey-Safe : (a : ErasureAction) → Grows R (step_passkey rc a)
    unfolding step_passkey
    step_passkey-Safe a = search (safe_rules) depth 20

    pub step_credential-Safe : (a : ErasureAction) → Grows R (step_credential rc a)
    unfolding step_credential
    step_credential-Safe a = search (safe_rules) depth 20

    delete_grants-Safe :
        (t : String) (f : Db → Db) → ((s : Db) → R s (f s)) → Grows R (delete_grants t f)
    unfolding delete_grants
    delete_grants-Safe t f h =
        search
          (
            Grows-bind k.pre,
            Grows-if k.pre,
            Grows-pure k.pre,
            table_exists-Safe,
            Grows-statement k.pre,
            h,
          )
          depth 14

    pub step_session-Safe : (a : ErasureAction) → Grows R (step_session rc a)
    unfolding step_session
    step_session-Safe a = search (safe_rules, delete_grants-Safe, k.elsewhere) depth 20

    delete_identities-Safe : Grows R (delete_identities rc)
    unfolding delete_identities
    delete_identities-Safe = search (safe_rules) depth 20

    delete_events-Safe : (n : ℕ) → Grows R (delete_events rc n)
    unfolding delete_events
    delete_events-Safe n = search (safe_rules) depth 20

    blank_events-Safe : (n : ℕ) → Grows R (blank_events rc n)
    unfolding blank_events
    blank_events-Safe n = search (safe_rules) depth 20

    pub step_audit_log-Safe : (a : ErasureAction) → Grows R (step_audit_log rc a)
    unfolding step_audit_log
    step_audit_log-Safe a = search (safe_rules, delete_events-Safe, blank_events-Safe) depth 20

    destroy_dek-Safe : (u : String) (sc : KeyScope) → Grows R (destroy_dek u sc)
    unfolding destroy_dek
    destroy_dek-Safe u sc =
        search (Grows-bind k.pre, Grows-now k.pre, Grows-statement k.pre, k.elsewhere, refl) depth
          14

    stamp_key-Safe : (u : String) (sc : KeyScope) → Grows R (stamp_key u sc)
    unfolding stamp_key
    stamp_key-Safe u sc =
        search (Grows-bind k.pre, Grows-now k.pre, Grows-statement k.pre, k.elsewhere, refl) depth
          14

    consent_key-Safe : (rule : Option RetentionRule) → Grows R (consent_key rc rule)
    unfolding consent_key schedule_shred shred_consent
    consent_key-Safe none =
        search (Grows-bind k.pre, Grows-pure k.pre, destroy_dek-Safe, stamp_key-Safe)
    consent_key-Safe (some rule) =
        search
          (
            Grows-bind k.pre,
            Grows-lift k.pre,
            Grows-now k.pre,
            Grows-pure k.pre,
            Grows-statement k.pre,
            k.elsewhere,
            refl,
          )
          depth 20

    pub step_subject_key-Safe : (a : ErasureAction) → Grows R (step_subject_key rc a)
    unfolding step_subject_key
    step_subject_key-Safe a =
        search (safe_rules, destroy_dek-Safe, stamp_key-Safe, consent_key-Safe) depth 20

    truncate_user-Safe : Grows R (truncate_user rc)
    unfolding truncate_user
    truncate_user-Safe = search (safe_rules) depth 20

    revoke_roles-Safe : Grows R (revoke_roles rc)
    unfolding revoke_roles
    revoke_roles-Safe = search (safe_rules) depth 20

    module _ (deps : Deps) where
      register_tombstone-Safe : Grows R (register_tombstone deps rc)
      unfolding register_tombstone
      register_tombstone-Safe = search (safe_rules) depth 20

      release_identities-Safe : Grows R (release_identities deps rc)
      unfolding release_identities
      release_identities-Safe = search (safe_rules) depth 20

      pub step_oauth_identity-Safe : (a : ErasureAction) → Grows R (step_oauth_identity deps rc a)
      unfolding step_oauth_identity
      step_oauth_identity-Safe a =
          search (safe_rules, delete_identities-Safe, release_identities-Safe) depth 20

      pub step_account-Safe : (a : ErasureAction) → Grows R (step_account deps rc a)
      unfolding step_account
      step_account-Safe a =
          search (safe_rules, truncate_user-Safe, revoke_roles-Safe, register_tombstone-Safe) depth
            20

      roll_up-Safe : (c : ℕ × ℕ × ℕ) → Grows R (roll_up deps rc c)
      unfolding roll_up
      roll_up-Safe (total, open_count, dead_count) =
          search (Grows-bind k.pre, Grows-if k.pre, Grows-pure k.pre, set_manual_review-Safe) depth
            12

      fan_out-Safe : (ds : List String) → Grows R (fan_out deps rc ds)
      unfolding fan_out
      fan_out-Safe [] = Grows-pure k.pre _
      fan_out-Safe (d ∷ ds) = Grows-bind k.pre _ _ (Grows-now k.pre) (λ t.
          Grows-bind k.pre _ _ (Grows-statement k.pre _ _ (λ s. k.elsewhere s _ refl refl))
            (λ _. fan_out-Safe ds))

      pub step_external_system-Safe : (a : ErasureAction) → Grows R (step_external_system deps rc a)
      unfolding step_external_system
      step_external_system-Safe a = search (safe_rules, fan_out-Safe, roll_up-Safe) depth 20
