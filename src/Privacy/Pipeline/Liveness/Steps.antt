-- ===== src/Privacy/Pipeline/Liveness/Steps.antt =====
-- Without failures every step finishes (internal/privacy/pipeline.go).
use dilion.Base.{ℕ, ◌≡◌, refl, Bool, true, false, ◌&&◌, String, ◌==◌, [], any, count, if◌then◌else◌}
use dilion.Exec.{ok, pure, now, attempt, statement, ◌>>=◌}
use dilion.Exec.Succeeds.{
  Succeeds, Succeeds-pure, Succeeds-statement, Succeeds-bind, Succeeds-now, Succeeds-attempt,
  Succeeds-lift,
}
use dilion.Privacy.Db.{Db, Error, M, Deps, KeyScope, Note}
use dilion.Privacy.Domain.{ErasureAction}
use dilion.Privacy.Duration.{Duration, parse_iso_duration}
use dilion.Privacy.Policy.{RetentionRule}
use dilion.Privacy.Pipeline.Common.{RunCtx, Outcome, finished, halted, table_exists}
use dilion.Privacy.Pipeline.Credentials.{
  step_credential, step_refresh_token, step_session, delete_grants, step_mfa_factor, step_passkey,
  step_oauth_identity, delete_identities, release_identities,
}
use dilion.Privacy.Pipeline.Evidence.{
  task_of, enabled_ids, delete_events, blank_events, step_audit_log,
}
use dilion.Privacy.Pipeline.Vault.{
  destroy_dek, stamp_key, schedule_shred, shred_consent, period_of, truncate_user, revoke_roles,
  register_tombstone, step_account,
}
use dilion.Privacy.Pipeline.Runner.{is_processing}

-- Nothing is left to deliver for the request, and it is in process.
abbrev pub IsCalm : String → Db → Type 0
IsCalm id s =
    (enabled_ids s.destinations ≡ [])
    × ((count (task_of id) s.tasks ≡ 0)
        × (any (λ r. r.id == id && is_processing r.status) s.requests ≡ true))

abbrev pub is_finished : Outcome → Bool
is_finished (finished n) = true
is_finished halted = false

-- An action that goes through, and a step that finishes.
pub record GoesOn {A : Type 0} (id : String) (m : M A) : Type 0 where
  pub run : Succeeds (IsCalm id) m (λ _. IsCalm id)

abbrev pub HasFinished : String → Outcome → Db → Type 0
HasFinished id o s = (is_finished o ≡ true) × IsCalm id s

pub record Finishes (id : String) (m : M Outcome) : Type 0 where
  pub run : Succeeds (IsCalm id) m (HasFinished id)

module _ (id : String) where
  pub goes : {A : Type 0} (a : A) → GoesOn id (pure a)
  goes a = record { run = Succeeds-pure a (λ s p. p) }

  pub updates :
      {A : Type 0} (e : Error) (f : Db → Db × A)
      → ((s : Db) → (f s).0.destinations ≡ s.destinations)
      → ((s : Db) → (f s).0.tasks ≡ s.tasks)
      → ((s : Db) → (f s).0.requests ≡ s.requests)
      → GoesOn id (statement e f)
  updates e f d t r = record {
    run = Succeeds-statement e f (λ s p. (rw (d s) p.0, (rw (t s) p.1.0, rw (r s) p.1.1)));
  }

  pub then_goes :
      {A B : Type 0} (m : M A) (f : A → M B)
      → GoesOn id m
      → ((a : A) → GoesOn id (f a))
      → GoesOn id (m >>= f)
  then_goes m f h k = record { run = Succeeds-bind (λ _. IsCalm id) m f h.run (λ a. (k a).run) }

  pub then_ends :
      {A : Type 0} (m : M A) (f : A → M Outcome)
      → GoesOn id m
      → ((a : A) → Finishes id (f a))
      → Finishes id (m >>= f)
  then_ends m f h k = record { run = Succeeds-bind (λ _. IsCalm id) m f h.run (λ a. (k a).run) }

  pub if_goes :
      {A : Type 0} (b : Bool) (m n : M A)
      → GoesOn id m
      → GoesOn id n
      → GoesOn id (if b then m else n)
  if_goes true m n h k = h
  if_goes false m n h k = k

  if_ends :
      (b : Bool) (m n : M Outcome)
      → Finishes id m
      → Finishes id n
      → Finishes id (if b then m else n)
  if_ends true m n h k = h
  if_ends false m n h k = k

  pub ends : (n : Note) → Finishes id (pure (finished n))
  ends n = record { run = Succeeds-pure _ (λ s p. (refl, p)) }

  pub time : GoesOn id now
  time = record { run = Succeeds-now (λ t s p. p) }

  tries : {A : Type 0} (m : M A) → GoesOn id m → GoesOn id (attempt m)
  tries m h = record { run = Succeeds-attempt m h.run }

  pub table_exists-GoesOn : (t : String) → GoesOn id (table_exists t)
  unfolding table_exists
  table_exists-GoesOn t = search (then_goes, goes, updates, tries, refl) depth 12

  ruleset calm_rules =
      (then_goes, then_ends, if_goes, if_ends, goes, ends, time, updates, table_exists-GoesOn, refl)

  module _ (rc : RunCtx) where
    pub step_refresh_token-Finishes : (a : ErasureAction) → Finishes id (step_refresh_token rc a)
    unfolding step_refresh_token
    step_refresh_token-Finishes a = search (calm_rules) depth 24

    pub step_mfa_factor-Finishes : (a : ErasureAction) → Finishes id (step_mfa_factor rc a)
    unfolding step_mfa_factor
    step_mfa_factor-Finishes a = search (calm_rules) depth 24

    pub step_passkey-Finishes : (a : ErasureAction) → Finishes id (step_passkey rc a)
    unfolding step_passkey
    step_passkey-Finishes a = search (calm_rules) depth 24

    pub step_credential-Finishes : (a : ErasureAction) → Finishes id (step_credential rc a)
    unfolding step_credential
    step_credential-Finishes a = search (calm_rules) depth 24

    delete_grants-GoesOn :
        (t : String) (f : Db → Db)
        → ((s : Db) → (f s).destinations ≡ s.destinations)
        → ((s : Db) → (f s).tasks ≡ s.tasks)
        → ((s : Db) → (f s).requests ≡ s.requests)
        → GoesOn id (delete_grants t f)
    unfolding delete_grants
    delete_grants-GoesOn t f d k r =
        search (then_goes, if_goes, goes, updates, table_exists-GoesOn, d, k, r) depth 16

    pub step_session-Finishes : (a : ErasureAction) → Finishes id (step_session rc a)
    unfolding step_session
    step_session-Finishes a = search (calm_rules, delete_grants-GoesOn) depth 24

    delete_identities-Finishes : Finishes id (delete_identities rc)
    unfolding delete_identities
    delete_identities-Finishes = search (calm_rules) depth 24

    delete_events-Finishes : (n : ℕ) → Finishes id (delete_events rc n)
    unfolding delete_events
    delete_events-Finishes n = search (calm_rules) depth 24

    blank_events-Finishes : (n : ℕ) → Finishes id (blank_events rc n)
    unfolding blank_events
    blank_events-Finishes n = search (calm_rules) depth 24

    pub step_audit_log-Finishes : (a : ErasureAction) → Finishes id (step_audit_log rc a)
    unfolding step_audit_log
    step_audit_log-Finishes a =
        search (calm_rules, delete_events-Finishes, blank_events-Finishes) depth 24

    truncate_user-GoesOn : GoesOn id (truncate_user rc)
    unfolding truncate_user
    truncate_user-GoesOn = search (calm_rules) depth 24

    revoke_roles-GoesOn : GoesOn id (revoke_roles rc)
    unfolding revoke_roles
    revoke_roles-GoesOn = search (calm_rules) depth 24

    pub destroy_dek-GoesOn : (u : String) (sc : KeyScope) → GoesOn id (destroy_dek u sc)
    unfolding destroy_dek
    destroy_dek-GoesOn u sc = search (then_goes, time, updates, refl) depth 14

    pub stamp_key-GoesOn : (u : String) (sc : KeyScope) → GoesOn id (stamp_key u sc)
    unfolding stamp_key
    stamp_key-GoesOn u sc = search (then_goes, time, updates, refl) depth 14

    pub shred_consent-Finishes : Finishes id (shred_consent rc)
    unfolding shred_consent
    shred_consent-Finishes = search (then_ends, ends, destroy_dek-GoesOn, stamp_key-GoesOn) depth 14

    pub schedule_shred-Finishes :
        (rule : RetentionRule) (d : Duration)
        → period_of (parse_iso_duration rule.period) ≡ ok d
        → Finishes id (schedule_shred rc rule)
    unfolding schedule_shred
    schedule_shred-Finishes rule d e =
        then_ends _ _ (record { run = Succeeds-lift _ d e (λ s p. p) })
          (λ d'.
            then_ends _ _ time
              (λ t. then_ends _ _ (updates _ _ (λ s. refl) (λ s. refl) (λ s. refl)) (λ _. ends _)))

    module _ (deps : Deps) where
      register_tombstone-GoesOn : GoesOn id (register_tombstone deps rc)
      unfolding register_tombstone
      register_tombstone-GoesOn = search (calm_rules) depth 24

      release_identities-Finishes : Finishes id (release_identities deps rc)
      unfolding release_identities
      release_identities-Finishes = search (calm_rules) depth 24

      pub step_oauth_identity-Finishes :
          (a : ErasureAction) → Finishes id (step_oauth_identity deps rc a)
      unfolding step_oauth_identity
      step_oauth_identity-Finishes a =
          search (calm_rules, delete_identities-Finishes, release_identities-Finishes) depth 24

      pub step_account-Finishes : (a : ErasureAction) → Finishes id (step_account deps rc a)
      unfolding step_account
      step_account-Finishes a =
          search (calm_rules, truncate_user-GoesOn, revoke_roles-GoesOn, register_tombstone-GoesOn)
            depth 24
