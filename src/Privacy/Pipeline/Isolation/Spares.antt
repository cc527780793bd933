-- ===== src/Privacy/Pipeline/Isolation/Spares.antt =====
-- What an erasure run leaves as it is, as a relation of the tables before and after it.
use dilion.Base.{
  ◌≡◌, refl, sym, ap, ◌∙◌, [], ◌∷◌, Bool, true, false, ◌||◌, String, ◌==◌, List, others, arith,
}
use dilion.Privacy.Db.{Db, AuditEvent, AuditSubject}
use dilion.Privacy.Pipeline.Common.{owned_by}
use dilion.Privacy.Pipeline.Credentials.{identity_of}
use dilion.Privacy.Pipeline.Evidence.{task_of, acted_by, performed}
use dilion.Exec.Grows.{IsPreorder}

abbrev pub subject_of : String → List AuditEvent → AuditSubject → Bool
subject_of user events x = x.subject_id == user || performed user events x

-- What an erasure of `user` for the request `id` leaves as it is: every row of another request or
-- of another person, and the tables that it only reads.
pub record Spares (user id : String) (s t : Db) : Type 0 where
  pub requests : others (λ r. r.id == id) t.requests ≡ others (λ r. r.id == id) s.requests
  pub tasks : others (task_of id) t.tasks ≡ others (task_of id) s.tasks
  pub destruction_logs :
      others (λ l. l.request_id == id) t.destruction_logs
      ≡ others (λ l. l.request_id == id) s.destruction_logs
  pub subject_keys :
      others (λ k. k.user_id == user) t.subject_keys
      ≡ others (λ k. k.user_id == user) s.subject_keys
  pub users : others (λ u. u.id == user) t.users ≡ others (λ u. u.id == user) s.users
  pub opaque_credentials :
      others (owned_by user) t.opaque_credentials ≡ others (owned_by user) s.opaque_credentials
  pub refresh_tokens :
      others (owned_by user) t.refresh_tokens ≡ others (owned_by user) s.refresh_tokens
  pub sessions : others (owned_by user) t.sessions ≡ others (owned_by user) s.sessions
  pub oauth_consents :
      others (owned_by user) t.oauth_consents ≡ others (owned_by user) s.oauth_consents
  pub oauth_authorizations :
      others (owned_by user) t.oauth_authorizations ≡ others (owned_by user) s.oauth_authorizations
  pub mfa_factors : others (owned_by user) t.mfa_factors ≡ others (owned_by user) s.mfa_factors
  pub webauthn_credentials :
      others (owned_by user) t.webauthn_credentials ≡ others (owned_by user) s.webauthn_credentials
  pub identities : others (identity_of user) t.identities ≡ others (identity_of user) s.identities
  pub audit_events : others (acted_by user) t.audit_events ≡ others (acted_by user) s.audit_events
  -- The subject rows that are about someone else, in events that the person did not perform.
  pub audit_subjects :
      others (subject_of user s.audit_events) t.audit_subjects
      ≡ others (subject_of user s.audit_events) s.audit_subjects
  pub performed_before :
      (x : AuditSubject)
      → performed user t.audit_events x ≡ true
      → performed user s.audit_events x ≡ true
  pub erasure_registry :
      others (λ e. e.request_id == id) t.erasure_registry
      ≡ others (λ e. e.request_id == id) s.erasure_registry
  pub user_profiles :
      others (owned_by user) t.user_profiles ≡ others (owned_by user) s.user_profiles
  pub consent_state :
      others (owned_by user) t.consent_state ≡ others (owned_by user) s.consent_state
  pub role_assignments :
      others (λ a. a.actor_id == user) t.role_assignments
      ≡ others (λ a. a.actor_id == user) s.role_assignments
  pub profile_search_index :
      others (owned_by user) t.profile_search_index ≡ others (owned_by user) s.profile_search_index
  pub legal_holds : t.legal_holds ≡ s.legal_holds
  pub destinations : t.destinations ≡ s.destinations
  pub subject_policies : t.subject_policies ≡ s.subject_policies
  pub absent_tables : t.absent_tables ≡ s.absent_tables

others-narrow {ℓ} :
    {A : Type ℓ} (p q : A → Bool)
    → ((x : A) → p x ≡ true → q x ≡ true)
    → (xs : List A) → others q (others p xs) ≡ others q xs
others-narrow p q h [] = refl
others-narrow p q h (x ∷ xs) = ground (arith, h x, others-narrow p q h xs)

-- What agrees outside `p` agrees outside all that contains it.
others-among {ℓ} :
    {A : Type ℓ} (p q : A → Bool) (xs ys : List A)
    → ((x : A) → p x ≡ true → q x ≡ true)
    → others p xs ≡ others p ys
    → others q xs ≡ others q ys
others-among p q xs ys h e =
    sym (others-narrow p q h xs) ∙ (ap (others q) e ∙ others-narrow p q h ys)

either_before : (a b c : Bool) → (b ≡ true → c ≡ true) → (a || b) ≡ true → (a || c) ≡ true
either_before true b c h e = refl
either_before false b c h e = h e

module _ (user id : String) where
  Spares-chain : (s t u : Db) → Spares user id s t → Spares user id t u → Spares user id s u
  Spares-chain s t u h k = record {
    requests = k.requests ∙ h.requests;
    tasks = k.tasks ∙ h.tasks;
    destruction_logs = k.destruction_logs ∙ h.destruction_logs;
    subject_keys = k.subject_keys ∙ h.subject_keys;
    users = k.users ∙ h.users;
    opaque_credentials = k.opaque_credentials ∙ h.opaque_credentials;
    refresh_tokens = k.refresh_tokens ∙ h.refresh_tokens;
    sessions = k.sessions ∙ h.sessions;
    oauth_consents = k.oauth_consents ∙ h.oauth_consents;
    oauth_authorizations = k.oauth_authorizations ∙ h.oauth_authorizations;
    mfa_factors = k.mfa_factors ∙ h.mfa_factors;
    webauthn_credentials = k.webauthn_credentials ∙ h.webauthn_credentials;
    identities = k.identities ∙ h.identities;
    audit_events = k.audit_events ∙ h.audit_events;
    audit_subjects =
        others-among (subject_of user t.audit_events) (subject_of user s.audit_events)
          u.audit_subjects t.audit_subjects
          (λ x. either_before (x.subject_id == user) _ _ (h.performed_before x)) k.audit_subjects
        ∙ h.audit_subjects;
    performed_before = λ x e. h.performed_before x (k.performed_before x e);
    erasure_registry = k.erasure_registry ∙ h.erasure_registry;
    user_profiles = k.user_profiles ∙ h.user_profiles;
    consent_state = k.consent_state ∙ h.consent_state;
    role_assignments = k.role_assignments ∙ h.role_assignments;
    profile_search_index = k.profile_search_index ∙ h.profile_search_index;
    legal_holds = k.legal_holds ∙ h.legal_holds;
    destinations = k.destinations ∙ h.destinations;
    subject_policies = k.subject_policies ∙ h.subject_policies;
    absent_tables = k.absent_tables ∙ h.absent_tables;
  }

  -- Events of the person that are deleted or blanked.
  pub events_change :
      (es : List AuditEvent) (s : Db)
      → others (acted_by user) es ≡ others (acted_by user) s.audit_events
      → ((x : AuditSubject) → performed user es x ≡ true → performed user s.audit_events x ≡ true)
      → Spares user id s (record s { audit_events = es })
  events_change es s same before = record {
    requests = refl;
    tasks = refl;
    destruction_logs = refl;
    subject_keys = refl;
    users = refl;
    opaque_credentials = refl;
    refresh_tokens = refl;
    sessions = refl;
    oauth_consents = refl;
    oauth_authorizations = refl;
    mfa_factors = refl;
    webauthn_credentials = refl;
    identities = refl;
    audit_events = same;
    audit_subjects = refl;
    performed_before = before;
    erasure_registry = refl;
    user_profiles = refl;
    consent_state = refl;
    role_assignments = refl;
    profile_search_index = refl;
    legal_holds = refl;
    destinations = refl;
    subject_policies = refl;
    absent_tables = refl;
  }

  pub Spares-preorder : IsPreorder (Spares user id)
  Spares-preorder = record { same = λ s. ground arith; chain = Spares-chain }
