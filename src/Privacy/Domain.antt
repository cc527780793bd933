-- ===== src/Privacy/Domain.antt =====
-- internal/privacy/policy.go and service.go: erasure domains and actions.
use dilion.Base.{Bool, true, false, ◌||◌, String, ◌==◌, List, [], ◌∷◌, contains}

-- `ErasureAction` is a string with named values.
pub data ErasureAction : Type 0 where
  delete anonymize crypto_shred keep execute : ErasureAction
  unknown : String → ErasureAction

abbrev pub credential : String
credential = "credential"

abbrev pub refresh_token : String
refresh_token = "refresh-token"

abbrev pub session : String
session = "session"

abbrev pub mfa_factor : String
mfa_factor = "mfa-factor"

abbrev pub passkey : String
passkey = "passkey"

abbrev pub oauth_identity : String
oauth_identity = "oauth-identity"

abbrev pub external_system : String
external_system = "external-system"

abbrev pub audit_log : String
audit_log = "audit-log"

abbrev pub subject_key : String
subject_key = "subject-key"

abbrev pub account : String
account = "account"

abbrev pub consent_evidence : String
consent_evidence = "consent-evidence"

abbrev pub erasure_domains : List String
erasure_domains =
    credential ∷ refresh_token ∷ session ∷ mfa_factor ∷ passkey ∷ oauth_identity ∷ external_system
    ∷ audit_log ∷ subject_key ∷ account ∷ []

unfoldable pub is_erasure_domain : String → Bool
is_erasure_domain d = contains erasure_domains d

unfoldable pub is_retention_domain : String → Bool
unfolding is_erasure_domain
is_retention_domain d = d == consent_evidence || is_erasure_domain d

unfoldable pub is_erasure_action : ErasureAction → Bool
is_erasure_action delete = true
is_erasure_action anonymize = true
is_erasure_action crypto_shred = true
is_erasure_action keep = true
is_erasure_action execute = true
is_erasure_action (unknown s) = false

unfoldable pub is_retention_action : ErasureAction → Bool
is_retention_action delete = true
is_retention_action crypto_shred = true
is_retention_action _ = false
