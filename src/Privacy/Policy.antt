-- ===== src/Privacy/Policy.antt =====
-- internal/privacy/policy.go: compliance policies, their validation and their accessors. A Go map
-- is an association list in key order, the order in which `validate` visits it. YAML and JSON
-- decoding belong to third-party packages: the functions start from the decoded policies.
use dilion.Base.{
  ℕ, ◌+◌, Bool, true, false, ◌&&◌, ◌||◌, not, String, ◌==◌, List, [], ◌∷◌, Option, none, some,
  contains, if◌then◌else◌, select_where,
}
use dilion.Privacy.Domain
use dilion.Privacy.Domain.{
  ErasureAction, unknown, is_erasure_domain, is_retention_domain, is_erasure_action,
  is_retention_action,
}
use dilion.Exec.{Result, ok, err}
use dilion.Privacy.Duration.{Duration, DurationError, parse_iso_duration}

-- An `int` of the policy file: a grace period may be written negative.
pub data ℤ : Type 0 where
  pos : ℕ → ℤ
  negsuc : ℕ → ℤ

pub record ErasureSection : Type 0 where
  pub grace_period_days : ℤ
  pub manual_review : Bool
  pub domains : List (String × ErasureAction)

pub record RetentionRule : Type 0 where
  pub domain : String
  pub period : List ℕ
  pub from : String
  pub action : ErasureAction
  pub basis : String

pub record ConsentSection : Type 0 where
  pub required_keys : List String
  pub reconfirm : List (String × List ℕ)

-- A section that is absent is `none`, a nil pointer.
pub record Policy : Type 0 where
  pub id : String
  pub erasure : Option ErasureSection
  pub retention : Option (List RetentionRule)
  pub consent : Option ConsentSection

pub record PolicySet : Type 0 where
  pub default_policy : String
  pub retention_batch_size : ℤ
  pub policies : List (String × Policy)

pub data PolicyError : Type 0 where
  negative_grace : String → PolicyError
  unknown_erasure_domain unknown_erasure_action : String → String → PolicyError
  unknown_retention_domain unknown_retention_action bad_from : String → ℕ → PolicyError
  consent_not_from_erasure : String → ℕ → PolicyError
  bad_period : String → ℕ → DurationError → PolicyError
  bad_pattern : String → String → PolicyError
  bad_reconfirm_period : String → String → DurationError → PolicyError
  batch_size_not_positive default_policy_missing : PolicyError
  default_policy_undefined : String → PolicyError

abbrev pub from_created : String
from_created = "created"

abbrev pub from_erasure : String
from_erasure = "erasure"

abbrev is_negative : ℤ → Bool
is_negative (pos n) = false
is_negative (negsuc n) = true

validate_domains : String → List (String × ErasureAction) → Result PolicyError (Unit {0})
validate_domains id [] = ok tt
validate_domains id ((d, a) ∷ rest) =
    let others = validate_domains id rest in
    if not (is_erasure_domain d)
    then err (unknown_erasure_domain id d)
    else if not (is_erasure_action a)
    then err (unknown_erasure_action id d)
    else others

-- `validate`, the erasure section.
unfoldable pub validate_erasure : String → Option ErasureSection → Result PolicyError (Unit {0})
unfolding validate_domains
validate_erasure id none = ok tt
validate_erasure id (some e) =
    if is_negative e.grace_period_days
    then err (negative_grace id)
    else validate_domains id e.domains

check_period : String → ℕ → Result DurationError Duration → Result PolicyError (Unit {0})
check_period id i (ok d) = ok tt
check_period id i (err e) = err (bad_period id i e)

validate_rule : String → ℕ → RetentionRule → Result PolicyError (Unit {0})
unfolding check_period
validate_rule id i r =
    if not (is_retention_domain r.domain)
    then err (unknown_retention_domain id i)
    else if not (is_retention_action r.action)
    then err (unknown_retention_action id i)
    else if not (r.from == from_created || r.from == from_erasure)
    then err (bad_from id i)
    else if r.domain == Domain.consent_evidence && not (r.from == from_erasure)
    then err (consent_not_from_erasure id i)
    else check_period id i (parse_iso_duration r.period)

abbrev first_error :
    Result PolicyError (Unit {0}) → Result PolicyError (Unit {0}) → Result PolicyError (Unit {0})
first_error (ok t) r = r
first_error (err e) r = err e

validate_rules : String → ℕ → List RetentionRule → Result PolicyError (Unit {0})
unfolding validate_rule
validate_rules id i [] = ok tt
validate_rules id i (r ∷ rest) =
    let others = validate_rules id (i + 1) rest in first_error (validate_rule id i r) others

-- `validate`, the retention section.
unfoldable pub validate_retention :
    String → Option (List RetentionRule) → Result PolicyError (Unit {0})
unfolding validate_rules
validate_retention id none = ok tt
validate_retention id (some rules) = validate_rules id 0 rules

abbrev override {ℓ} : {A : Type ℓ} → Option A → Option A → Option A
override base none = base
override base (some over) = some over

-- `mergePolicy`: a section that `over` has replaces that of `base`.
unfoldable pub merge_policy : Policy → Policy → Policy
merge_policy base over = record base {
  erasure = override base.erasure over.erasure;
  retention = override base.retention over.retention;
  consent = override base.consent over.consent;
}

abbrev pub lookup {ℓ} : {A : Type ℓ} → String → List (String × A) → Option A
lookup k [] = none
lookup k ((j, v) ∷ m) = if j == k then some v else lookup k m

-- `Resolve`: the policy and whether it is the one asked for. The default policy is nil where it is
-- not defined, which validation refuses.
resolve_or : Option Policy → Option Policy → Option Policy × Bool
resolve_or (some p) def = (some p, true)
resolve_or none def = (def, false)

unfoldable pub resolve : PolicySet → String → Option Policy × Bool
unfolding resolve_or
resolve s id = resolve_or (lookup id s.policies) (lookup s.default_policy s.policies)

-- The accessors take a nil policy and a nil section for no knowledge.
abbrev pub erasure_of : Option Policy → Option ErasureSection
erasure_of none = none
erasure_of (some p) = p.erasure

abbrev grace_of : Option ErasureSection → ℤ
grace_of none = pos 0
grace_of (some e) = e.grace_period_days

unfoldable pub grace_days : Option Policy → ℤ
grace_days p = grace_of (erasure_of p)

abbrev manual_of : Option ErasureSection → Bool
manual_of none = false
manual_of (some e) = e.manual_review

unfoldable pub manual_review : Option Policy → Bool
manual_review p = manual_of (erasure_of p)

abbrev is_blank : ErasureAction → Bool
is_blank (unknown s) = s == ""
is_blank _ = false

abbrev or_default : ErasureAction → Option ErasureAction → ErasureAction
or_default def none = def
or_default def (some a) = if is_blank a then def else a

abbrev domains_of : Option ErasureSection → List (String × ErasureAction)
domains_of none = []
domains_of (some e) = e.domains

-- `ActionFor`.
unfoldable pub action_for : Option Policy → String → ErasureAction → ErasureAction
action_for p domain def = or_default def (lookup domain (domains_of (erasure_of p)))

abbrev rules_of : Option (List RetentionRule) → List RetentionRule
rules_of none = []
rules_of (some rules) = rules

unfoldable pub retention_rules : Option Policy → List RetentionRule
retention_rules none = []
retention_rules (some p) = rules_of p.retention

-- `RetentionFor`.
unfoldable pub retention_for : Option Policy → String → List RetentionRule
unfolding retention_rules
retention_for p domain = select_where (λ r. r.domain == domain) (retention_rules p)

first_basis : List RetentionRule → String
first_basis [] = ""
first_basis (r ∷ rest) = if not (r.basis == "") then r.basis else first_basis rest

-- `BasisFor`.
unfoldable pub basis_for : Option Policy → String → String
unfolding first_basis retention_for
basis_for p domain = first_basis (retention_for p domain)

abbrev keys_of : Option ConsentSection → List String
keys_of none = []
keys_of (some c) = c.required_keys

unfoldable pub required_consent_keys : Option Policy → List String
required_consent_keys none = []
required_consent_keys (some p) = keys_of p.consent

-- `RequiresConsent`.
unfoldable pub requires_consent : Option Policy → String → Bool
unfolding required_consent_keys
requires_consent p purpose = contains (required_consent_keys p) purpose
