-- ===== src/Privacy/Pipeline/Liveness/Gates.antt =====
-- The steps that finish under a condition: 700, if there is nothing to deliver, and 900, if the
-- period of the consent evidence can be read (internal/privacy/pipeline.go).
use dilion.Base.{
  ℕ, ◌≡◌, refl, Bool, true, false, ◌&&◌, String, List, [], ◌∷◌, Option, none, some, count, arith,
}
use dilion.Exec.{Result, ok, err, pure}
use dilion.Exec.Succeeds.{Succeeds, Succeeds-pure, Succeeds-statement, Succeeds-bind}
use dilion.Privacy.Db.{Db, Error, Deps, Task, default_scope}
use dilion.Privacy.Domain
use dilion.Privacy.Domain.{ErasureAction}
use dilion.Privacy.Duration.{Duration, parse_iso_duration}
use dilion.Privacy.Policy.{Policy, RetentionRule, retention_for}
use dilion.Privacy.Pipeline.Common.{RunCtx}
use dilion.Privacy.Pipeline.Evidence.{
  task_of, is_open_task, is_dead_task, roll_up, fan_out, step_external_system,
}
use dilion.Privacy.Pipeline.Vault.{consent_key, step_subject_key, from_erasure_rule, period_of}
use dilion.Privacy.Pipeline.Liveness.Steps.{
  IsCalm, HasFinished, Finishes, then_ends, if_goes, goes, table_exists-GoesOn,
  shred_consent-Finishes, schedule_shred-Finishes, destroy_dek-GoesOn, stamp_key-GoesOn,
}

abbrev is_ok : Result Error Duration → Bool
is_ok (ok d) = true
is_ok (err e) = false

abbrev pub can_read : RetentionRule → Bool
can_read rule = is_ok (period_of (parse_iso_duration rule.period))

-- The period of the rule that delays the shredding of the consent key can be read, which
-- `validate` checks when policies are loaded.
abbrev pub IsReadable : Policy → Type 0
IsReadable p =
    (rule : RetentionRule)
    → from_erasure_rule (retention_for (some p) Domain.consent_evidence) none ≡ some rule
    → can_read rule ≡ true

narrow_count :
    (id : String) (p : Task → Bool) (ts : List Task)
    → count (task_of id) ts ≡ 0
    → count (λ t. task_of id t && p t) ts ≡ 0
narrow_count id p [] h = refl
narrow_count id p (t ∷ ts) h = ground (arith, narrow_count id p ts)

module _ (rc : RunCtx) where
  abbrev id : String
  id = rc.request_id

  read_period :
      (rule : RetentionRule) (r : Result Error Duration)
      → period_of (parse_iso_duration rule.period) ≡ r
      → is_ok r ≡ true
      → Finishes id (consent_key rc (some rule))
  unfolding consent_key
  read_period rule (ok d) e h = schedule_shred-Finishes id rc rule d e
  read_period rule (err x) e h = cc

  consent_key-Finishes :
      (o : Option RetentionRule)
      → ((rule : RetentionRule) → o ≡ some rule → can_read rule ≡ true)
      → Finishes id (consent_key rc o)
  unfolding consent_key
  consent_key-Finishes none h = shred_consent-Finishes id rc
  consent_key-Finishes (some rule) h = read_period rule _ refl (h rule refl)

  pub step_subject_key-Finishes :
      (a : ErasureAction) → IsReadable rc.policy → Finishes id (step_subject_key rc a)
  unfolding step_subject_key
  step_subject_key-Finishes a h =
      then_ends id _ _ (destroy_dek-GoesOn id rc rc.user_id default_scope) (λ _.
        then_ends id _ _ (table_exists-GoesOn id "dilion_pii.subject_keys") (λ there.
          then_ends id _ _
            (if_goes id there _ _ (stamp_key-GoesOn id rc rc.user_id default_scope) (goes id tt))
            (λ _. consent_key-Finishes _ h)))

  module _ (deps : Deps) where
    fan_out-nothing :
        (ids : List String)
        → Succeeds (λ s. (ids ≡ []) × IsCalm id s) (fan_out deps rc ids) (λ _. IsCalm id)
    unfolding fan_out
    fan_out-nothing [] = Succeeds-pure _ (λ s p. p.1)
    fan_out-nothing (d ∷ ds) = record { at = λ w q p. cc (p.0) }

    abbrev Settled : ℕ × ℕ × ℕ → Db → Type 0
    Settled c s = (c.1 ≡ 0) × ((c.2 ≡ 0) × IsCalm id s)

    roll_up-Finishes : (c : ℕ × ℕ × ℕ) → Succeeds (Settled c) (roll_up deps rc c) (HasFinished id)
    unfolding roll_up pure
    roll_up-Finishes (total, open_count, dead_count) = record {
      at = λ w q p. rw (p.1.0, p.0) (q, (refl, p.1.1));
    }

    pub step_external_system-Finishes :
        (a : ErasureAction) → Finishes id (step_external_system deps rc a)
    unfolding step_external_system
    step_external_system-Finishes a = record {
      run =
          Succeeds-bind (λ ids s. (ids ≡ []) × IsCalm id s) _ _
            (Succeeds-statement _ _ (λ s p. (p.0, p)))
            (λ ids.
              Succeeds-bind (λ _. IsCalm id) _ _ (fan_out-nothing ids)
                (λ _.
                  Succeeds-bind Settled _ _
                    (Succeeds-statement _ _ (λ s p. (
                      narrow_count id (λ t. is_open_task t.status) s.tasks p.1.0,
                      (narrow_count id (λ t. is_dead_task t.status) s.tasks p.1.0, p),
                    )))
                    roll_up-Finishes));
    }
