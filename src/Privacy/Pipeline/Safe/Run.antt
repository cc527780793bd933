-- ===== src/Privacy/Pipeline/Safe/Run.antt =====
-- A relation that every statement keeps, through a whole run (internal/privacy/pipeline.go).
use dilion.Base.{
  ℕ, Bool, true, false, ◌&&◌, String, ◌==◌, List, [], ◌∷◌, Option, none, some, update_where,
}
use dilion.Exec.Grows.{
  Grows, Grows-bind, Grows-pure, Grows-if, Grows-now, Grows-query, Grows-statement,
}
use dilion.Privacy.Db.{Db, Deps, Request, done}
use dilion.Privacy.Domain.{ErasureAction}
use dilion.Privacy.Pipeline.Common.{RunCtx, Outcome, finished, halted}
use dilion.Privacy.Pipeline.Runner.{
  ErasureStep, steps, after_step, keep_step, reject_step, execute_step, run_step, run_steps,
  finish_run, advance, context_of, process_loaded, process_found, process_request, mark_done,
  is_processing, active_hold_for, completed_domains,
}
use dilion.Privacy.Pipeline.Safe.Steps.{
  IsStepSafe, set_manual_review-Safe, mark_processing-Safe, log_destruction-Safe,
  step_credential-Safe, step_refresh_token-Safe, step_session-Safe, step_mfa_factor-Safe,
  step_passkey-Safe, step_oauth_identity-Safe, step_external_system-Safe, step_audit_log-Safe,
  step_subject_key-Safe, step_account-Safe,
}

module _ {R : Db → Db → Type 0} (k : IsStepSafe R) (deps : Deps) where
  module _ (rc : RunCtx) where
    after_step-Safe :
        (st : ErasureStep) (a : ErasureAction) (o : Outcome) → Grows R (after_step deps rc st a o)
    unfolding after_step
    after_step-Safe st a halted = Grows-pure k.pre _
    after_step-Safe st a (finished note) =
        Grows-bind k.pre _ _ (log_destruction-Safe k _ _ _ _) (λ _. Grows-pure k.pre _)

    pub run_step-Safe :
        (st : ErasureStep) (a : ErasureAction)
        → Grows R (st.run rc a)
        → Grows R (run_step deps rc st a)
    unfolding run_step execute_step keep_step reject_step
    run_step-Safe st a h =
        Grows-if k.pre _ _ _
          (Grows-bind k.pre _ _ (log_destruction-Safe k rc.request_id _ _ _)
            (λ _. Grows-pure k.pre _))
          (Grows-if k.pre _ _ _
            (Grows-bind k.pre _ _ (set_manual_review-Safe k rc.request_id _)
              (λ _. Grows-pure k.pre _))
            (Grows-bind k.pre _ _ h (after_step-Safe st a)))

    abbrev pub AllSafe : List ErasureStep → Type 0
    AllSafe [] = Unit
    AllSafe (st ∷ rest) = ((a : ErasureAction) → Grows R (st.run rc a)) × AllSafe rest

    pub run_steps-Safe :
        (completed : List String) (sts : List ErasureStep)
        → AllSafe sts
        → Grows R (run_steps deps rc completed sts)
    unfolding run_steps
    run_steps-Safe completed [] h = Grows-pure k.pre _
    run_steps-Safe completed (st ∷ rest) h =
        let go = run_steps-Safe completed rest h.1 in
        Grows-bind k.pre _ _ (Grows-statement k.pre _ _ k.pre.same) (λ _. Grows-if k.pre _ _ _ go (
          Grows-bind k.pre _ _ (run_step-Safe st _ (h.0 _))
            (λ more. Grows-if k.pre more _ _ go (Grows-pure k.pre _))))

    pub steps-AllSafe : AllSafe (steps deps)
    steps-AllSafe =
        search
          (
            step_credential-Safe k,
            step_refresh_token-Safe k,
            step_session-Safe k,
            step_mfa_factor-Safe k,
            step_passkey-Safe k,
            step_oauth_identity-Safe k,
            step_external_system-Safe k,
            step_audit_log-Safe k,
            step_subject_key-Safe k,
            step_account-Safe k,
            tt,
          )
          depth 14

  -- The end of a run, where the relation bears that, too.
  module _
      (ends : (i : String) (t : ℕ) (s : Db)
        → R s (record s {
          requests =
              update_where
                (λ r. r.id == i && is_processing r.status)
                (λ r. record r {
                  status = done;
                  completed_at = some t;
                  manual_review_reason = none;
                })
                s.requests;
        })) where
    finish_run-Safe : (rc : RunCtx) (b : Bool) → Grows R (finish_run deps rc b)
    unfolding finish_run mark_done
    finish_run-Safe rc false = Grows-pure k.pre _
    finish_run-Safe rc true =
        Grows-bind k.pre _ _ (Grows-now k.pre)
          (λ t. Grows-statement k.pre _ _ (ends rc.request_id t))

    advance-Safe : (rc : RunCtx) (b : Bool) → Grows R (advance deps rc b)
    unfolding advance completed_domains
    advance-Safe rc false = Grows-pure k.pre _
    advance-Safe rc true = Grows-bind k.pre _ _ (Grows-query k.pre _ _) (λ completed.
        Grows-bind k.pre _ _ (run_steps-Safe rc completed (steps deps) (steps-AllSafe rc))
          (finish_run-Safe rc))

    process_loaded-Safe : (r : Request) → Grows R (process_loaded deps r)
    unfolding process_loaded active_hold_for
    process_loaded-Safe r = Grows-bind k.pre _ _ (Grows-query k.pre _ _) (λ held.
        Grows-if k.pre held _ _ (set_manual_review-Safe k r.id _) (
          Grows-if k.pre _ _ _ (set_manual_review-Safe k r.id _) (
            Grows-bind k.pre _ _
              (Grows-if k.pre _ _ _ (mark_processing-Safe k r.id) (Grows-pure k.pre _))
              (advance-Safe (context_of deps r)))))

    process_found-Safe : (o : Option Request) → Grows R (process_found deps o)
    unfolding process_found
    process_found-Safe none = Grows-pure k.pre _
    process_found-Safe (some r) = Grows-bind k.pre _ _ (Grows-now k.pre) (λ t.
        Grows-if k.pre _ _ _ (Grows-pure k.pre _)
          (Grows-if k.pre _ _ _ (Grows-pure k.pre _) (process_loaded-Safe r)))

    pub process_request-Safe : (id : String) → Grows R (process_request deps id)
    unfolding process_request
    process_request-Safe id = Grows-bind k.pre _ _ (Grows-query k.pre _ _) process_found-Safe
