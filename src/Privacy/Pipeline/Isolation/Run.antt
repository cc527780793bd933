-- ===== src/Privacy/Pipeline/Isolation/Run.antt =====
-- The frame of a whole run (internal/privacy/pipeline.go).
use dilion.Base.{
  ◌≡◌, refl, sym, Bool, true, false, String, ◌==◌, List, [], ◌∷◌, Option, some, find, eq_iff, subst,
  others-append, eq_refl, arith,
}
use dilion.Privacy.Db.{Db, Request, DestructionLog, legal_hold, hook_rejected, Deps, Basis}
use dilion.Privacy.Domain.{ErasureAction}
use dilion.Privacy.Pipeline.Common.{RunCtx, Outcome, finished, halted}
use dilion.Privacy.Pipeline.Runner.{
  ErasureStep, steps, insert_log, new_log, log_destruction, after_step, keep_step, reject_step,
  execute_step, run_step, run_steps, finish_run, advance, context_of, process_loaded, process_found,
  process_request, mark_done, mark_processing, active_hold_for, completed_domains,
}
use dilion.Exec.{World}
use dilion.Exec.From.{GrowsFrom, GrowsFrom-bind, GrowsFrom-of_Grows, Yields-query}
use dilion.Exec.Grows.{
  IsPreorder, Grows, Grows-bind, Grows-query, Grows-pure, Grows-if, Grows-now, Grows-statement,
}
use dilion.Privacy.Pipeline.Isolation.Credentials.{
  step_credential-Spares, step_mfa_factor-Spares, step_oauth_identity-Spares, step_passkey-Spares,
  step_refresh_token-Spares, step_session-Spares,
}
use dilion.Privacy.Pipeline.Isolation.Evidence.{step_audit_log-Spares, step_external_system-Spares}
use dilion.Privacy.Pipeline.Isolation.Spares.{Spares, Spares-preorder}
use dilion.Privacy.Pipeline.Isolation.Frame.{requests_leaf, set_manual_review-Spares}
use dilion.Privacy.Pipeline.Isolation.Vault.{step_account-Spares, step_subject_key-Spares}

module _ (deps : Deps) (rc : RunCtx) where
  abbrev R : Db → Db → Type 0
  R = Spares rc.user_id rc.request_id

  pre : IsPreorder R
  pre = Spares-preorder rc.user_id rc.request_id

  log_leaf :
      (l : DestructionLog) (s : Db)
      → l.request_id ≡ rc.request_id
      → R s (record s { destruction_logs = insert_log l s.destruction_logs })
  log_leaf l s h = ground (
    arith,
    others-append (λ x. x.request_id == rc.request_id) s.destruction_logs l
        (rw h (eq_refl rc.request_id)),
  )

  log_destruction-Spares :
      (domain : String) (a : ErasureAction) (b : Option Basis)
      → Grows R (log_destruction rc.request_id domain a b)
  unfolding log_destruction
  log_destruction-Spares domain a b =
      Grows-bind pre _ _ (Grows-now pre)
        (λ t. Grows-statement pre _ _ (λ s. log_leaf (new_log rc.request_id domain a b t) s refl))

  after_step-Spares :
      (st : ErasureStep) (a : ErasureAction) (o : Outcome) → Grows R (after_step deps rc st a o)
  unfolding after_step
  after_step-Spares st a halted = Grows-pure pre _
  after_step-Spares st a (finished note) =
      search (Grows-bind pre, Grows-pure pre, log_destruction-Spares)

  keep_step-Spares : (st : ErasureStep) → Grows R (keep_step deps rc st)
  unfolding keep_step
  keep_step-Spares st = search (Grows-bind pre, Grows-pure pre, log_destruction-Spares)

  reject_step-Spares : Grows R (reject_step deps rc)
  unfolding reject_step
  reject_step-Spares = search (Grows-bind pre, Grows-pure pre, (set_manual_review-Spares rc))

  run_step-Spares :
      (st : ErasureStep) (a : ErasureAction)
      → Grows R (st.run rc a)
      → Grows R (run_step deps rc st a)
  unfolding run_step execute_step
  run_step-Spares st a h =
      Grows-if pre _ _ _ (keep_step-Spares st)
        (Grows-if pre _ _ _ reject_step-Spares (Grows-bind pre _ _ h (after_step-Spares st a)))

  abbrev AllSpare : List ErasureStep → Type 0
  AllSpare [] = Unit
  AllSpare (st ∷ rest) = ((a : ErasureAction) → Grows R (st.run rc a)) × AllSpare rest

  run_steps-Spares :
      (completed : List String) (sts : List ErasureStep)
      → AllSpare sts
      → Grows R (run_steps deps rc completed sts)
  unfolding run_steps
  run_steps-Spares completed [] h = Grows-pure pre _
  run_steps-Spares completed (st ∷ rest) h =
      let go = run_steps-Spares completed rest h.1 in
      Grows-bind pre _ _ (Grows-statement pre _ _ pre.same) (λ _. Grows-if pre _ _ _ go (
        Grows-bind pre _ _ (run_step-Spares st _ (h.0 _))
          (λ more. Grows-if pre more _ _ go (Grows-pure pre _))))

  steps-AllSpare : AllSpare (steps deps)
  steps-AllSpare =
      search
        (
          (step_credential-Spares deps rc),
          (step_refresh_token-Spares deps rc),
          (step_session-Spares deps rc),
          (step_mfa_factor-Spares deps rc),
          (step_passkey-Spares deps rc),
          (step_oauth_identity-Spares deps rc),
          (step_external_system-Spares deps rc),
          (step_audit_log-Spares deps rc),
          (step_subject_key-Spares deps rc),
          (step_account-Spares deps rc),
          tt,
        )
        depth 14

  mark_processing-Spares : Grows R (mark_processing rc.request_id)
  unfolding mark_processing
  mark_processing-Spares =
      Grows-bind pre _ _
        (Grows-statement pre _ _ (λ s. (requests_leaf rc) _ _ s (λ r e. ground arith) (λ r. refl)))
        (λ n. Grows-pure pre _)

  mark_done-Spares : Grows R (mark_done rc.request_id)
  unfolding mark_done
  mark_done-Spares = Grows-bind pre _ _ (Grows-now pre) (λ t.
      Grows-statement pre _ _ (λ s. (requests_leaf rc) _ _ s (λ r e. ground arith) (λ r. refl)))

  finish_run-Spares : (b : Bool) → Grows R (finish_run deps rc b)
  unfolding finish_run
  finish_run-Spares true = mark_done-Spares
  finish_run-Spares false = Grows-pure pre _

  advance-Spares : (b : Bool) → Grows R (advance deps rc b)
  unfolding advance completed_domains
  advance-Spares false = Grows-pure pre _
  advance-Spares true = Grows-bind pre _ _ (Grows-query pre _ _) (λ completed.
      Grows-bind pre _ _ (run_steps-Spares completed (steps deps) steps-AllSpare) finish_run-Spares)

process_loaded-Spares :
    (deps : Deps) (r : Request) → Grows (Spares r.user_id r.id) (process_loaded deps r)
unfolding process_loaded active_hold_for
process_loaded-Spares deps r =
    let rc = context_of deps r in
    let p = Spares-preorder r.user_id r.id in
    Grows-bind p _ _ (Grows-query p _ _) (λ held.
      Grows-if p held _ _ (set_manual_review-Spares rc legal_hold) (
        Grows-if p _ _ _ (set_manual_review-Spares rc hook_rejected) (
          Grows-bind p _ _ (Grows-if p _ _ _ (mark_processing-Spares deps rc) (Grows-pure p _))
            (advance-Spares deps rc))))

pub find-eq :
    (id : String) (rs : List Request) (r : Request) → find (λ x. x.id == id) rs ≡ some r → r.id ≡ id
find-eq id [] r h = cc
find-eq id (x ∷ rs) r h = ground (arith, find-eq id rs r, eq_iff x.id id, eq_iff r.id id)

process_found-Spares :
    (deps : Deps) (r : Request) → Grows (Spares r.user_id r.id) (process_found deps (some r))
unfolding process_found
process_found-Spares deps r =
    let p = Spares-preorder r.user_id r.id in
    Grows-bind p _ _ (Grows-now p) (λ t.
      Grows-if p _ _ _ (Grows-pure p _)
        (Grows-if p _ _ _ (Grows-pure p _) (process_loaded-Spares deps r)))

-- Whoever loads the request `r` runs the pipeline for it.
process_found-GrowsFrom :
    (deps : Deps) (r : Request) (o : Option Request) (P : Db → Type 0)
    → ((s : Db) → P s → o ≡ some r)
    → GrowsFrom P (Spares r.user_id r.id) (process_found deps o)
process_found-GrowsFrom deps r o P h = record {
  at = λ v p.
      subst (λ x. Spares r.user_id r.id v.db (process_found deps x v).0.db) (sym (h v.db p))
        ((process_found-Spares deps r).at v);
}

-- A run of the pipeline for a request changes no row of another request or of another person, no
-- tombstone that another request left, and no hold, destination or policy assignment, wherever it
-- stops. Of the subjects of the access log, only those count as the person's that are the person, or
-- that belong to an event which the person performed.
pub process_request_isolated :
    (deps : Deps) (id : String) (r : Request) (w : World Db)
    → find (λ x. x.id == id) w.db.requests ≡ some r
    → Spares r.user_id id w.db (process_request deps id w).0.db
unfolding process_request
process_request_isolated deps id r w h =
    let pre = Spares-preorder r.user_id r.id in
    subst (λ i. Spares r.user_id i w.db (process_request deps id w).0.db)
      (find-eq id w.db.requests r h)
      ((GrowsFrom-bind pre {P = λ s. s ≡ w.db}
          (λ o s. (s ≡ w.db) × (o ≡ find (λ x. x.id == id) s.requests)) _ _
          (GrowsFrom-of_Grows _ (Grows-query pre _ _)) (Yields-query _ _)
          (λ o. process_found-GrowsFrom deps r o _ (λ s p. cc))).at
        w refl)
