-- ===== src/Privacy/Pipeline/Liveness/Run.antt =====
-- A run without failures ends DONE (internal/privacy/pipeline.go, processRequest).
use dilion.Base.{
  ◌≡◌, refl, Bool, true, false, ◌&&◌, String, ◌==◌, List, [], ◌∷◌, Option, none, some, any, count,
  find, contains, update_where, ◌≤◌, arith,
}
use dilion.Exec.{pure, ◌>>=◌}
use dilion.Exec.Succeeds.{
  Succeeds, Succeeds-pure, Succeeds-statement, Succeeds-if, Succeeds-bind, Succeeds-now,
}
use dilion.Privacy.Db.{Db, Deps, HookCall, Request, processing, done, before_step, Basis}
use dilion.Privacy.Domain.{ErasureAction}
use dilion.Privacy.Pipeline.Common.{RunCtx, Outcome, finished, halted}
use dilion.Privacy.Pipeline.Runner.{
  ErasureStep, steps, log_destruction, completed_domains, after_step, keep_step, execute_step,
  run_step, run_steps, is_keep, finish_run, advance, mark_done, is_processing, is_requested,
}
use dilion.Privacy.Pipeline.Completion.Quiet.{is_closed}
use dilion.Privacy.Pipeline.Liveness.Steps.{
  IsCalm, HasFinished, GoesOn, Finishes, then_goes, updates, time, step_credential-Finishes,
  step_refresh_token-Finishes, step_session-Finishes, step_mfa_factor-Finishes,
  step_passkey-Finishes, step_oauth_identity-Finishes, step_audit_log-Finishes,
  step_account-Finishes,
}
use dilion.Privacy.Pipeline.Liveness.Gates.{
  IsReadable, step_subject_key-Finishes, step_external_system-Finishes,
}

-- No hook stands in the way.
abbrev pub AcceptsAll : Deps → Type 0
AcceptsAll deps = (c : HookCall) → deps.hook_accepts c ≡ true

module _ (deps : Deps) (accepts : AcceptsAll deps) (rc : RunCtx) where
  abbrev id : String
  id = rc.request_id

  -- The run goes on to the next step.
  abbrev Onward : Bool → Db → Type 0
  Onward more s = (more ≡ true) × IsCalm id s

  log_destruction-GoesOn :
      (d : String) (a : ErasureAction) (b : Option Basis) → GoesOn id (log_destruction id d a b)
  unfolding log_destruction
  log_destruction-GoesOn d a b =
      then_goes id _ _ (time id) (λ t. updates id _ _ (λ s. refl) (λ s. refl) (λ s. refl))

  logged-Onward :
      (d : String) (a : ErasureAction) (b : Option Basis)
      → Succeeds (IsCalm id) (log_destruction id d a b >>= λ _. pure true) Onward
  logged-Onward d a b =
      Succeeds-bind (λ _. IsCalm id) _ _ (log_destruction-GoesOn d a b).run
        (λ _. Succeeds-pure true (λ s c. (refl, c)))

  after_step-Onward :
      (st : ErasureStep) (a : ErasureAction) (o : Outcome)
      → Succeeds (HasFinished id o) (after_step deps rc st a o) Onward
  unfolding after_step
  after_step-Onward st a (finished n) = record {
    at = λ w q p. (logged-Onward st.domain a _).at w q p.1;
  }
  after_step-Onward st a halted = record { at = λ w q p. cc (p.0) }

  keep_step-Onward : (st : ErasureStep) → Succeeds (IsCalm id) (keep_step deps rc st) Onward
  unfolding keep_step
  keep_step-Onward st = logged-Onward st.domain _ _

  execute_step-Onward :
      (st : ErasureStep) (a : ErasureAction)
      → Finishes id (st.run rc a)
      → Succeeds (IsCalm id) (execute_step deps rc st a) Onward
  unfolding execute_step
  execute_step-Onward st a h = Succeeds-bind (HasFinished id) _ _ h.run (after_step-Onward st a)

  run_step-Onward :
      (st : ErasureStep) (a : ErasureAction)
      → Finishes id (st.run rc a)
      → Succeeds (IsCalm id) (run_step deps rc st a) Onward
  unfolding run_step
  run_step-Onward st a h =
      rw (accepts (before_step rc.request_id rc.user_id st.domain a st.order))
        (Succeeds-if (is_keep a) _ _ (λ _. keep_step-Onward st) (λ _. execute_step-Onward st a h))

  abbrev AllFinish : List ErasureStep → Type 0
  AllFinish [] = Unit
  AllFinish (st ∷ rest) = ((a : ErasureAction) → Finishes id (st.run rc a)) × AllFinish rest

  run_steps-Onward :
      (completed : List String) (sts : List ErasureStep)
      → AllFinish sts
      → Succeeds (IsCalm id) (run_steps deps rc completed sts) Onward
  unfolding run_steps
  run_steps-Onward completed [] h = Succeeds-pure true (λ s c. (refl, c))
  run_steps-Onward completed (st ∷ rest) h =
      let go = run_steps-Onward completed rest h.1 in
      Succeeds-bind (λ _. IsCalm id) _ _ (Succeeds-statement _ _ (λ s c. c))
        (λ _.
          Succeeds-if (contains completed st.domain) _ _ (λ _. go)
            (λ _. Succeeds-bind Onward _ _ (run_step-Onward st _ (h.0 _)) (λ more.
              Succeeds-if more _ _ (λ e. record { at = λ w q p. go.at w q p.1 })
                (λ e. record { at = λ w q p. cc (e, p.0) }))))

  steps-AllFinish : IsReadable rc.policy → AllFinish (steps deps)
  steps-AllFinish readable = (
    (λ a. step_credential-Finishes id rc a),
    (
      (λ a. step_refresh_token-Finishes id rc a),
      (
        (λ a. step_session-Finishes id rc a),
        (
          (λ a. step_mfa_factor-Finishes id rc a),
          (
            (λ a. step_passkey-Finishes id rc a),
            (
              (λ a. step_oauth_identity-Finishes id rc deps a),
              (
                (λ a. step_external_system-Finishes rc deps a),
                (
                  (λ a. step_audit_log-Finishes id rc a),
                  (
                    (λ a. step_subject_key-Finishes rc a readable),
                    ((λ a. step_account-Finishes id rc deps a), tt),
                  ),
                ),
              ),
            ),
          ),
        ),
      ),
    ),
  )

  -- The request has become DONE.
  abbrev Over : Db → Type 0
  Over s = any (is_closed id) s.requests ≡ true

  closes :
      (f : Request → Request) (rs : List Request)
      → ((r : Request) → (r.id == id) ≡ true → is_closed id (f r) ≡ true)
      → any (λ r. r.id == id && is_processing r.status) rs ≡ true
      → any (is_closed id) (update_where (λ r. r.id == id && is_processing r.status) f rs) ≡ true
  closes f [] h e = cc
  closes f (r ∷ rs) h e = ground (arith, h r, closes f rs h)

  finish_run-Over : (b : Bool) → Succeeds (Onward b) (finish_run deps rc b) (λ _. Over)
  unfolding finish_run mark_done
  finish_run-Over false = record { at = λ w q p. cc (p.0) }
  finish_run-Over true =
      Succeeds-bind (λ _. Onward true) _ _ (Succeeds-now (λ t s p. p))
        (λ t. Succeeds-statement _ _ (λ s p.
          closes
            (λ r. record r { status = done; completed_at = some t; manual_review_reason = none })
            s.requests (λ r e. rw e refl) p.1.1.1))

  pub advance-Over : IsReadable rc.policy → Succeeds (IsCalm id) (advance deps rc true) (λ _. Over)
  unfolding advance completed_domains
  advance-Over readable =
      Succeeds-bind (λ _. IsCalm id) _ _ (Succeeds-statement _ _ (λ s c. c))
        (λ completed.
          Succeeds-bind Onward _ _
            (run_steps-Onward completed (steps deps) (steps-AllFinish readable)) finish_run-Over)

module _ (id : String) where
  abbrev mine : Request → Bool
  mine r = r.id == id

  pub found_requested :
      (rs : List Request) (r : Request)
      → find mine rs ≡ some r
      → is_requested r.status ≡ true
      → 1 ≤ count (λ x. x.id == id && is_requested x.status) rs
  found_requested [] r h e = cc
  found_requested (x ∷ rs) r h e = ground (arith, found_requested rs r)

  pub found_started :
      (rs : List Request) (r : Request)
      → find mine rs ≡ some r
      → is_requested r.status ≡ true
      → any
          (λ x. x.id == id && is_processing x.status)
          (update_where
            (λ x. x.id == id && is_requested x.status)
            (λ x. record x { status = processing })
            rs)
        ≡ true
  found_started [] r h e = cc
  found_started (x ∷ rs) r h e = ground (arith, found_started rs r)

  pub found_processing :
      (rs : List Request) (r : Request)
      → find mine rs ≡ some r
      → is_processing r.status ≡ true
      → any (λ x. x.id == id && is_processing x.status) rs ≡ true
  found_processing [] r h e = cc
  found_processing (x ∷ rs) r h e = ground (arith, found_processing rs r)
