-- ===== src/Privacy/Pipeline/Completion/Run.antt =====
-- The evidence of a whole run (internal/privacy/pipeline.go).
use dilion.Base.{
  ◌≡◌, refl, inl, inr, Bool, true, false, not, String, List, [], ◌∷◌, Option, any, contains,
  eq_refl, Bool-cases,
}
use dilion.Exec.{pure}
use dilion.Exec.Grows.{Grows, Grows-weaken}
use dilion.Exec.Yields.{
  Yields, Yields-pure, Yields-statement, Yields-if, Yields-weaken, Yields-of_Grows, Yields-both,
  Yields-bind, Yields-anything, Yields-now,
}
use dilion.Privacy.Db.{Db, M, Error, Deps, DestructionLog, Basis, before_step}
use dilion.Privacy.Domain.{ErasureAction}
use dilion.Privacy.Pipeline.Common.{RunCtx, Outcome, finished, halted}
use dilion.Privacy.Pipeline.Runner.{
  ErasureStep, logs, insert_log, new_log, log_destruction, after_step, keep_step, reject_step,
  execute_step, run_step, run_steps, is_keep,
}
use dilion.Privacy.Pipeline.Safe.Steps.{IsStepSafe}
use dilion.Privacy.Pipeline.Safe.Run.{run_step-Safe, run_steps-Safe, AllSafe}
use dilion.Privacy.Pipeline.Completion.Quiet.{Quiet, Quiet-IsStepSafe, logs-append}

logged_once :
    (l : DestructionLog) (ls : List DestructionLog)
    → any (logs l.request_id l.domain) (insert_log l ls) ≡ true
logged_once l ls = elim (Bool-cases (any (logs l.request_id l.domain) ls)) [
  | inl known ↦ rw known known
  | inr fresh ↦
      rw fresh
        (logs-append l.request_id l.domain ls l (rw (eq_refl l.request_id, eq_refl l.domain) refl))
]

module _ (id : String) where
  -- There is evidence for a domain.
  abbrev Has : String → Db → Type 0
  Has d s = any (logs id d) s.destruction_logs ≡ true

  log_destruction-Has :
      (d : String) (a : ErasureAction) (b : Option Basis)
      → Yields (λ s. Unit {0}) (log_destruction id d a b) (λ _. Has d)
  unfolding log_destruction
  log_destruction-Has d a b =
      Yields-bind (λ _ s. Unit {0}) _ _ (Yields-now (λ t s p. p))
        (λ t. Yields-statement _ _ (λ s p. logged_once (new_log id d a b t) s.destruction_logs))

-- Every step of the list has left evidence for the request.
abbrev pub Evidenced : String → List ErasureStep → Db → Type 0
Evidenced id [] s = Unit
Evidenced id (st ∷ rest) s = Has id st.domain s × Evidenced id rest s

module _ (deps : Deps) (rc : RunCtx) where
  abbrev Q : Db → Db → Type 0
  Q = Quiet rc.request_id

  abbrev Logged : String → Db → Type 0
  Logged = Has rc.request_id

  after_step-Has :
      (st : ErasureStep) (a : ErasureAction) (o : Outcome)
      → Yields
          (λ s. Unit {0})
          (after_step deps rc st a o)
          (λ more s. more ≡ true → Logged st.domain s)
  unfolding after_step
  after_step-Has st a halted = Yields-pure _ (λ s p e. cc)
  after_step-Has st a (finished note) =
      Yields-bind _ _ _ (log_destruction-Has rc.request_id st.domain a _)
        (λ _. Yields-pure _ (λ s p e. p))

  abbrev Evident : String → Bool → Db → Type 0
  Evident d more s = more ≡ true → Logged d s

  stop-Has : (d : String) → Yields {E = Error} (λ s. Unit {0}) (pure false) (Evident d)
  stop-Has d = Yields-pure false (λ s p e. cc)

  keep_step-Has :
      (st : ErasureStep) → Yields (λ s. Unit {0}) (keep_step deps rc st) (Evident st.domain)
  unfolding keep_step
  keep_step-Has st =
      Yields-bind _ _ _ (log_destruction-Has rc.request_id st.domain _ _)
        (λ _. Yields-pure _ (λ s p e. p))

  reject_step-Has : (d : String) → Yields (λ s. Unit {0}) (reject_step deps rc) (Evident d)
  unfolding reject_step
  reject_step-Has d = Yields-bind (λ _ s. Unit {0}) _ _ (Yields-anything _) (λ _. stop-Has d)

  execute_step-Has :
      (st : ErasureStep) (a : ErasureAction)
      → Yields (λ s. Unit {0}) (execute_step deps rc st a) (Evident st.domain)
  unfolding execute_step
  execute_step-Has st a =
      Yields-bind (λ _ s. Unit {0}) _ _ (Yields-anything _) (after_step-Has st a)

  run_step-Has :
      (st : ErasureStep) (a : ErasureAction)
      → Yields (λ s. Unit {0}) (run_step deps rc st a) (Evident st.domain)
  unfolding run_step
  run_step-Has st a =
      Yields-if (is_keep a) _ _ (λ _. keep_step-Has st)
        (λ _.
          Yields-if
            (not (deps.hook_accepts (before_step rc.request_id rc.user_id st.domain a st.order))) _
            _ (λ _. reject_step-Has st.domain) (λ _. execute_step-Has st a))

  -- The domains that were read as completed are.
  abbrev pub Known : List String → Db → Type 0
  Known completed s = (d : String) → contains completed d ≡ true → Logged d s

  pub safe : IsStepSafe Q
  safe = Quiet-IsStepSafe rc.request_id

  stays :
      {A : Type 0} (P : Db → Type 0) (m : M A)
      → Grows Q m
      → ((s t : Db) → Q s t → P s → P t)
      → Yields P m (λ _. P)
  stays P m g h = Yields-of_Grows P m (Grows-weaken m h g)

  pub run_steps-Evidenced :
      (completed : List String) (sts : List ErasureStep)
      → AllSafe safe deps rc sts
      → Yields
          (Known completed)
          (run_steps deps rc completed sts)
          (λ through s. through ≡ true → Evidenced rc.request_id sts s)
  unfolding run_steps
  run_steps-Evidenced completed [] h = Yields-pure _ (λ s p e. tt)
  run_steps-Evidenced completed (st ∷ rest) h =
      let go : Yields (λ s. Known completed s × Logged st.domain s)
          (run_steps deps rc completed rest)
          (λ through s. through ≡ true → Evidenced rc.request_id (st ∷ rest) s) =
        Yields-weaken _ (λ s p. p) (λ a s q e. (q.1, q.0 e))
          (Yields-both _ (run_steps-Evidenced completed rest h.1) (
            stays (Logged st.domain) _ (run_steps-Safe safe deps rc completed rest h.1)
              (λ s t k. k.logged st.domain))) in
      Yields-bind (λ _. Known completed) _ _ (Yields-statement _ _ (λ s p. p))
        (λ _.
          Yields-if _ _ _ (λ e. Yields-weaken _ (λ s p. (p, p st.domain e)) (λ a s q. q) go)
            (λ _.
              Yields-bind (λ more s. Known completed s × (more ≡ true → Logged st.domain s)) _ _
                (Yields-weaken _ (λ s p. (p, tt)) (λ a s q. q)
                  (Yields-both _
                    (stays (Known completed) _ (run_step-Safe safe deps rc st _ (h.0 _))
                      (λ s t k p d e. k.logged d (p d e)))
                    (run_step-Has st _)))
                (λ more.
                  Yields-if more _ _ (λ e. Yields-weaken _ (λ s p. (p.0, p.1 e)) (λ a s q. q) go)
                    (λ _. Yields-pure _ (λ s p e. cc)))))
