-- ===== src/Privacy/Pipeline/Runner.antt =====
-- internal/privacy/pipeline.go: one pass of the erasure pipeline over a request.
use dilion.Base.{
  ℕ, Bool, true, false, ◌&&◌, ◌||◌, not, String, ◌==◌, List, [], ◌∷◌, ◌++◌, Option, none, some,
  if◌then◌else◌, is_none, holds_text, any, find, update_where, count, contains, ltb, map,
  select_where,
}
use dilion.Exec.{pure, now, statement, query, exec, check_ctx, ◌>>=◌, ◌>>◌}
use dilion.Privacy.Domain
use dilion.Privacy.Domain.{ErasureAction, delete, anonymize, crypto_shred, keep, execute}
use dilion.Privacy.Policy.{action_for, basis_for}
use dilion.Privacy.Db.{
  M, Deps, Request, RequestStatus, requested, processing, done, legal_hold, hook_rejected,
  LegalHold, Note, Basis, policy_basis, step_note, DestructionLog, database, canceled_context,
  pipeline_start, before_step,
}
use dilion.Privacy.Pipeline.Common.{
  RunCtx, Outcome, finished, halted, set_manual_review, is_open_request,
}
use dilion.Privacy.Pipeline.Credentials.{
  step_credential, step_refresh_token, step_session, step_mfa_factor, step_passkey,
  step_oauth_identity,
}
use dilion.Privacy.Pipeline.Evidence.{step_external_system, step_audit_log}
use dilion.Privacy.Pipeline.Vault.{step_subject_key, step_account}

-- `erasureStep`.
pub record ErasureStep : Type 0 where
  pub order : ℕ
  pub domain : String
  pub default_action : ErasureAction
  pub run : RunCtx → ErasureAction → M Outcome

abbrev erasure_step :
    ℕ → String → ErasureAction → (RunCtx → ErasureAction → M Outcome) → ErasureStep
erasure_step n d a f = record { order = n; domain = d; default_action = a; run = f }

-- `steps`, in the order in which they run.
abbrev pub steps : Deps → List ErasureStep
steps deps =
    erasure_step 100 Domain.credential delete step_credential
    ∷ erasure_step 200 Domain.refresh_token delete step_refresh_token
    ∷ erasure_step 300 Domain.session delete step_session
    ∷ erasure_step 400 Domain.mfa_factor delete step_mfa_factor
    ∷ erasure_step 500 Domain.passkey delete step_passkey
    ∷ erasure_step 600 Domain.oauth_identity anonymize (step_oauth_identity deps)
    ∷ erasure_step 700 Domain.external_system execute (step_external_system deps)
    ∷ erasure_step 800 Domain.audit_log anonymize step_audit_log
    ∷ erasure_step 900 Domain.subject_key crypto_shred step_subject_key
    ∷ erasure_step 1000 Domain.account anonymize (step_account deps)
    ∷ []

abbrev pub blocks : String → String → LegalHold → Bool
blocks user domain h =
    h.user_id == user
    && (is_none h.released_at && (domain == "" || (is_none h.domain || holds_text h.domain domain)))

-- `activeHoldFor` (engine.go).
unfoldable pub active_hold_for : String → String → M Bool
active_hold_for user domain = query database (λ db. any (blocks user domain) db.legal_holds)

abbrev pub logs : String → String → DestructionLog → Bool
logs request domain l = l.request_id == request && l.domain == domain

-- `insert ... on conflict (request_id, domain) do nothing`.
abbrev pub insert_log : DestructionLog → List DestructionLog → List DestructionLog
insert_log l ls = if any (logs l.request_id l.domain) ls then ls else ls ++ l ∷ []

abbrev pub new_log : String → String → ErasureAction → Option Basis → ℕ → DestructionLog
new_log request domain action basis t = record {
  request_id = request;
  domain = domain;
  action = action;
  basis = basis;
  executed_at = t;
}

-- `logDestruction`.
unfoldable pub log_destruction : String → String → ErasureAction → Option Basis → M (Unit {0})
log_destruction request domain action basis = do
  t ← now
  exec database (λ db. record db {
    destruction_logs = insert_log (new_log request domain action basis t) db.destruction_logs;
  })

-- `completedDomains`.
unfoldable pub completed_domains : String → M (List String)
completed_domains request =
    query database
      (λ db. map (λ l. l.domain) (select_where (λ l. l.request_id == request) db.destruction_logs))

abbrev pub is_keep : ErasureAction → Bool
is_keep keep = true
is_keep _ = false

abbrev pub kept_basis : String → Option Basis
kept_basis b = if b == "" then none else some (policy_basis b)

-- The policy's basis, and the note of the step where it has none.
abbrev pub step_basis : String → Note → Option Basis
step_basis b note = some (if b == "" then step_note note else policy_basis b)

module _ (deps : Deps) (rc : RunCtx) where
  unfoldable pub after_step : ErasureStep → ErasureAction → Outcome → M Bool
  after_step st action (finished note) = do
    log_destruction rc.request_id st.domain action
        (step_basis (basis_for (some rc.policy) st.domain) note)
    pure true
  after_step st action halted = pure false

  -- KEEP leaves evidence of the decision.
  unfoldable pub keep_step : ErasureStep → M Bool
  keep_step st = do
    log_destruction rc.request_id st.domain keep (kept_basis (basis_for (some rc.policy) st.domain))
    pure true

  unfoldable pub reject_step : M Bool
  reject_step = do set_manual_review rc.request_id hook_rejected; pure false

  unfoldable pub execute_step : ErasureStep → ErasureAction → M Bool
  execute_step st action = do o ← st.run rc action; after_step st action o

  -- One round of the loop in `processRequest`: does the run go on?
  unfoldable pub run_step : ErasureStep → ErasureAction → M Bool
  run_step st action =
      if is_keep action
      then keep_step st
      else if not
          (deps.hook_accepts (before_step rc.request_id rc.user_id st.domain action st.order))
      then reject_step
      else execute_step st action

  unfoldable pub run_steps : List String → List ErasureStep → M Bool
  run_steps completed [] = pure true
  run_steps completed (st ∷ rest) =
      let go = run_steps completed rest in
      do
        check_ctx canceled_context
        if contains completed st.domain then go else do
          more ← run_step st (action_for (some rc.policy) st.domain st.default_action)
          if more then go else pure false

abbrev pub is_requested : RequestStatus → Bool
is_requested requested = true
is_requested _ = false

abbrev pub is_processing : RequestStatus → Bool
is_processing processing = true
is_processing _ = false

-- `update ... set status = 'PROCESSING' where status = 'REQUESTED'`: false if a cancellation won.
unfoldable pub mark_processing : String → M Bool
mark_processing id = do
  n ← statement database (λ db. (
    record db {
      requests =
          update_where (λ r. r.id == id && is_requested r.status)
            (λ r. record r { status = processing }) db.requests;
    },
    count (λ r. r.id == id && is_requested r.status) db.requests,
  ))
  pure (ltb 0 n)

unfoldable pub mark_done : String → M (Unit {0})
mark_done id = do
  t ← now
  exec database (λ db. record db {
    requests =
        update_where (λ r. r.id == id && is_processing r.status)
          (λ r. record r { status = done; completed_at = some t; manual_review_reason = none })
          db.requests;
  })

module _ (deps : Deps) where
  -- The end of `processRequest`; the answer of the `after_erasure` hook is only logged.
  unfoldable pub finish_run : RunCtx → Bool → M (Unit {0})
  finish_run rc true = mark_done rc.request_id
  finish_run rc false = pure tt

  unfoldable pub advance : RunCtx → Bool → M (Unit {0})
  advance rc false = pure tt
  advance rc true = do
    completed ← completed_domains rc.request_id
    through ← run_steps deps rc completed (steps deps)
    finish_run rc through

  abbrev pub context_of : Request → RunCtx
  context_of r = record { request_id = r.id; user_id = r.user_id; policy = r.policy_snapshot }

  -- `processRequest` from the first hold gate on, with the row that was loaded.
  unfoldable pub process_loaded : Request → M (Unit {0})
  process_loaded r = do
    held ← active_hold_for r.user_id ""
    if held
        then set_manual_review r.id legal_hold
        else if not (deps.hook_accepts (pipeline_start r.id r.user_id))
        then set_manual_review r.id hook_rejected
        else (do
          ours ← if is_requested r.status then mark_processing r.id else pure true
          advance (context_of r) ours)

  unfoldable pub process_found : Option Request → M (Unit {0})
  process_found none = pure tt
  process_found (some r) = do
    t ← now
    if not (is_open_request r.status)
        then pure tt
        else if ltb t r.scheduled_at
        then pure tt
        else process_loaded r

  -- `processRequest`.
  unfoldable pub process_request : String → M (Unit {0})
  process_request id = do
    found ← query database (λ db. find (λ r. r.id == id) db.requests)
    process_found found
