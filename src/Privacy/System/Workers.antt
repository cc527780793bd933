-- ===== src/Privacy/System/Workers.antt =====
-- What the deliveries and the sweeps keep: they change neither requests nor the destruction log.
use dilion.Base.{
  ℕ, ◌≡◌, refl, Bool, any, Bool-cases, inl, inr, not, String, List, [], ◌∷◌, Option, none, some,
}
use dilion.Exec.{Result, ok, err, now, ◌>>=◌}
use dilion.Exec.Grows.{
  IsPreorder, Grows, Grows-bind, Grows-attempt, Grows-now, Grows-pure, Grows-lift, Grows-query,
  Grows-statement, Grows-if,
}
use dilion.Privacy.Db.{
  Db, Deps, Error, Task, ErrorCode, Destination, DestinationType, webhook, connector,
  unknown_destination, consent_scope,
}
use dilion.Privacy.Pipeline.Runner.{active_hold_for, process_request}
use dilion.Privacy.Pipeline.Poll.{with_request_lock, run_requests, run_pipeline_once}
use dilion.Privacy.Pipeline.Vault.{destroy_dek, stamp_key}
use dilion.Privacy.Tasks.Delivery.{
  Peers, Reply, no_response, response, ConnectorReply, failure, receipt, claim_tasks, claim_rows,
  runs_over, due_ids, complete_task, fail_task, after_post, execute_webhook, after_receipt,
  execute_connector, execute_by_type, execute_loaded, execute_task, execute_all, run_tasks_once,
}
use dilion.Privacy.Retention.Sweep.{
  after_destroy, shred_key, shred_consent_keys, sweep_consent_shred_due,
}

module _ {R : Db → Db → Type 0} (pre : IsPreorder R)
    (elsewhere : (s t : Db)
      → t.requests ≡ s.requests
      → t.destruction_logs ≡ s.destruction_logs
      → R s t) where
  module _ (peers : Peers) where
    fail_task-Safe : (k : Task) (c : ErrorCode) (b : Bool) → Grows R (fail_task peers k c b)
    unfolding fail_task
    fail_task-Safe k c b =
        Grows-bind pre _ _ (Grows-now pre)
          (λ t. Grows-statement pre _ _ (λ s. elsewhere s _ refl refl))

    complete_task-Safe : (k : Task) → Grows R (complete_task k)
    unfolding complete_task
    complete_task-Safe k =
        Grows-bind pre _ _ (Grows-now pre)
          (λ t. Grows-statement pre _ _ (λ s. elsewhere s _ refl refl))

    after_post-Safe : (k : Task) (r : Reply) → Grows R (after_post peers k r)
    unfolding after_post
    after_post-Safe k no_response = fail_task-Safe k _ _
    after_post-Safe k (response c) =
        Grows-if pre _ _ _ (fail_task-Safe k _ _) (complete_task-Safe k)

    execute_webhook-Safe : (k : Task) (d : Destination) → Grows R (execute_webhook peers k d)
    unfolding execute_webhook
    execute_webhook-Safe k d = Grows-if pre _ _ _ (fail_task-Safe k _ _) (
        Grows-bind pre _ _ (Grows-query pre _ _) (λ r.
          Grows-if pre (not (peers.has_secret d)) _ _ (fail_task-Safe k _ _) (
            Grows-if pre (not (peers.is_url d.url)) _ _ (fail_task-Safe k _ _)
              (after_post-Safe k (peers.post d k)))))

    after_receipt-Safe : (k : Task) (r : ConnectorReply) → Grows R (after_receipt peers k r)
    unfolding after_receipt
    after_receipt-Safe k failure = fail_task-Safe k _ _
    after_receipt-Safe k (receipt s c) =
        Grows-if pre _ _ _ (fail_task-Safe k _ _) (complete_task-Safe k)

    execute_connector-Safe :
        (k : Task) (d : Destination) (c : Option (Destination → Task → ConnectorReply))
        → Grows R (execute_connector peers k d c)
    unfolding execute_connector
    execute_connector-Safe k d none = fail_task-Safe k _ _
    execute_connector-Safe k d (some c) = after_receipt-Safe k _

    execute_by_type-Safe :
        (k : Task) (d : Destination) (t : DestinationType) → Grows R (execute_by_type peers k d t)
    unfolding execute_by_type
    execute_by_type-Safe k d webhook = execute_webhook-Safe k d
    execute_by_type-Safe k d connector = execute_connector-Safe k d _
    execute_by_type-Safe k d (unknown_destination s) = fail_task-Safe k _ _

    execute_loaded-Safe :
        (k : Task) (r : Result Error (Option Destination)) → Grows R (execute_loaded peers k r)
    unfolding execute_loaded
    execute_loaded-Safe k (err e) = fail_task-Safe k _ _
    execute_loaded-Safe k (ok none) = fail_task-Safe k _ _
    execute_loaded-Safe k (ok (some d)) =
        Grows-if pre _ _ _ (fail_task-Safe k _ _) (execute_by_type-Safe k d d.type)

    execute_task-Safe : (k : Task) → Grows R (execute_task peers k)
    unfolding execute_task
    execute_task-Safe k =
        Grows-bind pre _ _ (Grows-attempt pre _ (Grows-query pre _ _)) (execute_loaded-Safe k)

    execute_all-Safe : (ks : List Task) → Grows R (execute_all peers ks)
    unfolding execute_all
    execute_all-Safe [] = Grows-pure pre _
    execute_all-Safe (k ∷ ks) = Grows-bind pre _ _ (Grows-statement pre _ _ pre.same) (λ _.
        Grows-bind pre _ _ (Grows-attempt pre _ (execute_task-Safe k)) (λ _. execute_all-Safe ks))

    claim_rows-Safe : (t : ℕ) (ids : List String) (s : Db) → R s (claim_rows t ids s).0
    claim_rows-Safe t ids s = elim (Bool-cases (any (runs_over ids) s.tasks)) [
      | inl over ↦ rw over (pre.same s)
      | inr fits ↦ rw fits (elsewhere s _ refl refl)
    ]

    pub run_tasks_once-Safe : Grows R (run_tasks_once peers)
    unfolding run_tasks_once claim_tasks
    run_tasks_once-Safe =
        Grows-bind pre _ _
          (Grows-bind pre _ _ (Grows-now pre) (λ t.
            Grows-bind pre _ _
              (Grows-statement pre _ _ (λ s. claim_rows-Safe t (due_ids t s.tasks) s))
              (λ r. Grows-lift pre r)))
          execute_all-Safe

  stamp_key-Safe : (user : String) → Grows R (stamp_key user consent_scope)
  unfolding stamp_key
  stamp_key-Safe user =
      Grows-bind pre _ _ (Grows-now pre)
        (λ t. Grows-statement pre _ _ (λ s. elsewhere s _ refl refl))

  after_destroy-Safe :
      (user : String) (r : Result Error (Unit {0})) → Grows R (after_destroy user r)
  unfolding after_destroy
  after_destroy-Safe user (ok t) = stamp_key-Safe user
  after_destroy-Safe user (err e) = Grows-pure pre _

  shred_key-Safe : (user : String) → Grows R (shred_key user)
  unfolding shred_key destroy_dek
  shred_key-Safe user =
      Grows-bind pre _ _
        (Grows-attempt pre _ (
          Grows-bind pre _ _ (Grows-now pre)
            (λ t. Grows-statement pre _ _ (λ s. elsewhere s _ refl refl))))
        (after_destroy-Safe user)

  shred_consent_keys-Safe : (users : List String) → Grows R (shred_consent_keys users)
  unfolding shred_consent_keys active_hold_for
  shred_consent_keys-Safe [] = Grows-pure pre _
  shred_consent_keys-Safe (user ∷ rest) =
      Grows-bind pre _ _ (Grows-statement pre _ _ pre.same) (λ _.
        Grows-bind pre _ _ (Grows-query pre _ _) (λ held.
          Grows-bind pre _ _ (Grows-if pre held _ _ (Grows-pure pre _) (shred_key-Safe user))
            (λ _. shred_consent_keys-Safe rest)))

  pub sweep-Safe : (batch : ℕ) → Grows R (now >>= λ t. sweep_consent_shred_due t batch)
  unfolding sweep_consent_shred_due
  sweep-Safe batch =
      Grows-bind pre _ _ (Grows-now pre)
        (λ t. Grows-bind pre _ _ (Grows-query pre _ _) shred_consent_keys-Safe)

  -- A pass of the pipeline, where its runs keep the relation.
  module _ (deps : Deps) (runs : (id : String) → Grows R (process_request deps id))
      (taken : String → Bool) where
    run_requests-Safe : (ids : List String) → Grows R (run_requests deps taken ids)
    unfolding run_requests with_request_lock
    run_requests-Safe [] = Grows-pure pre _
    run_requests-Safe (id ∷ ids) = Grows-bind pre _ _ (Grows-statement pre _ _ pre.same) (λ _.
        Grows-bind pre _ _
          (Grows-attempt pre _ (
            Grows-bind pre _ _ (Grows-statement pre _ _ pre.same) (λ _.
              Grows-bind pre _ _ (Grows-query pre _ _)
                (λ got. Grows-if pre _ _ _ (Grows-pure pre _) (runs id)))))
          (λ _. run_requests-Safe ids))

    pub run_pipeline_once-Safe : Grows R (run_pipeline_once deps taken)
    unfolding run_pipeline_once
    run_pipeline_once-Safe =
        Grows-bind pre _ _ (Grows-now pre)
          (λ t. Grows-bind pre _ _ (Grows-query pre _ _) run_requests-Safe)
