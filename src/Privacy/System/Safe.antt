-- ===== src/Privacy/System/Safe.antt =====
-- A relation that every statement of the requests and holds keeps, run through the operations
-- (internal/privacy/requests.go and holds.go).
use dilion.Base.{
  ℕ, ◌≡◌, refl, String, ◌==◌, Option, none, some, any, Bool-cases, inl, inr, update_where,
}
use dilion.Exec.Grows.{
  IsPreorder, Grows, Grows-bind, Grows-in_tx, Grows-raise, Grows-lift, Grows-query, Grows-pure,
  Grows-if, Grows-now, Grows-statement,
}
use dilion.Privacy.Db.{Db, Deps, Request, LegalHold}
use dilion.Privacy.Policy.{Policy}
use dilion.Privacy.Requests.Create.{
  CreateRequestInput, insert_request, new_request, request_by_idempotency_key, has_active_deletion,
  resolve_policy, insert_statement, insert_locked, create_new, replay, create_valid, create_request,
}
use dilion.Privacy.Requests.Cancel.{
  cancelable, cancel, get_request, cancel_missing, cancel_request, cancel_result, or_missing,
}
use dilion.Privacy.Holds.Ops.{
  CreateHoldInput, create_hold, release_hold, after_release, resume_requests, held_request, resumed,
  get_hold, insert_hold, hold_or_missing,
}
use dilion.Privacy.Pipeline.Runner.{active_hold_for}

-- What a relation has to bear: the statements that change requests and holds.
pub record IsServiceSafe (deps : Deps) (R : Db → Db → Type 0) : Type 0 where
  pub pre : IsPreorder R
  pub inserts :
      (input : CreateRequestInput) (user policy_id : String) (policy : Option Policy) (t : ℕ)
      (s : Db)
      → R s (insert_request (new_request deps input user policy_id policy t s) s).0
  pub cancels :
      (id : String) (s : Db)
      → R s (record s { requests = update_where (cancelable id) cancel s.requests })
  -- Updates of other tables.
  pub elsewhere :
      (s t : Db) → t.requests ≡ s.requests → t.destruction_logs ≡ s.destruction_logs → R s t
  pub resumes :
      (user : String) (s : Db)
      → R s (record s { requests = update_where (held_request user) resumed s.requests })

module _ {R : Db → Db → Type 0} (deps : Deps) (k : IsServiceSafe deps R) where
  places : (h : LegalHold) (s : Db) → R s (insert_hold h s).0
  places h s = elim (Bool-cases (any (λ x. x.id == h.id) s.legal_holds)) [
    | inl same ↦ rw same (k.pre.same s)
    | inr fresh ↦ rw fresh (k.elsewhere s _ refl refl)
  ]

  missing_hold : (o : Option LegalHold) → Grows R (hold_or_missing o)
  missing_hold none = Grows-raise k.pre _
  missing_hold (some h) = Grows-pure k.pre _

  missing_request : (o : Option Request) → Grows R (or_missing o)
  missing_request none = Grows-raise k.pre _
  missing_request (some r) = Grows-pure k.pre _

  insert_statement-Safe :
      (input : CreateRequestInput) (user : String) (p : String × Option Policy) (t : ℕ)
      → Grows R (insert_statement deps input user p t)
  unfolding insert_statement
  insert_statement-Safe input user (policy_id, policy) t =
      Grows-bind k.pre _ _ (Grows-statement k.pre _ _ (k.inserts input user policy_id policy t))
        (λ r. Grows-lift k.pre r)

  insert_locked-Safe :
      (input : CreateRequestInput) (user : String) (p : String × Option Policy) (t : ℕ)
      → Grows R (insert_locked deps input user p t)
  unfolding insert_locked has_active_deletion
  insert_locked-Safe input user p t =
      Grows-if k.pre _ _ _
        (Grows-in_tx k.pre _ _ (
          Grows-bind k.pre _ _ (Grows-query k.pre _ _) (λ active.
            Grows-bind k.pre _ _ (Grows-if k.pre _ _ _ (Grows-raise k.pre _) (Grows-pure k.pre _))
              (λ _. insert_statement-Safe input user p t))))
        (insert_statement-Safe input user p t)

  create_new-Safe :
      (input : CreateRequestInput) (user : String) → Grows R (create_new deps input user)
  unfolding create_new has_active_deletion resolve_policy
  create_new-Safe input user =
      search
        (
          Grows-bind k.pre,
          Grows-if k.pre,
          Grows-query k.pre,
          Grows-pure k.pre,
          Grows-raise k.pre,
          Grows-now k.pre,
          insert_locked-Safe,
        )
        depth 16

  replay-Safe :
      (input : CreateRequestInput) (user : String) (o : Option Request)
      → Grows R (replay deps input user o)
  unfolding replay
  replay-Safe input user none = create_new-Safe input user
  replay-Safe input user (some prev) =
      Grows-if k.pre _ _ _ (Grows-raise k.pre _) (Grows-pure k.pre _)

  pub create_request-Safe : (input : CreateRequestInput) → Grows R (create_request deps input)
  unfolding create_request create_valid request_by_idempotency_key
  create_request-Safe input = Grows-bind k.pre _ _ (Grows-lift k.pre _) (λ user.
      Grows-if k.pre _ _ _ (Grows-raise k.pre _) (
        Grows-if k.pre _ _ _ (create_new-Safe input user)
          (Grows-bind k.pre _ _ (Grows-query k.pre _ _) (replay-Safe input user))))

  pub create_hold-Safe : (input : CreateHoldInput) → Grows R (create_hold deps input)
  unfolding create_hold
  create_hold-Safe input =
      search
        (
          Grows-bind k.pre,
          Grows-lift k.pre,
          Grows-if k.pre,
          Grows-raise k.pre,
          Grows-pure k.pre,
          Grows-now k.pre,
          Grows-statement k.pre,
          places,
        )
        depth 16

  after_release-Safe : (id : String) (o : Option LegalHold) → Grows R (after_release id o)
  unfolding after_release get_hold active_hold_for resume_requests
  after_release-Safe id none =
      search (Grows-bind k.pre, Grows-query k.pre, missing_hold, Grows-raise k.pre) depth 10
  after_release-Safe id (some h) = Grows-bind k.pre _ _ (Grows-query k.pre _ _) (λ still.
      Grows-bind k.pre _ _
        (Grows-if k.pre still _ _ (Grows-pure k.pre _)
          (Grows-statement k.pre _ _ (k.resumes h.user_id)))
        (λ _. Grows-pure k.pre _))

  pub release_hold-Safe : (id by : String) → Grows R (release_hold id by)
  unfolding release_hold
  release_hold-Safe id by = Grows-bind k.pre _ _ (Grows-now k.pre) (λ t.
      Grows-bind k.pre _ _ (Grows-statement k.pre _ _ (λ s. k.elsewhere s _ refl refl))
        (after_release-Safe id))

  cancel_result-Safe : (id : String) (o : Option Request) → Grows R (cancel_result id o)
  unfolding cancel_missing get_request
  cancel_result-Safe id (some r) = Grows-pure k.pre _
  cancel_result-Safe id none =
      Grows-bind k.pre _ _ (Grows-bind k.pre _ _ (Grows-query k.pre _ _) missing_request)
        (λ _. Grows-raise k.pre _)

  pub cancel_request-Safe : (id : String) → Grows R (cancel_request id)
  unfolding cancel_request
  cancel_request-Safe id =
      Grows-bind k.pre _ _ (Grows-statement k.pre _ _ (k.cancels id)) (cancel_result-Safe id)
