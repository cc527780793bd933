-- ===== src/Privacy/Requests/Canceled.antt =====
-- A canceled request is never carried out (internal/privacy/requests.go, CancelRequest).
use dilion.Base.{
  ◌≤◌, ◌≡◌, refl, sym, ap, ◌∙◌, Bool, false, String, ◌==◌, List, Option, none, some, find, count,
  update_where, find-update_where, both_true,
}
use dilion.Exec.{World, ok}
use dilion.Exec.Yields.{
  Yields, Yields-anything, Post-ok, Yields-bind, Yields-pure, Yields-raise, Yields-statement,
}
use dilion.Privacy.Db.{Db, Deps, Request}
use dilion.Privacy.Requests.Cancel.{
  cancelable, cancel, cancel_result, cancel_missing, get_request, cancel_request,
}
use dilion.Privacy.Pipeline.Common.{is_open_request}
use dilion.Privacy.Pipeline.Runner.{process_request}
use dilion.Privacy.Pipeline.Gates.{process_request_closed}

module _ (id : String) where
  abbrev mine : Request → Bool
  mine r = r.id == id

  -- The row `x` was canceled: it is the request `id`, and no longer open.
  abbrev WasCanceled : Option Request → Db → Type 0
  WasCanceled none s = Unit
  WasCanceled (some x) s = find mine s.requests ≡ some (cancel x)

  canceled_row :
      (rs : List Request) (o : Option Request) (s : Db)
      → count mine rs ≤ 1
      → o ≡ find (cancelable id) rs
      → WasCanceled o (record s { requests = update_where (cancelable id) cancel rs })
  canceled_row rs none s one h = tt
  canceled_row rs (some x) s one h =
      find-update_where mine (cancelable id) (λ r e. (both_true (r.id == id) _ e).0) cancel
        (λ r e. e) rs x one (sym h)

  abbrev IsGone : Request → Db → Type 0
  IsGone r s = (find mine s.requests ≡ some r) × (is_open_request r.status ≡ false)

  cancel_result-IsGone : (o : Option Request) → Yields (WasCanceled o) (cancel_result id o) IsGone
  unfolding cancel_missing
  cancel_result-IsGone none =
      Yields-bind (λ _ s. Unit {0}) _ _ (Yields-anything (get_request id)) (λ _. Yields-raise _)
  cancel_result-IsGone (some x) = Yields-pure _ (λ s p. (p, refl))

  cancel_request-IsGone : Yields (λ s. count mine s.requests ≤ 1) (cancel_request id) IsGone
  unfolding cancel_request
  cancel_request-IsGone =
      Yields-bind WasCanceled _ _
        (Yields-statement _ _ (λ s one. canceled_row s.requests _ s one refl)) cancel_result-IsGone

-- Once a cancellation has succeeded, and as long as the tables stay as they are, a run for the
-- request changes nothing, if the table held at most one row with its id.
pub canceled_never_runs :
    (deps : Deps) (id : String) (r : Request) (w v : World Db)
    → count (λ x. x.id == id) w.db.requests ≤ 1
    → (cancel_request id w).1 ≡ ok r
    → v.db ≡ (cancel_request id w).0.db
    → (process_request deps id v).0.db ≡ v.db
canceled_never_runs deps id r w v one e same =
    let gone =
      Post-ok (IsGone id) r (cancel_request id w) e ((cancel_request-IsGone id).at w one) in
    process_request_closed deps id r v (ap (λ s. find (λ x. x.id == id) s.requests) same ∙ gone.0)
      gone.1
