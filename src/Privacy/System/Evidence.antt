-- ===== src/Privacy/System/Evidence.antt =====
-- Every DONE request has its evidence, in every state that the engine reaches.
use dilion.Base.{
  ◌≡◌, refl, subst, Bool, true, false, ◌&&◌, String, ◌==◌, List, [], ◌∷◌, ◌++◌, Option, none, some,
  any, update_where, any-update_where, both_true, eq_iff, Bool-cases, inl, inr, arith,
  if◌then◌else◌,
}
use dilion.Exec.{World}
use dilion.Exec.Grows.{
  IsPreorder, Grows, Grows-bind, Grows-pure, Grows-if, Grows-now, Grows-query, Grows-weaken,
}
use dilion.Exec.Yields.{Yields-statement, Yields-now}
use dilion.Exec.From.{
  GrowsFrom, GrowsFrom-of_Grows, GrowsFrom-statement, GrowsFrom-bind, Grows-of_GrowsFrom,
}
use dilion.Privacy.Db.{Db, M, Deps, Request, requested, done, manual_review}
use dilion.Privacy.Requests.Create.{same_key, clashes, insert_request, new_request}
use dilion.Privacy.Requests.Cancel.{cancelable, cancel}
use dilion.Privacy.Holds.Ops.{held_request, resumed}
use dilion.Privacy.Pipeline.Common.{RunCtx}
use dilion.Privacy.Pipeline.Runner.{
  steps, finish_run, advance, context_of, process_loaded, process_found, process_request, mark_done,
  active_hold_for, completed_domains, is_processing,
}
use dilion.Privacy.Pipeline.Safe.Steps.{IsStepSafe, set_manual_review-Safe, mark_processing-Safe}
use dilion.Privacy.Pipeline.Safe.Run.{run_steps-Safe, steps-AllSafe}
use dilion.Privacy.Pipeline.Completion.Quiet.{is_closed, is_done, Quiet, Quiet-IsStepSafe}
use dilion.Privacy.Pipeline.Completion.Run.{Evidenced, Known, safe, run_steps-Evidenced}
use dilion.Privacy.Pipeline.Completion.Done.{Evidenced-grows, known_lem}
use dilion.Privacy.Tasks.Delivery.{Peers}
use dilion.Privacy.System.Ops.{Operation, perform_all}
use dilion.Privacy.System.Safe.{IsServiceSafe}
use dilion.Privacy.System.Sequence.{perform_all-Safe}

-- A request that is DONE has an entry in the destruction log for every step.
abbrev pub AllEvidenced : Deps → Db → Type 0
AllEvidenced deps s =
    (id : String) → any (is_closed id) s.requests ≡ true → Evidenced id (steps deps) s

-- No request becomes DONE, and no evidence goes.
abbrev Kept : Db → Db → Type 0
Kept s t = (id : String) → Quiet id s t

Kept-IsStepSafe : IsStepSafe Kept
Kept-IsStepSafe = record {
  pre = record {
    same = λ s id. (Quiet-IsStepSafe id).pre.same s;
    chain = λ s t u h k id. (Quiet-IsStepSafe id).pre.chain s t u (h id) (k id);
  };
  elsewhere = λ s t e e' id. (Quiet-IsStepSafe id).elsewhere s t e e';
  parks = λ i reason s id. (Quiet-IsStepSafe id).parks i reason s;
  starts = λ i s id. (Quiet-IsStepSafe id).starts i s;
  records = λ l s id. (Quiet-IsStepSafe id).records l s;
}

-- Requests that are inserted or updated without becoming DONE.
requests_leaf :
    (s : Db) (rs : List Request)
    → ((id : String) → any (is_closed id) rs ≡ true → any (is_closed id) s.requests ≡ true)
    → Kept s (record s { requests = rs })
requests_leaf s rs h id = record { closed = h id; logged = λ d e. e }

reopens :
    (p : Request → Bool) (f : Request → Request) (s : Db)
    → ((r : Request) → is_done (f r).status ≡ false)
    → Kept s (record s { requests = update_where p f s.requests })
reopens p f s h =
    requests_leaf s (update_where p f s.requests)
      (λ id. any-update_where p (is_closed id) f (λ r m e. ground (arith, h r)) s.requests)

unclosed_append :
    (id : String) (rs : List Request) (r : Request)
    → is_done r.status ≡ false
    → any (is_closed id) (rs ++ r ∷ []) ≡ true
    → any (is_closed id) rs ≡ true
unclosed_append id [] r h e = ground arith
unclosed_append id (x ∷ rs) r h e = ground (arith, unclosed_append id rs r h)

insert-Kept : (r : Request) (s : Db) → is_done r.status ≡ false → Kept s (insert_request r s).0
insert-Kept r s h = elim (Bool-cases (any (λ x. x.id == r.id) s.requests)) [
  | inl same ↦ rw same (Kept-IsStepSafe.pre.same s)
  | inr fresh ↦ elim (Bool-cases (any (same_key r.idempotency_key) s.requests)) [
    | inl used ↦ rw (fresh, used) (Kept-IsStepSafe.pre.same s)
    | inr unused ↦ elim (Bool-cases (any (clashes r) s.requests)) [
      | inl active ↦ rw (fresh, unused, active) (Kept-IsStepSafe.pre.same s)
      | inr free ↦
          rw (fresh, unused, free)
            (requests_leaf s (s.requests ++ r ∷ []) (λ id. unclosed_append id s.requests r h))
    ]
  ]
]

undone : (b : Bool) → is_done (if b then manual_review else requested) ≡ false
undone true = refl
undone false = refl

module _ (deps : Deps) where
  abbrev R : Db → Db → Type 0
  R s t = AllEvidenced deps s → AllEvidenced deps t

  pre : IsPreorder R
  pre = record { same = λ s h. h; chain = λ s t u h k p. k (h p) }

  of_Kept : (s t : Db) → Kept s t → R s t
  of_Kept s t h inv id e =
      Evidenced-grows id (steps deps) s t (h id).logged (inv id ((h id).closed e))

  kept : {A : Type 0} (m : M A) → Grows Kept m → Grows R m
  kept m g = Grows-weaken m of_Kept g

  service : IsServiceSafe deps R
  service = record {
    pre = pre;
    inserts = λ input user policy_id policy t s.
        of_Kept s _ (insert-Kept (new_request deps input user policy_id policy t s) s (undone _));
    cancels = λ id s. of_Kept s _ (reopens (cancelable id) cancel s (λ r. refl));
    elsewhere = λ s t e e'. of_Kept s t (Kept-IsStepSafe.elsewhere s t e e');
    resumes = λ user s. of_Kept s _ (reopens (held_request user) resumed s (λ r. refl));
  }

  -- The request that is marked has its evidence already.
  marks :
      (id : String) (f : Request → Request) (s : Db)
      → ((r : Request) → (f r).id ≡ r.id)
      → Evidenced id (steps deps) s
      → R s (record s {
        requests = update_where (λ r. r.id == id && is_processing r.status) f s.requests;
      })
  marks id f s h has inv i e = elim (Bool-cases (id == i)) [
    | inl same ↦ subst (λ j. Evidenced j (steps deps) s) ((eq_iff id i).0 same) has
    | inr other ↦ inv i (
        any-update_where (λ r. r.id == id && is_processing r.status) (is_closed i) f
          (λ r m c. cc (
            other,
            (eq_iff r.id id).0 (both_true (r.id == id) _ m).0,
            h r,
            (both_true ((f r).id == i) _ c).0,
          ))
          s.requests e)
  ]

  -- A run, as in the proof for one request, with the invariant of all.
  module _ (rc : RunCtx) where
    mark_done-R : GrowsFrom (Evidenced rc.request_id (steps deps)) R (mark_done rc.request_id)
    unfolding mark_done
    mark_done-R =
        GrowsFrom-bind pre (λ _. Evidenced rc.request_id (steps deps)) _ _
          (GrowsFrom-of_Grows _ (Grows-now pre)) (Yields-now (λ t s p. p))
          (λ t. GrowsFrom-statement pre _ _ (λ s p.
            marks rc.request_id
              (λ r. record r { status = done; completed_at = some t; manual_review_reason = none })
              s (λ r. refl) p))

    finish_run-R :
        (b : Bool)
        → GrowsFrom
            (λ s. b ≡ true → Evidenced rc.request_id (steps deps) s)
            R
            (finish_run deps rc b)
    unfolding finish_run
    finish_run-R true = record { at = λ w p. mark_done-R.at w (p refl) }
    finish_run-R false = GrowsFrom-of_Grows _ (Grows-pure pre _)

    advance-R : (b : Bool) → Grows R (advance deps rc b)
    unfolding advance completed_domains
    advance-R false = Grows-pure pre _
    advance-R true = Grows-of_GrowsFrom _ (
        GrowsFrom-bind pre (λ completed. Known deps rc completed) _ _
          (GrowsFrom-of_Grows _ (Grows-query pre _ _))
          (Yields-statement _ _ (λ s p d. known_lem rc.request_id d s.destruction_logs))
          (λ completed.
            GrowsFrom-bind pre _ _ _
              (GrowsFrom-of_Grows _ (
                kept _ (
                  run_steps-Safe Kept-IsStepSafe deps rc completed (steps deps)
                    (steps-AllSafe Kept-IsStepSafe deps rc))))
              (run_steps-Evidenced deps rc completed (steps deps)
                (steps-AllSafe (safe deps rc) deps rc))
              finish_run-R))

  process_loaded-R : (r : Request) → Grows R (process_loaded deps r)
  unfolding process_loaded active_hold_for
  process_loaded-R r = Grows-bind pre _ _ (Grows-query pre _ _) (λ held.
      Grows-if pre held _ _ (kept _ (set_manual_review-Safe Kept-IsStepSafe r.id _)) (
        Grows-if pre _ _ _ (kept _ (set_manual_review-Safe Kept-IsStepSafe r.id _)) (
          Grows-bind pre _ _
            (Grows-if pre _ _ _ (kept _ (mark_processing-Safe Kept-IsStepSafe r.id))
              (Grows-pure pre _))
            (advance-R (context_of deps r)))))

  process_found-R : (o : Option Request) → Grows R (process_found deps o)
  unfolding process_found
  process_found-R none = Grows-pure pre _
  process_found-R (some r) = Grows-bind pre _ _ (Grows-now pre) (λ t.
      Grows-if pre _ _ _ (Grows-pure pre _)
        (Grows-if pre _ _ _ (Grows-pure pre _) (process_loaded-R r)))

  runs : (id : String) → Grows R (process_request deps id)
  unfolding process_request
  runs id = Grows-bind pre _ _ (Grows-query pre _ _) process_found-R

-- Whatever is done to the engine, in any order and with any failures, every request that is DONE
-- has an entry in the destruction log for every step of the table, if that held at the start.
pub perform_all-AllEvidenced :
    (deps : Deps) (peers : Peers) (os : List Operation) (w : World Db)
    → AllEvidenced deps w.db
    → AllEvidenced deps (perform_all deps peers os w).0.db
perform_all-AllEvidenced deps peers os w =
    (perform_all-Safe (service deps) peers (runs deps) os).at w
