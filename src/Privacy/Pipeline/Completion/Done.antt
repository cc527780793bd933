-- ===== src/Privacy/Pipeline/Completion/Done.antt =====
-- A request becomes DONE only on evidence (internal/privacy/pipeline.go).
use dilion.Base.{
  ◌≡◌, refl, sym, subst, ◌⊎◌, inl, inr, Bool, true, false, String, ◌==◌, List, [], ◌∷◌, Option,
  none, some, any, find, contains, map, select_where, arith,
}
use dilion.Exec.{World}
use dilion.Exec.Grows.{
  IsPreorder, Grows, Grows-bind, Grows-pure, Grows-if, Grows-now, Grows-query, Grows-weaken,
}
use dilion.Exec.Yields.{Yields-statement, Yields-now}
use dilion.Exec.From.{
  GrowsFrom, GrowsFrom-of_Grows, GrowsFrom-statement, GrowsFrom-bind, Grows-of_GrowsFrom,
}
use dilion.Privacy.Db.{Db, M, Deps, Request, DestructionLog}
use dilion.Privacy.Pipeline.Common.{RunCtx}
use dilion.Privacy.Pipeline.Runner.{
  ErasureStep, steps, logs, finish_run, advance, context_of, process_loaded, process_found,
  process_request, mark_done, active_hold_for, completed_domains,
}
use dilion.Privacy.Pipeline.Isolation.Run.{find-eq}
use dilion.Privacy.Pipeline.Safe.Steps.{set_manual_review-Safe, mark_processing-Safe}
use dilion.Privacy.Pipeline.Safe.Run.{run_steps-Safe, steps-AllSafe}
use dilion.Privacy.Pipeline.Completion.Quiet.{is_closed, Quiet, Quiet-IsStepSafe}
use dilion.Privacy.Pipeline.Completion.Run.{Evidenced, Known, safe, run_steps-Evidenced}

-- Evidence stays, and a request that became DONE has evidence of all steps.
pub record Settles (deps : Deps) (id : String) (s t : Db) : Type 0 where
  pub closed :
      any (is_closed id) t.requests ≡ true
      → (any (is_closed id) s.requests ≡ true) ⊎ Evidenced id (steps deps) t
  pub logged :
      (d : String)
      → any (logs id d) s.destruction_logs ≡ true
      → any (logs id d) t.destruction_logs ≡ true

pub Evidenced-grows :
    (id : String) (sts : List ErasureStep) (s t : Db)
    → ((d : String)
        → any (logs id d) s.destruction_logs ≡ true
        → any (logs id d) t.destruction_logs ≡ true)
    → Evidenced id sts s
    → Evidenced id sts t
Evidenced-grows id [] s t h e = tt
Evidenced-grows id (st ∷ rest) s t h e = (h st.domain e.0, Evidenced-grows id rest s t h e.1)

pub known_lem :
    (id d : String) (ls : List DestructionLog)
    → contains (map (λ l. l.domain) (select_where (λ l. l.request_id == id) ls)) d ≡ true
    → any (logs id d) ls ≡ true
known_lem id d [] h = cc
known_lem id d (l ∷ ls) h = ground (arith, known_lem id d ls)

module _ (deps : Deps) (id : String) where
  settled :
      (s t : Db)
      → (any (is_closed id) s.requests ≡ true) ⊎ Evidenced id (steps deps) s
      → ((d : String)
          → any (logs id d) s.destruction_logs ≡ true
          → any (logs id d) t.destruction_logs ≡ true)
      → (any (is_closed id) s.requests ≡ true) ⊎ Evidenced id (steps deps) t
  settled s t (inl c) m = inl c
  settled s t (inr e) m = inr (Evidenced-grows id (steps deps) s t m e)

  settled_before :
      (r s t : Db)
      → Settles deps id r s
      → (any (is_closed id) s.requests ≡ true) ⊎ Evidenced id (steps deps) t
      → ((d : String)
          → any (logs id d) s.destruction_logs ≡ true
          → any (logs id d) t.destruction_logs ≡ true)
      → (any (is_closed id) r.requests ≡ true) ⊎ Evidenced id (steps deps) t
  settled_before r s t h (inl c) m = elim (h.closed c) [
    | inl c' ↦ inl c'
    | inr e ↦ inr (Evidenced-grows id (steps deps) s t m e)
  ]
  settled_before r s t h (inr e) m = inr e

  Settles-preorder : IsPreorder (Settles deps id)
  Settles-preorder = record {
    same = λ s. record { closed = inl; logged = λ d h. h };
    chain = λ s t u h k. record {
      closed = λ c. settled_before s t u h (k.closed c) k.logged;
      logged = λ d e. k.logged d (h.logged d e);
    };
  }

  of_Quiet : (s t : Db) → Quiet id s t → Settles deps id s t
  of_Quiet s t q = record { closed = λ c. inl (q.closed c); logged = q.logged }

module _ (deps : Deps) (rc : RunCtx) where
  abbrev R : Db → Db → Type 0
  R = Settles deps rc.request_id

  pre : IsPreorder R
  pre = Settles-preorder deps rc.request_id

  mark_done-Settles : GrowsFrom (Evidenced rc.request_id (steps deps)) R (mark_done rc.request_id)
  unfolding mark_done
  mark_done-Settles =
      GrowsFrom-bind pre (λ _. Evidenced rc.request_id (steps deps)) _ _
        (GrowsFrom-of_Grows _ (Grows-now pre)) (Yields-now (λ t s p. p))
        (λ t.
          GrowsFrom-statement pre _ _ (λ s p. record { closed = λ c. inr p; logged = λ d e. e }))

  finish_run-Settles :
      (b : Bool)
      → GrowsFrom (λ s. b ≡ true → Evidenced rc.request_id (steps deps) s) R (finish_run deps rc b)
  unfolding finish_run
  finish_run-Settles true = record { at = λ w p. mark_done-Settles.at w (p refl) }
  finish_run-Settles false = GrowsFrom-of_Grows _ (Grows-pure pre _)

  advance-Settles : (b : Bool) → Grows R (advance deps rc b)
  unfolding advance completed_domains
  advance-Settles false = Grows-pure pre _
  advance-Settles true = Grows-of_GrowsFrom _ (
      GrowsFrom-bind pre (λ completed. Known deps rc completed) _ _
        (GrowsFrom-of_Grows _ (Grows-query pre _ _))
        (Yields-statement _ _ (λ s p d. known_lem rc.request_id d s.destruction_logs))
        (λ completed.
          GrowsFrom-bind pre _ _ _
            (GrowsFrom-of_Grows _ (
              Grows-weaken _ (of_Quiet deps rc.request_id) (
                run_steps-Safe (safe deps rc) deps rc completed (steps deps)
                  (steps-AllSafe (safe deps rc) deps rc))))
            (run_steps-Evidenced deps rc completed (steps deps)
              (steps-AllSafe (safe deps rc) deps rc))
            finish_run-Settles))

module _ (deps : Deps) (r : Request) where
  quiet : {A : Type 0} (m : M A) → Grows (Quiet r.id) m → Grows (Settles deps r.id) m
  quiet m g = Grows-weaken m (of_Quiet deps r.id) g

  process_loaded-Settles : Grows (Settles deps r.id) (process_loaded deps r)
  unfolding process_loaded active_hold_for
  process_loaded-Settles =
      let p = Settles-preorder deps r.id in
      Grows-bind p _ _ (Grows-query p _ _) (λ held.
        Grows-if p held _ _ (quiet _ (set_manual_review-Safe (Quiet-IsStepSafe r.id) r.id _)) (
          Grows-if p _ _ _ (quiet _ (set_manual_review-Safe (Quiet-IsStepSafe r.id) r.id _)) (
            Grows-bind p _ _
              (Grows-if p _ _ _ (quiet _ (mark_processing-Safe (Quiet-IsStepSafe r.id) r.id))
                (Grows-pure p _))
              (advance-Settles deps (context_of deps r)))))

  process_found-Settles : Grows (Settles deps r.id) (process_found deps (some r))
  unfolding process_found
  process_found-Settles =
      let p = Settles-preorder deps r.id in
      Grows-bind p _ _ (Grows-now p) (λ t.
        Grows-if p _ _ _ (Grows-pure p _)
          (Grows-if p _ _ _ (Grows-pure p _) process_loaded-Settles))

found-Settles :
    (deps : Deps) (id : String) (o : Option Request)
    → GrowsFrom
        (λ s. o ≡ find (λ r. r.id == id) s.requests)
        (Settles deps id)
        (process_found deps o)
unfolding process_found
found-Settles deps id none = GrowsFrom-of_Grows _ (Grows-pure (Settles-preorder deps id) _)
found-Settles deps id (some r) = record {
  at = λ v p.
      subst (λ i. Settles deps i v.db (process_found deps (some r) v).0.db)
        (find-eq id v.db.requests r (sym p)) ((process_found-Settles deps r).at v);
}

process_request-Settles :
    (deps : Deps) (id : String) → Grows (Settles deps id) (process_request deps id)
unfolding process_request
process_request-Settles deps id =
    let pre = Settles-preorder deps id in
    Grows-of_GrowsFrom _ (
      GrowsFrom-bind pre (λ o s. o ≡ find (λ r. r.id == id) s.requests) _ _
        (GrowsFrom-of_Grows _ (Grows-query pre _ _)) (Yields-statement _ _ (λ s p. refl))
        (found-Settles deps id))

not_closed : {B : Type 0} (b : Bool) → b ≡ false → (b ≡ true) ⊎ B → B
not_closed b h (inl c) = ground arith
not_closed b h (inr e) = e

-- If no request `id` is DONE before a run and one is after it, the destruction log holds an entry
-- of the request for the domain of every step of the table, whatever failed or was resumed.
pub process_request-Evidenced :
    (deps : Deps) (id : String) (w : World Db)
    → any (is_closed id) w.db.requests ≡ false
    → any (is_closed id) (process_request deps id w).0.db.requests ≡ true
    → Evidenced id (steps deps) (process_request deps id w).0.db
process_request-Evidenced deps id w before after =
    not_closed _ before (((process_request-Settles deps id).at w).closed after)
