-- ===== src/Privacy/Pipeline/Receipts.antt =====
-- Step 700 waits for every receipt (internal/privacy/pipeline.go, stepExternalSystem).
use dilion.Base.{
  ℕ, ◌≡◌, refl, sym, ◌∙◌, Bool, true, false, ◌&&◌, String, ◌==◌, List, [], ◌∷◌, ◌++◌, any, count,
  contains, ltb, Bool-cases, inl, inr, eq_refl, eq_iff, arith,
}
use dilion.Exec.{World, ok}
use dilion.Exec.Yields.{
  Yields, Post-ok, Yields-bind, Yields-anything, Yields-pure, Yields-statement, Yields-now,
  Yields-if, Yields-weaken,
}
use dilion.Privacy.Db.{Db, Note, Deps, Task, TaskStatus, pending, running, failed, completed, dead}
use dilion.Privacy.Domain.{ErasureAction}
use dilion.Privacy.Pipeline.Common.{RunCtx, Outcome, finished, halted}
use dilion.Privacy.Pipeline.Evidence.{
  task_of, is_open_task, is_dead_task, insert_task, new_task, enabled_ids, open_tasks, dead_tasks,
  fan_out, roll_up, step_external_system,
}

abbrev pub is_completed : TaskStatus → Bool
is_completed completed = true
is_completed _ = false

-- The task of a request for a destination.
abbrev pub delivers : String → String → Task → Bool
delivers id d t = t.request_id == id && t.destination_id == d

-- The destination has answered for the request.
abbrev pub is_receipt : String → String → Task → Bool
is_receipt id d t = delivers id d t && is_completed t.status

closed_completed :
    (s : TaskStatus) → is_open_task s ≡ false → is_dead_task s ≡ false → is_completed s ≡ true
closed_completed pending h k = cc
closed_completed running h k = cc
closed_completed failed h k = cc
closed_completed completed h k = refl
closed_completed dead h k = cc

module _ (id d : String) where
  inserted :
      (t : Task) (ts : List Task)
      → any (delivers id d) ts ≡ true
      → any (delivers id d) (ts ++ t ∷ []) ≡ true
  inserted t [] h = cc
  inserted t (x ∷ ts) h = ground (arith, inserted t ts)

  appended :
      (t : Task) (ts : List Task)
      → delivers id d t ≡ true
      → any (delivers id d) (ts ++ t ∷ []) ≡ true
  appended t [] h = ground arith
  appended t (x ∷ ts) h = ground (arith, appended t ts h)

  -- When no task of the request is open or dead, the one for the destination is completed.
  settled :
      (ts : List Task)
      → any (delivers id d) ts ≡ true
      → count (λ t. task_of id t && is_open_task t.status) ts ≡ 0
      → count (λ t. task_of id t && is_dead_task t.status) ts ≡ 0
      → any (is_receipt id d) ts ≡ true
  settled [] h o k = cc
  settled (t ∷ ts) h o k = ground (arith, settled ts, closed_completed t.status)

  kept :
      (t : Task) (ts : List Task)
      → any (delivers id d) ts ≡ true
      → any (delivers id d) (insert_task t ts) ≡ true
  kept t ts h = elim (Bool-cases (any (delivers t.request_id t.destination_id) ts)) [
    | inl there ↦ rw there h
    | inr fresh ↦ rw fresh (inserted t ts h)
  ]

  added :
      (t : Task) (ts : List Task)
      → t.request_id ≡ id
      → t.destination_id ≡ d
      → any (delivers id d) (insert_task t ts) ≡ true
  added t ts e e' = elim (Bool-cases (any (delivers t.request_id t.destination_id) ts)) [
    | inl there ↦ rw there (rw (sym e, sym e') there)
    | inr fresh ↦ rw fresh (appended t ts (rw (e, e', eq_refl id, eq_refl d) refl))
  ]

zero_of : (n : ℕ) → ltb 0 n ≡ false → n ≡ 0
zero_of n h = ground arith

module _ (deps : Deps) (rc : RunCtx) where
  -- The destinations of the list have a task of the request.
  abbrev AllTasked : List String → Db → Type 0
  AllTasked ds s =
      (d : String) → contains ds d ≡ true → any (delivers rc.request_id d) s.tasks ≡ true

  abbrev AreEnabled : List String → Db → Type 0
  AreEnabled ids s = enabled_ids s.destinations ≡ ids

  insert-AllTasked :
      (ds : List String) (d : String) (t : ℕ) (s : Db)
      → AllTasked ds s
      → AllTasked (d ∷ ds) (record s { tasks = insert_task (new_task deps rc d t s) s.tasks })
  insert-AllTasked ds d t s h x e = elim (Bool-cases (d == x)) [
    | inl same ↦ added rc.request_id x (new_task deps rc d t s) s.tasks refl ((eq_iff d x).0 same)
    | inr other ↦ kept rc.request_id x (new_task deps rc d t s) s.tasks (h x (ground arith))
  ]

  narrow : (ds : List String) (d : String) (s : Db) → AllTasked (d ∷ ds) s → AllTasked ds s
  narrow ds d s h x e = h x (ground arith)

  widen :
      (d : String) (acc ds : List String) (s : Db)
      → AllTasked (d ∷ acc) s
      → AllTasked ds s
      → AllTasked (d ∷ ds) s
  widen d acc ds s h k x e = elim (Bool-cases (d == x)) [
    | inl same ↦ h x (ground arith)
    | inr other ↦ k x (ground arith)
  ]

  fan_out-AllTasked :
      (ids acc ds : List String)
      → Yields
          (λ s. AreEnabled ids s × AllTasked acc s)
          (fan_out deps rc ds)
          (λ _ s. AreEnabled ids s × (AllTasked acc s × AllTasked ds s))
  unfolding fan_out
  fan_out-AllTasked ids acc [] = Yields-pure _ (λ s p. (p.0, (p.1, λ d e. cc)))
  fan_out-AllTasked ids acc (d ∷ ds) =
      Yields-bind (λ _ s. AreEnabled ids s × AllTasked acc s) _ _ (Yields-now (λ t s p. p))
        (λ t.
          Yields-bind (λ _ s. AreEnabled ids s × AllTasked (d ∷ acc) s) _ _
            (Yields-statement _ _ (λ s p. (p.0, insert-AllTasked acc d t s p.1)))
            (λ _.
              Yields-weaken _ (λ s p. p)
                (λ _ s q. (q.0, (narrow acc d s q.1.0, widen d acc ds s q.1.0 q.1.1)))
                (fan_out-AllTasked ids (d ∷ acc) ds)))

  -- The enabled destinations have answered for the request.
  abbrev pub AllAnswered : Db → Type 0
  AllAnswered s =
      (d : String)
      → contains (enabled_ids s.destinations) d ≡ true
      → any (is_receipt rc.request_id d) s.tasks ≡ true

  abbrev is_finished : Outcome → Bool
  is_finished (finished n) = true
  is_finished halted = false

  abbrev Ready : ℕ × ℕ × ℕ → Db → Type 0
  Ready c s =
      AllTasked (enabled_ids s.destinations) s
      × ((c.1 ≡ open_tasks rc.request_id s) × (c.2 ≡ dead_tasks rc.request_id s))

  answered :
      (c : ℕ × ℕ × ℕ) (s : Db) → ltb 0 c.2 ≡ false → ltb 0 c.1 ≡ false → Ready c s → AllAnswered s
  answered c s none_dead none_open r d e =
      settled rc.request_id d s.tasks (r.0 d e) (sym r.1.0 ∙ zero_of c.1 none_open)
        (sym r.1.1 ∙ zero_of c.2 none_dead)

  roll_up-AllAnswered :
      (c : ℕ × ℕ × ℕ)
      → Yields (Ready c) (roll_up deps rc c) (λ o s. is_finished o ≡ true → AllAnswered s)
  unfolding roll_up
  roll_up-AllAnswered (total, open_count, dead_count) =
      Yields-if (ltb 0 dead_count) _ _
        (λ _.
          Yields-bind (λ _ s. Unit {0}) _ _ (Yields-anything _) (λ _. Yields-pure _ (λ s p e. cc)))
        (λ none_dead.
          Yields-if (ltb 0 open_count) _ _ (λ _. Yields-pure _ (λ s p e. cc))
            (λ none_open.
              Yields-pure _
                (λ s p e. answered (total, open_count, dead_count) s none_dead none_open p)))

  step_external_system-AllAnswered :
      (a : ErasureAction)
      → Yields
          (λ s. Unit {0})
          (step_external_system deps rc a)
          (λ o s. is_finished o ≡ true → AllAnswered s)
  unfolding step_external_system
  step_external_system-AllAnswered a =
      Yields-bind (λ ids s. AreEnabled ids s) _ _ (Yields-statement _ _ (λ s p. refl))
        (λ ids.
          Yields-bind (λ _ s. AreEnabled ids s × AllTasked ids s) _ _
            (Yields-weaken _ (λ s p. (p, λ d e. cc)) (λ _ s q. (q.0, q.1.1))
              (fan_out-AllTasked ids [] ids))
            (λ _.
              Yields-bind (λ c s. Ready c s) _ _
                (Yields-statement _ _ (λ s p. (rw p.0 p.1, (refl, refl)))) roll_up-AllAnswered))

-- When step 700 finishes, every destination that is enabled has a completed task of the request.
pub step_external_system_waits :
    (deps : Deps) (rc : RunCtx) (a : ErasureAction) (note : Note) (w : World Db)
    → (step_external_system deps rc a w).1 ≡ ok (finished note)
    → AllAnswered deps rc (step_external_system deps rc a w).0.db
step_external_system_waits deps rc a note w e =
    Post-ok (λ o s. is_finished deps rc o ≡ true → AllAnswered deps rc s) (finished note)
      (step_external_system deps rc a w) e ((step_external_system-AllAnswered deps rc a).at w tt)
      refl
