-- ===== src/Privacy/Pipeline/Isolation/Evidence.antt =====
-- The frame of steps 700 and 800.
use dilion.Base.{
  ℕ, ◌≡◌, refl, Bool, true, false, ◌||◌, ◌==◌, ◌&&◌, String, List, [], ◌∷◌, none, delete_where,
  update_where, others, others-delete_where, others-update_where, others-append, eq_refl, arith,
}
use dilion.Privacy.Db.{Db, Task, AuditEvent, AuditSubject, Deps}
use dilion.Privacy.Domain.{ErasureAction}
use dilion.Privacy.Pipeline.Common.{RunCtx}
use dilion.Privacy.Pipeline.Evidence.{
  task_of, acted_by, performed, has_origin, delete_events, blank_events, step_audit_log,
  insert_task, roll_up, new_task, fan_out, step_external_system,
}
use dilion.Exec.Grows.{
  IsPreorder, Grows, Grows-bind, Grows-query, Grows-pure, Grows-now, Grows-statement,
}
use dilion.Privacy.Pipeline.Isolation.Spares.{Spares, Spares-preorder, events_change, subject_of}
use dilion.Privacy.Pipeline.Isolation.Frame.{set_manual_review-Spares, spares_rules}

or_true : (a b : Bool) → b ≡ true → (a || b) ≡ true
or_true true b h = refl
or_true false b h = h

module _ (deps : Deps) (rc : RunCtx) where
  abbrev R : Db → Db → Type 0
  R = Spares rc.user_id rc.request_id

  pre : IsPreorder R
  pre = Spares-preorder rc.user_id rc.request_id

  -- Fewer events, and no other ones, were performed by the person.
  performed-delete :
      (es : List AuditEvent) (x : AuditSubject)
      → performed rc.user_id (delete_where (acted_by rc.user_id) es) x ≡ true
      → performed rc.user_id es x ≡ true
  performed-delete [] x h = h
  performed-delete (e ∷ es) x h = ground (arith, performed-delete es x)

  performed-blank :
      (es : List AuditEvent) (x : AuditSubject)
      → performed rc.user_id
          (update_where
            (λ e. acted_by rc.user_id e && has_origin e)
            (λ e. record e { ip = none; user_agent = none })
            es)
          x
        ≡ true
      → performed rc.user_id es x ≡ true
  performed-blank [] x h = h
  performed-blank (e ∷ es) x h = ground (arith, performed-blank es x)

  events_leaf :
      (s : Db) → R s (record s { audit_events = delete_where (acted_by rc.user_id) s.audit_events })
  events_leaf s =
      events_change rc.user_id rc.request_id (delete_where (acted_by rc.user_id) s.audit_events) s
        (others-delete_where (acted_by rc.user_id) (acted_by rc.user_id) (λ x h. h) s.audit_events)
        (performed-delete s.audit_events)

  blank_leaf :
      (s : Db)
      → R s (record s {
        audit_events =
            update_where
              (λ e. acted_by rc.user_id e && has_origin e)
              (λ e. record e { ip = none; user_agent = none })
              s.audit_events;
      })
  blank_leaf s =
      events_change rc.user_id rc.request_id _ s
        (others-update_where (acted_by rc.user_id) (λ e. acted_by rc.user_id e && has_origin e)
          (λ x h. ground arith) (λ e. record e { ip = none; user_agent = none }) s.audit_events
          (λ x h. h))
        (performed-blank s.audit_events)

  manifest_leaf :
      (p : AuditSubject → Bool) (s : Db)
      → ((x : AuditSubject) → p x ≡ true → subject_of rc.user_id s.audit_events x ≡ true)
      → R s (record s { audit_subjects = delete_where p s.audit_subjects })
  manifest_leaf p s claim =
      ground
        (arith, others-delete_where (subject_of rc.user_id s.audit_events) p claim s.audit_subjects)

  about_leaf :
      (s : Db)
      → R s (record s {
        audit_subjects = delete_where (λ x. x.subject_id == rc.user_id) s.audit_subjects;
      })
  about_leaf s = manifest_leaf _ s (λ x e. ground arith)

  performed_leaf :
      (s : Db)
      → R s (record s {
        audit_subjects = delete_where (performed rc.user_id s.audit_events) s.audit_subjects;
      })
  performed_leaf s = manifest_leaf _ s (λ x e. or_true (x.subject_id == rc.user_id) _ e)

  delete_events-Spares : (n : ℕ) → Grows R (delete_events rc n)
  unfolding delete_events
  delete_events-Spares n = search (spares_rules, performed_leaf, events_leaf) depth 12

  blank_events-Spares : (n : ℕ) → Grows R (blank_events rc n)
  unfolding blank_events
  blank_events-Spares n = search (spares_rules, blank_leaf) depth 12

  pub step_audit_log-Spares : (a : ErasureAction) → Grows R (step_audit_log rc a)
  unfolding step_audit_log
  step_audit_log-Spares a =
      search (spares_rules, about_leaf, delete_events-Spares, blank_events-Spares) depth 14

  roll_up-Spares : (c : ℕ × ℕ × ℕ) → Grows R (roll_up deps rc c)
  unfolding roll_up
  roll_up-Spares (total, open_count, dead_count) =
      search (spares_rules, (set_manual_review-Spares rc)) depth 12

  insert_task_lem :
      (t : Task) (ts : List Task)
      → t.request_id ≡ rc.request_id
      → others (task_of rc.request_id) (insert_task t ts) ≡ others (task_of rc.request_id) ts
  insert_task_lem t ts h =
      ground (arith, others-append (task_of rc.request_id) ts t (rw h (eq_refl rc.request_id)))

  fan_out_leaf :
      (d : String) (t : ℕ) (s : Db)
      → R s (record s { tasks = insert_task (new_task deps rc d t s) s.tasks })
  fan_out_leaf d t s = ground (arith, insert_task_lem (new_task deps rc d t s) s.tasks refl)

  fan_out-Spares : (ds : List String) → Grows R (fan_out deps rc ds)
  unfolding fan_out
  fan_out-Spares [] = Grows-pure pre _
  fan_out-Spares (d ∷ ds) = Grows-bind pre _ _ (Grows-now pre) (λ t.
      Grows-bind pre _ _ (Grows-statement pre _ _ (fan_out_leaf d t)) (λ _. fan_out-Spares ds))

  pub step_external_system-Spares : (a : ErasureAction) → Grows R (step_external_system deps rc a)
  unfolding step_external_system
  step_external_system-Spares a =
      search (Grows-bind pre, Grows-query pre, fan_out-Spares, roll_up-Spares) depth 12
