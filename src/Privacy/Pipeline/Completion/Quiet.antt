-- ===== src/Privacy/Pipeline/Completion/Quiet.antt =====
-- The work of the steps closes no request and takes no evidence away.
use dilion.Base.{
  ◌≡◌, refl, sym, Bool, true, false, ◌&&◌, String, ◌==◌, List, [], ◌∷◌, ◌++◌, any, update_where,
  any-update_where, arith, Bool-cases, inl, inr,
}
use dilion.Privacy.Db.{Db, Request, RequestStatus, processing, done, DestructionLog}
use dilion.Privacy.Pipeline.Common.{parked, is_open_request}
use dilion.Privacy.Pipeline.Runner.{logs, is_requested, insert_log}
use dilion.Privacy.Pipeline.Safe.Steps.{IsStepSafe}
use dilion.Exec.Grows.{IsPreorder}

abbrev pub is_done : RequestStatus → Bool
is_done done = true
is_done _ = false

abbrev pub is_closed : String → Request → Bool
is_closed id r = r.id == id && is_done r.status

module _ (i d : String) where
  pub logs-append :
      (ls : List DestructionLog) (l : DestructionLog)
      → logs i d l ≡ true
      → any (logs i d) (ls ++ l ∷ []) ≡ true
  logs-append [] l h = ground arith
  logs-append (x ∷ ls) l h = ground (arith, logs-append ls l h)

  logs-keep :
      (ls : List DestructionLog) (l : DestructionLog)
      → any (logs i d) ls ≡ true
      → any (logs i d) (ls ++ l ∷ []) ≡ true
  logs-keep [] l h = cc
  logs-keep (x ∷ ls) l h = ground (arith, logs-keep ls l)

  logs-insert_log :
      (l : DestructionLog) (ls : List DestructionLog)
      → any (logs i d) ls ≡ true
      → any (logs i d) (insert_log l ls) ≡ true
  logs-insert_log l ls h = elim (Bool-cases (any (logs l.request_id l.domain) ls)) [
    | inl known ↦ rw known h
    | inr fresh ↦ rw fresh (logs-keep ls l h)
  ]

-- No request `id` becomes DONE, and what is logged for it stays logged.
pub record Quiet (id : String) (s t : Db) : Type 0 where
  pub closed : any (is_closed id) t.requests ≡ true → any (is_closed id) s.requests ≡ true
  pub logged :
      (d : String)
      → any (logs id d) s.destruction_logs ≡ true
      → any (logs id d) t.destruction_logs ≡ true

module _ (id : String) where
  pub Quiet-preorder : IsPreorder (Quiet id)
  Quiet-preorder = record {
    same = λ s. record { closed = λ h. h; logged = λ d h. h };
    chain = λ s t u h k. record {
      closed = λ e. h.closed (k.closed e);
      logged = λ d e. k.logged d (h.logged d e);
    };
  }

  pre : IsPreorder (Quiet id)
  pre = Quiet-preorder

  -- An update of other tables.
  elsewhere :
      (s t : Db) → t.requests ≡ s.requests → t.destruction_logs ≡ s.destruction_logs → Quiet id s t
  elsewhere s t h k = record { closed = λ e. rw (sym h) e; logged = λ d e. rw k e }

  module _ (p : Request → Bool) (f : Request → Request)
      (h : (r : Request) → is_done (f r).status ≡ false) where
    reopened : (r : Request) → p r ≡ true → is_closed id (f r) ≡ true → is_closed id r ≡ true
    reopened r m e = ground (arith, h r)

    requests_leaf : (s : Db) → Quiet id s (record s { requests = update_where p f s.requests })
    requests_leaf s = record {
      closed = any-update_where p (is_closed id) f reopened s.requests;
      logged = λ d e. e;
    }

  pub Quiet-IsStepSafe : IsStepSafe (Quiet id)
  Quiet-IsStepSafe = record {
    pre = pre;
    elsewhere = elsewhere;
    parks = λ i reason.
        requests_leaf (λ r. r.id == i && is_open_request r.status) (parked reason) (λ r. refl);
    starts = λ i.
        requests_leaf (λ r. r.id == i && is_requested r.status)
          (λ r. record r { status = processing }) (λ r. refl);
    records =
        λ l s. record { closed = λ h. h; logged = λ d. logs-insert_log id d l s.destruction_logs };
  }
