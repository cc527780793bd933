-- ===== src/Privacy/Pipeline/Gates.antt =====
-- What stops a run before it starts (internal/privacy/pipeline.go, processRequest).
use dilion.Base.{
  ◌≡◌, refl, sym, ap, ◌∙◌, subst, ◌⊎◌, inl, inr, Bool, true, false, ◌&&◌, not, String, ◌==◌, List,
  [], ◌∷◌, some, any, find, count, update_where, ltb, arith, if◌then◌else◌,
}
use dilion.Exec.{World, pure, ◌>>=◌}
use dilion.Exec.Grows.{IsPreorder}
use dilion.Exec.Yields.{Yields, Yields-statement, Yields-bind, Yields-pure}
use dilion.Exec.From.{
  GrowsFrom, GrowsFrom-bind, GrowsFrom-query, GrowsFrom-now, GrowsFrom-if, GrowsFrom-update,
  GrowsFrom-never, GrowsFrom-narrow, GrowsFrom-same,
}
use dilion.Privacy.Db.{
  Db, M, Error, Error, Deps, Request, requested, processing, pipeline_start, ReviewReason,
  legal_hold, hook_rejected,
}
use dilion.Privacy.Pipeline.Common.{set_manual_review, is_open_request, parked}
use dilion.Privacy.Pipeline.Runner.{
  blocks, active_hold_for, advance, context_of, process_loaded, process_found, process_request,
  mark_processing, is_requested,
}
use dilion.Privacy.Pipeline.Isolation.Run.{find-eq}

-- The database with the request `id` parked, if it is open.
abbrev pub park : String → ReviewReason → Db → Db
park id reason s = record s {
  requests = update_where (λ r. r.id == id && is_open_request r.status) (parked reason) s.requests;
}

-- At most the parking of the request `id`.
abbrev pub OnlyParks : String → ReviewReason → Db → Db → Type 0
OnlyParks id reason s t = (t ≡ s) ⊎ (t ≡ park id reason s)

module _ (deps : Deps) (P : Db → Type 0) (R : Db → Db → Type 0) (same : (s : Db) → R s s) where
  stop : GrowsFrom {E = Error} P R (pure tt)
  unfolding pure
  stop = record { at = λ w p. same w.db }

  -- The tests of the row come before everything else.
  process_found-GrowsFrom :
      (r : Request)
      → (is_open_request r.status ≡ true → GrowsFrom P R (process_loaded deps r))
      → GrowsFrom P R (process_found deps (some r))
  unfolding process_found
  process_found-GrowsFrom r h = GrowsFrom-now _ (λ t.
      GrowsFrom-if (not (is_open_request r.status)) _ _ (λ e. stop)
        (λ e. GrowsFrom-if (ltb t r.scheduled_at) _ _ (λ e'. stop) (λ e'. h (ground arith))))

  process_request-GrowsFrom :
      (id : String) (r : Request) (w : World Db)
      → find (λ x. x.id == id) w.db.requests ≡ some r
      → P w.db
      → GrowsFrom P R (process_found deps (some r))
      → R w.db (process_request deps id w).0.db
  unfolding process_request
  process_request-GrowsFrom id r w found p h =
      (GrowsFrom-query R same (λ s. s ≡ w.db) _ (λ db. find (λ x. x.id == id) db.requests) _
          (λ o. record {
            at = λ v q.
                subst (λ x. R v.db (process_found deps x v).0.db)
                  (sym (q.1 ∙ (ap (λ s. find (λ x. x.id == id) s.requests) q.0 ∙ found)))
                  (h.at v (subst P (sym q.0) p));
          })).at
        w refl

parks :
    {P : Db → Type 0} (id : String) (reason : ReviewReason)
    → GrowsFrom P (OnlyParks id reason) (set_manual_review id reason)
unfolding set_manual_review
parks id reason = GrowsFrom-update (λ s. inl refl) _ _ (λ s p. inr refl)

-- The person is under an active hold of all domains.
abbrev pub IsHeld : String → Db → Type 0
IsHeld user s = any (blocks user "") s.legal_holds ≡ true

module _ (deps : Deps) (r : Request) where
  held_lem :
      (held : Bool) (rest : M (Unit {0}))
      → GrowsFrom
          (λ s. IsHeld r.user_id s × (held ≡ any (blocks r.user_id "") s.legal_holds))
          (OnlyParks r.id legal_hold)
          (if held then set_manual_review r.id legal_hold else rest)
  held_lem true rest = parks r.id legal_hold
  held_lem false rest = GrowsFrom-never _ (λ s p. p.1 ∙ p.0)

  process_loaded-OnlyParks :
      GrowsFrom (IsHeld r.user_id) (OnlyParks r.id legal_hold) (process_loaded deps r)
  unfolding process_loaded active_hold_for
  process_loaded-OnlyParks =
      GrowsFrom-query (OnlyParks r.id legal_hold) (λ s. inl refl) _ _ _ _ (λ held. held_lem held _)

-- A run for a person under an active hold of all domains changes nothing but the request itself,
-- which it may park for review with the reason LEGAL_HOLD, whatever fails.
pub process_request_held :
    (deps : Deps) (id : String) (r : Request) (w : World Db)
    → find (λ x. x.id == id) w.db.requests ≡ some r
    → IsHeld r.user_id w.db
    → OnlyParks id legal_hold w.db (process_request deps id w).0.db
process_request_held deps id r w found held =
    subst (λ i. OnlyParks i legal_hold w.db (process_request deps id w).0.db)
      (find-eq id w.db.requests r found)
      (process_request-GrowsFrom deps (IsHeld r.user_id) (OnlyParks r.id legal_hold) (λ s. inl refl)
        id r w found held
        (process_found-GrowsFrom deps _ _ (λ s. inl refl) r (λ e. process_loaded-OnlyParks deps r)))

-- A run leaves a request that is neither REQUESTED nor PROCESSING, and everything else, as it is.
pub process_request_closed :
    (deps : Deps) (id : String) (r : Request) (w : World Db)
    → find (λ x. x.id == id) w.db.requests ≡ some r
    → is_open_request r.status ≡ false
    → (process_request deps id w).0.db ≡ w.db
process_request_closed deps id r w found closed =
    process_request-GrowsFrom deps (λ s. Unit) (λ s t. t ≡ s) (λ s. refl) id r w found tt
      (process_found-GrowsFrom deps _ _ (λ s. refl) r (λ e. record { at = λ v p. cc }))

module _ (deps : Deps) (r : Request) (was : r.status ≡ requested) where
  -- No open row is left under the id of the request.
  abbrev NotOpen : Db → Type 0
  NotOpen s = any (λ x. x.id == r.id && is_open_request x.status) s.requests ≡ false

  untouched :
      (p : Request → Bool) (f : Request → Request) (rs : List Request)
      → ((x : Request) → p x ≡ true → (x.id == r.id && is_open_request x.status) ≡ true)
      → any (λ x. x.id == r.id && is_open_request x.status) rs ≡ false
      → update_where p f rs ≡ rs
  untouched p f [] h e = refl
  untouched p f (x ∷ rs) h e = ground (arith, h x, untouched p f rs h)

  uncounted :
      (rs : List Request)
      → any (λ x. x.id == r.id && is_open_request x.status) rs ≡ false
      → count (λ x. x.id == r.id && is_requested x.status) rs ≡ 0
  uncounted [] e = refl
  uncounted (x ∷ rs) e = ground (arith, uncounted rs)

  abbrev Same : Db → Db → Type 0
  Same s t = t ≡ s

  Same-preorder : IsPreorder Same
  Same-preorder = record { same = λ s. refl; chain = λ s t u h k. k ∙ h }

  set_manual_review-Same :
      (reason : ReviewReason) → GrowsFrom NotOpen Same (set_manual_review r.id reason)
  unfolding set_manual_review
  set_manual_review-Same reason =
      GrowsFrom-update (λ s. refl) _ _
        (λ s p.
          ap (λ rs. record s { requests = rs })
            (untouched (λ x. x.id == r.id && is_open_request x.status) (parked reason) s.requests
              (λ x e. e) p))

  mark_processing-Same : GrowsFrom NotOpen Same (mark_processing r.id)
  unfolding mark_processing
  mark_processing-Same =
      GrowsFrom-bind Same-preorder (λ _ s. Unit {0}) _ _
        (GrowsFrom-update (λ s. refl) _ _
          (λ s p.
            ap (λ rs. record s { requests = rs })
              (untouched (λ x. x.id == r.id && is_requested x.status)
                (λ x. record x { status = processing }) s.requests (λ x e. ground arith) p)))
        (Yields-statement _ _ (λ s p. tt)) (λ n. GrowsFrom-same Same-preorder _)

  mark_processing-loses : Yields NotOpen (mark_processing r.id) (λ ours s. ours ≡ false)
  unfolding mark_processing
  mark_processing-loses =
      Yields-bind (λ n s. n ≡ 0) _ _ (Yields-statement _ _ (λ s p. uncounted s.requests p))
        (λ n. Yields-pure _ (λ s p. rw p refl))

  claim-Same : GrowsFrom NotOpen Same (
      (if is_requested r.status then mark_processing r.id else pure true) >>= λ ours.
      advance deps (context_of deps r) ours)
  unfolding advance pure
  claim-Same = rw was (
      GrowsFrom-bind Same-preorder (λ ours s. ours ≡ false) _ _ mark_processing-Same
        mark_processing-loses
        (λ ours. record {
          at = λ v p. subst (λ b. (advance deps (context_of deps r) b v).0.db ≡ v.db) (sym p) refl;
        }))

  process_loaded-Same : GrowsFrom NotOpen Same (process_loaded deps r)
  unfolding process_loaded active_hold_for
  process_loaded-Same =
      GrowsFrom-query Same (λ s. refl) _ _ _ _
        (λ held.
          GrowsFrom-narrow (λ s p. p.0)
            (GrowsFrom-if held _ _ (λ _. set_manual_review-Same legal_hold)
              (λ _.
                GrowsFrom-if (not (deps.hook_accepts (pipeline_start r.id r.user_id))) _ _
                  (λ _. set_manual_review-Same hook_rejected) (λ _. claim-Same))))

-- When a cancellation wins the race, so that the row that was loaded as REQUESTED is no longer
-- open, the rest of the run changes nothing.
pub cancellation_wins :
    (deps : Deps) (r : Request) (w : World Db)
    → r.status ≡ requested
    → any (λ x. x.id == r.id && is_open_request x.status) w.db.requests ≡ false
    → (process_loaded deps r w).0.db ≡ w.db
cancellation_wins deps r w was gone = (process_loaded-Same deps r was).at w gone
