-- ===== src/Privacy/Holds/Resume.antt =====
-- What a release of a hold leaves parked (internal/privacy/holds.go, ReleaseHold).
use dilion.Base.{
  ◌≡◌, refl, sym, ◌⊎◌, inl, inr, ◌∙◌, true, false, String, List, [], ◌∷◌, Option, none, some, any,
  update_where, arith,
}
use dilion.Exec.{World, ok}
use dilion.Exec.Yields.{
  Yields, Post-ok, Yields-anything, Yields-bind, Yields-pure, Yields-raise, Yields-statement,
  Yields-if, Yields-weaken, Yields-now,
}
use dilion.Privacy.Db.{Db, Request, LegalHold}
use dilion.Privacy.Pipeline.Runner.{blocks, active_hold_for}
use dilion.Privacy.Holds.Ops.{held_request, resumed, resume_requests, after_release, release_hold}

-- After a release, the person is still under a hold, or no deletion of theirs is parked by one.
abbrev pub IsResumed : LegalHold → Db → Type 0
IsResumed h s =
    (any (blocks h.user_id "") s.legal_holds ≡ true)
    ⊎ (any (held_request h.user_id) s.requests ≡ false)

all_resumed :
    (user : String) (rs : List Request)
    → any (held_request user) (update_where (held_request user) resumed rs) ≡ false
all_resumed user [] = refl
all_resumed user (r ∷ rs) = ground (arith, all_resumed user rs)

resume_requests-clears :
    (user : String)
    → Yields
        (λ s. Unit {0})
        (resume_requests user)
        (λ _ s. any (held_request user) s.requests ≡ false)
unfolding resume_requests
resume_requests-clears user = Yields-statement _ _ (λ s p. all_resumed user s.requests)

after_release-IsResumed :
    (id : String) (o : Option LegalHold) → Yields (λ s. Unit {0}) (after_release id o) IsResumed
unfolding after_release active_hold_for
after_release-IsResumed id none =
    Yields-bind (λ _ s. Unit {0}) _ _ (Yields-anything _) (λ _. Yields-raise _)
after_release-IsResumed id (some h) =
    Yields-bind (λ still s. still ≡ any (blocks h.user_id "") s.legal_holds) _ _
      (Yields-statement _ _ (λ s p. refl))
      (λ still.
        Yields-bind (λ _ s. IsResumed h s) _ _
          (Yields-if still _ _ (λ e. Yields-pure _ (λ s p. inl (sym p ∙ e)))
            (λ e. Yields-weaken _ (λ s p. tt) (λ _ s q. inr q) (resume_requests-clears h.user_id)))
          (λ _. Yields-pure _ (λ s p. p)))

release_hold-Yields : (id by : String) → Yields (λ s. Unit {0}) (release_hold id by) IsResumed
unfolding release_hold
release_hold-Yields id by =
    Yields-bind (λ _ s. Unit {0}) _ _ (Yields-now (λ t s p. tt))
      (λ t. Yields-bind (λ _ s. Unit {0}) _ _ (Yields-anything _) (after_release-IsResumed id))

-- When a hold has been released, the person is still under another one, or none of their deletions
-- is left parked for a hold.
pub release_hold-IsResumed :
    (id by : String) (h : LegalHold) (w : World Db)
    → (release_hold id by w).1 ≡ ok h
    → IsResumed h (release_hold id by w).0.db
release_hold-IsResumed id by h w e =
    Post-ok IsResumed h (release_hold id by w) e ((release_hold-Yields id by).at w tt)
