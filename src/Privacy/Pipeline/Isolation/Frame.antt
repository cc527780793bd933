-- ===== src/Privacy/Pipeline/Isolation/Frame.antt =====
-- The steps and the updates that keep the frame of an erasure run.
use dilion.Base.{
  ◌≡◌, refl, Bool, true, if◌then◌else◌, String, ◌==◌, List, delete_where, update_where, others,
  others-delete_where, others-update_where, arith,
}
use dilion.Privacy.Db.{Db, Error, M, Request, User, Owned, ReviewReason}
use dilion.Privacy.Pipeline.Common.{owned_by, RunCtx, table_exists, set_manual_review}
use dilion.Exec.{pure, now, statement, ◌>>=◌}
use dilion.Exec.Grows.{
  Grows-if, Grows-now, IsPreorder, Grows, Grows-bind, Grows-attempt, Grows-query, Grows-pure,
  Grows-statement,
}
use dilion.Privacy.Pipeline.Isolation.Spares.{Spares, Spares-preorder}

module _ {user id : String} where
  pub table_exists-Spares : (t : String) → Grows (Spares user id) (table_exists t)
  unfolding table_exists
  table_exists-Spares t =
      Grows-bind (Spares-preorder user id) _ _
        (Grows-attempt (Spares-preorder user id) _ (Grows-query (Spares-preorder user id) _ _))
        (λ r. Grows-pure (Spares-preorder user id) _)

  pub in_order :
      {A B : Type 0} (m : M A) (f : A → M B)
      → Grows (Spares user id) m
      → ((a : A) → Grows (Spares user id) (f a))
      → Grows (Spares user id) (m >>= f)
  in_order = Grows-bind (Spares-preorder user id)

  pub either :
      {A : Type 0} (b : Bool) (m n : M A)
      → Grows (Spares user id) m
      → Grows (Spares user id) n
      → Grows (Spares user id) (if b then m else n)
  either = Grows-if (Spares-preorder user id)

  pub returns : {A : Type 0} (a : A) → Grows (Spares user id) (pure {E = Error} a)
  returns = Grows-pure (Spares-preorder user id)

  pub reads_time : Grows (Spares user id) (now {E = Error})
  reads_time = Grows-now (Spares-preorder user id)

  pub changes :
      {A : Type 0} (e : Error) (f : Db → Db × A)
      → ((s : Db) → Spares user id s (f s).0)
      → Grows (Spares user id) (statement e f)
  changes = Grows-statement (Spares-preorder user id)

  pub ruleset spares_rules = (in_order, either, returns, reads_time, table_exists-Spares, changes)

module _ (rc : RunCtx) where
  abbrev R : Db → Db → Type 0
  R = Spares rc.user_id rc.request_id

  pre : IsPreorder R
  pre = Spares-preorder rc.user_id rc.request_id

  abbrev mine : Owned → Bool
  mine = owned_by rc.user_id

  owned_lem : (xs : List Owned) → others mine (delete_where mine xs) ≡ others mine xs
  owned_lem xs = others-delete_where mine mine (λ x h. h) xs

  pub opaque_credentials_leaf :
      (s : Db) → R s (record s { opaque_credentials = delete_where mine s.opaque_credentials })
  opaque_credentials_leaf s = ground (arith, owned_lem s.opaque_credentials)

  pub refresh_tokens_leaf :
      (s : Db) → R s (record s { refresh_tokens = delete_where mine s.refresh_tokens })
  refresh_tokens_leaf s = ground (arith, owned_lem s.refresh_tokens)

  pub sessions_leaf : (s : Db) → R s (record s { sessions = delete_where mine s.sessions })
  sessions_leaf s = ground (arith, owned_lem s.sessions)

  pub oauth_consents_leaf :
      (s : Db) → R s (record s { oauth_consents = delete_where mine s.oauth_consents })
  oauth_consents_leaf s = ground (arith, owned_lem s.oauth_consents)

  pub oauth_authorizations_leaf :
      (s : Db) → R s (record s { oauth_authorizations = delete_where mine s.oauth_authorizations })
  oauth_authorizations_leaf s = ground (arith, owned_lem s.oauth_authorizations)

  pub mfa_factors_leaf : (s : Db) → R s (record s { mfa_factors = delete_where mine s.mfa_factors })
  mfa_factors_leaf s = ground (arith, owned_lem s.mfa_factors)

  pub webauthn_credentials_leaf :
      (s : Db) → R s (record s { webauthn_credentials = delete_where mine s.webauthn_credentials })
  webauthn_credentials_leaf s = ground (arith, owned_lem s.webauthn_credentials)

  pub user_profiles_leaf :
      (s : Db) → R s (record s { user_profiles = delete_where mine s.user_profiles })
  user_profiles_leaf s = ground (arith, owned_lem s.user_profiles)

  pub consent_state_leaf :
      (s : Db) → R s (record s { consent_state = delete_where mine s.consent_state })
  consent_state_leaf s = ground (arith, owned_lem s.consent_state)

  pub profile_search_index_leaf :
      (s : Db) → R s (record s { profile_search_index = delete_where mine s.profile_search_index })
  profile_search_index_leaf s = ground (arith, owned_lem s.profile_search_index)

  pub users_leaf :
      (f : User → User) (s : Db)
      → ((u : User) → (f u).id ≡ u.id)
      → R s (record s { users = update_where (λ u. u.id == rc.user_id) f s.users })
  users_leaf f s h = ground (
    arith,
    others-update_where (λ u. u.id == rc.user_id) (λ u. u.id == rc.user_id) (λ x e. e) f s.users
        (λ u e. rw (h u) e),
  )

  pub requests_leaf :
      (p : Request → Bool) (f : Request → Request) (s : Db)
      → ((r : Request) → p r ≡ true → (r.id == rc.request_id) ≡ true)
      → ((r : Request) → (f r).id ≡ r.id)
      → R s (record s { requests = update_where p f s.requests })
  requests_leaf p f s claim h = ground (
    arith,
    others-update_where (λ r. r.id == rc.request_id) p claim f s.requests (λ r e. rw (h r) e),
  )

  pub set_manual_review-Spares :
      (reason : ReviewReason) → Grows R (set_manual_review rc.request_id reason)
  unfolding set_manual_review
  set_manual_review-Spares reason =
      Grows-statement pre _ _ (λ s. requests_leaf _ _ s (λ r e. ground arith) (λ r. refl))
