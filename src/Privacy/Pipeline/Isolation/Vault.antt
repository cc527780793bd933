-- ===== src/Privacy/Pipeline/Isolation/Vault.antt =====
-- The frame of steps 900 and 1000.
use dilion.Base.{
  ℕ, ◌≡◌, refl, Bool, true, false, ◌++◌, [], ◌∷◌, if◌then◌else◌, ◌&&◌, ◌==◌, List, Option, none,
  some, update_where, any, others, others-update_where, others-append, eq_refl, is_none, arith,
  Bool-cases, inl, inr,
}
use dilion.Privacy.Db.{
  Db, SubjectKey, RoleAssignment, Deps, KeyScope, default_scope, consent_scope, Tombstone,
}
use dilion.Privacy.Domain.{ErasureAction}
use dilion.Privacy.Pipeline.Common.{RunCtx}
use dilion.Privacy.Policy.{RetentionRule}
use dilion.Privacy.Pipeline.Vault.{
  key_of, destroyed, new_key, destroy_key, destroy_dek, stamp_key, consent_key, schedule_shred,
  shred_consent, step_subject_key, truncated, truncate_user, revoke_roles, register_tombstone,
  step_account,
}
use dilion.Exec.Grows.{
  IsPreorder, Grows, Grows-bind, Grows-pure, Grows-now, Grows-lift, Grows-statement,
}
use dilion.Privacy.Pipeline.Isolation.Spares.{Spares, Spares-preorder}
use dilion.Privacy.Pipeline.Isolation.Frame.{
  consent_state_leaf, profile_search_index_leaf, spares_rules, user_profiles_leaf, users_leaf,
}

module _ (deps : Deps) (rc : RunCtx) where
  abbrev R : Db → Db → Type 0
  R = Spares rc.user_id rc.request_id

  pre : IsPreorder R
  pre = Spares-preorder rc.user_id rc.request_id

  abbrev mine_key : SubjectKey → Bool
  mine_key k = k.user_id == rc.user_id

  key_claim : (sc : KeyScope) (k : SubjectKey) → key_of rc.user_id sc k ≡ true → mine_key k ≡ true
  key_claim default_scope k h = ground arith
  key_claim consent_scope k h = ground arith

  keys_leaf :
      (p : SubjectKey → Bool) (f : SubjectKey → SubjectKey) (s : Db)
      → ((k : SubjectKey) → p k ≡ true → mine_key k ≡ true)
      → ((k : SubjectKey) → (f k).user_id ≡ k.user_id)
      → R s (record s { subject_keys = update_where p f s.subject_keys })
  keys_leaf p f s claim h =
      ground (arith, others-update_where mine_key p claim f s.subject_keys (λ k e. rw (h k) e))

  destroy_key_lem :
      (sc : KeyScope) (t : ℕ) (ks : List SubjectKey)
      → others mine_key (destroy_key rc.user_id sc t ks) ≡ others mine_key ks
  destroy_key_lem sc t ks = elim (Bool-cases (any (key_of rc.user_id sc) ks)) [
    | inl held ↦ rw held (
        others-update_where mine_key (key_of rc.user_id sc) (key_claim sc) (destroyed t) ks
          (λ k e. e))
    | inr nothing ↦
        rw nothing (others-append mine_key ks (new_key rc.user_id sc t) (eq_refl rc.user_id))
  ]

  destroy_leaf :
      (sc : KeyScope) (t : ℕ) (s : Db)
      → R s (record s { subject_keys = destroy_key rc.user_id sc t s.subject_keys })
  destroy_leaf sc t s = ground (arith, destroy_key_lem sc t s.subject_keys)

  destroy_dek-Spares : (sc : KeyScope) → Grows R (destroy_dek rc.user_id sc)
  unfolding destroy_dek
  destroy_dek-Spares sc = search (Grows-bind pre, Grows-now pre, Grows-statement pre, destroy_leaf)

  stamp_key-Spares : (sc : KeyScope) → Grows R (stamp_key rc.user_id sc)
  unfolding stamp_key
  stamp_key-Spares sc =
      Grows-bind pre _ _ (Grows-now pre)
        (λ t. Grows-statement pre _ _ (λ s. keys_leaf _ _ s (key_claim sc) (λ k. refl)))

  consent_key-Spares : (rule : Option RetentionRule) → Grows R (consent_key rc rule)
  unfolding consent_key schedule_shred shred_consent
  consent_key-Spares none =
      search (Grows-bind pre, Grows-pure pre, destroy_dek-Spares, stamp_key-Spares)
  consent_key-Spares (some rule) = Grows-bind pre _ _ (Grows-lift pre _) (λ d.
      Grows-bind pre _ _ (Grows-now pre) (λ t.
        Grows-bind pre _ _
          (Grows-statement pre _ _ (λ s. keys_leaf _ _ s (λ k e. ground arith) (λ k. refl)))
          (λ _. Grows-pure pre _)))

  pub step_subject_key-Spares : (a : ErasureAction) → Grows R (step_subject_key rc a)
  unfolding step_subject_key
  step_subject_key-Spares a =
      search (spares_rules, destroy_dek-Spares, stamp_key-Spares, consent_key-Spares) depth 12

  truncate_user-Spares : Grows R (truncate_user rc)
  unfolding truncate_user
  truncate_user-Spares =
      Grows-bind pre _ _ (Grows-now pre)
        (λ t. Grows-statement pre _ _ (λ s. (users_leaf rc) (truncated t) s (λ u. refl)))

  roles_leaf :
      (f : RoleAssignment → RoleAssignment) (s : Db)
      → ((x : RoleAssignment) → (f x).actor_id ≡ x.actor_id)
      → R s (record s {
        role_assignments =
            update_where
              (λ x. x.actor_id == rc.user_id && is_none x.revoked_at)
              f
              s.role_assignments;
      })
  roles_leaf f s h = ground (
    arith,
    others-update_where (λ x. x.actor_id == rc.user_id)
        (λ x. x.actor_id == rc.user_id && is_none x.revoked_at) (λ x e. ground arith) f
        s.role_assignments (λ x e. rw (h x) e),
  )

  revoke_roles-Spares : Grows R (revoke_roles rc)
  unfolding revoke_roles
  revoke_roles-Spares =
      Grows-bind pre _ _ (Grows-now pre)
        (λ t. Grows-statement pre _ _ (λ s. roles_leaf _ s (λ x. refl)))

  -- A tombstone is only ever added.
  others-tombstone :
      (b : Bool) (t : Tombstone) (ts : List Tombstone)
      → t.request_id ≡ rc.request_id
      → others (λ e. e.request_id == rc.request_id) (if b then ts else ts ++ t ∷ [])
        ≡ others (λ e. e.request_id == rc.request_id) ts
  others-tombstone true t ts h = refl
  others-tombstone false t ts h =
      others-append (λ e. e.request_id == rc.request_id) ts t (rw h (eq_refl rc.request_id))

  registry_leaf :
      (b : Bool) (t : Tombstone) (s : Db)
      → t.request_id ≡ rc.request_id
      → R s (record s {
        erasure_registry = if b then s.erasure_registry else s.erasure_registry ++ t ∷ [];
      })
  registry_leaf b t s h = ground (arith, others-tombstone b t s.erasure_registry h)

  register_tombstone-Spares : Grows R (register_tombstone deps rc)
  unfolding register_tombstone
  register_tombstone-Spares = Grows-bind pre _ _ (Grows-now pre) (λ t. Grows-statement pre _ _ (λ s.
      registry_leaf (any (λ e. e.tombstone_id == deps.tombstone_id rc.user_id) s.erasure_registry) _
        s refl))

  pub step_account-Spares : (a : ErasureAction) → Grows R (step_account deps rc a)
  unfolding step_account
  step_account-Spares a =
      search
        (
          spares_rules,
          truncate_user-Spares,
          revoke_roles-Spares,
          register_tombstone-Spares,
          (user_profiles_leaf rc),
          (consent_state_leaf rc),
          (profile_search_index_leaf rc),
        )
        depth 20
