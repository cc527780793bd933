-- ===== src/Iam/Escalation/GrantWrites.antt =====
-- Writes of assignments and keys, with what they add to the decisions (internal/iam/iam.go,
-- internal/iam/keys.go).
use dilion.Base.{
  ℕ, ◌≡◌, refl, subst, Bool, true, false, ◌&&◌, ◌||◌, not, String, ◌==◌, List, [], ◌∷◌, ◌++◌, some,
  any, contains, find, update_where, eq_iff, arith, Bool-cases, inl, inr, ◌⊎◌, both_true,
  all-append, all-update_where,
}
use dilion.Iam.Db.{Db, Role, ApiKey}
use dilion.Iam.Assignments.{new_assignment, insert_assignment, revocable, revoked, revoke_row}
use dilion.Iam.Keys.{insert_key}
use dilion.Iam.Authorizer.{assigned, by_role, keyed, is_allowed}
use dilion.Iam.Escalation.Gains.{
  any-gain, any-update_gain, any-append_gain, key_gain, keyed_scope, decision_gain,
}
use dilion.Iam.Escalation.Clean.{distinct_ids, trimmed_key}
use dilion.Iam.Escalation.Writes.{Contained, HeldBy, AllHeldBy}

module _ (group : String → Bool) where
  -- Assignments that change, while roles and keys stay.
  assignments_gain :
      (s t : Db) (p : String)
      → t.api_keys ≡ s.api_keys
      → ((actor : String)
          → by_role actor p t ≡ true
          → (by_role actor p s ≡ true) ⊎ HeldBy group s p)
      → (time : ℕ) (y : String) → is_allowed time y p t ≡ true
      → (is_allowed time y p s ≡ true) ⊎ HeldBy group s p
  assignments_gain s t p keys by_roles time y = decision_gain s t p by_roles time y (λ h.
      any-gain (keyed time y p s) (keyed time y p t) (key_gain s t p by_roles time y) s.api_keys
        (subst (λ ks. any (keyed time y p t) ks ≡ true) keys h))

  none_with :
      (id p : String) (rs : List Role)
      → any (λ z. z.id == id) rs ≡ false
      → any (λ z. z.id == id && contains z.permissions p) rs ≡ false
  none_with id p [] h = refl
  none_with id p (z ∷ rs) h = ground (arith, none_with id p rs)

  head_role :
      (id p : String) (x r : Role) (rs : List Role)
      → distinct_ids (x ∷ rs) ≡ true
      → (x.id == id) ≡ true
      → x ≡ r
      → (contains x.permissions p || any (λ z. z.id == id && contains z.permissions p) rs) ≡ true
      → contains r.permissions p ≡ true
  head_role id p x r rs d here e h =
      let free = (both_true (not (any (λ z. z.id == x.id) rs)) (distinct_ids rs) d).0 in
      let unique : any (λ z. z.id == id) rs ≡ false =
        subst (λ i. any (λ z. z.id == i) rs ≡ false) ((eq_iff x.id id).0 here) (ground arith) in
      subst (λ (r : Role). contains r.permissions p ≡ true) e
        (ground (arith, none_with id p rs unique))

  -- The role with this id is the one that was found.
  found_role :
      (id p : String) (rs : List Role) (r : Role)
      → distinct_ids rs ≡ true
      → find (λ x. x.id == id) rs ≡ some r
      → any (λ x. x.id == id && contains x.permissions p) rs ≡ true
      → contains r.permissions p ≡ true
  found_role id p [] r d f h = cc
  found_role id p (x ∷ rs) r d f h = elim (Bool-cases (x.id == id)) [
    | inl here ↦ head_role id p x r rs d here (ground arith) (rw here at h)
    | inr there ↦
        found_role id p rs r (both_true (not (any (λ z. z.id == x.id) rs)) (distinct_ids rs) d).1
          (rw there at f) (rw there at h)
  ]

  pub grant_leaf :
      (role actor by : String) (r : Role) (t : ℕ) (s : Db)
      → find (λ x. x.id == role) s.roles ≡ some r
      → AllHeldBy group r.permissions s
      → Contained group s (insert_assignment role actor by t s).0
  grant_leaf role actor by r t s f held c = (
    record { ids = c.ids; roles = c.roles; keys = c.keys },
    λ time y p.
        assignments_gain s (insert_assignment role actor by t s).0 p refl
          (λ y'.
            any-append_gain (assigned y' p s.roles) (new_assignment role actor by s.next_id t)
              (λ e. held p (
                found_role role p s.roles r c.ids f
                  (both_true (actor == y')
                    (any (λ x. x.id == role && contains x.permissions p) s.roles) e).1))
              s.assignments)
          time y,
  )

  pub revoke_leaf :
      (id : ℕ) (by : String) (t : ℕ) (s : Db) → Contained group s (revoke_row id by t s).0
  revoke_leaf id by t s c = (
    record { ids = c.ids; roles = c.roles; keys = c.keys },
    λ time y p.
        assignments_gain s (revoke_row id by t s).0 p refl
          (λ y'.
            any-update_gain (assigned y' p s.roles) (revocable id) (revoked by t)
              (λ a hit e. inl (ground arith)) s.assignments)
          time y,
  )

  -- Keys that change, while roles and assignments stay.
  keys_gain :
      (s : Db) (ks : List ApiKey) (p : String) (time : ℕ) (y : String)
      → (any (keyed time y p (record s { api_keys = ks })) ks ≡ true
          → (any (keyed time y p (record s { api_keys = ks })) s.api_keys ≡ true)
            ⊎ HeldBy group s p)
      → is_allowed time y p (record s { api_keys = ks }) ≡ true
      → (is_allowed time y p s ≡ true) ⊎ HeldBy group s p
  keys_gain s ks p time y back =
      let t = record s { api_keys = ks } in
      decision_gain s t p (λ y' e. inl e) time y
        (λ h. elim (back h) [
          | inl e ↦
              any-gain (keyed time y p s) (keyed time y p t)
                (key_gain s t p (λ y' e'. inl e') time y) s.api_keys e
          | inr g ↦ inr g
        ])

  pub issue_leaf :
      (k : ApiKey) (s : Db)
      → trimmed_key k ≡ true
      → AllHeldBy group k.scopes s
      → Contained group s (insert_key k s).0
  issue_leaf k s ok held c = elim (Bool-cases (any (λ x. x.id == k.id) s.api_keys)) [
    | inl used ↦ rw used (c, λ time y p e. inl e)
    | inr fresh ↦ elim (Bool-cases (any (λ x. x.key_hash == k.key_hash) s.api_keys)) [
      | inl known ↦ rw (fresh, known) (c, λ time y p e. inl e)
      | inr new ↦
          rw (fresh, new)
            (
              record {
                ids = c.ids;
                roles = c.roles;
                keys = all-append trimmed_key s.api_keys k c.keys ok;
              },
              λ time y p. keys_gain s (s.api_keys ++ k ∷ []) p time y (
                  any-append_gain (keyed time y p (record s { api_keys = s.api_keys ++ k ∷ [] })) k
                    (λ e. held p (keyed_scope time y p _ k e)) s.api_keys),
            )
    ]
  ]

  pub keys_leaf :
      (u : ApiKey → Bool) (f : ApiKey → ApiKey) (s : Db)
      → ((time : ℕ) (y p : String) (t : Db) (k : ApiKey)
          → u k ≡ true
          → keyed time y p t (f k) ≡ true
          → keyed time y p t k ≡ true)
      → ((k : ApiKey) → (f k).scopes ≡ k.scopes)
      → Contained group s (record s { api_keys = update_where u f s.api_keys })
  keys_leaf u f s back same c = (
    record {
      ids = c.ids;
      roles = c.roles;
      keys = all-update_where trimmed_key u f (λ k e. rw (same k) e) s.api_keys c.keys;
    },
    λ time y p. keys_gain s (update_where u f s.api_keys) p time y (
        any-update_gain (keyed time y p (record s { api_keys = update_where u f s.api_keys })) u f
          (λ k hit e. inl (back time y p _ k hit e)) s.api_keys),
  )
