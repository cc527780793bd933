-- ===== src/Iam/Escalation/Writes.antt =====
-- Each write of permissions and roles adds to the decisions only what the group holds, where its
-- callers passed the ceiling (internal/iam/iam.go).
use dilion.Base.{
  ℕ, ◌≡◌, refl, sym, subst, ◌∙◌, Bool, true, false, String, ◌==◌, List, [], ◌∷◌, ◌++◌, any, all,
  contains, update_where, eq_iff, arith, Bool-cases, inl, inr, ◌⊎◌, both_true, all-append,
  all-update_where,
}
use dilion.Exec.Grows.{IsPreorder}
use dilion.Iam.Db.{Db, Role, Assignment, Permission}
use dilion.Iam.Roles.{dedupe, custom, insert_permission, insert_role, set_permissions}
use dilion.Iam.Assignments.{grants}
use dilion.Iam.Authorizer.{assigned, by_role, keyed, is_allowed}
use dilion.Iam.Escalation.Ceiling.{Held}
use dilion.Iam.Escalation.Gains.{
  any-gain, any-update_gain, any-append_gain, key_gain, decision_gain, assigned_gain,
}
use dilion.Iam.Escalation.Clean.{
  IsClean, is_trimmed, distinct_ids, trimmed_role, dedupe-Source, allowed-trimmed,
}

module _ (group : String → Bool) where
  -- Someone of the group is granted the permission.
  abbrev pub HeldBy : Db → String → Type 0
  HeldBy s p = (x : String) × (group x ≡ true) × Held s x p

  abbrev pub NoGain : Db → Db → Type 0
  NoGain s t =
      (time : ℕ) (y p : String)
      → is_allowed time y p t ≡ true
      → (is_allowed time y p s ≡ true) ⊎ HeldBy s p

  abbrev pub Contained : Db → Db → Type 0
  Contained s t = IsClean s → IsClean t × NoGain s t

  held_back : (s t : Db) (p : String) → NoGain s t → HeldBy t p → HeldBy s p
  held_back s t p h (x, g, (time, e)) = elim (h time x p e) [
    | inl e' ↦ (x, g, (time, e'))
    | inr held ↦ held
  ]

  chained : (s t u : Db) → NoGain s t → NoGain t u → NoGain s u
  chained s t u h k time y p e = elim (k time y p e) [
    | inl e' ↦ h time y p e'
    | inr held ↦ inr (held_back s t p h held)
  ]

  pub Contained-preorder : IsPreorder Contained
  Contained-preorder = record {
    same = λ s c. (c, λ time y p e. inl e);
    chain = λ s t u h k c. ((k (h c).0).0, chained s t u (h c).1 (k (h c).0).1);
  }

  abbrev pub AllHeldBy : List String → Db → Type 0
  AllHeldBy ps s = (p : String) → contains ps p ≡ true → HeldBy s p

  -- What is held is trimmed, so that the deduplicated list is held too.
  pub dedupe-AllHeldBy :
      (ps : List String) (s : Db) → IsClean s → AllHeldBy ps s → AllHeldBy (dedupe ps) s
  dedupe-AllHeldBy ps s c h p k =
      let (q, m, e) = dedupe-Source ps p k in
      let held = h q m in
      subst (HeldBy s) (sym (allowed-trimmed q held.2.0 held.0 s c held.2.1) ∙ e) held

  -- Writes that change neither roles nor assignments nor keys.
  pub same_decision :
      (s t : Db) (p : String)
      → ((actor : String) → by_role actor p t ≡ true → by_role actor p s ≡ true)
      → t.api_keys ≡ s.api_keys
      → (time : ℕ) (y : String) → is_allowed time y p t ≡ true
      → (is_allowed time y p s ≡ true) ⊎ HeldBy s p
  same_decision s t p roles keys time y =
      decision_gain s t p (λ actor h. inl (roles actor h)) time y
        (λ h.
          any-gain (keyed time y p s) (keyed time y p t)
            (key_gain s t p (λ actor e. inl (roles actor e)) time y) s.api_keys
            (subst (λ ks. any (keyed time y p t) ks ≡ true) keys h))

  pub register_leaf : (x : Permission) (s : Db) → Contained s (insert_permission x s).0
  register_leaf x s c = elim (Bool-cases (any (λ q. q.name == x.name) s.permissions)) [
    | inl old ↦ rw old (c, λ time y p e. inl e)
    | inr new ↦ rw new (
      record { ids = c.ids; roles = c.roles; keys = c.keys },
      λ time y p. same_decision s _ p (λ actor h. h) refl time y,
    )
  ]

  -- Roles that change, while assignments and keys stay.
  pub roles_gain :
      (s : Db) (rs : List Role) (p : String)
      → ((a : Assignment)
          → any (grants p a) rs ≡ true
          → (any (grants p a) s.roles ≡ true) ⊎ HeldBy s p)
      → (time : ℕ) (y : String) → is_allowed time y p (record s { roles = rs }) ≡ true
      → (is_allowed time y p s ≡ true) ⊎ HeldBy s p
  roles_gain s rs p back time y =
      let t = record s { roles = rs } in
      let by_roles = λ (actor : String).
        any-gain (assigned actor p s.roles) (assigned actor p rs)
          (λ a. assigned_gain p actor s.roles rs a (back a)) s.assignments in
      decision_gain s t p by_roles time y
        (any-gain (keyed time y p s) (keyed time y p t) (key_gain s t p by_roles time y) s.api_keys)

  pub any_id :
      (r x : Role) (rs : List Role)
      → (x.id == r.id) ≡ false
      → any (λ z. z.id == r.id) rs ≡ false
      → any (λ z. z.id == r.id) (rs ++ x ∷ []) ≡ false
  any_id r x [] h k = ground arith
  any_id r x (z ∷ rs) h k = ground (arith, any_id r x rs)

  pub distinct-append :
      (rs : List Role) (r : Role)
      → distinct_ids rs ≡ true
      → any (λ x. x.id == r.id) rs ≡ false
      → distinct_ids (rs ++ r ∷ []) ≡ true
  distinct-append [] r h k = refl
  distinct-append (x ∷ rs) r h k =
      ground (arith, any_id x r rs, distinct-append rs r, eq_iff x.id r.id, eq_iff r.id x.id)

  pub add_leaf :
      (r : Role) (s : Db)
      → trimmed_role r ≡ true
      → AllHeldBy r.permissions s
      → Contained s (insert_role r s).0
  add_leaf r s ok held c = elim (Bool-cases (any (λ q. q.name == r.name) s.roles)) [
    | inl old ↦ rw old (c, λ time y p e. inl e)
    | inr new ↦ elim (Bool-cases (any (λ q. q.id == r.id) s.roles)) [
      | inl used ↦ rw (new, used) (c, λ time y p e. inl e)
      | inr fresh ↦
          rw (new, fresh)
            (
              record {
                ids = distinct-append s.roles r c.ids fresh;
                roles = all-append trimmed_role s.roles r c.roles ok;
                keys = c.keys;
              },
              λ time y p.
                  roles_gain s (s.roles ++ r ∷ []) p
                    (λ a.
                      any-append_gain (grants p a) r
                        (λ e. held p (both_true (r.id == a.role_id) (contains r.permissions p) e).1)
                        s.roles)
                    time y,
            )
    ]
  ]

  module _ (id : String) (ps : List String) where
    abbrev with_permissions : Role → Role
    with_permissions r = record r { permissions = ps }

    same_ids :
        (x : Role) (rs : List Role)
        → any (λ z. z.id == x.id) (update_where (custom id) with_permissions rs)
          ≡ any (λ z. z.id == x.id) rs
    same_ids x [] = refl
    same_ids x (z ∷ rs) = ground (arith, same_ids x rs)

    distinct-update :
        (rs : List Role)
        → distinct_ids (update_where (custom id) with_permissions rs) ≡ distinct_ids rs
    distinct-update [] = refl
    distinct-update (x ∷ rs) = ground (arith, same_ids x rs, distinct-update rs)

    pub change_leaf :
        (s : Db)
        → all is_trimmed ps ≡ true
        → AllHeldBy ps s
        → Contained s (set_permissions id ps s).0
    change_leaf s ok held c = elim (Bool-cases (any (custom id) s.roles)) [
      | inl found ↦ rw found (
        record {
          ids = distinct-update s.roles ∙ c.ids;
          roles =
              all-update_where trimmed_role (custom id) with_permissions (λ r e. ok) s.roles
                c.roles;
          keys = c.keys;
        },
        λ time y p.
            roles_gain s (update_where (custom id) with_permissions s.roles) p
              (λ a.
                any-update_gain (grants p a) (custom id) with_permissions
                  (λ r hit e. inr (held p (both_true (r.id == a.role_id) (contains ps p) e).1))
                  s.roles)
              time y,
      )
      | inr missing ↦ rw missing (c, λ time y p e. inl e)
    ]
