-- ===== src/Iam/Escalation/Grants.antt =====
-- The operations that grant, where the group holds what is granted (internal/iam/iam.go and
-- internal/iam/keys.go).
use dilion.Base.{
  ℕ, ◌≡◌, refl, sym, subst, Bool, true, String, ◌==◌, List, Option, none, some, any, all, contains,
  find, if◌then◌else◌,
}
use dilion.Exec.{ok, pure, raise, lift, ◌>>=◌}
use dilion.Exec.Grows.{
  Grows, Grows-pure, Grows-raise, Grows-lift, Grows-query, Grows-if, Grows-bind,
}
use dilion.Exec.Yields.{
  Yields, Yields-pure, Yields-raise, Yields-statement, Yields-if, Yields-bind, Yields-lift,
  Yields-anything, Yields-weaken,
}
use dilion.Exec.From.{
  GrowsFrom, GrowsFrom-of_Grows, GrowsFrom-statement, GrowsFrom-bind, Yields-query,
}
use dilion.Iam.Db.{
  Db, M, Error, Deps, Role, invalid, conflict, database, resolve_pool, owner_only_permissions,
}
use dilion.Iam.Roles.{
  dedupe, is_empty, role_permissions, create_role, found, get_role, set_permissions, update_role,
}
use dilion.Iam.Assignments.{grant_missing, grant_role}
use dilion.Iam.Keys.{scope_allowed, create_scoped, create_key}
use dilion.Iam.Safe.Rules.{timed, writes, get_role-Safe, role_permissions-Safe}
use dilion.Iam.Escalation.Clean.{IsClean, is_trimmed, dedupe-trimmed}
use dilion.Iam.Escalation.Writes.{
  Contained, Contained-preorder, AllHeldBy, dedupe-AllHeldBy, add_leaf, change_leaf,
}
use dilion.Iam.Escalation.GrantWrites.{grant_leaf, issue_leaf}

-- Reads hand on what is known, and what they read.
module _ {P : Db → Type 0} where
  pool_keeps : Yields P resolve_pool (λ _. P)
  pool_keeps = Yields-statement database _ (λ s p. p)

  guard_keeps : (b : Bool) (e : Error) → Yields P (if b then raise e else pure tt) (λ _. P)
  guard_keeps b e = Yields-if b _ _ (λ x. Yields-raise e) (λ x. Yields-pure tt (λ s p. p))

  found_keeps :
      (id : String) (o : Option Role)
      → Yields
          (λ s. P s × (o ≡ find (λ r. r.id == id) s.roles))
          (lift (found o))
          (λ r s. P s × (find (λ r. r.id == id) s.roles ≡ some r))
  unfolding lift
  found_keeps id none = record { at = λ w p. tt }
  found_keeps id (some r) = Yields-lift (ok r) (λ a s e p. (p.0, cc))

  pub get_role-found :
      (id : String)
      → Yields P (get_role id) (λ r s. P s × (find (λ r. r.id == id) s.roles ≡ some r))
  unfolding get_role
  get_role-found id =
      Yields-bind (λ _. P) _ _ pool_keeps
        (λ _.
          Yields-bind (λ o s. P s × (o ≡ find (λ r. r.id == id) s.roles)) _ _
            (Yields-query database _) (found_keeps id))

  vetted_keeps :
      (perms known : List String)
      → Yields P
          (if all (contains known) perms then pure perms else raise invalid)
          (λ x s. P s × (x ≡ perms))
  vetted_keeps perms known =
      Yields-if (all (contains known) perms) _ _ (λ e. Yields-pure perms (λ s p. (p, refl)))
        (λ e. Yields-raise invalid)

  role_permissions-dedupe :
      (ps : List String) → Yields P (role_permissions ps) (λ x s. P s × (x ≡ dedupe ps))
  unfolding role_permissions
  role_permissions-dedupe ps =
      let perms = dedupe ps in
      Yields-if (is_empty perms) _ _ (λ e. Yields-raise invalid)
        (λ e.
          Yields-if (any (contains owner_only_permissions) perms) _ _ (λ e'. Yields-raise invalid)
            (λ free.
              Yields-bind (λ known. P) _ _ (Yields-statement database _ (λ s p. p))
                (vetted_keeps perms)))

module _ (group : String → Bool) where
  abbrev R : Db → Db → Type 0
  R = Contained group

  -- A read, and the rest with what it establishes.
  pub reading :
      {P : Db → Type 0} {A B : Type 0} (Q : A → Db → Type 0) (m : M A) (f : A → M B)
      → Grows R m
      → Yields P m Q
      → ((a : A) → GrowsFrom (Q a) R (f a))
      → GrowsFrom P R (m >>= f)
  reading Q m f g y h = GrowsFrom-bind (Contained-preorder group) Q m f (GrowsFrom-of_Grows m g) y h

  pool_reads : Grows R resolve_pool
  pool_reads = Grows-query (Contained-preorder group) database (λ s. tt)

  guard_reads : (b : Bool) (e : Error) → Grows R (if b then raise e else pure tt)
  guard_reads b e =
      Grows-if (Contained-preorder group) b _ _ (Grows-raise (Contained-preorder group) e)
        (Grows-pure (Contained-preorder group) tt)

  -- The list that was checked and deduplicated is held by the group.
  vetted :
      (ps perms : List String) (s : Db)
      → AllHeldBy group ps s × (perms ≡ dedupe ps)
      → IsClean s
      → (all is_trimmed perms ≡ true) × AllHeldBy group perms s
  vetted ps perms s v c =
      subst (λ xs. (all is_trimmed xs ≡ true) × AllHeldBy group xs s) (sym v.1)
        (dedupe-trimmed ps, dedupe-AllHeldBy group ps s c v.0)

  pub create_role-Contained :
      (deps : Deps) (name : String) (ps : List String)
      → GrowsFrom (AllHeldBy group ps) R (create_role deps name ps)
  unfolding create_role
  create_role-Contained deps name ps =
      let P = AllHeldBy group ps in
      reading (λ _. P) _ _ pool_reads pool_keeps
        (λ _.
          reading (λ _. P) _ _ (guard_reads _ _) (guard_keeps _ _)
            (λ _.
              reading (λ x s. P s × (x ≡ dedupe ps)) _ _
                (role_permissions-Safe (Contained-preorder group) ps) (role_permissions-dedupe ps)
                (λ perms. timed (Contained-preorder group) _ (λ t.
                  writes (Contained-preorder group) _ _
                    (λ s v c. let h = vetted ps perms s v c in add_leaf group _ s h.0 h.1 c)))))

  pub update_role-Contained :
      (id : String) (ps : List String) → GrowsFrom (AllHeldBy group ps) R (update_role id ps)
  unfolding update_role
  update_role-Contained id ps =
      let P = AllHeldBy group ps in
      reading (λ _. P) _ _ pool_reads pool_keeps
        (λ _.
          reading (λ _. P) _ _ (get_role-Safe (Contained-preorder group) id)
            (Yields-weaken _ (λ s p. p) (λ r s p. p.0) (get_role-found id))
            (λ cur.
              reading (λ _. P) _ _ (guard_reads _ _) (guard_keeps _ _)
                (λ _.
                  reading (λ x s. P s × (x ≡ dedupe ps)) _ _
                    (role_permissions-Safe (Contained-preorder group) ps)
                    (role_permissions-dedupe ps)
                    (λ perms.
                      GrowsFrom-bind (Contained-preorder group) (λ _ s. Unit {0}) _ _
                        (GrowsFrom-statement (Contained-preorder group) database
                          (set_permissions id perms)
                          (λ s v c.
                            let h = vetted ps perms s v c in
                            change_leaf group id perms s h.0 h.1 c))
                        (Yields-anything _)
                        (λ r. GrowsFrom-of_Grows _ (
                          Grows-bind (Contained-preorder group) _ _
                            (Grows-lift (Contained-preorder group) r)
                            (λ _. Grows-pure (Contained-preorder group) _)))))))

  -- What is known when a role is granted.
  abbrev pub MayGrant : String → Role → Db → Type 0
  MayGrant id r s = AllHeldBy group r.permissions s × (find (λ x. x.id == id) s.roles ≡ some r)

  grant_missing-Contained :
      (id actor by : String) (r : Role) → GrowsFrom (MayGrant id r) R (grant_missing id actor by)
  unfolding grant_missing
  grant_missing-Contained id actor by r =
      reading (λ _. MayGrant id r) _ _ (Grows-query (Contained-preorder group) database _)
        (Yields-statement database _ (λ s p. p))
        (λ active.
          reading (λ _. MayGrant id r) _ _ (guard_reads active conflict)
            (guard_keeps active conflict)
            (λ _. timed (Contained-preorder group) _ (λ t.
              GrowsFrom-statement (Contained-preorder group) database _
                (λ s v. grant_leaf group id actor by r t s v.1 v.0))))

  pub grant_role-Contained :
      (id actor by : String) (r : Role) → GrowsFrom (MayGrant id r) R (grant_role id actor by)
  unfolding grant_role
  grant_role-Contained id actor by r =
      reading (λ _. MayGrant id r) _ _ pool_reads pool_keeps
        (λ _.
          reading (λ _. MayGrant id r) _ _ (guard_reads _ _) (guard_keeps _ _)
            (λ _.
              reading (λ _. MayGrant id r) _ _ (get_role-Safe (Contained-preorder group) id)
                (Yields-weaken _ (λ s p. p) (λ x s p. p.0) (get_role-found id))
                (λ x. grant_missing-Contained id actor by r)))

  create_scoped-Contained :
      (deps : Deps) (name : String) (ps : List String) (expires : Option ℕ) (by by_type : String)
      (t : ℕ)
      → GrowsFrom (AllHeldBy group ps) R (create_scoped deps name (dedupe ps) expires by by_type t)
  unfolding create_scoped
  create_scoped-Contained deps name ps expires by by_type t =
      let P = AllHeldBy group ps in
      reading (λ _. P) _ _ (Grows-query (Contained-preorder group) database _)
        (Yields-statement database _ (λ s p. p))
        (λ known.
          reading (λ _. P) _ _
            (Grows-if (Contained-preorder group) (all (scope_allowed known) (dedupe ps)) _ _
              (Grows-pure (Contained-preorder group) tt)
              (Grows-raise (Contained-preorder group) invalid))
            (Yields-if (all (scope_allowed known) (dedupe ps)) _ _ (λ e. Yields-pure tt (λ s p. p))
              (λ e. Yields-raise invalid))
            (λ _. writes (Contained-preorder group) _ _ (λ s v c.
              let h = vetted ps (dedupe ps) s (v, refl) c in issue_leaf group _ s h.0 h.1 c)))

  pub create_key-Contained :
      (deps : Deps) (name : String) (ps : List String) (expires : Option ℕ) (by by_type : String)
      → GrowsFrom (AllHeldBy group ps) R (create_key deps name ps expires by by_type)
  unfolding create_key
  create_key-Contained deps name ps expires by by_type =
      let P = AllHeldBy group ps in
      reading (λ _. P) _ _ pool_reads pool_keeps
        (λ _.
          reading (λ _. P) _ _ (guard_reads _ _) (guard_keeps _ _)
            (λ _. timed (Contained-preorder group) _ (λ t.
              reading (λ _. P) _ _ (guard_reads _ _) (guard_keeps _ _)
                (λ _. create_scoped-Contained deps name ps expires by by_type t))))
