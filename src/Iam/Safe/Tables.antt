-- ===== src/Iam/Safe/Tables.antt =====
-- A relation that the writes keep is kept by the operations on roles and assignments
-- (internal/iam/iam.go).
use dilion.Base.{
  ℕ, ◌≡◌, sym, Bool, true, false, String, List, Option, none, some, any, if◌then◌else◌,
}
use dilion.Exec.{ok, pure, raise}
use dilion.Exec.Grows.{
  IsPreorder, Grows, Grows-pure, Grows-raise, Grows-lift, Grows-statement, Grows-query, Grows-if,
  Grows-now, Grows-bind,
}
use dilion.Exec.Yields.{Yields, Yields-pure, Yields-raise, Yields-anything}
use dilion.Exec.From.{
  GrowsFrom-of_Grows, GrowsFrom-statement, GrowsFrom-bind, Yields-query, Grows-of_GrowsFrom,
}
use dilion.Iam.Db.{Db, Deps, Assignment, conflict, database}
use dilion.Iam.Roles.{
  validate_custom_permission, insert_permission, create_permission, create_role, update_role,
}
use dilion.Iam.Assignments.{
  active_grant, grant_missing, grant_role, revoke_row, revoke_missing, revoke_assignment,
}
use dilion.Iam.Safe.Writes.{IsIamSafe, Vetted, role_permissions-Vetted, validated}
use dilion.Iam.Safe.Rules.{timed, writes, get_role-Safe, role_permissions-Safe}

module _ {R : Db → Db → Type 0} (pre : IsPreorder R) where
  pub create_permission-Grows :
      ((name : String) (t : ℕ) (s : Db)
        → validate_custom_permission name ≡ ok tt
        → R s (insert_permission (record { name = name; builtin = false; created_at = t }) s).0)
      → (name : String) → Grows R (create_permission name)
  unfolding create_permission
  create_permission-Grows registers name = Grows-bind pre _ _ (Grows-query pre _ _) (λ _.
      Grows-of_GrowsFrom _ (
        GrowsFrom-bind pre (λ u s. validate_custom_permission name ≡ ok tt) _ _
          (GrowsFrom-of_Grows _ (Grows-lift pre _)) (validated (validate_custom_permission name))
          (λ _. timed pre _ (λ t. writes pre _ _ (λ s v. registers name t s v)))))

  revoke_missing-Grows : (id : ℕ) (a : Option Assignment) → Grows R (revoke_missing id a)
  unfolding revoke_missing
  revoke_missing-Grows id (some a) = Grows-pure pre a
  revoke_missing-Grows id none =
      Grows-bind pre _ _ (Grows-query pre _ _)
        (λ exists. Grows-if pre exists _ _ (Grows-raise pre _) (Grows-raise pre _))

  pub revoke_assignment-Grows :
      ((id : ℕ) (by : String) (t : ℕ) (s : Db) → R s (revoke_row id by t s).0)
      → (id : ℕ) (by : String) → Grows R (revoke_assignment id by)
  unfolding revoke_assignment
  revoke_assignment-Grows revokes id by = Grows-bind pre _ _ (Grows-query pre _ _) (λ _.
      Grows-bind pre _ _ (Grows-now pre) (λ t.
        Grows-bind pre _ _ (Grows-statement pre _ _ (revokes id by t)) (revoke_missing-Grows id)))

module _ {deps : Deps} {R : Db → Db → Type 0} (k : IsIamSafe deps R) where
  pub create_role-Safe : (name : String) (ps : List String) → Grows R (create_role deps name ps)
  unfolding create_role
  create_role-Safe name ps = Grows-bind k.pre _ _ (Grows-query k.pre _ _) (λ _.
      Grows-bind k.pre _ _ (Grows-if k.pre _ _ _ (Grows-raise k.pre _) (Grows-pure k.pre _)) (λ _.
        Grows-of_GrowsFrom _ (
          GrowsFrom-bind k.pre Vetted _ _ (GrowsFrom-of_Grows _ (role_permissions-Safe k.pre ps))
            (role_permissions-Vetted ps)
            (λ perms. timed k.pre _ (λ t. writes k.pre _ _ (λ s v. k.adds _ perms t s v))))))

  pub update_role-Safe : (id : String) (ps : List String) → Grows R (update_role id ps)
  unfolding update_role
  update_role-Safe id ps = Grows-bind k.pre _ _ (Grows-query k.pre _ _) (λ _.
      Grows-bind k.pre _ _ (get_role-Safe k.pre id) (λ cur.
        Grows-bind k.pre _ _ (Grows-if k.pre _ _ _ (Grows-raise k.pre _) (Grows-pure k.pre _)) (λ _.
          Grows-of_GrowsFrom _ (
            GrowsFrom-bind k.pre Vetted _ _ (GrowsFrom-of_Grows _ (role_permissions-Safe k.pre ps))
              (role_permissions-Vetted ps)
              (λ perms.
                GrowsFrom-bind k.pre (λ _ s. Unit {0}) _ _
                  (GrowsFrom-statement k.pre _ _ (λ s v. k.changes id perms s v))
                  (Yields-anything _)
                  (λ r.
                    GrowsFrom-of_Grows _
                      (Grows-bind k.pre _ _ (Grows-lift k.pre r) (λ _. Grows-pure k.pre _))))))))

  grant_missing-Safe : (role actor by : String) → Grows R (grant_missing role actor by)
  unfolding grant_missing
  grant_missing-Safe role actor by =
      let Free = λ (s : Db). any (active_grant role actor) s.assignments ≡ false in
      Grows-of_GrowsFrom _ (
        GrowsFrom-bind k.pre
          (λ active s. Unit {0} × (active ≡ any (active_grant role actor) s.assignments)) _ _
          (GrowsFrom-of_Grows _ (Grows-query k.pre _ _)) (Yields-query database _)
          (λ active.
            GrowsFrom-bind k.pre (λ _. Free) _ _
              (GrowsFrom-of_Grows _
                (Grows-if k.pre _ _ _ (Grows-raise k.pre _) (Grows-pure k.pre _)))
              (free_Yields active)
              (λ _.
                timed k.pre _
                  (λ t. GrowsFrom-statement k.pre _ _ (λ s v. k.grants role actor by t s v)))))
    where
      free_Yields :
          (active : Bool)
          → Yields
              (λ (s : Db). Unit {0} × (active ≡ any (active_grant role actor) s.assignments))
              (if active then raise conflict else pure tt)
              (λ _ s. any (active_grant role actor) s.assignments ≡ false)
      free_Yields true = Yields-raise conflict
      free_Yields false = Yields-pure tt (λ s p. sym p.1)

  pub grant_role-Safe : (role actor by : String) → Grows R (grant_role role actor by)
  unfolding grant_role
  grant_role-Safe role actor by = Grows-bind k.pre _ _ (Grows-query k.pre _ _) (λ _.
      Grows-bind k.pre _ _ (Grows-if k.pre _ _ _ (Grows-raise k.pre _) (Grows-pure k.pre _)) (λ _.
        Grows-bind k.pre _ _ (get_role-Safe k.pre role) (λ _. grant_missing-Safe role actor by)))
