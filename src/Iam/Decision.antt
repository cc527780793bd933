-- ===== src/Iam/Decision.antt =====
-- The two questions of the authorizer, and the recertification report, agree
-- (internal/iam/authorizer.go, internal/iam/iam.go).
use dilion.Base.{
  ℕ, ◌≡◌, refl, sym, ap, ◌∙◌, Bool, true, false, ◌&&◌, ◌||◌, String, ◌==◌, List, [], ◌∷◌, ◌++◌, any,
  contains, eq_iff, select_where, arith, Bool-cases, inl, inr,
}
use mathlib.Core.Path.{fun_ext}
use dilion.Exec.{World, pure, statement, query, now, ◌>>=◌, Tick, Result, ok, err, continue, settle}
use dilion.Iam.Db.{
  Db, M, Error, Actor, Role, ApiKey, Assignment, type_service_role, database, resolve_pool,
}
use dilion.Iam.Assignments.{Holder, grants, holders_of, holders}
use dilion.Iam.Authorizer.{
  assigned, keyed, still_backed, is_allowed, can, permissions_of_roles, role_permissions_of,
  scopes_of, key_permissions_of, distinct, held_permissions, permissions,
}

contains-append :
    (xs ys : List String) (p : String) → contains (xs ++ ys) p ≡ (contains xs p || contains ys p)
contains-append [] ys p = refl
contains-append (x ∷ xs) ys p = ground (arith, contains-append xs ys p)

contains-distinct : (xs : List String) (p : String) → contains (distinct xs) p ≡ contains xs p
unfolding distinct
contains-distinct [] p = refl
contains-distinct (x ∷ xs) p =
    ground (arith, contains-distinct xs p, contains-distinct xs x, eq_iff x p)

module _ (p : String) where
  contains-permissions_of_roles :
      (a : Assignment) (rs : List Role)
      → contains (permissions_of_roles a.role_id rs) p ≡ any (grants p a) rs
  unfolding permissions_of_roles
  contains-permissions_of_roles a [] = refl
  contains-permissions_of_roles a (r ∷ rs) = ground (
    arith,
    contains-append r.permissions (permissions_of_roles a.role_id rs) p,
    contains-permissions_of_roles a rs,
  )

  contains-role_permissions_of :
      (actor : String) (rs : List Role) (as_ : List Assignment)
      → contains (role_permissions_of actor rs as_) p ≡ any (assigned actor p rs) as_
  unfolding role_permissions_of
  contains-role_permissions_of actor rs [] = refl
  contains-role_permissions_of actor rs (a ∷ as_) = ground (
    arith,
    contains-append (permissions_of_roles a.role_id rs) (role_permissions_of actor rs as_) p,
    contains-permissions_of_roles a rs,
    contains-role_permissions_of actor rs as_,
  )

  contains-scopes_of :
      (db : Db) (k : ApiKey) (ps : List String)
      → contains (scopes_of db k ps) p ≡ (contains ps p && still_backed k p db)
  unfolding scopes_of
  contains-scopes_of db k [] = refl
  contains-scopes_of db k (q ∷ ps) = elim (Bool-cases (q == p)) [
    | inl same ↦ rw ((eq_iff q p).0 same) (ground (arith, contains-scopes_of db k ps, eq_iff p p))
    | inr other ↦ ground (arith, contains-scopes_of db k ps)
  ]

  contains-key_permissions_of :
      (t : ℕ) (actor : String) (db : Db) (ks : List ApiKey)
      → contains (key_permissions_of t actor db ks) p ≡ any (keyed t actor p db) ks
  unfolding key_permissions_of
  contains-key_permissions_of t actor db [] = refl
  contains-key_permissions_of t actor db (k ∷ ks) = ground (
    arith,
    contains-append (scopes_of db k k.scopes) (key_permissions_of t actor db ks) p,
    contains-scopes_of db k k.scopes,
    contains-key_permissions_of t actor db ks,
  )

  contains-held_permissions :
      (t : ℕ) (actor : String) (db : Db)
      → contains (held_permissions t actor db) p ≡ is_allowed t actor p db
  unfolding held_permissions is_allowed
  contains-held_permissions t actor db =
      rw
        (
          contains-distinct, contains-append, contains-role_permissions_of,
          contains-key_permissions_of,
        )
        refl

-- Actions that read.
module _ {A B C : Type 0} where
  continued_assoc :
      (w : World Db) (r : Result Error A) (f : A → M B) (g : B → M C)
      → continue (continue w r f).0 (continue w r f).1 g ≡ continue w r (λ a. f a >>= g)
  unfolding ◌>>=◌
  continued_assoc w (ok a) f g = refl
  continued_assoc w (err e) f g = refl

  bind_assoc :
      (m : M A) (f : A → M B) (g : B → M C) (w : World Db)
      → ((m >>= f) >>= g) w ≡ (m >>= λ a. f a >>= g) w
  unfolding ◌>>=◌
  bind_assoc m f g w = continued_assoc (m w).0 (m w).1 f g

module _ {A B : Type 0} (e : Error) (g : Db → A) (f : A → B) where
  settled_map :
      (w : World Db) (ts : List Tick)
      → (let x = settle e (λ s. (s, g s)) w ts in continue x.0 x.1 (λ a v. (v, ok (f a))))
        ≡ settle e (λ s. (s, f (g s))) w ts
  settled_map w [] = refl
  settled_map w (t ∷ ts) = ground arith

  query_map : (w : World Db) → (query e g >>= λ a. pure (f a)) w ≡ query e (λ s. f (g s)) w
  unfolding ◌>>=◌ statement pure
  query_map w = settled_map w w.ticks

  -- A query, and what is made of its answer, is a query.
  pub query_as :
      (h : Db → B) → ((s : Db) → f (g s) ≡ h s) → (query e g >>= λ a. pure (f a)) ≡ query e h
  query_as h same = fun_ext (λ w. query_map w ∙ ap (λ (k : Db → B). query e k w) (fun_ext same))

nobody :
    (p : String) (w : World Db)
    → pure {E = Error} false w ≡ (pure [] >>= λ ps. pure (contains ps p)) w
unfolding pure ◌>>=◌
nobody p w = refl

decided :
    (id p : String) (w : World Db)
    → ((resolve_pool >>= λ _. now >>= λ t. query database (held_permissions t id)) >>= λ ps.
          pure (contains ps p))
        w
      ≡ (resolve_pool >>= λ _. now >>= λ t. query database (is_allowed t id p)) w
decided id p w =
    bind_assoc resolve_pool _ _ w
    ∙ ap (λ (k : Unit {0} → M Bool). (resolve_pool >>= k) w)
        (fun_ext (λ u. fun_ext (λ v.
          bind_assoc now _ _ v
          ∙ ap (λ (k : ℕ → M Bool). (now >>= k) v)
              (fun_ext (λ t.
                query_as database (held_permissions t id) (λ ps. contains ps p) (is_allowed t id p)
                  (contains-held_permissions p t id))))))

-- `Permissions` of an actor lists a permission exactly when `Can` allows it, whatever fails on the
-- way: asking for the list and looking the permission up is the same action as asking for the
-- decision, for every actor but the service role and every permission that is not empty.
pub can-permissions :
    (actor : Actor) (p : String) (w : World Db)
    → (actor.type == type_service_role) ≡ false
    → (p == "") ≡ false
    → can actor p w ≡ (permissions actor >>= λ ps. pure (contains ps p)) w
unfolding can permissions
can-permissions actor p w h k = elim (Bool-cases (actor.id == "")) [
  | inl none_given ↦ rw (h, none_given) (nobody p w)
  | inr given ↦ rw (h, given, k) (sym (decided actor.id p w))
]

any-holders_of :
    (actor : String) (a : Assignment) (rs : List Role)
    → any (λ (h : Holder). h.actor_id == actor) (holders_of a rs)
      ≡ ((a.actor_id == actor) && any (λ r. true) rs)
unfolding holders_of
any-holders_of actor a [] = ground arith
any-holders_of actor a (r ∷ rs) = ground (arith, any-holders_of actor a rs)

any-append {ℓ} :
    {A : Type ℓ} (q : A → Bool) (xs ys : List A) → any q (xs ++ ys) ≡ (any q xs || any q ys)
any-append q [] ys = refl
any-append q (x ∷ xs) ys = ground (arith, any-append q xs ys)

any-select_where :
    {A : Type 0} (q : A → Bool) (xs : List A) → any (λ x. true) (select_where q xs) ≡ any q xs
any-select_where q [] = refl
any-select_where q (x ∷ xs) = ground (arith, any-select_where q xs)

-- An actor stands in the recertification report on a permission exactly if an active assignment
-- grants it to the actor.
pub holders-by_role :
    (actor p : String) (rs : List Role) (as_ : List Assignment)
    → any (λ (h : Holder). h.actor_id == actor) (holders p rs as_) ≡ any (assigned actor p rs) as_
unfolding holders
holders-by_role actor p rs [] = refl
holders-by_role actor p rs (a ∷ as_) = ground (
  arith,
  any-append (λ (h : Holder). h.actor_id == actor) (holders_of a (select_where (grants p a) rs))
      (holders p rs as_),
  any-holders_of actor a (select_where (grants p a) rs),
  any-select_where (grants p a) rs,
  holders-by_role actor p rs as_,
)
