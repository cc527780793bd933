-- ===== src/Iam/Escalation/Gains.antt =====
-- What a write to the tables can add to the decisions of the authorizer
-- (internal/iam/authorizer.go). `G` is what a gain comes from.
use dilion.Base.{
  ℕ, ◌≡◌, refl, Bool, true, false, ◌&&◌, ◌||◌, String, ◌==◌, List, [], ◌∷◌, ◌++◌, Option, none,
  some, any, contains, update_where, is_none, holds_text, if◌then◌else◌, arith, Bool-cases, inl,
  inr, ◌⊎◌, both_true,
}
use dilion.Iam.Db.{Db, Role, ApiKey, Assignment, type_user}
use dilion.Iam.Assignments.{grants}
use dilion.Iam.Keys.{is_active}
use dilion.Iam.Authorizer.{assigned, by_role, by_role_of, still_backed, keyed, by_key, is_allowed}

or_true : (a b : Bool) → (a || b) ≡ true → (a ≡ true) ⊎ (b ≡ true)
or_true true b h = inl refl
or_true false b h = inr h

module _ {G : Type 0} where
  -- A test of a list of rows that gains only by `G`.
  pub any-gain :
      {A : Type 0} (q q' : A → Bool)
      → ((x : A) → q' x ≡ true → (q x ≡ true) ⊎ G)
      → (xs : List A) → any q' xs ≡ true
      → (any q xs ≡ true) ⊎ G
  any-gain q q' back [] h = cc
  any-gain q q' back (x ∷ xs) h = elim (or_true (q' x) (any q' xs) h) [
    | inl here ↦ elim (back x here) [ inl e ↦ inl (rw e refl) | inr g ↦ inr g ]
    | inr there ↦ elim (any-gain q q' back xs there) [ inl e ↦ inl (ground arith) | inr g ↦ inr g ]
  ]

  -- The same for an update of the rows, and for a row more.
  pub any-update_gain :
      {A : Type 0} (q : A → Bool) (u : A → Bool) (f : A → A)
      → ((x : A) → u x ≡ true → q (f x) ≡ true → (q x ≡ true) ⊎ G)
      → (xs : List A) → any q (update_where u f xs) ≡ true
      → (any q xs ≡ true) ⊎ G
  any-update_gain q u f back [] h = cc
  any-update_gain q u f back (x ∷ xs) h =
      elim (or_true (q (if u x then f x else x)) (any q (update_where u f xs)) h) [
        | inl here ↦ elim (Bool-cases (u x)) [
          | inl hit ↦ elim (back x hit (ground arith)) [ inl e ↦ inl (rw e refl) | inr g ↦ inr g ]
          | inr miss ↦ inl (ground arith)
        ]
        | inr there ↦ elim (any-update_gain q u f back xs there) [
          | inl e ↦ inl (ground arith)
          | inr g ↦ inr g
        ]
      ]

  pub any-append_gain :
      {A : Type 0} (q : A → Bool) (y : A)
      → (q y ≡ true → G)
      → (xs : List A) → any q (xs ++ y ∷ []) ≡ true
      → (any q xs ≡ true) ⊎ G
  any-append_gain q y back [] h = inr (back (ground arith))
  any-append_gain q y back (x ∷ xs) h = elim (or_true (q x) (any q (xs ++ y ∷ [])) h) [
    | inl here ↦ inl (rw here refl)
    | inr there ↦ elim (any-append_gain q y back xs there) [
      | inl e ↦ inl (ground arith)
      | inr g ↦ inr g
    ]
  ]

-- A key counts for a permission among its scopes only.
pub keyed_scope :
    (time : ℕ) (actor p : String) (t : Db) (k : ApiKey)
    → keyed time actor p t k ≡ true
    → contains k.scopes p ≡ true
keyed_scope time actor p t k h =
    let r =
      (both_true (k.id == actor) (is_active time k && (contains k.scopes p && still_backed k p t))
        h).1 in
    let r' = (both_true (is_active time k) (contains k.scopes p && still_backed k p t) r).1 in
    (both_true (contains k.scopes p) (still_backed k p t) r').0

-- Where grants by roles gain only by `G`, so do the keys that they back, and the decision.
module _ {G : Type 0} (s t : Db) (p : String)
    (by_roles : (actor : String) → by_role actor p t ≡ true → (by_role actor p s ≡ true) ⊎ G) where
  creators : (c : Option String) → by_role_of c p t ≡ true → (by_role_of c p s ≡ true) ⊎ G
  creators none h = cc
  creators (some c) h = by_roles c h

  backed : (k : ApiKey) → still_backed k p t ≡ true → (still_backed k p s ≡ true) ⊎ G
  backed k h = elim (Bool-cases (holds_text k.created_by_type type_user)) [
    | inl by_user ↦ elim (creators k.created_by (ground arith)) [
      | inl e ↦ inl (ground arith)
      | inr g ↦ inr g
    ]
    | inr other ↦ inl (rw other refl)
  ]

  pub key_gain :
      (time : ℕ) (actor : String) (k : ApiKey)
      → keyed time actor p t k ≡ true
      → (keyed time actor p s k ≡ true) ⊎ G
  key_gain time actor k h =
      let (a, r) =
        both_true (k.id == actor) (is_active time k && (contains k.scopes p && still_backed k p t))
          h in
      let (b, r') = both_true (is_active time k) (contains k.scopes p && still_backed k p t) r in
      let (c, d) = both_true (contains k.scopes p) (still_backed k p t) r' in
      elim (backed k d) [ inl e ↦ inl (rw (a, b, c, e) refl) | inr g ↦ inr g ]

  pub decision_gain :
      (time : ℕ) (actor : String)
      → (any (keyed time actor p t) t.api_keys ≡ true
          → (any (keyed time actor p s) s.api_keys ≡ true) ⊎ G)
      → is_allowed time actor p t ≡ true
      → (is_allowed time actor p s ≡ true) ⊎ G
  unfolding is_allowed
  decision_gain time actor keys h = elim (or_true (by_role actor p t) (by_key time actor p t) h) [
    | inl role ↦ elim (by_roles actor role) [ inl e ↦ inl (ground arith) | inr g ↦ inr g ]
    | inr key ↦ elim (keys key) [ inl e ↦ inl (ground arith) | inr g ↦ inr g ]
  ]

-- Roles that change or come.
module _ {G : Type 0} (p : String) where
  pub assigned_gain :
      (actor : String) (rs rs' : List Role) (a : Assignment)
      → (any (grants p a) rs' ≡ true → (any (grants p a) rs ≡ true) ⊎ G)
      → assigned actor p rs' a ≡ true
      → (assigned actor p rs a ≡ true) ⊎ G
  assigned_gain actor rs rs' a back h =
      let (x, r) =
        both_true (a.actor_id == actor) (is_none a.revoked_at && any (grants p a) rs') h in
      let (y, z) = both_true (is_none a.revoked_at) (any (grants p a) rs') r in
      elim (back z) [ inl e ↦ inl (rw (x, y, e) refl) | inr g ↦ inr g ]
