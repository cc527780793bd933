-- ===== src/Iam/Escalation/Clean.antt =====
-- Well-formed tables: role ids are unique, and permissions are stored trimmed (internal/iam/iam.go,
-- dedupe).
use dilion.Base.{
  ℕ, ◌≡◌, refl, Bool, true, ◌&&◌, ◌||◌, not, String, ◌==◌, List, [], ◌∷◌, ◌++◌, any, all, contains,
  eq_iff, eq_refl, is_none, arith, Bool-cases, inl, inr, ◌⊎◌, both_true, all-append,
}
use dilion.Iam.Db.{Db, Role, ApiKey, Assignment}
use dilion.Iam.Roles.{dedupe_onto, dedupe}
use dilion.Iam.Assignments.{grants}
use dilion.Iam.Keys.{is_active}
use dilion.Iam.Authorizer.{assigned, by_role, keyed, is_allowed, still_backed}
use dilion.Text.Trim.{trim, trim_twice}

abbrev pub is_trimmed : String → Bool
is_trimmed p = trim p == p

abbrev pub trimmed_role : Role → Bool
trimmed_role r = all is_trimmed r.permissions

abbrev pub trimmed_key : ApiKey → Bool
trimmed_key k = all is_trimmed k.scopes

abbrev pub distinct_ids : List Role → Bool
distinct_ids [] = true
distinct_ids (r ∷ rs) = not (any (λ x. x.id == r.id) rs) && distinct_ids rs

pub record IsClean (s : Db) : Type 0 where
  pub ids : distinct_ids s.roles ≡ true
  pub roles : all trimmed_role s.roles ≡ true
  pub keys : all trimmed_key s.api_keys ≡ true

-- What `dedupe` makes.
dedupe_onto-trimmed :
    (out vs : List String) → all is_trimmed out ≡ true → all is_trimmed (dedupe_onto out vs) ≡ true
unfolding dedupe_onto
dedupe_onto-trimmed out [] h = h
dedupe_onto-trimmed out (v ∷ vs) h = elim (Bool-cases (trim v == "" || contains out (trim v))) [
  | inl skip ↦ rw skip (dedupe_onto-trimmed out vs h)
  | inr take ↦ rw take (
      dedupe_onto-trimmed (out ++ trim v ∷ []) vs
        (all-append is_trimmed out (trim v) h (rw (trim_twice v) (eq_refl (trim v)))))
]

pub dedupe-trimmed : (vs : List String) → all is_trimmed (dedupe vs) ≡ true
dedupe-trimmed vs = dedupe_onto-trimmed [] vs refl

abbrev Source : List String → String → Type 0
Source vs p = (q : String) × (contains vs q ≡ true) × (trim q ≡ p)

Source-cons : (v : String) (vs : List String) (p : String) → Source vs p → Source (v ∷ vs) p
Source-cons v vs p (q, h, e) = (q, ground arith, e)

contains-append_one :
    (xs : List String) (x p : String)
    → contains (xs ++ x ∷ []) p ≡ true
    → (contains xs p ≡ true) ⊎ (x ≡ p)
contains-append_one [] x p h = elim (Bool-cases (x == p)) [
  | inl e ↦ inr ((eq_iff x p).0 e)
  | inr e ↦ cc
]
contains-append_one (y ∷ xs) x p h = elim (Bool-cases (y == p)) [
  | inl e ↦ inl (rw e refl)
  | inr e ↦ elim (contains-append_one xs x p (ground arith)) [
    | inl k ↦ inl (ground arith)
    | inr k ↦ inr k
  ]
]

dedupe_onto-Source :
    (out vs : List String) (p : String)
    → contains (dedupe_onto out vs) p ≡ true
    → (contains out p ≡ true) ⊎ Source vs p
unfolding dedupe_onto
dedupe_onto-Source out [] p h = inl h
dedupe_onto-Source out (v ∷ vs) p h = elim (Bool-cases (trim v == "" || contains out (trim v))) [
  | inl skip ↦ elim (dedupe_onto-Source out vs p (rw skip at h)) [
    | inl k ↦ inl k
    | inr k ↦ inr (Source-cons v vs p k)
  ]
  | inr take ↦ elim (dedupe_onto-Source (out ++ trim v ∷ []) vs p (rw take at h)) [
    | inl k ↦ elim (contains-append_one out (trim v) p k) [
      | inl old ↦ inl old
      | inr new ↦ inr ((v, rw (eq_refl v) refl, new))
    ]
    | inr k ↦ inr (Source-cons v vs p k)
  ]
]

-- A permission of the list without the spaces is one of the list.
pub dedupe-Source : (vs : List String) (p : String) → contains (dedupe vs) p ≡ true → Source vs p
dedupe-Source vs p h = elim (dedupe_onto-Source [] vs p h) [ inl k ↦ cc | inr k ↦ k ]

trimmed_of :
    (ps : List String) (p : String) → all is_trimmed ps ≡ true → contains ps p ≡ true → trim p ≡ p
trimmed_of [] p h k = cc
trimmed_of (q ∷ ps) p h k = elim (Bool-cases (q == p)) [
  | inl e ↦
      rw (← (eq_iff q p).0 e)
        ((eq_iff (trim q) q).0 (both_true (is_trimmed q) (all is_trimmed ps) h).0)
  | inr e ↦ trimmed_of ps p (both_true (is_trimmed q) (all is_trimmed ps) h).1 (ground arith)
]

module _ (p : String) where
  by_roles :
      (a : Assignment) (rs : List Role)
      → all trimmed_role rs ≡ true
      → any (grants p a) rs ≡ true
      → trim p ≡ p
  by_roles a [] h k = cc
  by_roles a (r ∷ rs) h k =
      let (x, y) = both_true (trimmed_role r) (all trimmed_role rs) h in
      elim (Bool-cases (grants p a r)) [
        | inl here ↦
            trimmed_of r.permissions p x
              (both_true (r.id == a.role_id) (contains r.permissions p) here).1
        | inr there ↦ by_roles a rs y (ground arith)
      ]

  by_assignments :
      (actor : String) (rs : List Role) (as_ : List Assignment)
      → all trimmed_role rs ≡ true
      → any (assigned actor p rs) as_ ≡ true
      → trim p ≡ p
  by_assignments actor rs [] h k = cc
  by_assignments actor rs (a ∷ as_) h k = elim (Bool-cases (assigned actor p rs a)) [
    | inl here ↦
        let rest =
          (both_true (a.actor_id == actor) (is_none a.revoked_at && any (grants p a) rs) here).1 in
        by_roles a rs h (both_true (is_none a.revoked_at) (any (grants p a) rs) rest).1
    | inr there ↦ by_assignments actor rs as_ h (ground arith)
  ]

  by_keys :
      (time : ℕ) (actor : String) (s : Db) (ks : List ApiKey)
      → all trimmed_key ks ≡ true
      → any (keyed time actor p s) ks ≡ true
      → trim p ≡ p
  by_keys time actor s [] h k = cc
  by_keys time actor s (x ∷ ks) h k =
      let (c, d) = both_true (trimmed_key x) (all trimmed_key ks) h in
      elim (Bool-cases (keyed time actor p s x)) [
        | inl here ↦
            let rest =
              (both_true (x.id == actor)
                (is_active time x && (contains x.scopes p && still_backed x p s)) here).1 in
            let rest' =
              (both_true (is_active time x) (contains x.scopes p && still_backed x p s) rest).1 in
            trimmed_of x.scopes p c (both_true (contains x.scopes p) (still_backed x p s) rest').0
        | inr there ↦ by_keys time actor s ks d (ground arith)
      ]

  pub allowed-trimmed :
      (time : ℕ) (actor : String) (s : Db)
      → IsClean s
      → is_allowed time actor p s ≡ true
      → trim p ≡ p
  unfolding is_allowed
  allowed-trimmed time actor s c h = elim (Bool-cases (by_role actor p s)) [
    | inl role ↦ by_assignments actor s.roles s.assignments c.roles role
    | inr other ↦ by_keys time actor s s.api_keys c.keys (ground arith)
  ]
