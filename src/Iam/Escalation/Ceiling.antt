-- ===== src/Iam/Escalation/Ceiling.antt =====
-- What the ceiling establishes: the caller holds every permission of the list
-- (internal/api/security.go, grantCeiling).
use dilion.Base.{
  ℕ, ◌≡◌, refl, Bool, true, false, ◌||◌, String, ◌==◌, List, [], ◌∷◌, ◌++◌, contains, eq_iff,
  if◌then◌else◌, arith, Bool-cases, inl, inr, ◌⊎◌,
}
use dilion.Exec.{pure, now, query}
use dilion.Exec.Yields.{
  Yields, Yields-pure, Yields-raise, Yields-statement, Yields-if, Yields-bind, Yields-now,
  Yields-weaken,
}
use dilion.Iam.Db.{Db, type_service_role, database, resolve_pool, permission_denied}
use dilion.Iam.Roles.{is_empty}
use dilion.Iam.Authorizer.{is_allowed, can}
use dilion.Iam.Handlers.{RequestInfo, scopes_allow, holds, add_missing, missing_of, grant_ceiling}

-- The actor is granted the permission at some time.
abbrev pub Held : Db → String → String → Type 0
Held s actor p = (t : ℕ) × (is_allowed t actor p s ≡ true)

added : (missing : List String) (p : String) → contains (missing ++ p ∷ []) p ≡ true
added [] p = ground (arith, eq_iff p p)
added (q ∷ missing) p = ground (arith, added missing p)

kept :
    (missing : List String) (p q : String)
    → contains missing q ≡ true
    → contains (missing ++ p ∷ []) q ≡ true
kept [] p q h = cc
kept (x ∷ missing) p q h = ground (arith, kept missing p q)

module _ (ri : RequestInfo) (plain : (ri.actor.type == type_service_role) ≡ false) where
  -- A yes of the authorizer is a permission held; `I` is any fact on the tables.
  abbrev Confirmed : (Db → Type 0) → String → Bool → Db → Type 0
  Confirmed I p b s = I s × (b ≡ true → Held s ri.actor.id p)

  asked :
      (I : Db → Type 0) (p : String) (t : ℕ)
      → Yields I (query database (is_allowed t ri.actor.id p)) (Confirmed I p)
  asked I p t = Yields-statement database _ (λ s i. (i, λ e. (t, e)))

  can-Confirmed : (I : Db → Type 0) (p : String) → Yields I (can ri.actor p) (Confirmed I p)
  unfolding can
  can-Confirmed I p = rw plain (
      Yields-if (ri.actor.id == "" || p == "") _ _ (λ e. Yields-pure false (λ s i. (i, λ x. cc)))
        (λ e.
          Yields-bind (λ _. I) resolve_pool _ (Yields-statement database _ (λ s i. i))
            (λ _. Yields-bind (λ _. I) now _ (Yields-now (λ t s i. i)) (asked I p))))

  holds-Confirmed : (I : Db → Type 0) (p : String) → Yields I (holds ri p) (Confirmed I p)
  unfolding holds
  holds-Confirmed I p =
      Yields-if (scopes_allow ri p) _ _ (λ e. can-Confirmed I p)
        (λ e. Yields-pure false (λ s i. (i, λ x. cc)))

  -- What the loop has established when it returns the missing permissions.
  abbrev Looped : (Db → Type 0) → List String → List String → List String → Db → Type 0
  Looped I missing ps m s =
      I s
      × ((p : String) → contains missing p ≡ true → contains m p ≡ true)
      × ((p : String) → contains ps p ≡ true → (contains m p ≡ true) ⊎ Held s ri.actor.id p)

  -- What one permission has become.
  abbrev Judged : List String → String → Bool → Db → Type 0
  Judged missing p held s = (contains (add_missing missing p held) p ≡ true) ⊎ Held s ri.actor.id p

  judged :
      (missing : List String) (p : String) (held : Bool) (s : Db)
      → (held ≡ true → (contains missing p ≡ true) ⊎ Held s ri.actor.id p)
      → Judged missing p held s
  judged missing p true s h = h refl
  judged missing p false s h = inl (added missing p)

  added_more :
      (missing : List String) (p : String) (held : Bool) (q : String)
      → contains missing q ≡ true
      → contains (add_missing missing p held) q ≡ true
  added_more missing p true q h = h
  added_more missing p false q h = kept missing p q h

  step-Judged :
      (I : Db → Type 0) (missing : List String) (p : String)
      → Yields I
          (if contains missing p then pure true else holds ri p)
          (λ b s. I s × Judged missing p b s)
  step-Judged I missing p =
      Yields-if (contains missing p) _ _ (λ e. Yields-pure true (λ s i. (i, inl e)))
        (λ e.
          Yields-weaken _ (λ s i. i) (λ b s c. (c.0, judged missing p b s (λ x. inr (c.1 x))))
            (holds-Confirmed I p))

  settled_as :
      (missing : List String) (p : String) (b : Bool) (m : List String) (s : Db)
      → ((x : String) → contains (add_missing missing p b) x ≡ true → contains m x ≡ true)
      → Judged missing p b s
      → (contains m p ≡ true) ⊎ Held s ri.actor.id p
  settled_as missing p b m s more (inl e) = inl (more p e)
  settled_as missing p b m s more (inr h) = inr h

  settled_first :
      (missing : List String) (p q : String) (b : Bool) (m : List String) (s : Db)
      → ((x : String) → contains (add_missing missing p b) x ≡ true → contains m x ≡ true)
      → Judged missing p b s
      → (p == q) ≡ true
      → (contains m q ≡ true) ⊎ Held s ri.actor.id q
  settled_first missing p q b m s more j e =
      rw (← (eq_iff p q).0 e) (settled_as missing p b m s more j)

  looped :
      (I : Db → Type 0) (missing : List String) (p : String) (ps : List String) (b : Bool)
      (m : List String) (s : Db)
      → Looped (λ s. I s × Judged missing p b s) (add_missing missing p b) ps m s
      → Looped I missing (p ∷ ps) m s
  looped I missing p ps b m s h = (
    h.0.0,
    λ q e. h.1 q (added_more missing p b q e),
    λ q e. elim (Bool-cases (p == q)) [
      | inl same ↦ settled_first missing p q b m s h.1 h.0.1 same
      | inr other ↦ h.2 q (ground arith)
    ],
  )

  missing_of-Looped :
      (I : Db → Type 0) (missing ps : List String)
      → Yields I (missing_of ri missing ps) (Looped I missing ps)
  unfolding missing_of
  missing_of-Looped I missing [] = Yields-pure missing (λ s i. (i, λ p h. h, λ p h. cc))
  missing_of-Looped I missing (p ∷ ps) =
      Yields-bind (λ b s. I s × Judged missing p b s) _ _ (step-Judged I missing p)
        (λ b.
          Yields-weaken _ (λ s h. h) (λ m s. looped I missing p ps b m s)
            (missing_of-Looped (λ s. I s × Judged missing p b s) (add_missing missing p b) ps))

  -- The caller holds every permission of the list.
  abbrev pub HoldsAll : List String → Db → Type 0
  HoldsAll ps s = (p : String) → contains ps p ≡ true → Held s ri.actor.id p

  none_missing :
      (m ps : List String) (s : Db)
      → is_empty m ≡ true
      → ((p : String) → contains ps p ≡ true → (contains m p ≡ true) ⊎ Held s ri.actor.id p)
      → HoldsAll ps s
  none_missing [] ps s e h p k = elim (h p k) [ inl x ↦ cc | inr held ↦ held ]
  none_missing (q ∷ m) ps s e h p k = cc

  -- A pass of the ceiling.
  pub grant_ceiling-HoldsAll :
      (I : Db → Type 0) (ps : List String)
      → Yields I (grant_ceiling ri ps) (λ _ s. I s × HoldsAll ps s)
  unfolding grant_ceiling
  grant_ceiling-HoldsAll I ps = rw plain (
      Yields-bind (Looped I [] ps) _ _ (missing_of-Looped I [] ps) (λ m.
        Yields-if (is_empty m) _ _ (λ e. Yields-pure tt (λ s h. (h.0, none_missing m ps s e h.2)))
          (λ e. Yields-raise (permission_denied m))))
