-- ===== src/Iam/Revoked.antt =====
-- A revoked API key (internal/iam/keys.go, RevokeKey and VerifyKey).
use dilion.Base.{
  all-append, all-update_where, ℕ, ◌≡◌, ◌≢◌, refl, sym, ◌∙◌, Bool, true, false, ◌||◌, not, String,
  ◌==◌, List, [], ◌∷◌, ◌++◌, Option, none, some, any, all, find, update_where, eq_iff, is_some,
  arith,
}
use dilion.Exec.{World, ok}
use dilion.Exec.Grows.{IsPreorder}
use dilion.Exec.Yields.{
  Yields, Yields-pure, Yields-raise, Yields-statement, Yields-if, Yields-bind, Yields-now,
  Yields-of_Grows, Post-ok,
}
use dilion.Exec.From.{Yields-query}
use dilion.Iam.Db.{Db, Deps, ApiKey, Actor, Role, Permission, unauthenticated, database}
use dilion.Iam.Roles.{insert_permission, insert_role, set_permissions}
use dilion.Iam.Keys.{
  insert_key, is_over, verify_loaded, verify_key, revocable_key, revoked_key, revoke_key,
  valid_token_format,
}
use dilion.Iam.Handlers.{RequestInfo}
use dilion.Iam.Ops.{Operation, perform_all}
use dilion.Iam.Safe.Writes.{IsIamSafe}
use dilion.Iam.Safe.Keys.{revoke_key_missing-Grows}
use dilion.Iam.Safe.Run.{perform_all-Safe}

any-append_one :
    {A : Type 0} (q : A → Bool) (xs : List A) (x : A)
    → any q xs ≡ true
    → any q (xs ++ x ∷ []) ≡ true
any-append_one q [] x h = cc
any-append_one q (y ∷ xs) x h = ground (arith, any-append_one q xs x)

any-update_kept :
    {A : Type 0} (q p : A → Bool) (f : A → A)
    → ((x : A) → q x ≡ true → q (f x) ≡ true)
    → (xs : List A) → any q xs ≡ true
    → any q (update_where p f xs) ≡ true
any-update_kept q p f keep [] h = cc
any-update_kept q p f keep (x ∷ xs) h = ground (arith, keep x, any-update_kept q p f keep xs)

module _ (h : String) where
  abbrev pub hashed : ApiKey → Bool
  hashed k = k.key_hash == h

  abbrev dead : ApiKey → Bool
  dead k = not (hashed k) || is_some k.revoked_at

  -- The key with this hash is known and revoked.
  abbrev IsDead : Db → Type 0
  IsDead s = (any hashed s.api_keys ≡ true) × (all dead s.api_keys ≡ true)

  abbrev Keeps : Db → Db → Type 0
  Keeps s t = IsDead s → IsDead t

  pre : IsPreorder Keeps
  pre = record { same = λ s p. p; chain = λ s t u p q r. q (p r) }

  registers : (p : Permission) (s : Db) → Keeps s (insert_permission p s).0
  registers p s d = ground arith

  adds : (r : Role) (s : Db) → Keeps s (insert_role r s).0
  adds r s d = ground arith

  changes : (id : String) (ps : List String) (s : Db) → Keeps s (set_permissions id ps s).0
  changes id ps s d = ground arith

  -- The hash is unique, so no new key has it.
  absent :
      (k : ApiKey) (ks : List ApiKey)
      → any (λ x. x.key_hash == k.key_hash) ks ≡ false
      → any hashed ks ≡ true
      → hashed k ≡ false
  absent k [] e p = cc
  absent k (x ∷ ks) e p =
      ground
        (arith, eq_iff x.key_hash k.key_hash, eq_iff x.key_hash h, eq_iff k.key_hash h, absent k ks)

  issues : (k : ApiKey) (s : Db) → Keeps s (insert_key k s).0
  issues k s p =
      ground (
        arith,
        absent k s.api_keys,
        any-append_one hashed s.api_keys k,
        all-append dead s.api_keys k,
      )

  keys_leaf :
      (p : ApiKey → Bool) (f : ApiKey → ApiKey) (s : Db)
      → ((k : ApiKey) → (f k).key_hash ≡ k.key_hash)
      → ((k : ApiKey) → dead k ≡ true → dead (f k) ≡ true)
      → Keeps s (record s { api_keys = update_where p f s.api_keys })
  keys_leaf p f s same keep d = (
    any-update_kept hashed p f (λ k e. rw (same k) e) s.api_keys d.0,
    all-update_where dead p f keep s.api_keys d.1,
  )

  safe : (deps : Deps) → IsIamSafe deps Keeps
  safe deps = record {
    pre = pre;
    registers = λ name t s v. registers _ s;
    adds = λ name perms t s v. adds _ s;
    changes = λ id perms s v. changes id perms s;
    grants = λ role actor by t s free d. d;
    revokes = λ id by t s d. d;
    issues = λ name scopes expires by by_type t s v. issues _ s;
    cancels = λ id by t s.
        keys_leaf (revocable_key id) (revoked_key by t) s (λ k. refl) (λ k e. ground arith);
    stamps = λ id t s. keys_leaf (λ x. x.id == id) _ s (λ k. refl) (λ k e. e);
  }

  -- The key with this hash is the one with this id.
  abbrev pub Belongs : String → Db → Type 0
  Belongs id s =
      (any hashed s.api_keys ≡ true) × (all (λ k. not (hashed k) || k.id == id) s.api_keys ≡ true)

  revoke_keys :
      (id by : String) (t : ℕ) (ks : List ApiKey)
      → all (λ k. not (hashed k) || k.id == id) ks ≡ true
      → all dead (update_where (revocable_key id) (revoked_key by t) ks) ≡ true
  revoke_keys id by t [] e = refl
  revoke_keys id by t (k ∷ ks) e = ground (arith, revoke_keys id by t ks)

  revoke_key-IsDead :
      (deps : Deps) (id by : String) → Yields (Belongs id) (revoke_key id by) (λ _. IsDead)
  unfolding revoke_key
  revoke_key-IsDead deps id by =
      Yields-bind (λ _. Belongs id) _ _ (Yields-statement database _ (λ s p. p))
        (λ _.
          Yields-bind (λ _. Belongs id) _ _ (Yields-now (λ t s p. p))
            (λ t.
              Yields-bind (λ _. IsDead) _ _
                (Yields-statement database _ (λ s p. (
                  any-update_kept hashed (revocable_key id) (revoked_key by t) (λ k e. e) s.api_keys
                      p.0,
                  revoke_keys id by t s.api_keys p.1,
                )))
                (λ k. Yields-of_Grows IsDead _ (revoke_key_missing-Grows pre id k))))

  -- With the key revoked, nothing is returned.
  verify_loaded-refuses :
      (deps : Deps) (o : Option ApiKey)
      → ((k : ApiKey) → o ≡ some k → is_some k.revoked_at ≡ true)
      → Yields (λ s. Unit {0}) (verify_loaded deps o) (λ r s. ⊥)
  unfolding verify_loaded
  verify_loaded-refuses deps none e = Yields-raise unauthenticated
  verify_loaded-refuses deps (some k) e =
      Yields-bind (λ t s. Unit {0}) _ _ (Yields-now (λ t s p. tt))
        (λ t.
          Yields-bind (λ _ s. ⊥) _ _
            (Yields-if (is_some k.revoked_at || is_over t k.expires_at) _ _
              (λ x. Yields-raise unauthenticated) (λ x. Yields-pure tt (λ s p. cc (e k refl))))
            (λ _. record { at = λ w p. absurd p }))

  found_dead :
      (ks : List ApiKey) (k : ApiKey)
      → all dead ks ≡ true
      → find hashed ks ≡ some k
      → is_some k.revoked_at ≡ true
  found_dead [] k d e = cc
  found_dead (x ∷ ks) k d e = ground (arith, found_dead ks k)

module _ (deps : Deps) (token : String) where
  abbrev hash : String
  hash = deps.hash_token token

  verify_found :
      (o : Option ApiKey)
      → Yields
          (λ s. IsDead hash s × (o ≡ find (hashed hash) s.api_keys))
          (verify_loaded deps o)
          (λ r s. ⊥)
  verify_found o = record {
    at = λ w p.
        (verify_loaded-refuses hash deps o
            (λ k e. found_dead hash w.db.api_keys k p.0.1 (sym p.1 ∙ e))).at
          w tt;
  }

  verify_key-refuses : Yields (IsDead hash) (verify_key deps token) (λ r s. ⊥)
  unfolding verify_key
  verify_key-refuses =
      Yields-bind (λ _. IsDead hash) _ _ (Yields-statement database _ (λ s p. p))
        (λ _.
          Yields-bind (λ _. IsDead hash) _ _
            (Yields-if (valid_token_format token) _ _ (λ e. Yields-pure tt (λ s p. p))
              (λ e. Yields-raise unauthenticated))
            (λ _.
              Yields-bind (λ o s. IsDead hash s × (o ≡ find (hashed hash) s.api_keys)) _ _
                (Yields-query database (λ s. find (hashed hash) s.api_keys)) verify_found))

-- After a key was revoked, its token is refused for good: whatever is done after the revocation, with
-- any failures, no verification of the token returns an actor. The hypothesis is that the key with
-- the hash of the token is in the table, and is the one with the given id.
pub revoked_key_stays_out :
    (deps : Deps) (id by token : String) (os : List (RequestInfo × Operation)) (w : World Db)
    (k : ApiKey) (r : Actor × List String)
    → Belongs (deps.hash_token token) id w.db
    → (revoke_key id by w).1 ≡ ok k
    → (verify_key deps token (perform_all deps os (revoke_key id by w).0).0).1 ≢ ok r
revoked_key_stays_out deps id by token os w k r mine revoked e =
    let h = deps.hash_token token in
    let w' = (revoke_key id by w).0 in
    let dead_now =
      Post-ok (λ _. IsDead h) k (revoke_key id by w) revoked
        ((revoke_key-IsDead h deps id by).at w mine) in
    Post-ok (λ _ s. ⊥) r (verify_key deps token (perform_all deps os w').0) e
      ((verify_key-refuses deps token).at _ ((perform_all-Safe (safe h deps) os).at w' dead_now))
