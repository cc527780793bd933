-- ===== src/Privacy/Requests/Replay.antt =====
-- An idempotency key answers with the request that it made (internal/privacy/requests.go).
use dilion.Base.{
  ℕ, ◌≡◌, refl, sym, subst, ◌∙◌, Bool, true, false, ◌||◌, not, String, ◌==◌, List, [], ◌∷◌, ◌++◌,
  Option, none, some, any, find, eq_refl, eq_iff, not_empty, holds_text, Bool-cases, inl, inr,
  arith,
}
use dilion.Exec.{World, Result, ok, err, pure, lift, statement, ◌>>=◌}
use dilion.Exec.Yields.{
  Yields, Post-ok, Yields-anything, Yields-bind, Yields-pure, Yields-raise, Yields-lift, Yields-if,
  Yields-in_tx, Yields-statement, Yields-weaken, Yields-impossible,
}
use dilion.Privacy.Policy.{Policy}
use dilion.Privacy.Db.{
  Db, Error, Deps, Request, RequestType, deletion, export, consent_withdrawal, unknown_type,
}
use dilion.Privacy.Requests.Create.{
  CreateRequestInput, same_type, is_deletion, valid_request_type, same_key, clashes, insert_request,
  new_request, request_by_idempotency_key, insert_statement, insert_locked, create_new, replay,
  create_valid, create_request, valid_uuid,
}

same_type_refl : (t : RequestType) → same_type t t ≡ true
same_type_refl deletion = refl
same_type_refl export = refl
same_type_refl consent_withdrawal = refl
same_type_refl (unknown_type s) = eq_refl s

module _ (key : String) where
  abbrev keyed : Request → Bool
  keyed r = holds_text r.idempotency_key key

  append_keyed :
      (rs : List Request) (r : Request)
      → r.idempotency_key ≡ some key
      → any (same_key (some key)) rs ≡ false
      → find keyed (rs ++ r ∷ []) ≡ some r
  append_keyed [] r e h = rw (e, eq_refl key) refl
  append_keyed (x ∷ rs) r e h = ground (arith, append_keyed rs r e)

module _ (deps : Deps) (input : CreateRequestInput) (user : String) where
  -- The request answers for the key, the person and the type.
  pub record Answers (r : Request) (s : Db) : Type 0 where
    pub found : find (keyed input.idempotency_key) s.requests ≡ some r
    pub of_user : r.user_id ≡ user
    pub of_type : same_type r.type input.type ≡ true

  abbrev Inserted : Result Error Request → Db → Type 0
  Inserted (ok r) s = Answers r s
  Inserted (err e) s = Unit

  insert-Inserted :
      (r : Request) (s : Db)
      → r.idempotency_key ≡ some input.idempotency_key
      → r.user_id ≡ user
      → same_type r.type input.type ≡ true
      → Inserted (insert_request r s).1 (insert_request r s).0
  insert-Inserted r s k u t = elim (Bool-cases (any (λ x. x.id == r.id) s.requests)) [
    | inl same ↦ rw same tt
    | inr fresh ↦ elim (Bool-cases (any (same_key r.idempotency_key) s.requests)) [
      | inl used ↦ rw (fresh, used) tt
      | inr unused ↦ elim (Bool-cases (any (clashes r) s.requests)) [
        | inl active ↦ rw (fresh, unused, active) tt
        | inr free ↦
            rw (fresh, unused, free)
              (record {
                found = append_keyed input.idempotency_key s.requests r k (rw⁻¹ k unused);
                of_user = u;
                of_type = t;
              })
      ]
    ]
  ]

  key_lem :
      (input.idempotency_key == "") ≡ false
      → not_empty input.idempotency_key ≡ some input.idempotency_key
  key_lem k = rw k refl

  module _ (has_key : (input.idempotency_key == "") ≡ false) where
    insert_statement-Answers :
        (p : String × Option Policy) (t : ℕ)
        → Yields (λ s. Unit {0}) (insert_statement deps input user p t) Answers
    unfolding insert_statement
    insert_statement-Answers (id, policy) t =
        Yields-bind (λ x s. Inserted x s) _ _
          (Yields-statement _ _ (λ s p.
            insert-Inserted (new_request deps input user id policy t s) s (key_lem has_key) refl
              (same_type_refl input.type)))
          (λ x. Yields-lift x (λ a s e p. subst (λ y. Inserted y s) e p))

    insert_locked-Answers :
        (p : String × Option Policy) (t : ℕ)
        → Yields (λ s. Unit {0}) (insert_locked deps input user p t) Answers
    unfolding insert_locked
    insert_locked-Answers p t =
        Yields-if (is_deletion input.type) _ _
          (λ _. Yields-in_tx _ _ (
            Yields-bind (λ _ s. Unit {0}) _ _ (Yields-anything _)
              (λ active.
                Yields-bind (λ _ s. Unit {0}) _ _ (Yields-anything _)
                  (λ _. insert_statement-Answers p t))))
          (λ _. insert_statement-Answers p t)

    create_new-Answers : Yields (λ s. Unit {0}) (create_new deps input user) Answers
    unfolding create_new
    create_new-Answers =
        Yields-bind (λ _ s. Unit {0}) _ _ (Yields-anything _)
          (λ active.
            Yields-bind (λ _ s. Unit {0}) _ _ (Yields-anything _)
              (λ _.
                Yields-bind (λ _ s. Unit {0}) _ _ (Yields-anything _)
                  (λ p.
                    Yields-bind (λ _ s. Unit {0}) _ _ (Yields-anything _)
                      (λ _.
                        Yields-bind (λ _ s. Unit {0}) _ _ (Yields-anything _)
                          (λ t. insert_locked-Answers p t)))))

    matches : (a b : Bool) → (not a || not b) ≡ false → (a ≡ true) × (b ≡ true)
    matches a b h = ground arith

    replay-Answers :
        (o : Option Request)
        → Yields
            (λ s. o ≡ find (keyed input.idempotency_key) s.requests)
            (replay deps input user o)
            Answers
    unfolding replay
    replay-Answers none = Yields-weaken _ (λ s p. tt) (λ a s q. q) create_new-Answers
    replay-Answers (some prev) =
        Yields-if (not (prev.user_id == user) || not (same_type prev.type input.type)) _ _
          (λ _. Yields-raise _)
          (λ e.
            let m = matches (prev.user_id == user) (same_type prev.type input.type) e in
            Yields-pure _ (λ s p. record {
              found = sym p;
              of_user = (eq_iff prev.user_id user).0 m.0;
              of_type = m.1;
            }))

    -- What a request that was made or replayed leaves behind.
    pub create_valid-Answers :
        Yields
          (λ s. Unit {0})
          (create_valid deps input user)
          (λ r s. Answers r s × (valid_request_type input.type ≡ true))
    unfolding create_valid request_by_idempotency_key
    create_valid-Answers =
        Yields-if (not (valid_request_type input.type)) _ _ (λ _. Yields-raise _)
          (λ v.
            Yields-if (input.idempotency_key == "") _ _ (λ e. Yields-impossible (sym has_key ∙ e))
              (λ _.
                Yields-bind (λ o s. o ≡ find (keyed input.idempotency_key) s.requests) _ _
                  (Yields-statement _ _ (λ s p. refl))
                  (λ o.
                    Yields-weaken _ (λ s p. p) (λ r s q. (q, ground arith)) (replay-Answers o))))

-- The tables at another time, where nothing fails.
abbrev pub later : Db → ℕ → World Db
later s c = record { db = s; clock = c; ticks = [] }

-- The second of two requests with the same key.
module _ (deps : Deps) (input : CreateRequestInput)
    (has_key : (input.idempotency_key == "") ≡ false) where
  replayed :
      (user : String) (r : Request) (s : Db) (c : ℕ)
      → valid_request_type input.type ≡ true
      → Answers deps input user r s
      → create_valid deps input user (later s c) ≡ (later s c, ok r)
  unfolding create_valid request_by_idempotency_key replay ◌>>=◌ statement pure
  replayed user r s c ok_type a =
      rw (ok_type, has_key, a.found, a.of_user, eq_refl user, a.of_type) refl

  abbrev Replays : Request → Db → Type 0
  Replays r s = (c : ℕ) → create_request deps input (later s c) ≡ (later s c, ok r)

  again :
      (user : String)
      → valid_uuid deps input.user_id ≡ ok user
      → Yields (λ s. Unit {0}) (create_valid deps input user) Replays
  unfolding create_request ◌>>=◌ lift
  again user e =
      Yields-weaken _ (λ s p. p) (λ r s q c. rw e (replayed user r s c q.1 q.0))
        (create_valid-Answers deps input user has_key)

  create_request-Replays : Yields (λ s. Unit {0}) (create_request deps input) Replays
  unfolding create_request
  create_request-Replays =
      Yields-bind (λ user s. valid_uuid deps input.user_id ≡ ok user) _ _
        (Yields-lift _ (λ user s e p. e)) (λ user. record { at = λ w e. (again user e).at w tt })

-- When a request with an idempotency key has succeeded, the same call on the tables that it left,
-- at any later time and without failures, gives the same request again and changes nothing.
pub create_request_replays :
    (deps : Deps) (input : CreateRequestInput) (r : Request) (w : World Db) (c : ℕ)
    → (input.idempotency_key == "") ≡ false
    → (create_request deps input w).1 ≡ ok r
    → let v = later (create_request deps input w).0.db c in create_request deps input v ≡ (v, ok r)
create_request_replays deps input r w c has_key e =
    Post-ok (Replays deps input has_key) r (create_request deps input w) e
      ((create_request-Replays deps input has_key).at w tt) c
