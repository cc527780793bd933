-- ===== src/Auth/Refresh/Rotated.antt =====
-- What a refresh leaves that is granted (internal/auth/grant.go).
use dilion.Base.{
  ℕ, ◌≡◌, refl, sym, ◌∙◌, Bool, true, false, ◌&&◌, ◌||◌, String, ◌==◌, List, [], ◌∷◌, ◌++◌, some,
  any, find, update_where, others, others-update_where, others-append, eq_refl, eqb, is_some, arith,
  Bool-cases, inl, inr, ◌⊎◌,
}
use dilion.Exec.{ok}
use dilion.Auth.Refresh.Tables.{
  Session, RefreshToken, Tables, of_session, has_token, revoked_at, revoke_refresh_token,
  insert_refresh_token, touch_session, new_row,
}
use dilion.Auth.Refresh.Rows.{
  OneActiveToken, HasActive, revoke_refresh_token-None, insert_refresh_token-HasActive,
  touch_session-HasActive,
}
use dilion.Auth.Refresh.Grant.{Response}

module _ {ℓ} {A : Type ℓ} where
  find-append :
      (p : A → Bool) (xs ys : List A) (x : A) → find p xs ≡ some x → find p (xs ++ ys) ≡ some x
  find-append p [] ys x e = cc
  find-append p (y ∷ xs) ys x e = ground (arith, find-append p xs ys x)

  find-updated :
      (p q : A → Bool) (f : A → A)
      → ((x : A) → p (f x) ≡ p x)
      → (xs : List A) (x : A) → find p xs ≡ some x
      → q x ≡ true
      → find p (update_where q f xs) ≡ some (f x)
  find-updated p q f keep [] x e h = cc
  find-updated p q f keep (y ∷ xs) x e h = ground (arith, keep y, find-updated p q f keep xs x)

  any-update_same :
      (p q : A → Bool) (f : A → A)
      → ((x : A) → p (f x) ≡ p x)
      → (xs : List A) → any p (update_where q f xs) ≡ any p xs
  any-update_same p q f keep [] = refl
  any-update_same p q f keep (y ∷ xs) = ground (arith, keep y, any-update_same p q f keep xs)

any-last {ℓ} :
    {A : Type ℓ} (p : A → Bool) (xs : List A) (x : A) → p x ≡ true → any p (xs ++ x ∷ []) ≡ true
any-last p [] x h = rw h refl
any-last p (y ∷ xs) x h = ground (arith, any-last p xs x)

or_true : (a b : Bool) → b ≡ true → (a || b) ≡ true
or_true true b h = refl
or_true false b h = h

-- The old token is spent, and its child is new; tokens of other sessions are as they were.
abbrev IsRotated : RefreshToken → Response → Tables → Tables → Type 0
IsRotated rt r before db =
    ((t : ℕ) × (find (has_token rt.token) db.tokens ≡ some (revoked_at t rt)))
    × (any (has_token r.refresh_token) before.tokens ≡ false)
    × (any (λ k. has_token r.refresh_token k && k.parent == rt.token) db.tokens ≡ true)
    × (others (λ k. eqb k.id rt.id || of_session r.session_id k) db.tokens
        ≡ others (λ k. eqb k.id rt.id || of_session r.session_id k) before.tokens)

-- Whose session it is: one of the user's own sign-ins, of a user who is there.
abbrev IsOwned : Response → Tables → Type 0
IsOwned r before =
    (s : Session) × (find (λ x. x.id == r.session_id) before.sessions ≡ some s)
    × (find (λ u. u.id == s.user_id) before.users ≡ some r.user)
    × (is_some r.user.deleted_at ≡ false)
    × (is_some s.oauth_client_id ≡ false)

-- The answer is for the session of the presented token, and hands out the active token of it: the
-- one that was there, if the presented one was spent before; else its child.
abbrev pub IsGranted : RefreshToken → Response → Tables → Tables → Type 0
IsGranted rt r before db =
    (rt.session_id ≡ some r.session_id)
    × HasActive r.session_id r.refresh_token db
    × IsOwned r before
    × (((rt.revoked ≡ true) × (db ≡ before)) ⊎ ((rt.revoked ≡ false) × IsRotated rt r before db))

module _ (rt : RefreshToken) (sid next : String) (t : ℕ) (before : Tables)
    (one : OneActiveToken before) (there : find (has_token rt.token) before.tokens ≡ some rt)
    (of_token : rt.session_id ≡ some sid) (fresh : rt.revoked ≡ false) where
  abbrev spent : Tables
  spent = revoke_refresh_token rt.id t before

  abbrev child : RefreshToken
  child = new_row before.next_id next rt.user_id rt.token sid t

  -- The insertion went through.
  abbrev rotated_tables : Tables
  rotated_tables = touch_session sid t (insert_refresh_token next rt.user_id rt.token sid t spent).0

  module _ (inserted : (insert_refresh_token next rt.user_id rt.token sid t spent).1 ≡ ok tt) where
    not_taken : any (has_token next) spent.tokens ≡ false
    not_taken = elim (Bool-cases (any (has_token next) spent.tokens)) [
      | inl taken ↦ absurd (ground arith)
      | inr new ↦ new
    ]

    pub issue-HasActive : OneActiveToken rotated_tables × HasActive sid next rotated_tables
    issue-HasActive =
        let (kept, free) = revoke_refresh_token-None rt sid t before one there of_token fresh in
        touch_session-HasActive sid next t _
          (insert_refresh_token-HasActive next rt.user_id rt.token sid t spent kept free inserted)

    rotated-tokens : rotated_tables.tokens ≡ spent.tokens ++ child ∷ []
    rotated-tokens = rw not_taken refl

    pub issue-IsRotated :
        (r : Response)
        → r.session_id ≡ sid
        → r.refresh_token ≡ next
        → IsRotated rt r before rotated_tables
    issue-IsRotated r es en =
        rw (es, en, rotated-tokens)
          (
            (
              t,
              find-append (has_token rt.token) spent.tokens (child ∷ []) (revoked_at t rt) (
                  find-updated (has_token rt.token) (λ k. eqb k.id rt.id) (revoked_at t) (λ k. refl)
                    before.tokens rt there (ground arith)),
            ),
            sym (
                  any-update_same (has_token next) (λ k. eqb k.id rt.id) (revoked_at t) (λ k. refl)
                    before.tokens)
                ∙ not_taken,
            any-last (λ k. has_token next k && k.parent == rt.token) spent.tokens child
                (rw (eq_refl next, eq_refl rt.token) refl),
            others-append claims spent.tokens child
                  (or_true (eqb before.next_id rt.id) _ (eq_refl sid))
                ∙ others-update_where claims (λ k. eqb k.id rt.id) (λ k e. rw e refl) (revoked_at t)
                    before.tokens (λ k e. e),
          )
      where
        claims : RefreshToken → Bool
        claims k = eqb k.id rt.id || of_session sid k
