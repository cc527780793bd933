-- ===== src/Auth/Refresh/Rows.antt =====
-- What the statements on refresh tokens do to the active ones.
use dilion.Base.{
  ℕ, suc, ◌≤◌, ◌≡◌, refl, subst, Bool, true, false, ◌&&◌, ◌||◌, String, ◌==◌, List, [], ◌∷◌, ◌++◌,
  Option, none, some, any, all, find, count, select_where, update_where, delete_where, eq_iff,
  eq_refl, eqb, arith, Bool-cases, inl, inr, ◌⊎◌, both_true, count-update_where, count-append_none,
  count-append_one,
}
use dilion.Exec.{ok}
use dilion.Auth.Refresh.Tables
use dilion.Auth.Refresh.Tables.{
  Session, RefreshToken, Tables, of_session, is_active, has_token, revoked_at, revoke_refresh_token,
  insert_refresh_token, revoke_token_family, delete_session, touch_session, find_active, newest,
  newer_of, revoke_family, new_row,
}

-- No session has two active tokens.
unfoldable pub OneActiveToken : Tables → Type 0
OneActiveToken db = (sid : String) → count (is_active sid) db.tokens ≤ 1

-- Neither the session nor a token of it is left.
unfoldable pub IsGone : String → Tables → Type 0
IsGone sid db =
    (any (of_session sid) db.tokens ≡ false) × (any (λ s. s.id == sid) db.sessions ≡ false)

-- The session has this token, and it is active.
unfoldable pub HasActive : String → String → Tables → Type 0
HasActive sid token db = any (λ k. has_token token k && is_active sid k) db.tokens ≡ true

module _ {ℓ} {A : Type ℓ} where
  count-delete_where : (q p : A → Bool) (xs : List A) → count q (delete_where p xs) ≤ count q xs
  count-delete_where q p [] = ground arith
  count-delete_where q p (x ∷ xs) = ground (arith, count-delete_where q p xs)

  any-delete_where : (p : A → Bool) (xs : List A) → any p (delete_where p xs) ≡ false
  any-delete_where p [] = refl
  any-delete_where p (x ∷ xs) = ground (arith, any-delete_where p xs)

  any-of_count : (q : A → Bool) (xs : List A) → count q xs ≤ 0 → any q xs ≡ false
  any-of_count q [] h = refl
  any-of_count q (x ∷ xs) h = ground (arith, any-of_count q xs)

  any-append_last : (p : A → Bool) (x : A) (xs : List A) → p x ≡ true → any p (xs ++ x ∷ []) ≡ true
  any-append_last p x [] h = rw h refl
  any-append_last p x (y ∷ xs) h = ground (arith, any-append_last p x xs)

  all-select_where : (q : A → Bool) (xs : List A) → all q (select_where q xs) ≡ true
  all-select_where q [] = refl
  all-select_where q (x ∷ xs) = ground (arith, all-select_where q xs)

  any-select_where :
      (p q : A → Bool) (xs : List A) → any p (select_where q xs) ≡ true → any p xs ≡ true
  any-select_where p q [] h = h
  any-select_where p q (x ∷ xs) h = ground (arith, any-select_where p q xs)

  -- An update of a row that counts leaves one less, if no updated row counts.
  count-update_counted :
      (q p h : A → Bool) (f : A → A)
      → ((x : A) → q (f x) ≡ false)
      → (xs : List A) (x : A) → find h xs ≡ some x
      → p x ≡ true
      → q x ≡ true
      → suc (count q (update_where p f xs)) ≤ count q xs
  count-update_counted q p h f off [] x e px qx = cc
  count-update_counted q p h f off (y ∷ xs) x e px qx = ground (
    arith,
    off y,
    count-update_counted q p h f off xs x,
    count-update_where q p f (λ z pz qz. cc (off z)) xs,
  )

newer_one :
    (x : RefreshToken) (o : Option RefreshToken) (k : RefreshToken)
    → newer_of x o ≡ some k
    → (x ≡ k) ⊎ (o ≡ some k)
newer_one x none k e = inl (ground arith)
newer_one x (some y) k e = ground arith

either_true : (a b : Bool) → b ≡ true → (a || b) ≡ true
either_true true b h = refl
either_true false b h = h

all-newest :
    (q : RefreshToken → Bool) (ks : List RefreshToken) (k : RefreshToken)
    → all q ks ≡ true
    → newest ks ≡ some k
    → q k ≡ true
unfolding Tables.newest
all-newest q [] k h e = cc
all-newest q (x ∷ ks) k h e =
    let (hx, hks) = both_true (q x) (all q ks) h in
    elim (newer_one x (newest ks) k e) [
      | inl same ↦ subst (λ y. q y ≡ true) same hx
      | inr older ↦ all-newest q ks k hks older
    ]

any-newest :
    (p : RefreshToken → Bool) (ks : List RefreshToken) (k : RefreshToken)
    → newest ks ≡ some k
    → p k ≡ true
    → any p ks ≡ true
unfolding Tables.newest
any-newest p [] k e h = cc
any-newest p (x ∷ ks) k e h = elim (newer_one x (newest ks) k e) [
  | inl same ↦ rw (same, h) refl
  | inr older ↦ either_true (p x) (any p ks) (any-newest p ks k older h)
]

-- An active token that is found is there.
pub find_active-HasActive :
    (sid : String) (db : Tables) (k : RefreshToken)
    → find_active sid db ≡ some k
    → HasActive sid k.token db
unfolding HasActive
find_active-HasActive sid db k e = any-select_where _ (is_active sid) db.tokens (
    any-newest _ (select_where (is_active sid) db.tokens) k e (
      rw (eq_refl k.token)
        (all-newest (is_active sid) _ k (all-select_where (is_active sid) db.tokens) e)))

inactive : (sid : String) (t : ℕ) (k : RefreshToken) → is_active sid (revoked_at t k) ≡ false
inactive sid t k = ground arith

pub delete_session-IsGone : (sid : String) (db : Tables) → IsGone sid (delete_session sid db)
unfolding IsGone
delete_session-IsGone sid db = (any-delete_where _ db.tokens, any-delete_where _ db.sessions)

pub delete_session-OneActiveToken :
    (sid : String) (db : Tables) → OneActiveToken db → OneActiveToken (delete_session sid db)
unfolding OneActiveToken
delete_session-OneActiveToken sid db one other =
    omega (arith, one other, count-delete_where (is_active other) (of_session sid) db.tokens)

revoke-OneActiveToken :
    (p : RefreshToken → Bool) (t : ℕ) (db : Tables)
    → OneActiveToken db
    → OneActiveToken (record db { tokens = update_where p (revoked_at t) db.tokens })
unfolding OneActiveToken
revoke-OneActiveToken p t db one sid = omega (
  arith,
  one sid,
  count-update_where (is_active sid) p (revoked_at t) (λ k pk qk. cc (inactive sid t k)) db.tokens,
)

revoke_family-OneActiveToken :
    (o : Option String) (rt : RefreshToken) (t : ℕ) (db : Tables)
    → OneActiveToken db
    → OneActiveToken (record db { tokens = revoke_family o rt t db.tokens })
revoke_family-OneActiveToken none rt t db one = revoke-OneActiveToken _ t db one
revoke_family-OneActiveToken (some sid) rt t db one = revoke-OneActiveToken _ t db one

pub revoke_token_family-OneActiveToken :
    (rt : RefreshToken) (t : ℕ) (db : Tables)
    → OneActiveToken db
    → OneActiveToken (revoke_token_family rt t db)
revoke_token_family-OneActiveToken rt t db one =
    revoke_family-OneActiveToken rt.session_id rt t db one

-- The revocation of its active token leaves a session without.
pub revoke_refresh_token-None :
    (rt : RefreshToken) (sid : String) (t : ℕ) (db : Tables)
    → OneActiveToken db
    → find (has_token rt.token) db.tokens ≡ some rt
    → rt.session_id ≡ some sid
    → rt.revoked ≡ false
    → OneActiveToken (revoke_refresh_token rt.id t db)
      × (any (is_active sid) (revoke_refresh_token rt.id t db).tokens ≡ false)
unfolding OneActiveToken
revoke_refresh_token-None rt sid t db one e in_sid fresh = (
  revoke-OneActiveToken (λ k. eqb k.id rt.id) t db one,
  any-of_count (is_active sid) (revoke_refresh_token rt.id t db).tokens (
      omega (
        arith,
        one sid,
        count-update_counted (is_active sid) (λ k. eqb k.id rt.id) (has_token rt.token)
            (revoked_at t) (inactive sid t) db.tokens rt e (ground arith)
            (rw (in_sid, fresh) (rw (eq_refl sid) refl)),
      )),
)

-- A new token of a session without an active one.
pub insert_refresh_token-HasActive :
    (token user parent sid : String) (t : ℕ) (db : Tables)
    → OneActiveToken db
    → any (is_active sid) db.tokens ≡ false
    → (insert_refresh_token token user parent sid t db).1 ≡ ok tt
    → OneActiveToken (insert_refresh_token token user parent sid t db).0
      × HasActive sid token (insert_refresh_token token user parent sid t db).0
unfolding OneActiveToken HasActive
insert_refresh_token-HasActive token user parent sid t db one free h =
    elim (Bool-cases (any (has_token token) db.tokens)) [
      | inl taken ↦ absurd (ground arith)
      | inr new ↦ rw new (
        (λ other. elim (Bool-cases (sid == other)) [
          | inl same ↦
              count-append_one (is_active other) db.tokens _
                (subst (λ x. any (is_active x) db.tokens ≡ false) ((eq_iff sid other).0 same) free)
          | inr differs ↦
              rw
                (count-append_none (is_active other) db.tokens
                  (new_row db.next_id token user parent sid t) (rw differs refl))
                (one other)
        ]),
        any-append_last _ _ db.tokens (rw (eq_refl token, eq_refl sid) refl),
      )
    ]

pub touch_session-HasActive :
    (sid token : String) (t : ℕ) (db : Tables)
    → OneActiveToken db × HasActive sid token db
    → OneActiveToken (touch_session sid t db) × HasActive sid token (touch_session sid t db)
unfolding OneActiveToken HasActive
touch_session-HasActive sid token t db h = h
