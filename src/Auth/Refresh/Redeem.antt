-- ===== src/Auth/Refresh/Redeem.antt =====
-- The transaction of a refresh that uses its token, and as a whole.
use dilion.Base.{
  ℕ, ◌≡◌, refl, sym, subst, ◌∙◌, Bool, true, false, String, ◌==◌, List, [], ◌∷◌, Option, none, some,
  is_some, if◌then◌else◌, find, ap, arith, eq_iff, inr,
}
use dilion.Exec.{ok, lift, statement, ◌>>=◌}
use dilion.Exec.Yields.{
  Yields, Yields-pure, Yields-raise, Yields-statement, Yields-if, Yields-bind, Yields-now,
  Yields-lift, Yields-weaken,
}
use dilion.Auth.Refresh.Tables.{
  Session, RefreshToken, User, Tables, internal, oauth_session, http, M, has_token,
  revoke_refresh_token, insert_refresh_token, touch_session,
}
use dilion.Auth.Refresh.Validity.{Config}
use dilion.Auth.Refresh.Rows.{OneActiveToken}
use dilion.Auth.Refresh.Rotated.{IsGranted, issue-HasActive, issue-IsRotated}
use dilion.Auth.Refresh.Grant.{
  Answer, rotate, use_token, judge, is_oauth, session_of, redeem, found_token,
  handle_refresh_token_reuse,
}
use dilion.Auth.Refresh.Outcome.{
  Outcome, AtStart, IsUser, load_refresh_user-Yields, build_session_response-Outcome,
  check_single_per_user-Yields, check_session_validity-Yields, unless_refused-Outcome,
  reuse-Outcome, reuse_alone-Outcome,
}

-- What does not depend on the tables may be used to choose the proof.
given :
    {A F : Type 0} {P : Tables → Type 0} {m : M A} {Q : A → Tables → Type 0}
    → (F → Yields P m Q)
    → Yields (λ s. P s × F) m Q
given h = record { at = λ w p. (h p.1).at w p.0 }

find-holds {ℓ} : {A : Type ℓ} (p : A → Bool) (xs : List A) (x : A) → find p xs ≡ some x → p x ≡ true
find-holds p [] x e = cc
find-holds p (y ∷ xs) x e = ground (arith, find-holds p xs x)

module _ (cfg : Config) (new_token : Tables → String) (rt : RefreshToken) (before : Tables)
    (one : OneActiveToken before) (t : ℕ)
    (there : find (has_token rt.token) before.tokens ≡ some rt) where
  abbrev Start : Tables → Type 0
  Start = AtStart cfg rt before

  module _ (s : Session) (of_token : rt.session_id ≡ some s.id)
      (listed : find (λ x. x.id == s.id) before.sessions ≡ some s)
      (own : is_some s.oauth_client_id ≡ false) where
    rotate-Outcome :
        (u : User)
        → rt.revoked ≡ false
        → IsUser cfg rt before s.user_id u
        → Yields Start (rotate cfg new_token rt s t u) (Outcome cfg rt before)
    unfolding rotate
    rotate-Outcome u fresh user =
        Yields-bind (λ _ db. db ≡ spent) _ _
          (Yields-statement internal _ (λ db p. ap (revoke_refresh_token rt.id t) p))
          (λ _.
            Yields-bind (λ _ db. db ≡ spent) _ _ (Yields-statement internal _ (λ db p. p))
              (λ next.
                Yields-bind (λ _ db. Inserted next × (db ≡ with_child next)) _ _ (inserts next)
                  (λ _.
                    Yields-bind
                      (λ _ db. Inserted next × (db ≡ touch_session s.id t (with_child next))) _ _
                      (Yields-statement internal _ (λ db p. (p.0, ap (touch_session s.id t) p.1)))
                      (λ _.
                        build_session_response-Outcome cfg rt before u s.id next
                          (λ db p. rw p.1 (grants next p.0))))))
      where
        spent : Tables
        spent = revoke_refresh_token rt.id t before

        with_child : String → Tables
        with_child next = (insert_refresh_token next rt.user_id rt.token s.id t spent).0

        Inserted : String → Type 0
        Inserted next = (insert_refresh_token next rt.user_id rt.token s.id t spent).1 ≡ ok tt

        inserts :
            (next : String)
            → Yields
                (λ db. db ≡ spent)
                (statement internal (insert_refresh_token next rt.user_id rt.token s.id t) >>= lift)
                (λ _ db. Inserted next × (db ≡ with_child next))
        inserts next =
            Yields-bind
              (λ r db.
                (r ≡ (insert_refresh_token next rt.user_id rt.token s.id t spent).1)
                × (db ≡ with_child next))
              _ _ (Yields-statement internal _ (λ db p. rw p (refl, refl)))
              (λ r. Yields-lift r (λ a db e p. (sym p.0 ∙ e, p.1)))

        grants :
            (next : String)
            → Inserted next
            → OneActiveToken (touch_session s.id t (with_child next))
              × IsGranted rt
                  (record { user = u; session_id = s.id; refresh_token = next })
                  before
                  (touch_session s.id t (with_child next))
        grants next inserted =
            let (kept, has) =
              issue-HasActive rt s.id next t before one there of_token fresh inserted in
            (
              kept,
              (
                of_token,
                has,
                (s, listed, user.0, user.1, own),
                inr (
                  fresh,
                  issue-IsRotated rt s.id next t before one there of_token fresh inserted
                      (record { user = u; session_id = s.id; refresh_token = next }) refl refl,
                ),
              ),
            )

    use_token-Outcome :
        rt.revoked ≡ false
        → Yields Start (use_token cfg new_token rt (some s) t) (Outcome cfg rt before)
    unfolding use_token
    use_token-Outcome fresh =
        Yields-bind _ _ _ (check_session_validity-Yields cfg rt before one t s of_token listed own)
          (unless_refused-Outcome cfg rt before one t s of_token listed own _ (
            Yields-bind _ _ _ (load_refresh_user-Yields cfg rt before s.user_id t)
              (λ u. given (λ user. rotate-Outcome u fresh user))))

  -- What is known of the session that was looked up.
  abbrev Linked : Option Session → Type 0
  Linked none = Unit
  Linked (some s) =
      (rt.session_id ≡ some s.id) × (find (λ x. x.id == s.id) before.sessions ≡ some s)

  by_session :
      (sess : Option Session)
      → Linked sess
      → is_oauth cfg new_token sess ≡ false
      → Yields Start
          (if rt.revoked
            then handle_refresh_token_reuse cfg rt sess t
            else use_token cfg new_token rt sess t)
          (Outcome cfg rt before)
  unfolding use_token
  by_session none link own =
      Yields-if rt.revoked _ _ (λ spent. reuse_alone-Outcome cfg rt before one t)
        (λ fresh. Yields-raise (http "session_not_found"))
  by_session (some s) link own =
      Yields-if rt.revoked _ _
        (λ spent. reuse-Outcome cfg rt before one t s link.0 link.1 own spent)
        (λ fresh. use_token-Outcome s link.0 link.1 own fresh)

  judge-Outcome :
      (sess : Option Session)
      → Linked sess
      → Yields Start (judge cfg new_token rt t sess) (Outcome cfg rt before)
  unfolding judge
  judge-Outcome sess link =
      Yields-if (is_oauth cfg new_token sess) _ _ (λ _. Yields-raise oauth_session)
        (λ own.
          Yields-bind (λ _. Start) _ _ (check_single_per_user-Yields cfg rt t sess)
            (λ _. by_session sess link own))

  session_of-Linked :
      (o : Option String)
      → rt.session_id ≡ o
      → Yields Start (session_of cfg new_token o) (λ sess db. Start db × Linked sess)
  session_of-Linked none e = Yields-pure _ (λ db p. (p, tt))
  session_of-Linked (some sid) e =
      Yields-statement internal _
        (λ db p. (p, rw p (looked_up (find (λ x. x.id == sid) before.sessions) refl)))
    where
      looked_up :
          (sess : Option Session) → find (λ x. x.id == sid) before.sessions ≡ sess → Linked sess
      looked_up none f = tt
      looked_up (some s) f =
          let same = (eq_iff s.id sid).0 (find-holds (λ x. x.id == sid) before.sessions s f) in
          (
            e ∙ ap (λ x. some x) (sym same),
            subst (λ i. find (λ x. x.id == i) before.sessions ≡ some s) (sym same) f,
          )

module _ (cfg : Config) (new_token : Tables → String) (token : String) (before : Tables)
    (one : OneActiveToken before) where
  abbrev pub Found : Answer → Tables → Type 0
  Found a db =
      (rt : RefreshToken) × (find (has_token token) before.tokens ≡ some rt)
      × Outcome cfg rt before a db

  there_again :
      (rt : RefreshToken)
      → find (has_token token) before.tokens ≡ some rt
      → find (has_token rt.token) before.tokens ≡ some rt
  there_again rt e =
      subst (λ x. find (has_token x) before.tokens ≡ some rt)
        (sym ((eq_iff rt.token token).0 (find-holds (has_token token) before.tokens rt e))) e

  found_token-Outcome :
      (found : Option RefreshToken)
      → find (has_token token) before.tokens ≡ found
      → Yields (λ db. db ≡ before) (found_token cfg new_token found) Found
  found_token-Outcome none e = Yields-raise (http "refresh_token_not_found")
  found_token-Outcome (some rt) e =
      Yields-bind (λ t db. db ≡ before) _ _ (Yields-now (λ t db p. p))
        (λ t.
          Yields-bind _ _ _
            (session_of-Linked cfg new_token rt before one t (there_again rt e) rt.session_id refl)
            (λ sess. given (λ link.
              Yields-weaken _ (λ db p. p) (λ a db q. (rt, e, q))
                (judge-Outcome cfg new_token rt before one t (there_again rt e) sess link))))

  pub redeem-Outcome : Yields (λ db. db ≡ before) (redeem cfg new_token token) Found
  unfolding redeem
  redeem-Outcome =
      Yields-bind (λ a db. (db ≡ before) × (find (has_token token) before.tokens ≡ a)) _ _
        (Yields-statement internal _
          (λ db same. (same, ap (λ d. find (has_token token) d.tokens) (sym same))))
        (λ found. given (λ e. found_token-Outcome found e))
