-- ===== src/Auth/Refresh/Outcome.antt =====
-- What the transaction of a refresh leaves behind when it is committed.
use dilion.Base.{
  ℕ, ◌+◌, ◌≡◌, refl, sym, ◌∙◌, ap, true, false, ◌&&◌, not, String, ◌==◌, Option, none, some, any,
  find, is_some, ltb, if◌then◌else◌, inl,
}
use dilion.Exec.{pure, query, exec}
use dilion.Exec.Yields.{
  Yields, Yields-pure, Yields-raise, Yields-statement, Yields-if, Yields-bind, Yields-weaken,
}
use dilion.Auth.Refresh.Tables.{
  Session, RefreshToken, User, Tables, internal, http, M, find_active, revoke_token_family,
}
use dilion.Auth.Refresh.Validity.{Config, is_expired, outranks}
use dilion.Auth.Refresh.Rows.{OneActiveToken, find_active-HasActive, delete_session-OneActiveToken}
use dilion.Auth.Refresh.Ended.{
  IsEnded, punished, punished-OneActiveToken, delete_session-IsEnded, punished-IsEnded,
}
use dilion.Auth.Refresh.Rotated.{IsGranted}
use dilion.Auth.Refresh.Grant.{
  Answer, granted, refused, unless_refused, check_user, is_banned, load_refresh_user,
  build_session_response, end_session, check_session_validity, check_single_per_user, punish,
  replay, handle_refresh_token_reuse,
}

-- A step that only reads.
module _ {P : Tables → Type 0} where
  reads : {A : Type 0} (f : Tables → A) → Yields P (query internal f) (λ a s. P s × (a ≡ f s))
  reads f = Yields-statement internal _ (λ s p. (p, refl))

  pub check_single_per_user-Yields :
      (cfg : Config) (rt : RefreshToken) (t : ℕ) (sess : Option Session)
      → Yields P (check_single_per_user cfg sess rt t) (λ _. P)
  unfolding check_single_per_user
  check_single_per_user-Yields cfg rt t none = Yields-pure tt (λ s p. p)
  check_single_per_user-Yields cfg rt t (some s) =
      Yields-if (not cfg.single_per_user) _ _ (λ _. Yields-pure tt (λ s p. p))
        (λ _.
          Yields-bind (λ _. P) _ _ (Yields-statement internal _ (λ s p. p))
            (λ others.
              Yields-if (any (outranks cfg s rt t) others) _ _
                (λ _. Yields-raise (http "session_expired")) (λ _. Yields-pure tt (λ s p. p))))

-- What a committed transaction has done: `before` are the tables when it began.
module _ (cfg : Config) (rt : RefreshToken) (before : Tables) where
  unfoldable pub IsSettled : Answer → Tables → Type 0
  IsSettled (granted r) db = IsGranted rt r before db
  IsSettled (refused code) db = IsEnded cfg rt before db

  abbrev pub Outcome : Answer → Tables → Type 0
  Outcome a db = OneActiveToken db × IsSettled a db

  -- Nothing has been written yet.
  abbrev pub AtStart : Tables → Type 0
  AtStart db = db ≡ before

  -- The user of the session is there.
  abbrev pub IsUser : String → User → Type 0
  IsUser id u = (find (λ u. u.id == id) before.users ≡ some u) × (is_some u.deleted_at ≡ false)

  check_user-Yields :
      (id : String) (t : ℕ) (found : Option User)
      → Yields
          (λ db. AtStart db × (found ≡ find (λ u. u.id == id) db.users))
          (check_user t found)
          (λ u db. AtStart db × IsUser id u)
  check_user-Yields id t none = Yields-raise (http "user_not_found")
  check_user-Yields id t (some u) =
      Yields-if (is_some u.deleted_at) _ _ (λ _. Yields-raise (http "user_not_found"))
        (λ there.
          Yields-if (is_banned u t) _ _ (λ _. Yields-raise (http "user_banned"))
            (λ _.
              Yields-pure u
                (λ db p. (p.0, (sym (p.1 ∙ ap (λ d. find (λ u. u.id == id) d.users) p.0), there)))))

  pub load_refresh_user-Yields :
      (id : String) (t : ℕ)
      → Yields AtStart (load_refresh_user id t) (λ u db. AtStart db × IsUser id u)
  unfolding load_refresh_user
  load_refresh_user-Yields id t = Yields-bind _ _ _ (reads _) (check_user-Yields id t)

  pub build_session_response-Outcome :
      {P : Tables → Type 0} (u : User) (sid token : String)
      → ((db : Tables)
          → P db
          → OneActiveToken db
            × IsGranted rt (record { user = u; session_id = sid; refresh_token = token }) before db)
      → Yields P (build_session_response u sid token) Outcome
  unfolding build_session_response IsSettled
  build_session_response-Outcome {P} u sid token h =
      Yields-bind (λ _. P) _ _ (Yields-statement internal _ (λ s p. p)) (λ _. Yields-pure _ h)

  module _ (one : OneActiveToken before) (t : ℕ) where
    abbrev Punished : Tables → Type 0
    Punished db = db ≡ punished cfg.rotation_enabled rt t before

    abbrev Ended : Tables → Type 0
    Ended db = OneActiveToken db × IsEnded cfg rt before db

    revoke-Punished :
        Yields AtStart
          (if cfg.rotation_enabled then exec internal (revoke_token_family rt t) else pure tt)
          (λ _. Punished)
    revoke-Punished =
        Yields-if cfg.rotation_enabled _ _
          (λ on. Yields-statement internal _ (λ db p. rw (p, on) refl))
          (λ off. Yields-pure tt (λ db p. rw off p))

    end_session-Ended :
        (o : Option String) → rt.session_id ≡ o → Yields Punished (end_session o) (λ _. Ended)
    end_session-Ended none n = Yields-pure tt (λ db p. rw p (
      punished-OneActiveToken cfg rt t before one cfg.rotation_enabled,
      punished-IsEnded cfg rt t before one n,
    ))
    end_session-Ended (some sid) e = Yields-statement internal _ (λ db p. rw p (
      delete_session-OneActiveToken sid _
          (punished-OneActiveToken cfg rt t before one cfg.rotation_enabled),
      delete_session-IsEnded cfg rt t before one cfg.rotation_enabled sid e,
    ))

    punish-Outcome : Yields AtStart (punish cfg rt t) Outcome
    unfolding punish IsSettled
    punish-Outcome =
        Yields-bind (λ _. Punished) _ _ revoke-Punished
          (λ _.
            Yields-bind _ _ _ (end_session-Ended rt.session_id refl)
              (λ _. Yields-pure _ (λ s h. h)))

    -- The session that was found for the token, one of the user's own.
    module _ (s : Session) (of_token : rt.session_id ≡ some s.id)
        (listed : find (λ x. x.id == s.id) before.sessions ≡ some s)
        (own : is_some s.oauth_client_id ≡ false) where
      -- An expired session is ended; else nothing happens.
      abbrev Checked : Option String → Tables → Type 0
      Checked none db = AtStart db
      Checked (some code) db = Ended db

      pub check_session_validity-Yields : Yields AtStart (check_session_validity cfg s rt t) Checked
      unfolding check_session_validity
      check_session_validity-Yields =
          Yields-if (is_expired cfg s rt t) _ _
            (λ _.
              Yields-bind (λ _. Ended) _ _
                (Yields-statement internal _ (λ db p. rw p (
                  delete_session-OneActiveToken s.id before one,
                  delete_session-IsEnded cfg rt t before one false s.id of_token,
                )))
                (λ _. Yields-pure _ (λ db h. h)))
            (λ _. Yields-pure _ (λ db p. p))

      pub unless_refused-Outcome :
          (m : M Answer)
          → Yields AtStart m Outcome
          → (v : Option String) → Yields (Checked v) (unless_refused v m) Outcome
      unfolding IsSettled
      unless_refused-Outcome m y none = y
      unless_refused-Outcome m y (some code) = Yields-pure _ (λ db h. h)

      replay-Outcome :
          rt.revoked ≡ true
          → (active : Option RefreshToken)
          → Yields
              (λ db. AtStart db × (active ≡ find_active s.id db))
              (replay cfg rt s t active)
              Outcome
      unfolding replay
      replay-Outcome spent none = Yields-weaken _ (λ db p. p.0) (λ a db q. q) punish-Outcome
      replay-Outcome spent (some active) = record {
        at = λ w p.
            (Yields-bind _ _ _ check_session_validity-Yields (
                unless_refused-Outcome _ (
                  Yields-bind _ _ _ (load_refresh_user-Yields s.user_id t) (λ u.
                    build_session_response-Outcome u s.id active.token (λ db q. rw q.0 (
                      one,
                      (
                        of_token,
                        find_active-HasActive s.id before active
                            (sym (p.1 ∙ ap (find_active s.id) p.0)),
                        (s, listed, q.1.0, q.1.1, own),
                        inl (spent, refl),
                      ),
                    )))))).at
              w p.0;
      }

      pub reuse-Outcome :
          rt.revoked ≡ true → Yields AtStart (handle_refresh_token_reuse cfg rt (some s) t) Outcome
      unfolding handle_refresh_token_reuse
      reuse-Outcome spent =
          Yields-if (ltb 0 cfg.reuse_interval && ltb t (rt.updated_at + cfg.reuse_interval)) _ _
            (λ _. Yields-bind _ _ _ (reads (find_active s.id)) (replay-Outcome spent))
            (λ _. punish-Outcome)

    pub reuse_alone-Outcome : Yields AtStart (handle_refresh_token_reuse cfg rt none t) Outcome
    unfolding handle_refresh_token_reuse
    reuse_alone-Outcome = punish-Outcome
