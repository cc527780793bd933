-- ===== src/Auth/Refresh/Ended.antt =====
-- What a refresh leaves that ends the session of its token (internal/auth/grant.go).
use dilion.Base.{
  eq_iff, ◌==◌, ℕ, ◌≡◌, refl, sym, ap, ◌∙◌, subst, Bool, true, false, ◌&&◌, ◌||◌, not, String, List,
  [], ◌∷◌, none, some, all, length, contains, update_where, others, others-update_where,
  others-delete_where, if◌then◌else◌, arith, Bool-cases, inl, inr,
}
use dilion.Auth.Refresh.Tables.{
  RefreshToken, Tables, of_session, revoked_at, revoke_token_family, delete_session, revoke_family,
  family,
}
use dilion.Auth.Refresh.Family.{Descends, family-Descends}
use dilion.Auth.Refresh.Validity.{Config}
use dilion.Auth.Refresh.Rows.{
  OneActiveToken, IsGone, delete_session-IsGone, revoke_token_family-OneActiveToken,
}

-- Every token of a list of names is revoked.
abbrev AllRevoked : List String → List RefreshToken → Type 0
AllRevoked names ks = all (λ k. not (contains names k.token) || k.revoked) ks ≡ true

revoke-AllRevoked :
    (names : List String) (t : ℕ) (ks : List RefreshToken)
    → AllRevoked names (update_where (λ k. contains names k.token) (revoked_at t) ks)
revoke-AllRevoked names t [] = refl
revoke-AllRevoked names t (k ∷ ks) = elim (Bool-cases (contains names k.token)) [
  | inl among ↦ rw (among, revoke-AllRevoked names t ks) (rw among refl)
  | inr beside ↦ rw (beside, revoke-AllRevoked names t ks) (rw beside refl)
]

-- Every token of a name is revoked.
abbrev IsRevoked : String → List RefreshToken → Type 0
IsRevoked name ks = all (λ k. not (k.token == name) || k.revoked) ks ≡ true

IsRevoked-among :
    (names : List String) (name : String) (ks : List RefreshToken)
    → contains names name ≡ true
    → AllRevoked names ks
    → IsRevoked name ks
IsRevoked-among names name [] c h = refl
IsRevoked-among names name (k ∷ ks) c h = elim (Bool-cases (k.token == name)) [
  | inl same ↦
      let among : contains names k.token ≡ true =
        subst (λ x. contains names x ≡ true) (sym ((eq_iff k.token name).0 same)) c in
      ground (arith, among, same, IsRevoked-among names name ks c)
  | inr other ↦ ground (arith, other, IsRevoked-among names name ks c)
]

-- The tokens that descend from one.
abbrev family_of : RefreshToken → Tables → List String
family_of rt db = family (length db.tokens) db.tokens (rt.token ∷ [])

-- What a refresh that is refused for good leaves: the session of the token is gone, and the tokens
-- of other sessions are as they were; or, where the token has no session, its descendants are
-- revoked.
pub IsEnded : Config → RefreshToken → Tables → Tables → Type 0
IsEnded cfg rt before db =
    ((id : String)
      → rt.session_id ≡ some id
      → IsGone id db × (others (of_session id) db.tokens ≡ others (of_session id) before.tokens))
    × (rt.session_id ≡ none
        → cfg.rotation_enabled ≡ true
        → (name : String) → Descends before.tokens rt.token name
        → IsRevoked name db.tokens)

abbrev pub punished : Bool → RefreshToken → ℕ → Tables → Tables
punished rotation rt t db = if rotation then revoke_token_family rt t db else db

some_injective : {a b : String} → some a ≡ some b → a ≡ b
some_injective e = cc

others-revoke_family :
    (sid : String) (rt : RefreshToken) (t : ℕ) (ks : List RefreshToken)
    → others (of_session sid) (revoke_family (some sid) rt t ks) ≡ others (of_session sid) ks
others-revoke_family sid rt t ks =
    others-update_where (of_session sid) (λ k. of_session sid k && not k.revoked)
      (λ k e. ground arith) (revoked_at t) ks (λ k e. e)

module _ (cfg : Config) (rt : RefreshToken) (t : ℕ) (before : Tables)
    (one : OneActiveToken before) where
  pub punished-OneActiveToken : (b : Bool) → OneActiveToken (punished b rt t before)
  punished-OneActiveToken true = revoke_token_family-OneActiveToken rt t before one
  punished-OneActiveToken false = one

  punished-others :
      (b : Bool) (sid : String)
      → rt.session_id ≡ some sid
      → others (of_session sid) (punished b rt t before).tokens
        ≡ others (of_session sid) before.tokens
  punished-others false sid e = refl
  punished-others true sid e =
      ap (λ o. others (of_session sid) (revoke_family o rt t before.tokens)) e
      ∙ others-revoke_family sid rt t before.tokens

  -- The end of a session that a token of it led to.
  pub delete_session-IsEnded :
      (b : Bool) (sid : String)
      → rt.session_id ≡ some sid
      → IsEnded cfg rt before (delete_session sid (punished b rt t before))
  unfolding IsEnded
  delete_session-IsEnded b sid e = (
    λ id e'.
        subst
          (λ x.
            IsGone x (delete_session sid (punished b rt t before))
            × (others (of_session x) (delete_session sid (punished b rt t before)).tokens
                ≡ others (of_session x) before.tokens))
          (some_injective (sym e ∙ e'))
          (
            delete_session-IsGone sid (punished b rt t before),
            others-delete_where (of_session sid) (of_session sid) (λ k h. h)
                  (punished b rt t before).tokens
                ∙ punished-others b sid e,
          ),
    λ n rotation name d. absurd (some_none (sym e ∙ n)),
  )
    where
      some_none : {a : String} → some a ≡ none → ⊥
      some_none x = cc

  pub punished-IsEnded :
      rt.session_id ≡ none → IsEnded cfg rt before (punished cfg.rotation_enabled rt t before)
  unfolding IsEnded
  punished-IsEnded n = (
    λ id e. absurd (none_some (sym n ∙ e)),
    λ _ rotation name d.
        IsRevoked-among (family_of rt before) name _ (family-Descends before.tokens rt.token name d)
          (rw rotation (
            subst (λ o. AllRevoked (family_of rt before) (revoke_family o rt t before.tokens))
              (sym n) (revoke-AllRevoked (family_of rt before) t before.tokens))),
  )
    where
      none_some : {a : String} → none ≡ some a → ⊥
      none_some x = cc
