-- ===== src/Auth/Refresh/Grant.antt =====
-- `refreshTokenGrant` (internal/auth/grant.go).
use dilion.Base.{
  ℕ, ◌+◌, Bool, false, ◌&&◌, not, String, ◌==◌, List, [], ◌∷◌, Option, none, some, any, find,
  select_where, is_some, ltb, if◌then◌else◌,
}
use dilion.Exec.{pure, raise, lift, now, statement, query, exec, check_ctx, in_tx, ◌>>=◌, ◌>>◌}
use dilion.Text.Codes.{codes}
use dilion.Auth.Refresh.Tables.{
  Session, RefreshToken, User, Tables, internal, oauth_session, http, M, has_token,
  revoke_refresh_token, insert_refresh_token, revoke_token_family, delete_session, touch_session,
  find_active,
}
use dilion.Auth.Refresh.Validity.{Config, is_expired, outranks}

-- Whom an access token was issued to, for which session, with which refresh token.
pub record Response : Type 0 where
  pub user : User
  pub session_id : String
  pub refresh_token : String

-- What the transaction answers. `refused code` is an error under `commitAndFail`: `inTx` commits,
-- and the request fails with it.
pub data Answer : Type 0 where
  granted : Response → Answer
  refused : String → Answer

-- Either the code of a committed failure, or the run goes on.
abbrev pub unless_refused : Option String → M Answer → M Answer
unless_refused none m = m
unless_refused (some code) m = pure (refused code)

-- `IsBanned`.
abbrev pub is_banned : User → ℕ → Bool
is_banned u t = elim u.banned_until [ none ↦ false | some until ↦ ltb t until ]

abbrev pub check_user : ℕ → Option User → M User
check_user t none = raise (http "user_not_found")
check_user t (some u) =
    if is_some u.deleted_at
    then raise (http "user_not_found")
    else if is_banned u t
    then raise (http "user_banned")
    else pure u

-- `loadRefreshUser`.
unfoldable pub load_refresh_user : String → ℕ → M User
load_refresh_user id t = do
  u ← query internal (λ db. find (λ u. u.id == id) db.users)
  check_user t u

-- `buildSessionResponse`: reads tables and signs, and may fail.
unfoldable pub build_session_response : User → String → String → M Answer
build_session_response u sid refresh = do
  check_ctx internal
  pure (granted (record { user = u; session_id = sid; refresh_token = refresh }))

abbrev pub end_session : Option String → M (Unit {0})
end_session none = pure tt
end_session (some sid) = exec internal (delete_session sid)

abbrev utf8_size : ℕ → ℕ
utf8_size c = if ltb c 0x80 then 1 else if ltb c 0x800 then 2 else if ltb c 0x10000 then 3 else 4

-- `len(s)` of a string in UTF-8.
unfoldable pub bytes : List ℕ → ℕ
bytes [] = 0
bytes (c ∷ s) = utf8_size c + bytes s

module _ (cfg : Config) where
  -- `checkSessionValidity`.
  unfoldable pub check_session_validity : Session → RefreshToken → ℕ → M (Option String)
  check_session_validity s rt t =
      if is_expired cfg s rt t
      then (exec internal (delete_session s.id) >> pure (some "session_expired"))
      else pure none

  -- `checkSinglePerUser`.
  unfoldable pub check_single_per_user : Option Session → RefreshToken → ℕ → M (Unit {0})
  check_single_per_user none rt t = pure tt
  check_single_per_user (some s) rt t = if not cfg.single_per_user then pure tt else (do
    others ← query internal (λ db. select_where (λ o. o.user_id == s.user_id) db.sessions)
    if any (outranks cfg s rt t) others then raise (http "session_expired") else pure tt)

  -- The end of `handleRefreshTokenReuse`: a reuse that is not tolerated.
  unfoldable pub punish : RefreshToken → ℕ → M Answer
  punish rt t = do
    if cfg.rotation_enabled then exec internal (revoke_token_family rt t) else pure tt
    end_session rt.session_id
    pure (refused "refresh_token_already_used")

  unfoldable pub replay : RefreshToken → Session → ℕ → Option RefreshToken → M Answer
  replay rt s t none = punish rt t
  replay rt s t (some active) = do
    expired ← check_session_validity s rt t
    unless_refused expired
        (do u ← load_refresh_user s.user_id t; build_session_response u s.id active.token)

  -- `handleRefreshTokenReuse`.
  unfoldable pub handle_refresh_token_reuse : RefreshToken → Option Session → ℕ → M Answer
  handle_refresh_token_reuse rt none t = punish rt t
  handle_refresh_token_reuse rt (some s) t =
      if ltb 0 cfg.reuse_interval && ltb t (rt.updated_at + cfg.reuse_interval)
      then (query internal (find_active s.id) >>= replay rt s t)
      else punish rt t

  module _ (new_token : Tables → String) where
    -- The old token is revoked and its child issued.
    unfoldable pub rotate : RefreshToken → Session → ℕ → User → M Answer
    rotate rt s t u = do
      exec internal (revoke_refresh_token rt.id t)
      next ← query internal new_token
      statement internal (insert_refresh_token next rt.user_id rt.token s.id t) >>= lift
      exec internal (touch_session s.id t)
      build_session_response u s.id next

    unfoldable pub use_token : RefreshToken → Option Session → ℕ → M Answer
    use_token rt none t = raise (http "session_not_found")
    use_token rt (some s) t = do
      expired ← check_session_validity s rt t
      unless_refused expired (load_refresh_user s.user_id t >>= rotate rt s t)

    abbrev pub is_oauth : Option Session → Bool
    is_oauth none = false
    is_oauth (some s) = is_some s.oauth_client_id

    abbrev pub session_of : Option String → M (Option Session)
    session_of none = pure none
    session_of (some sid) = query internal (λ db. find (λ s. s.id == sid) db.sessions)

    unfoldable pub judge : RefreshToken → ℕ → Option Session → M Answer
    judge rt t sess = if is_oauth sess then raise oauth_session else (do
      check_single_per_user sess rt t
      if rt.revoked then handle_refresh_token_reuse rt sess t else use_token rt sess t)

    abbrev pub found_token : Option RefreshToken → M Answer
    found_token none = raise (http "refresh_token_not_found")
    found_token (some rt) = do t ← now; sess ← session_of rt.session_id; judge rt t sess

    -- The transaction.
    unfoldable pub redeem : String → M Answer
    redeem token = query internal (λ db. find (has_token token) db.tokens) >>= found_token

    abbrev pub answer : Answer → M Response
    answer (granted r) = pure r
    answer (refused code) = raise (http code)

    -- `refreshTokenGrant`, after the body is decoded.
    unfoldable pub refresh_token_grant : String → M Response
    refresh_token_grant token =
        if ltb (bytes (codes token)) 12
        then raise (http "validation_failed")
        else (check_ctx internal >> (in_tx internal (redeem token) >>= answer))
