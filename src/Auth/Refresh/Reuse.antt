-- ===== src/Auth/Refresh/Reuse.antt =====
-- A refresh token that is used twice.
use dilion.Base.{
  ℕ, ◌+◌, ◌≤◌, ◌≡◌, refl, Bool, true, false, ◌&&◌, String, [], some, none, find, ltb, if◌then◌else◌,
  arith, ◌==◌,
}
use dilion.Exec.{World, Result, ok, err, pure, raise, now, statement, in_tx, ◌>>=◌}
use dilion.Text.Codes.{codes}
use dilion.Auth.Refresh.Tables.{
  Session, RefreshToken, Tables, RefreshError, http, has_token, revoke_token_family, delete_session,
}
use dilion.Auth.Refresh.Validity.{Config}
use dilion.Auth.Refresh.Rows.{IsGone, delete_session-IsGone}
use dilion.Auth.Refresh.Grant.{
  Answer, refused, redeem, bytes, refresh_token_grant, judge, check_single_per_user,
  handle_refresh_token_reuse, punish,
}

-- A time at which no statement fails.
abbrev pub calm : Tables → ℕ → World Tables
calm db t = record { db = db; clock = t; ticks = [] }

past_window : (u w t : ℕ) → u + w ≤ t → (ltb 0 w && ltb t (u + w)) ≡ false
past_window u w t h = ground arith

-- A revoked token of a session, and a configuration by which a user may have several sessions.
abbrev pub spent_token :
    (id : ℕ) (token user parent sid : String) (created revoked : ℕ) → RefreshToken
spent_token id token user parent sid created revoked = record {
  id = id;
  token = token;
  user_id = user;
  parent = parent;
  session_id = some sid;
  revoked = true;
  created_at = created;
  updated_at = revoked;
}

abbrev pub many_sessions : Config → Config
many_sessions cfg = record cfg { single_per_user = false }

module _ (cfg : Config) (new_token : Tables → String) (db : Tables) (t id : ℕ)
    (token user parent sid : String) (created revoked : ℕ) where
  abbrev rt : RefreshToken
  rt = spent_token id token user parent sid created revoked

  abbrev answered : World Tables × Result RefreshError Answer
  answered = (
    calm (delete_session sid (if cfg.rotation_enabled then revoke_token_family rt t db else db)) t,
    ok (refused "refresh_token_already_used"),
  )

  punish_run :
      (b : Bool) → cfg.rotation_enabled ≡ b → punish (many_sessions cfg) rt t (calm db t) ≡ answered
  unfolding punish ◌>>=◌ statement pure
  punish_run true e = rw e refl
  punish_run false e = rw e refl

  judge_run :
      (s : Session)
      → s.oauth_client_id ≡ none
      → revoked + cfg.reuse_interval ≤ t
      → judge (many_sessions cfg) new_token rt t (some s) (calm db t) ≡ answered
  unfolding judge check_single_per_user handle_refresh_token_reuse ◌>>=◌ pure
  judge_run s own past =
      rw (own, past_window revoked cfg.reuse_interval t past) (punish_run cfg.rotation_enabled refl)

  redeem_run :
      (s : Session)
      → s.oauth_client_id ≡ none
      → revoked + cfg.reuse_interval ≤ t
      → find (has_token token) db.tokens ≡ some rt
      → find (λ s. s.id == sid) db.sessions ≡ some s
      → redeem (many_sessions cfg) new_token token (calm db t) ≡ answered
  unfolding redeem ◌>>=◌ statement now
  redeem_run s own past e found = rw (e, found) (judge_run s own past)

  grant_run :
      (s : Session)
      → s.oauth_client_id ≡ none
      → revoked + cfg.reuse_interval ≤ t
      → find (has_token token) db.tokens ≡ some rt
      → find (λ s. s.id == sid) db.sessions ≡ some s
      → ltb (bytes (codes token)) 12 ≡ false
      → refresh_token_grant (many_sessions cfg) new_token token (calm db t)
        ≡ (answered.0, err (http "refresh_token_already_used"))
  unfolding refresh_token_grant in_tx ◌>>=◌ statement pure raise
  grant_run s own past e found long = rw (long, redeem_run s own past e found) refl

-- Where no statement fails and a user may have several sessions: a token that was revoked at least
-- the reuse interval ago, of a session that is no OAuth application's, is refused as already used,
-- and then the session and all its tokens are gone.
pub reuse_ends_session :
    (cfg : Config) (new_token : Tables → String) (db : Tables) (t id : ℕ)
    (token user parent sid : String) (created revoked : ℕ) (s : Session)
    → s.oauth_client_id ≡ none
    → revoked + cfg.reuse_interval ≤ t
    → find (has_token token) db.tokens ≡ some (spent_token id token user parent sid created revoked)
    → find (λ s. s.id == sid) db.sessions ≡ some s
    → ltb (bytes (codes token)) 12 ≡ false
    → ((refresh_token_grant (many_sessions cfg) new_token token (calm db t)).1
        ≡ err (http "refresh_token_already_used"))
      × IsGone sid (refresh_token_grant (many_sessions cfg) new_token token (calm db t)).0.db
reuse_ends_session cfg new_token db t id token user parent sid created revoked s own past e found
      long =
    rw
      (grant_run cfg new_token db t id token user parent sid created revoked s own past e found
        long)
      (refl, delete_session-IsGone sid _)
