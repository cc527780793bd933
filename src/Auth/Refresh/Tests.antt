-- ===== src/Auth/Refresh/Tests.antt =====
-- A session of one user, whose token was refreshed once.
use dilion.Base.{◌≡◌, refl, true, false, String, [], ◌∷◌, some, none, arith}
use dilion.Exec.{err}
use dilion.Text.Codes
use dilion.Auth.Refresh.Tables.{Session, RefreshToken, Tables, http}
use dilion.Auth.Refresh.Validity.{Config}
use dilion.Auth.Refresh.Rows
use dilion.Auth.Refresh.Rows.{IsGone}
use dilion.Auth.Refresh.Grant
use dilion.Auth.Refresh.Grant.{refresh_token_grant}
use dilion.Auth.Refresh.Reuse.{calm, spent_token, many_sessions, reuse_ends_session}
use dilion.Auth.Refresh.Served.{Served}

abbrev usual : Config
usual = record {
  single_per_user = false;
  timebox = 0;
  inactivity_timeout = 0;
  reuse_interval = 10;
  rotation_enabled = true;
}

abbrev third_token : Tables → String
third_token db = "ccccccccccccc"

abbrev live_token : RefreshToken
live_token = record {
  id = 2;
  token = "bbbbbbbbbbbb";
  user_id = "ada";
  parent = "aaaaaaaaaaaa";
  session_id = some "s1";
  revoked = false;
  created_at = 20;
  updated_at = 20;
}

abbrev session : Session
session = record {
  id = "s1";
  user_id = "ada";
  not_after = none;
  created_at = 5;
  refreshed_at = some 20;
  oauth_client_id = none;
}

abbrev refreshed_once : Tables
refreshed_once = record {
  sessions = session ∷ [];
  tokens = spent_token 1 "aaaaaaaaaaaa" "ada" "" "s1" 5 20 ∷ live_token ∷ [];
  users = record { id = "ada"; deleted_at = none; banned_until = none } ∷ [];
  next_id = 3;
}

reuse_ends_session_example :
    ((refresh_token_grant
        (many_sessions usual)
        third_token
        "aaaaaaaaaaaa"
        (calm refreshed_once 30)).1
      ≡ err (http "refresh_token_already_used"))
    × IsGone "s1"
        (refresh_token_grant
          (many_sessions usual)
          third_token
          "aaaaaaaaaaaa"
          (calm refreshed_once 30)).0.db
unfolding Codes.codes Grant.bytes
reuse_ends_session_example =
    reuse_ends_session usual third_token refreshed_once 30 1 "aaaaaaaaaaaa" "ada" "" "s1" 5 20
      session refl (omega arith) refl refl refl
