-- ===== src/Auth/Refresh/Tables.antt =====
-- Sessions and refresh tokens, and the statements on them (internal/auth/models.go, store.go).
use dilion.Base.{
  ℕ, zero, suc, Bool, true, false, ◌&&◌, ◌||◌, not, String, ◌==◌, List, [], ◌∷◌, ◌++◌, Option, none,
  some, any, contains, length, map, select_where, update_where, delete_where, holds_text, eqb, ltb,
  if◌then◌else◌,
}
use dilion.Exec.{Exec, Result, ok, err}

pub record Session : Type 0 where
  pub id : String
  pub user_id : String
  pub not_after : Option ℕ
  pub created_at : ℕ
  pub refreshed_at : Option ℕ
  pub oauth_client_id : Option String

pub record RefreshToken : Type 0 where
  pub id : ℕ
  pub token : String
  pub user_id : String
  pub parent : String
  pub session_id : Option String
  pub revoked : Bool
  pub created_at : ℕ
  pub updated_at : ℕ

pub record User : Type 0 where
  pub id : String
  pub deleted_at : Option ℕ
  pub banned_until : Option ℕ

pub record Tables : Type 0 where
  pub sessions : List Session
  pub tokens : List RefreshToken
  pub users : List User
  pub next_id : ℕ

-- `http code` is an HTTPError with this error code, `oauth_session` is errOAuthSessionRefresh.
pub data RefreshError : Type 0 where
  internal oauth_session : RefreshError
  http : String → RefreshError

abbrev pub M : Type 0 → Type 0
M A = Exec Tables RefreshError A

abbrev pub of_session : String → RefreshToken → Bool
of_session sid k = holds_text k.session_id sid

abbrev pub revoked_at : ℕ → RefreshToken → RefreshToken
revoked_at t k = record k { revoked = true; updated_at = t }

-- `revokeRefreshToken`.
abbrev pub revoke_refresh_token : ℕ → ℕ → Tables → Tables
revoke_refresh_token id t db = record db {
  tokens = update_where (λ k. eqb k.id id) (revoked_at t) db.tokens;
}

abbrev pub has_token : String → RefreshToken → Bool
has_token token k = k.token == token

abbrev pub new_row : ℕ → String → String → String → String → ℕ → RefreshToken
new_row id token user parent sid t = record {
  id = id;
  token = token;
  user_id = user;
  parent = parent;
  session_id = some sid;
  revoked = false;
  created_at = t;
  updated_at = t;
}

-- `insertRefreshToken`; tokens are unique.
abbrev pub insert_refresh_token :
    String → String → String → String → ℕ → Tables → Tables × Result RefreshError (Unit {0})
insert_refresh_token token user parent sid t db =
    if any (has_token token) db.tokens then (db, err internal) else (
      record db {
        tokens = db.tokens ++ new_row db.next_id token user parent sid t ∷ [];
        next_id = suc db.next_id;
      },
      ok tt,
    )

-- The tokens that descend from those named, in as many rounds as there are tokens.
abbrev pub child_of : List String → RefreshToken → Bool
child_of names k = contains names k.parent && not (contains names k.token)

unfoldable pub family : ℕ → List RefreshToken → List String → List String
family zero ks names = names
family (suc rounds) ks names =
    family rounds ks (names ++ map (λ k. k.token) (select_where (child_of names) ks))

abbrev pub revoke_family : Option String → RefreshToken → ℕ → List RefreshToken → List RefreshToken
revoke_family (some sid) rt t ks =
    update_where (λ k. of_session sid k && not k.revoked) (revoked_at t) ks
revoke_family none rt t ks =
    update_where (λ k. contains (family (length ks) ks (rt.token ∷ [])) k.token) (revoked_at t) ks

-- `revokeTokenFamily`.
abbrev pub revoke_token_family : RefreshToken → ℕ → Tables → Tables
revoke_token_family rt t db = record db { tokens = revoke_family rt.session_id rt t db.tokens }

-- `deleteSession`, and its tokens go with it.
abbrev pub delete_session : String → Tables → Tables
delete_session sid db = record db {
  sessions = delete_where (λ s. s.id == sid) db.sessions;
  tokens = delete_where (of_session sid) db.tokens;
}

-- `touchSession`.
abbrev pub touch_session : String → ℕ → Tables → Tables
touch_session sid t db = record db {
  sessions = update_where (λ s. s.id == sid) (λ s. record s { refreshed_at = some t }) db.sessions;
}

-- `order by created_at desc, id desc limit 1`.
abbrev is_newer : RefreshToken → RefreshToken → Bool
is_newer a b = ltb b.created_at a.created_at || (eqb a.created_at b.created_at && ltb b.id a.id)

abbrev pub newer_of : RefreshToken → Option RefreshToken → Option RefreshToken
newer_of a none = some a
newer_of a (some b) = if is_newer a b then some a else some b

unfoldable pub newest : List RefreshToken → Option RefreshToken
newest [] = none
newest (k ∷ ks) = newer_of k (newest ks)

abbrev pub is_active : String → RefreshToken → Bool
is_active sid k = of_session sid k && not k.revoked

-- `findActiveRefreshTokenForSession`.
abbrev pub find_active : String → Tables → Option RefreshToken
find_active sid db = newest (select_where (is_active sid) db.tokens)
