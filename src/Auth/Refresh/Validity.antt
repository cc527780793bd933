-- ===== src/Auth/Refresh/Validity.antt =====
-- How long a session lives (internal/auth/models.go, grant.go).
use dilion.Base.{
  ℕ, ◌+◌, Bool, false, ◌&&◌, ◌||◌, not, ◌==◌, Option, none, some, ltb, leb, if◌then◌else◌,
}
use dilion.Auth.Refresh.Tables.{Session, RefreshToken}

-- What the grant reads of the configuration, the durations in nanoseconds; 0 is off.
pub record Config : Type 0 where
  pub single_per_user : Bool
  pub timebox : ℕ
  pub inactivity_timeout : ℕ
  pub reuse_interval : ℕ
  pub rotation_enabled : Bool

abbrev later : ℕ → ℕ → ℕ
later a b = if ltb a b then b else a

abbrev later_of : ℕ → Option ℕ → ℕ
later_of a none = a
later_of a (some b) = later a b

-- `lastRefreshedAt`.
abbrev last_refreshed_at : Session → Option RefreshToken → ℕ
last_refreshed_at s none = later_of s.created_at s.refreshed_at
last_refreshed_at s (some rt) = later (later_of s.created_at s.refreshed_at) rt.updated_at

abbrev has_passed : Option ℕ → ℕ → Bool
has_passed none t = false
has_passed (some u) t = ltb u t

abbrev is_reached : Option ℕ → ℕ → Bool
is_reached none t = false
is_reached (some u) t = leb u t

abbrev ran_out : ℕ → ℕ → ℕ → Bool
ran_out limit since t = ltb 0 limit && ltb (since + limit) t

module _ (cfg : Config) where
  -- `sessionStillValid`.
  unfoldable pub session_still_valid : Session → ℕ → Bool
  session_still_valid s t =
      if has_passed s.not_after t
      then false
      else if ran_out cfg.timebox s.created_at t
      then false
      else not (ran_out cfg.inactivity_timeout (last_refreshed_at s none) t)

  -- The conditions of `checkSessionValidity`.
  unfoldable pub is_expired : Session → RefreshToken → ℕ → Bool
  is_expired s rt t =
      is_reached s.not_after t
      || (ran_out cfg.timebox s.created_at t
          || ran_out cfg.inactivity_timeout (last_refreshed_at s (some rt)) t)

  -- Whether another session of the user was refreshed after this one.
  unfoldable pub outranks : Session → RefreshToken → ℕ → Session → Bool
  outranks s rt t other =
      if other.id == s.id
      then false
      else if not (session_still_valid other t)
      then false
      else ltb (last_refreshed_at s (some rt)) (last_refreshed_at other none)
