-- ===== src/Auth/Attempts.antt =====
-- Failed credential attempts per account (internal/auth/attempts.go).
use Prim.Native.String.{◌++◌ as ◌joined◌}
use dilion.Base.{
  ℕ, ◌+◌, ◌*◌, Bool, false, ◌&&◌, String, ◌==◌, List, [], ◌∷◌, ◌++◌, Option, none, some, any, find,
  contains, update_where, delete_where, ltb, leb, if◌then◌else◌,
}
use dilion.Calendar.{second}
use dilion.Exec.{
  Exec, Result, ok, err, pure, raise, now, query, exec, attempt, check_ctx, ◌>>=◌, ◌>>◌,
}

pub record Attempt : Type 0 where
  pub account : String
  pub window_start : ℕ
  pub failures : ℕ

-- The table of attempts, and all that a check works on.
pub record Db (X : Type 0) : Type 0 where
  pub attempts : List Attempt
  pub rest : X

-- `http code` is an HTTPError with this error code.
pub data AuthError : Type 0 where
  database too_many_requests : AuthError
  http : String → AuthError

-- The attempt kinds.
pub data AttemptKind : Type 0 where
  password otp factor nonce : AttemptKind

abbrev kind_name : AttemptKind → String
kind_name password = "password"
kind_name otp = "otp"
kind_name factor = "factor"
kind_name nonce = "nonce"

-- `attemptLimits`.
unfoldable pub attempt_limit : AttemptKind → ℕ
attempt_limit password = 10
attempt_limit otp = 5
attempt_limit factor = 5
attempt_limit nonce = 5

-- `attemptWindow`, 15 minutes.
abbrev pub attempt_window : ℕ
attempt_window = 15 * 60 * second

-- `credentialFailureCodes`.
abbrev failure_codes : List String
failure_codes =
    "invalid_credentials" ∷ "otp_expired" ∷ "mfa_verification_failed" ∷ "reauthentication_not_valid"
    ∷ "webauthn_verification_failed" ∷ []

unfoldable pub is_credential_failure : AuthError → Bool
is_credential_failure database = false
is_credential_failure too_many_requests = false
is_credential_failure (http code) = contains failure_codes code

-- `attemptKey`; the digest is SHA-256.
abbrev pub attempt_key : (String → String) → AttemptKind → String → String
attempt_key digest kind account = digest (kind_name kind joined (":" joined account))

abbrev pub of_account : String → Attempt → Bool
of_account key a = a.account == key

-- The row that makes the check be refused.
abbrev pub is_locked : AttemptKind → ℕ → Option Attempt → Bool
is_locked kind t none = false
is_locked kind t (some a) =
    ltb t (a.window_start + attempt_window) && leb (attempt_limit kind) a.failures

-- `on conflict (account) do update`: a window that has passed starts anew.
abbrev pub failed_again : ℕ → Attempt → Attempt
failed_again t a =
    if leb (a.window_start + attempt_window) t
    then record a { failures = 1; window_start = t }
    else record a { failures = a.failures + 1 }

abbrev pub record_failure : String → ℕ → List Attempt → List Attempt
record_failure key t as_ =
    if any (of_account key) as_
    then update_where (of_account key) (failed_again t) as_
    else as_ ++ record { account = key; window_start = t; failures = 1 } ∷ []

abbrev pub M : Type 0 → Type 0 → Type 0
M X A = Exec (Db X) AuthError A

module _ {X : Type 0} where
  -- After the check: a success clears the count, a wrong secret adds to it. A failure of these
  -- statements is only logged.
  unfoldable pub after_check :
      String → ℕ → Option Attempt → Result AuthError (Unit {0}) → M X (Unit {0})
  after_check key t none (ok a) = pure tt
  after_check key t (some row) (ok a) =
      attempt
        (exec database (λ s. record s { attempts = delete_where (of_account key) s.attempts }))
      >> pure tt
  after_check key t row (err e) =
      if is_credential_failure e
      then (attempt (exec database (λ s. record s { attempts = record_failure key t s.attempts }))
          >> raise e)
      else raise e

  unfoldable pub checked :
      String → AttemptKind → ℕ → M X (Unit {0}) → Option Attempt → M X (Unit {0})
  checked key kind t check row =
      if is_locked kind t row
      then raise too_many_requests
      else (attempt check >>= after_check key t row)

  -- `throttled`.
  unfoldable pub throttled :
      (String → String) → AttemptKind → String → M X (Unit {0}) → M X (Unit {0})
  throttled digest kind account check = if account == "" then check else (do
    check_ctx database
    t ← now
    row ← query database (λ s. find (of_account (attempt_key digest kind account)) s.attempts)
    checked (attempt_key digest kind account) kind t check row)
