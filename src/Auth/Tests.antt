-- ===== src/Auth/Tests.antt =====
-- Guesses at one account.
use dilion.Base.{ℕ, ◌+◌, ◌≤◌, refl, String, List, [], ◌∷◌, arith}
use dilion.Auth.Attempts
use dilion.Auth.Attempts.{Attempt, Db, attempt_limit, password, otp, too_many_requests, throttled}
use dilion.Auth.Guesses.{guess_all, guess_all_bounded}

abbrev same_text : String → String
same_text s = s

abbrev untouched : Db ℕ
untouched = record { attempts = []; rest = 0 }

abbrev times : List ℕ
times = 1 ∷ 2 ∷ 3 ∷ 4 ∷ 5 ∷ 6 ∷ 7 ∷ []

guess_all_bounded_example :
    (guess_all same_text otp "a@example.com" "otp_expired" times untouched).rest
    ≤ 0 + attempt_limit otp
unfolding Attempts.is_credential_failure
guess_all_bounded_example =
    guess_all_bounded same_text otp "a@example.com" "otp_expired" 0 times untouched refl refl
      (omega arith) tt
