-- ===== src/Auth/Guesses.antt =====
-- How many wrong secrets are compared within a window (internal/auth/attempts.go, throttled).
use dilion.Base.{
  ℕ, ◌+◌, ◌≤◌, ◌<◌, ◌≡◌, refl, ◌∙◌, Bool, true, false, String, ◌==◌, List, [], ◌∷◌, ◌++◌, Option,
  none, some, any, find, update_where, eq_refl, arith, Bool-cases, inl, inr, ◌⊎◌,
}
use dilion.Exec.{World, raise, now, statement, exec, attempt, ◌>>=◌}
use dilion.Auth.Attempts.{
  Attempt, Db, database, http, AttemptKind, attempt_limit, attempt_window, is_credential_failure,
  attempt_key, of_account, is_locked, failed_again, record_failure, M, after_check, checked,
  throttled,
}

-- A comparison with a wrong secret, which counts itself.
unfoldable pub compare_wrong : String → M ℕ (Unit {0})
compare_wrong code = exec database (λ s. record s { rest = s.rest + 1 }) >>= λ _. raise (http code)

-- The tables at a time, where nothing fails.
abbrev pub at_time : {X : Type 0} → Db X → ℕ → World (Db X)
at_time s t = record { db = s; clock = t; ticks = [] }

module _ (digest : String → String) (kind : AttemptKind) (account code : String) where
  -- One wrong guess after the other, at these times.
  unfoldable pub guess_all : List ℕ → Db ℕ → Db ℕ
  guess_all [] s = s
  guess_all (t ∷ ts) s =
      guess_all ts (throttled digest kind account (compare_wrong code) (at_time s t)).0.db

-- What a statement after another reads.
find-update {ℓ} :
    {A : Type ℓ} (p : A → Bool) (f : A → A)
    → ((x : A) → p x ≡ true → p (f x) ≡ true)
    → (xs : List A) (x : A) → find p xs ≡ some x
    → find p (update_where p f xs) ≡ some (f x)
find-update p f keep [] x h = cc
find-update p f keep (y ∷ xs) x h = ground (arith, keep y, find-update p f keep xs x)

find-append {ℓ} :
    {A : Type ℓ} (p : A → Bool) (y : A) (xs : List A)
    → find p xs ≡ none
    → p y ≡ true
    → find p (xs ++ y ∷ []) ≡ some y
find-append p y [] h k = rw k refl
find-append p y (x ∷ xs) h k = ground (arith, find-append p y xs)

any-of_find {ℓ} :
    {A : Type ℓ} (p : A → Bool) (xs : List A) (x : A) → find p xs ≡ some x → any p xs ≡ true
any-of_find p [] x h = cc
any-of_find p (y ∷ xs) x h = ground (arith, any-of_find p xs x)

none-of_find {ℓ} : {A : Type ℓ} (p : A → Bool) (xs : List A) → find p xs ≡ none → any p xs ≡ false
none-of_find p [] h = refl
none-of_find p (y ∷ xs) h = ground (arith, none-of_find p xs)

-- From `start` on no window is running.
abbrev pub Over : ℕ → Option Attempt → Type 0
Over start none = Unit
Over start (some a) = a.window_start + attempt_window ≤ start

-- The times lie in one window.
abbrev pub Within : ℕ → List ℕ → Type 0
Within start [] = Unit
Within start (t ∷ ts) = ((start ≤ t) × (t < start + attempt_window)) × Within start ts

module _ (digest : String → String) (kind : AttemptKind) (account code : String)
    (named : (account == "") ≡ false) (wrong : is_credential_failure (http code) ≡ true) where
  abbrev key : String
  key = attempt_key digest kind account

  abbrev row : Db ℕ → Option Attempt
  row s = find (of_account key) s.attempts

  abbrev counted : ℕ → Db ℕ → Db ℕ
  counted t s = record { attempts = record_failure key t s.attempts; rest = s.rest + 1 }

  -- One guess: refused, or counted and recorded.
  refused :
      (s : Db ℕ) (t : ℕ)
      → is_locked kind t (row s) ≡ true
      → (throttled digest kind account (compare_wrong code) (at_time s t)).0.db ≡ s
  unfolding throttled checked ◌>>=◌ now statement raise
  refused s t h = rw (named, h) refl

  compared :
      (s : Db ℕ) (t : ℕ) (o : Option Attempt)
      → row s ≡ o
      → is_locked kind t o ≡ false
      → (throttled digest kind account (compare_wrong code) (at_time s t)).0.db ≡ counted t s
  unfolding throttled checked ◌>>=◌ now statement raise attempt compare_wrong after_check
  compared s t none e h = rw (named, e, wrong) refl
  compared s t (some a) e h = rw (named, e, h, wrong) refl

  recorded_first :
      (s : Db ℕ) (t : ℕ)
      → row s ≡ none
      → row (counted t s) ≡ some (record { account = key; window_start = t; failures = 1 })
  recorded_first s t e = rw (none-of_find (of_account key) s.attempts e) (
      find-append (of_account key) (record { account = key; window_start = t; failures = 1 })
        s.attempts e (eq_refl key))

  recorded_again :
      (s : Db ℕ) (t : ℕ) (a : Attempt)
      → row s ≡ some a
      → row (counted t s) ≡ some (failed_again t a)
  recorded_again s t a e =
      rw (any-of_find (of_account key) s.attempts a e)
        (find-update (of_account key) (failed_again t) (λ x k. ground arith) s.attempts a e)

  -- The running window began after `start` and counts what was compared since.
  abbrev Counts : ℕ → ℕ → Db ℕ → Type 0
  Counts n start s =
      (a : Attempt) × (row s ≡ some a)
      × (start ≤ a.window_start)
      × (s.rest ≡ n + a.failures)
      × (a.failures ≤ attempt_limit kind)

  abbrev Bounded : ℕ → ℕ → Db ℕ → Type 0
  Bounded n start s = ((s.rest ≡ n) × Over start (row s)) ⊎ Counts n start s

  limit_positive : (k : AttemptKind) → 1 ≤ attempt_limit k
  unfolding attempt_limit
  limit_positive AttemptKind.password = omega arith
  limit_positive AttemptKind.otp = omega arith
  limit_positive AttemptKind.factor = omega arith
  limit_positive AttemptKind.nonce = omega arith

  first_guess :
      (n start t : ℕ) (s : Db ℕ) (o : Option Attempt)
      → row s ≡ o
      → s.rest ≡ n
      → Over start o
      → start ≤ t
      → Counts n start (counted t s)
  first_guess n start t s none e r over le = (
    record { account = key; window_start = t; failures = 1 },
    recorded_first s t e,
    le,
    omega arith,
    limit_positive kind,
  )
  first_guess n start t s (some a) e r over le = (
    record a { failures = 1; window_start = t },
    recorded_again s t a e ∙ ground arith,
    le,
    omega arith,
    limit_positive kind,
  )

  open_first :
      (start t : ℕ) (o : Option Attempt) → Over start o → start ≤ t → is_locked kind t o ≡ false
  open_first start t none over le = refl
  open_first start t (some a) over le = ground arith

  abbrev guessed : Db ℕ → ℕ → Db ℕ
  guessed s t = (throttled digest kind account (compare_wrong code) (at_time s t)).0.db

  one_guess :
      (n start t : ℕ) (s : Db ℕ)
      → start ≤ t
      → t < start + attempt_window
      → Bounded n start s
      → Bounded n start (guessed s t)
  one_guess n start t s le lt (inl (r, over)) =
      rw (compared s t (row s) refl (open_first start t (row s) over le))
        (inr (first_guess n start t s (row s) refl r over le))
  one_guess n start t s le lt (inr (a, e, began, r, few)) =
      elim (Bool-cases (is_locked kind t (some a))) [
        | inl locked ↦ rw (refused s t (rw e locked)) (inr (a, e, began, r, few))
        | inr free ↦ rw (compared s t (some a) e free) (
            inr (
              record a { failures = a.failures + 1 },
              recorded_again s t a e ∙ ground arith,
              began,
              omega arith,
              ground arith,
            ))
      ]

  guess_all-Bounded :
      (n start : ℕ) (ts : List ℕ) (s : Db ℕ)
      → Within start ts
      → Bounded n start s
      → Bounded n start (guess_all digest kind account code ts s)
  unfolding guess_all
  guess_all-Bounded n start [] s w b = b
  guess_all-Bounded n start (t ∷ ts) s w b =
      guess_all-Bounded n start ts (guessed s t) w.1 (one_guess n start t s w.0.0 w.0.1 b)

  bound : (n start : ℕ) (s : Db ℕ) → Bounded n start s → s.rest ≤ n + attempt_limit kind
  bound n start s (inl (r, over)) = omega arith
  bound n start s (inr (a, e, began, r, few)) = omega arith

-- Guessing is bounded: if no window of failures of the account is running at `start`, then of any
-- sequence of wrong guesses within the 15 minutes from then on, with no failing statement, at most as
-- many secrets are compared as the limit of the kind says.
pub guess_all_bounded :
    (digest : String → String) (kind : AttemptKind) (account code : String) (start : ℕ)
    (ts : List ℕ) (s : Db ℕ)
    → (account == "") ≡ false
    → is_credential_failure (http code) ≡ true
    → Within start ts
    → Over start (find (of_account (attempt_key digest kind account)) s.attempts)
    → (guess_all digest kind account code ts s).rest ≤ s.rest + attempt_limit kind
guess_all_bounded digest kind account code start ts s named wrong within over =
    bound digest kind account code named wrong s.rest start _ (
      guess_all-Bounded digest kind account code named wrong s.rest start ts s within
        (inl (refl, over)))
