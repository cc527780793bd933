-- ===== src/Privacy/Tasks/Backoff.antt =====
-- `backoffFor` (internal/privacy/tasks.go).
use dilion.Base.{
  ℕ, ◌+◌, ◌*◌, ◌/◌, ◌%◌, ◌^◌, ◌-◌, Bool, not, ◌&&◌, ◌||◌, ltb, leb, eqb, if◌then◌else◌,
}
use dilion.Calendar.{second, minute}

abbrev pub max_task_attempts : ℕ
max_task_attempts = 5

abbrev pub max_tasks_per_tick : ℕ
max_tasks_per_tick = 25

abbrev pub backoff_base : ℕ
backoff_base = 5 * second

abbrev pub backoff_cap : ℕ
backoff_cap = 15 * minute

abbrev pub stuck_running_after : ℕ
stuck_running_after = 10 * minute

-- A 64-bit int is its pattern: the upper half is negative.
abbrev pub is_negative : ℕ → Bool
is_negative n = leb (2 ^ 63) n

-- What `time.Duration(x)` gives for a float64 that no int64 holds depends on the processor: the
-- least int64, or the greatest one.
pub data Conversion : Type 0 where
  least greatest : Conversion

abbrev beyond : Conversion → ℕ
beyond least = 2 ^ 63
beyond greatest = 2 ^ 63 - 1

-- The product of the base and a power of two is exact in a float64, and a fraction is cut off.
abbrev pub to_duration : Conversion → ℕ → ℕ
to_duration c x = if ltb x (2 ^ 63) then x else beyond c

-- `d > backoffCap || d <= 0`.
abbrev pub capped : ℕ → ℕ
capped d =
    if (not (is_negative d) && ltb backoff_cap d) || (is_negative d || eqb d 0)
    then backoff_cap
    else d

-- `attempt < 1`.
abbrev pub at_least_one : ℕ → ℕ
at_least_one attempt = if is_negative attempt || eqb attempt 0 then 1 else attempt

-- `base * 2^(n - 1)` as half of `base * 2^n`, so that the power may be negative.
abbrev pub exponential : ℕ → ℕ
exponential n = backoff_base * 2 ^ n / 2

-- `draw` is what the random source has ready for `rand.Int64N`.
unfoldable pub backoff_for : Conversion → ℕ → ℕ → ℕ
backoff_for c attempt draw =
    let d = capped (to_duration c (exponential (at_least_one attempt))) in d + draw % (d / 4 + 1)
