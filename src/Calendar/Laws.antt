-- ===== src/Calendar/Laws.antt =====
-- The calendar model is consistent: a day number is read back from its date.
use dilion.Base.{ℕ, ◌+◌, ◌-◌, ◌*◌, ◌/◌, ◌%◌, ◌≡◌, ◌≤◌, ◌<◌, Bool, true, false, arith}
use native.Mathlib.Nat.{add-zero}
use dilion.Calendar.{
  Date, days_before_year, days_before_month, month_of, years_in_cycle, past_years_of, date_in,
  date_of, day_number, add_date, add_int, shift_date, is_leap, day,
}

month_div : (m : ℕ) → m < 12 → m / 12 ≡ 0
month_div m h = omega arith

month_mod : (m : ℕ) → m < 12 → m % 12 ≡ m
month_mod m h = omega arith

month_of_lem :
    (leap : Bool) (yday : ℕ)
    → (days_before_month leap (month_of leap yday) ≤ yday) × (month_of leap yday < 12)
unfolding days_before_month month_of
month_of_lem true yday = ground arith
month_of_lem false yday = ground arith

years_in_cycle_lem : (d : ℕ) → d < 146097 → days_before_year (years_in_cycle d) ≤ d
unfolding years_in_cycle days_before_year
years_in_cycle_lem d h = omega arith

days_before_year-cycle :
    (n p : ℕ) → days_before_year (n * 400 + p) ≡ n * 146097 + days_before_year p
unfolding days_before_year
days_before_year-cycle n p = omega arith

past_years_lem : (d : ℕ) → days_before_year (past_years_of d) ≤ d
unfolding past_years_of
past_years_lem d = omega (
  arith,
  days_before_year-cycle (d / 146097) (years_in_cycle (d % 146097)),
  years_in_cycle_lem (d % 146097) (omega arith),
)

day_number-date_in : (p yday : ℕ) → day_number (date_in p yday) ≡ days_before_year p + yday
unfolding day_number date_in
day_number-date_in p yday =
    let (le, lt) = month_of_lem (is_leap (p + 1)) yday in
    rw (month_div _ lt, month_mod _ lt, add-zero) (omega arith)

-- A day number is read back from its date.
pub day_number-date_of : (d : ℕ) → day_number (date_of d) ≡ d
unfolding date_of
day_number-date_of d = omega (
  arith,
  day_number-date_in (past_years_of d) (d - days_before_year (past_years_of d)),
  past_years_lem d,
)

shift_date-zero : (c : Date) → shift_date c 0 0 ≡ c
shift_date-zero c = rw (add-zero, add-zero)

add_int-of_lt : (n v : ℕ) → v < 9223372036854775808 → add_int n v ≡ n + v
add_int-of_lt n v h = ground arith

-- Adding days and no months or years moves a time by whole days.
pub add_date-days : (t days : ℕ) → days < 9223372036854775808 → add_date t 0 0 days ≡ t + days * day
unfolding add_date
add_date-days t days h =
    rw (shift_date-zero, day_number-date_of (t / day), add_int-of_lt (t / day) days h) (omega arith)
