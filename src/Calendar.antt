-- ===== src/Calendar.antt =====
-- What the source uses of Go's `time`: a UTC time is the number of nanoseconds since the start of
-- the year 1, and `AddDate` works on the proleptic Gregorian calendar. Go's `int64` range of about
-- 292 billion years is not modelled: times are unbounded, and stop at the year 1.
pub mod Laws
use dilion.Base.{
  ◌≡◌, refl, ℕ, zero, suc, ◌+◌, ◌-◌, ◌*◌, ◌/◌, ◌%◌, ◌^◌, Bool, true, false, ◌&&◌, ◌||◌, not, ltb,
  leb, eqb, if◌then◌else◌,
}

abbrev pub second : ℕ
second = 1000000000

abbrev pub minute : ℕ
minute = 60000000000

abbrev pub hour : ℕ
hour = 3600000000000

abbrev pub day : ℕ
day = 86400000000000

abbrev pub is_leap : ℕ → Bool
is_leap y = eqb (y % 4) 0 && (not (eqb (y % 100) 0) || eqb (y % 400) 0)

-- The days before 1 January of the year `p + 1`.
days_before_year : ℕ → ℕ
days_before_year p = p * 365 + p / 4 + p / 400 - p / 100

-- The days of a year before its month `m`, counted from 0.
days_before_month : Bool → ℕ → ℕ
days_before_month leap m =
    let extra : ℕ = if leap then 1 else 0 in
    if ltb m 6
    then if ltb m 3
      then if eqb m 0 then 0 else if eqb m 1 then 31 else 59 + extra
      else if eqb m 3
      then 90 + extra
      else if eqb m 4
      then 120 + extra
      else 151 + extra
    else if ltb m 9
    then if eqb m 6 then 181 + extra else if eqb m 7 then 212 + extra else 243 + extra
    else if eqb m 9
    then 273 + extra
    else if eqb m 10
    then 304 + extra
    else 334 + extra

-- The month that the day `yday` of a year falls in.
month_of : Bool → ℕ → ℕ
month_of leap yday =
    if ltb yday (days_before_month leap 6)
    then if ltb yday (days_before_month leap 3)
      then if ltb yday (days_before_month leap 1)
        then 0
        else if ltb yday (days_before_month leap 2)
        then 1
        else 2
      else if ltb yday (days_before_month leap 4)
      then 3
      else if ltb yday (days_before_month leap 5)
      then 4
      else 5
    else if ltb yday (days_before_month leap 9)
    then if ltb yday (days_before_month leap 7)
      then 6
      else if ltb yday (days_before_month leap 8)
      then 7
      else 8
    else if ltb yday (days_before_month leap 10)
    then 9
    else if ltb yday (days_before_month leap 11)
    then 10
    else 11

-- A date: the year less one, and the month and the day of the month counted from 0.
pub record Date : Type 0 where
  pub past_years : ℕ
  pub month : ℕ
  pub day_of_month : ℕ

-- How many whole years of a 400-year cycle lie before its day `d`.
years_in_cycle : ℕ → ℕ
years_in_cycle d =
    let cent = d / 36524 - d / 146096 in
    let in_cent = d - cent * 36524 in
    let quad = in_cent / 1461 in
    let in_quad = in_cent - quad * 1461 in cent * 100 + quad * 4 + (in_quad / 365 - in_quad / 1460)

past_years_of : ℕ → ℕ
past_years_of d = d / 146097 * 400 + years_in_cycle (d % 146097)

-- The date of the day `yday` of the year `p + 1`.
date_in : ℕ → ℕ → Date
date_in p yday =
    let m = month_of (is_leap (p + 1)) yday in
    record {
      past_years = p;
      month = m;
      day_of_month = yday - days_before_month (is_leap (p + 1)) m;
    }

-- `t.Date()` of the day number.
pub date_of : ℕ → Date
date_of d = date_in (past_years_of d) (d - days_before_year (past_years_of d))

-- `time.Date(y, m, d, ...)`, which carries months past December into years, and days past the end
-- of the month into the following ones.
pub day_number : Date → ℕ
day_number c =
    let p = c.past_years + c.month / 12 in
    days_before_year p + days_before_month (is_leap (p + 1)) (c.month % 12) + c.day_of_month

abbrev shift_date : Date → ℕ → ℕ → Date
shift_date c years months = record {
  past_years = c.past_years + years;
  month = c.month + months;
  day_of_month = c.day_of_month;
}

-- A sum with an int, which is its 64-bit pattern.
abbrev pub add_int : ℕ → ℕ → ℕ
add_int t v = let v' = v % 2 ^ 64 in if ltb v' (2 ^ 63) then t + v' else t - (2 ^ 64 - v')

-- `t.AddDate(years, months, days)`, where `days` is an int.
pub add_date : ℕ → ℕ → ℕ → ℕ → ℕ
add_date t years months days =
    add_int (day_number (shift_date (date_of (t / day)) years months)) days * day + t % day

-- A leap day, a year later, and the end of January, a month later.
leap_day_later :
    date_of (add_date (738944 * day) 1 0 0 / day)
    ≡ record { past_years = 2024; month = 2; day_of_month = 0 }
unfolding add_date date_of day_number past_years_of date_in month_of days_before_month
    days_before_year years_in_cycle
leap_day_later = refl
