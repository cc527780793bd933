-- ===== src/Privacy/Duration.antt =====
-- internal/privacy/duration.go: ISO-8601 durations. A text is a list of code points, and an `int`
-- is its 64-bit pattern: a number below 2 ^ 63 is not negative.
pub mod RoundTrip
use dilion.Base.{
  ℕ, ◌+◌, ◌*◌, ◌%◌, ◌^◌, Bool, true, false, ◌&&◌, ◌||◌, List, [], ◌∷◌, ltb, leb, eqb, if◌then◌else◌,
}
use dilion.Calendar.{add_date, add_int, hour, minute, second}
use dilion.Exec.{Result, ok, err}
use dilion.Text.Space.{trim_space}
use dilion.Text.Decimal.{span_digits, atoi, print_decimal, max_int}

pub record Duration : Type 0 where
  pub years : ℕ
  pub months : ℕ
  pub days : ℕ
  pub hours : ℕ
  pub mins : ℕ
  pub secs : ℕ

pub data DurationError : Type 0 where
  empty_duration invalid_duration no_components : DurationError

unfoldable pub is_zero : Duration → Bool
is_zero d =
    eqb d.years 0
    && (eqb d.months 0 && (eqb d.days 0 && (eqb d.hours 0 && (eqb d.mins 0 && eqb d.secs 0))))

component_of : ℕ → List ℕ → List ℕ → List ℕ → ℕ × List ℕ
component_of unit s [] rest = (0, s)
component_of unit s (d ∷ ds) [] = (0, s)
component_of unit s (d ∷ ds) (u ∷ rest) = if eqb u unit then (atoi (d ∷ ds), rest) else (0, s)

-- A group `(?:(\d+)unit)?` of the pattern: its number, 0 if the group is absent, and the rest.
unfoldable pub component : ℕ → List ℕ → ℕ × List ℕ
unfolding component_of
component unit s = let (ds, rest) = span_digits s in component_of unit s ds rest

abbrev Clock : Type 0
Clock = ℕ × ℕ × ℕ

-- The group `(?:T(?:(\d+)H)?(?:(\d+)M)?(?:(\d+)S)?)?`.
clock_part : List ℕ → Clock × List ℕ
clock_part [] = ((0, 0, 0), [])
clock_part (c ∷ s) =
    let (h, s1) = component b'H' s in
    let (m, s2) = component b'M' s1 in
    let (x, s3) = component b'S' s2 in if eqb c b'T' then ((h, m, x), s3) else ((0, 0, 0), c ∷ s)

-- The match must reach the end of the text, and some component must be given.
finish : Duration → List ℕ → Result DurationError Duration
finish d [] = if is_zero d then err no_components else ok d
finish d (c ∷ s) = err invalid_duration

groups : List ℕ → Result DurationError Duration
unfolding clock_part
groups s =
    let (y, s1) = component b'Y' s in
    let (mo, s2) = component b'M' s1 in
    let (wk, s3) = component b'W' s2 in
    let (dy, s4) = component b'D' s3 in
    let (t, s5) = clock_part s4 in
    finish
      (record {
        years = y;
        months = mo;
        days = (wk * 7 + dy) % 2 ^ 64;
        hours = t.0;
        mins = t.1;
        secs = t.2;
      })
      s5

from_p : List ℕ → Result DurationError Duration
from_p [] = err empty_duration
from_p (c ∷ s) = if eqb c b'P' then groups s else err invalid_duration

unfoldable pub parse_iso_duration : List ℕ → Result DurationError Duration
unfolding from_p groups finish
parse_iso_duration s = from_p (trim_space s)

-- `v > 0` of an int.
abbrev pub is_positive : ℕ → Bool
is_positive v = ltb 0 v && leb v max_int

abbrev print_field : ℕ → ℕ → List ℕ → List ℕ
print_field v unit rest = if is_positive v then print_decimal v (unit ∷ rest) else rest

has_clock : Duration → Bool
has_clock d = is_positive d.hours || (is_positive d.mins || is_positive d.secs)

clock_text : Duration → List ℕ
unfolding has_clock
clock_text d =
    if has_clock d
    then b'T' ∷ print_field d.hours b'H' (print_field d.mins b'M' (print_field d.secs b'S' []))
    else []

abbrev or_zero : List ℕ → List ℕ
or_zero [] = b'0' ∷ b'D' ∷ []
or_zero (c ∷ s) = c ∷ s

-- `String`.
unfoldable pub to_string : Duration → List ℕ
unfolding clock_text
to_string d =
    b'P'
    ∷ or_zero (
        print_field d.years b'Y'
          (print_field d.months b'M' (print_field d.days b'D' (clock_text d))))

-- `AddTo`: the calendar fields first, then the clock fields as an int64 of nanoseconds.
pub add_to : Duration → ℕ → ℕ
add_to d t =
    add_int (add_date t d.years d.months d.days)
      (d.hours * hour + d.mins * minute + d.secs * second)
