-- ===== src/Privacy/Duration/RoundTrip.antt =====
-- What `String` prints, `ParseISODuration` reads back (internal/privacy/duration.go).
use dilion.Base.{
  ℕ, ◌≤◌, ◌≡◌, refl, ap, ◌≢◌, true, false, List, [], ◌∷◌, eqb, if◌then◌else◌, arith, Bool-cases,
  ◌⊎◌, inl, inr,
}
use dilion.Exec.{ok, err}
use dilion.Text.Space.{is_space, no_space, trim_space-of_no_space}
use dilion.Text.Decimal.{
  span_digits, ends_number, atoi, print_decimal, print_decimal-span, print_decimal-no_space,
  max_int,
}
use dilion.Privacy.Duration.{
  Duration, no_components, is_zero, component, clock_part, finish, groups, parse_iso_duration,
  print_field, clock_text, has_clock, or_zero, to_string,
}

-- No field is negative.
pub record IsNonNegative (d : Duration) : Type 0 where
  pub years_fit : d.years ≤ max_int
  pub months_fit : d.months ≤ max_int
  pub days_fit : d.days ≤ max_int
  pub hours_fit : d.hours ≤ max_int
  pub mins_fit : d.mins ≤ max_int
  pub secs_fit : d.secs ≤ max_int

-- A group takes nothing from the text.
abbrev Skips : ℕ → List ℕ → Type 0
Skips unit s = component unit s ≡ (0, s)

component-print_decimal :
    (n unit v : ℕ) (rest : List ℕ)
    → ends_number (v ∷ rest) ≡ true
    → n ≤ max_int
    → component unit (print_decimal n (v ∷ rest))
      ≡ (if eqb v unit then (n, rest) else (0, print_decimal n (v ∷ rest)))
unfolding component atoi
component-print_decimal n unit v rest h fits =
    let (d, ds, spans, value) = print_decimal-span n (v ∷ rest) h in ground arith

component-print_field :
    (n unit : ℕ) (rest : List ℕ)
    → ends_number (unit ∷ rest) ≡ true
    → n ≤ max_int
    → Skips unit rest
    → component unit (print_field n unit rest) ≡ (n, rest)
component-print_field n unit rest h fits skip =
    ground (arith, component-print_decimal n unit unit rest h)

Skips-print_field :
    (n unit v : ℕ) (rest : List ℕ)
    → ends_number (v ∷ rest) ≡ true
    → n ≤ max_int
    → eqb v unit ≡ false
    → Skips unit rest
    → Skips unit (print_field n v rest)
Skips-print_field n unit v rest h fits other skip =
    ground (arith, component-print_decimal n unit v rest h)

Skips-nil : (unit : ℕ) → Skips unit []
unfolding component span_digits
Skips-nil unit = refl

Skips-clock_text : (unit : ℕ) (d : Duration) → Skips unit (clock_text d)
unfolding component span_digits clock_text
Skips-clock_text unit d = ground arith

module _ (d : Duration) (fit : IsNonNegative d) where
  open d use {hours, mins, secs}

  secs_text : List ℕ
  secs_text = print_field secs b'S' []

  mins_text : List ℕ
  unfolding secs_text
  mins_text = print_field mins b'M' secs_text

  hours_text : List ℕ
  unfolding mins_text
  hours_text = print_field hours b'H' mins_text

  hours_read : component b'H' hours_text ≡ (hours, mins_text)
  unfolding hours_text
  hours_read = component-print_field hours b'H' _ refl fit.hours_fit (
      Skips-print_field mins b'H' b'M' _ refl fit.mins_fit refl
        (Skips-print_field secs b'H' b'S' _ refl fit.secs_fit refl (Skips-nil b'H')))

  mins_read : component b'M' mins_text ≡ (mins, secs_text)
  unfolding mins_text
  mins_read =
      component-print_field mins b'M' _ refl fit.mins_fit
        (Skips-print_field secs b'M' b'S' _ refl fit.secs_fit refl (Skips-nil b'M'))

  secs_read : component b'S' secs_text ≡ (secs, [])
  unfolding secs_text
  secs_read = component-print_field secs b'S' [] refl fit.secs_fit (Skips-nil b'S')

  with_clock : clock_part (b'T' ∷ hours_text) ≡ ((hours, mins, secs), [])
  unfolding clock_part
  with_clock = rw (hours_read, mins_read, secs_read)

  no_clock : has_clock d ≡ false → (hours ≡ 0) × (mins ≡ 0) × (secs ≡ 0)
  unfolding has_clock
  no_clock h = ground (arith, fit)

  clock_text_cases :
      ((has_clock d ≡ true) × (clock_text d ≡ b'T' ∷ hours_text))
      ⊎ ((has_clock d ≡ false) × (clock_text d ≡ []))
  unfolding clock_text hours_text
  clock_text_cases = elim (Bool-cases (has_clock d)) [
    | inl t ↦ inl (t, rw t)
    | inr f ↦ inr (f, rw f)
  ]

  clock_text_read : clock_part (clock_text d) ≡ ((hours, mins, secs), [])
  unfolding clock_part
  clock_text_read = elim clock_text_cases [
    | inl (t, e) ↦ rw e with_clock
    | inr (f, e) ↦ rw e (let (h, m, x) = no_clock f in cc (h, m, x))
  ]

  -- The fields in front of the clock, from the right.
  days_text : List ℕ
  days_text = print_field d.days b'D' (clock_text d)

  months_text : List ℕ
  unfolding days_text
  months_text = print_field d.months b'M' days_text

  years_text : List ℕ
  unfolding months_text
  years_text = print_field d.years b'Y' months_text

  days_skipped : (unit : ℕ) → eqb b'D' unit ≡ false → Skips unit days_text
  unfolding days_text
  days_skipped unit other =
      Skips-print_field d.days unit b'D' _ refl fit.days_fit other (Skips-clock_text unit d)

  years_read : component b'Y' years_text ≡ (d.years, months_text)
  unfolding years_text
  years_read =
      component-print_field d.years b'Y' _ refl fit.years_fit
        (Skips-print_field d.months b'Y' b'M' _ refl fit.months_fit refl (days_skipped b'Y' refl))

  months_read : component b'M' months_text ≡ (d.months, days_text)
  unfolding months_text
  months_read = component-print_field d.months b'M' _ refl fit.months_fit (days_skipped b'M' refl)

  days_read : component b'D' days_text ≡ (d.days, clock_text d)
  unfolding days_text
  days_read = component-print_field d.days b'D' _ refl fit.days_fit (Skips-clock_text b'D' d)

  groups_read : groups years_text ≡ finish d []
  unfolding groups
  groups_read =
      rw (years_read, months_read, days_skipped b'W' refl, days_read, clock_text_read)
        (ground (arith, fit))

print_field-no_space :
    (n unit : ℕ) (rest : List ℕ)
    → is_space unit ≡ false
    → no_space rest ≡ true
    → no_space (print_field n unit rest) ≡ true
print_field-no_space n unit rest u h = ground (arith, print_decimal-no_space n (unit ∷ rest))

clock_text-no_space : (d : Duration) → no_space (clock_text d) ≡ true
unfolding clock_text is_space
clock_text-no_space d = ground (
  arith,
  print_field-no_space d.hours b'H' (print_field d.mins b'M' (print_field d.secs b'S' [])) refl,
  print_field-no_space d.mins b'M' (print_field d.secs b'S' []) refl,
  print_field-no_space d.secs b'S' [] refl refl,
)

years_text-no_space : (d : Duration) (fit : IsNonNegative d) → no_space (years_text d fit) ≡ true
unfolding years_text is_space
years_text-no_space d fit = print_field-no_space d.years b'Y' _ refl (
    print_field-no_space d.months b'M' _ refl
      (print_field-no_space d.days b'D' _ refl (clock_text-no_space d)))

groups-nil : groups [] ≡ err no_components
unfolding groups component span_digits clock_part finish is_zero
groups-nil = refl

-- Some field is printed: the text "" is not read as `d`.
years_text-ne-nil :
    (d : Duration) (fit : IsNonNegative d) → is_zero d ≡ false → years_text d fit ≢ []
unfolding finish
years_text-ne-nil d fit h e = ground (arith, ap groups e, groups-nil, groups_read d fit)

or_zero-of_ne : (s : List ℕ) → s ≢ [] → or_zero s ≡ s
or_zero-of_ne [] h = absurd (h refl)
or_zero-of_ne (c ∷ s) h = refl

to_string_lem :
    (d : Duration) (fit : IsNonNegative d)
    → is_zero d ≡ false
    → to_string d ≡ b'P' ∷ years_text d fit
unfolding to_string years_text
to_string_lem d fit nonzero =
    ap (◌∷◌ b'P') (or_zero-of_ne (years_text d fit) (years_text-ne-nil d fit nonzero))

-- For a duration that is not zero and has no negative field, `ParseISODuration` returns the
-- duration that `String` printed.
pub parse_iso_duration-to_string :
    (d : Duration) → IsNonNegative d → is_zero d ≡ false → parse_iso_duration (to_string d) ≡ ok d
unfolding parse_iso_duration is_space
parse_iso_duration-to_string d fit nonzero = rw (
  to_string_lem d fit nonzero,
  trim_space-of_no_space (b'P' ∷ years_text d fit) (years_text-no_space d fit),
  groups_read d fit,
  nonzero,
)
