-- ===== src/Privacy/Tasks/Bounds.antt =====
-- The delay before another attempt is bounded (internal/privacy/tasks.go).
use dilion.Base.{ℕ, zero, suc, ◌+◌, ◌*◌, ◌/◌, ◌%◌, ◌^◌, ◌≤◌, ◌<◌, arith}
use dilion.Calendar.{second}
use dilion.Privacy.Tasks.Backoff.{
  backoff_base, backoff_cap, backoff_for, capped, Conversion, least, greatest, to_duration,
  exponential, at_least_one,
}

power_positive : (n : ℕ) → 1 ≤ 2 ^ n
power_positive zero = ground arith
power_positive (suc n) = ground (arith, power_positive n)

exponential-from_one : (n : ℕ) → 1 ≤ n → backoff_base ≤ exponential n
exponential-from_one zero h = absurd (omega arith)
exponential-from_one (suc n) h = ground (arith, power_positive n)

at_least_one_lem : (attempt : ℕ) → 1 ≤ at_least_one attempt
at_least_one_lem attempt = ground arith

capped_bounds :
    (c : Conversion) (x : ℕ)
    → backoff_base ≤ x
    → (backoff_base ≤ capped (to_duration c x)) × (capped (to_duration c x) ≤ backoff_cap)
capped_bounds least x h = ground arith
capped_bounds greatest x h = ground arith

jitter_bounds : (d draw : ℕ) → (d ≤ d + draw % (d / 4 + 1)) × (d + draw % (d / 4 + 1) ≤ d + d / 4)
jitter_bounds d draw = ground arith

-- For every int, however the processor converts a number that is too large, the delay is at least
-- five seconds, and at most the cap of fifteen minutes and a quarter of it.
pub backoff_for_bounds :
    (c : Conversion) (attempt draw : ℕ)
    → attempt < 2 ^ 64
    → (5 * second ≤ backoff_for c attempt draw)
      × (backoff_for c attempt draw ≤ backoff_cap + backoff_cap / 4)
unfolding backoff_for
backoff_for_bounds c attempt draw int =
    let n = at_least_one attempt in
    let d = capped (to_duration c (exponential n)) in
    let (low, high) =
      capped_bounds c (exponential n) (exponential-from_one n (at_least_one_lem attempt)) in
    let (below, above) = jitter_bounds d draw in omega (arith, low, high, below, above)
