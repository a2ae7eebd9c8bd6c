-- ===== src/Collection/Schedule/Backoff.antt =====
-- About retryDelay of internal/collection/service.go.
use Prim.Native.Nat.{◌^◌}
use native.Mathlib.Nat.{pow-suc, one-le-pow, mul-le-mul, le_refl, pow-le-pow_right}
use native.Mathlib.Decide.{dec_le}
use multi_upstream_ai_gatewa.Prelude.{
  Bool-cases, ℕ, arith, inl, inr, ltb, ltb-false, min, suc, zero, ◌*◌, ◌+◌, ◌-◌, ◌/◌, ◌<◌, ◌∙◌, ◌≡◌,
  ◌≤◌,
}
use multi_upstream_ai_gatewa.Collection.Schedule.{
  base_delay, double_up, minute, retry_backoff_base, retry_backoff_max, retry_delay,
}

-- One doubling, cut at the limit, before the remaining factor `p` and the last cut.
min_scaled : (d limit p : ℕ) → 1 ≤ p → min (min (d * 2) limit * p) limit ≡ min (d * (p * 2)) limit
min_scaled d limit p h = elim (dec_le (d * 2) limit) [
  | yes q ↦ (let e : min (d * 2) limit ≡ d * 2 = omega arith in rw e (omega arith))
  | no q ↦
      (let e : min (d * 2) limit ≡ limit = omega arith in
        rw e (
          omega (
            arith,
            mul-le-mul (le_refl limit) h,
            mul-le-mul {n₁ = limit} {n₂ = d * 2} (omega arith) h,
          )))
]

double_up-eq-min : (n limit d : ℕ) → min (double_up n limit d) limit ≡ min (d * 2 ^ n) limit
unfolding double_up
double_up-eq-min zero limit d = omega arith
double_up-eq-min (suc n) limit d = elim (Bool-cases (ltb d limit)) [
  | inl h ↦
      rw (h, double_up, pow-suc)
        (double_up-eq-min n limit (min (d * 2) limit)
          ∙ min_scaled d limit (2 ^ n) (one-le-pow n 2 (omega arith)))
  | inr h ↦
      rw (h, double_up)
        (omega
          (arith, ltb-false d limit h, mul-le-mul (le_refl d) (one-le-pow (suc n) 2 (omega arith))))
]

-- Without the jitter, the delay after `n + 1` failures in a row is 30 seconds doubled `n` times,
-- cut at the interval of the capability and at 30 minutes: the loop of retryDelay computes that.
base_delay-eq-min :
    (interval n : ℕ)
    → base_delay interval (n + 1)
      ≡ min (retry_backoff_base * 2 ^ n) (min interval retry_backoff_max)
unfolding base_delay
base_delay-eq-min interval n =
    let e : n + 1 - 1 ≡ n = omega arith in
    rw e (double_up-eq-min n (min interval retry_backoff_max) retry_backoff_base)

pub base_delay-le :
    (interval failures : ℕ) → base_delay interval failures ≤ min interval retry_backoff_max
unfolding base_delay
base_delay-le interval failures = omega arith

-- The jitter moves the delay by at most a fifth of it, whatever number in its range is drawn: so a
-- retry waits at least four fifths of the delay above, at most six fifths of it, and at most six
-- fifths of the interval and 36 minutes.
pub retry_delay_bounds :
    (draw : ℕ → ℕ) (interval failures : ℕ)
    → ((n : ℕ) → 0 < n → draw n < n)
    → (base_delay interval failures - base_delay interval failures / 5
        ≤ retry_delay draw interval failures)
      × (retry_delay draw interval failures
          ≤ base_delay interval failures + base_delay interval failures / 5)
      × (5 * retry_delay draw interval failures ≤ 6 * interval)
      × (retry_delay draw interval failures ≤ 36 * minute)
unfolding retry_delay
retry_delay_bounds draw interval failures fair = ground (
  arith,
  base_delay-le interval failures,
  fair (2 * (base_delay interval failures / 5) + 1) (omega arith),
)

-- One more failure in a row never shortens the delay before the jitter.
pub base_delay_mono :
    (interval n m : ℕ) → n ≤ m → base_delay interval (n + 1) ≤ base_delay interval (m + 1)
base_delay_mono interval n m h =
    rw (base_delay-eq-min interval n, base_delay-eq-min interval m)
      (omega
        (arith, mul-le-mul (le_refl retry_backoff_base) (pow-le-pow_right {n = 2} (omega arith) h)))

-- If every draw is below its bound, retryDelay after n + 1 failures in a row is 30 seconds doubled n
-- times, cut at the interval of the capability and at 30 minutes, moved by at most a fifth of that;
-- so a retry waits at most six fifths of the interval and 36 minutes.
pub retry_delay_lem :
    (draw : ℕ → ℕ) (interval n : ℕ)
    → ((n : ℕ) → 0 < n → draw n < n)
    → let delay = min (retry_backoff_base * 2 ^ n) (min interval retry_backoff_max) in
      (delay - delay / 5 ≤ retry_delay draw interval (n + 1))
      × (retry_delay draw interval (n + 1) ≤ delay + delay / 5)
      × (5 * retry_delay draw interval (n + 1) ≤ 6 * interval)
      × (retry_delay draw interval (n + 1) ≤ 36 * minute)
retry_delay_lem draw interval n fair =
    rw (base_delay-eq-min interval n) at (retry_delay_bounds draw interval (n + 1) fair)
