-- ===== src/Mq/Rabbit/Backoff.antt =====
-- mq/rabbitmq/rabbitMQ.go: the delay before the next attempt to connect.
use native.Mathlib.Nat.{pow-suc}
use arcella_lib.Mq.Rabbit.{
  RabbitMq, second, max_reconnect_delay, double_delay, backoff_base, backoff_delay,
}
use arcella_lib.Prelude.{
  ◌∙◌, ◌≡◌, ◌<◌, ◌≤◌, ◌^◌, ◌/◌, ◌*◌, min, Bool-cases, ltb, arith, inr, inl, ap, suc, zero, ℕ,
}

pow_pos : (n : ℕ) → 0 < 2 ^ n
pow_pos zero = omega arith
pow_pos (suc n) = omega (arith, pow_pos n, pow-suc 2 n)

double-pow : (d n : ℕ) → d * 2 * 2 ^ n ≡ d * 2 ^ suc n
double-pow d n = omega (arith, ap (λ (t : ℕ). d * t) (pow-suc 2 n))

le-mul-pow : (d n : ℕ) → d ≤ d * 2 ^ n
le-mul-pow d n = grind (arith, pow_pos n)

-- the doubling and the uncapped power agree under the cap
double_delay-min :
    (attempt d : ℕ)
    → min (double_delay attempt d) max_reconnect_delay ≡ min (d * 2 ^ attempt) max_reconnect_delay
unfolding double_delay
double_delay-min zero d = omega arith
double_delay-min (suc attempt) d = elim (Bool-cases (ltb d max_reconnect_delay)) [
  | inl small ↦ rw small (
      double_delay-min attempt (d * 2)
      ∙ ap (λ (n : ℕ). min n max_reconnect_delay) (double-pow d attempt))
  | inr large ↦
      let far : max_reconnect_delay ≤ d = ground arith in
      rw large (omega (arith, le-mul-pow d (suc attempt)))
]

-- The delay before its jitter is the retry delay doubled for each failed attempt, and never above a
-- minute.
pub backoff_base-min :
    (retry_delay attempt : ℕ)
    → backoff_base retry_delay attempt ≡ min (retry_delay * 2 ^ attempt) max_reconnect_delay
unfolding backoff_base
backoff_base-min retry_delay attempt = ground (arith, double_delay-min attempt retry_delay)

-- With a jitter of a random number below one, the delay lies between a half and one and a half of the
-- base, and so is at most 90 s.
pub backoff_delay_bounds :
    (r : RabbitMq) (attempt k : ℕ)
    → k < 2 ^ 53
    → (backoff_base r.retry_delay attempt / 2 ≤ backoff_delay r attempt k)
      × (2 * backoff_delay r attempt k ≤ 3 * backoff_base r.retry_delay attempt)
      × (backoff_delay r attempt k ≤ 90 * second)
unfolding backoff_delay
backoff_delay_bounds r attempt k lt =
    let b = backoff_base r.retry_delay attempt in
    let cap : b ≤ max_reconnect_delay = omega (arith, backoff_base-min r.retry_delay attempt) in
    let part : b * k ≤ b * 2 ^ 53 = grind arith in (omega arith, omega arith, omega arith)
