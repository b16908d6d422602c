-- ===== src/Queue/Backoff/Window.antt =====
-- When the retry policy gives up, and the times at which it retries.
use native.Mathlib.Nat.{
  mul-div-mul_right, div-zero, div-mul-le_self, le-div_iff_mul-le, mul-le-mul_left, le_trans,
}
use Prim.Native.Nat.{max}
use smtp_auth_proxy.Prelude.{
  ℕ, zero, suc, ◌+◌, ◌*◌, ◌/◌, ◌≤◌, ◌<◌, ◌≡◌, subst, ◌≢◌, ◌↔◌, ◌⊎◌, none, some, arith,
}
use smtp_auth_proxy.Queue.Backoff.{
  Backoff, float_one, clamp_jitter, base_delay, delay_for, next_attempt, next_attempt_after,
}

clamp_jitter-le : (j : ℕ) → clamp_jitter j ≤ float_one
unfolding clamp_jitter
clamp_jitter-le j = ground arith

div_mono : {m n : ℕ} (k : ℕ) → m ≤ n → m / k ≤ n / k
div_mono {m} {n} zero h = omega (arith, div-zero m, div-zero n)
div_mono {m} {n} (suc k) h =
    (le-div_iff_mul-le (omega arith)).1 (le_trans (div-mul-le_self m (suc k)) h)

-- A product with a fraction of `k`, scaled back by `k * k`, is no more than scaling by `k` alone.
scale_down : (x r k : ℕ) → 0 < k → r ≤ k → x * r / (k * k) ≤ x / k
scale_down x r k p h =
    subst (λ t. x * r / (k * k) ≤ t) (mul-div-mul_right x k p)
      (div_mono (k * k) (mul-le-mul_left x h))

-- Jitter only shortens a delay, by no more than the configured fraction of it.
pub delay_for_bounds :
    (b : Backoff) (random attempts : ℕ)
    → random ≤ float_one
    → (delay_for b random attempts ≤ base_delay b attempts)
      × (base_delay b attempts
          ≤ delay_for b random attempts + base_delay b attempts * clamp_jitter b.jitter / float_one)
unfolding delay_for
delay_for_bounds b random attempts h = ground (
  arith,
  scale_down (base_delay b attempts * clamp_jitter b.jitter) random float_one (omega arith),
)

module _ (b : Backoff) (random now attempts received_at : ℕ) where
  -- Every attempt is used up.
  abbrev pub Exhausted : Type 0
  Exhausted = (0 < b.max_attempts) × (b.max_attempts ≤ attempts)

  -- The next attempt would come after the message's deadline.
  abbrev pub PastDeadline : Type 0
  PastDeadline =
      (0 < b.max_age)
      × (received_at ≢ 0)
      × (received_at + b.max_age < now + delay_for b random attempts)

  pub next_attempt-none_iff :
      (next_attempt b random now attempts received_at ≡ none) ↔ (Exhausted ⊎ PastDeadline)
  unfolding next_attempt
  next_attempt-none_iff = (ground arith, ground arith)

  -- With a random number of at most 1, a retry comes no later than the scheduled delay and no
  -- earlier than that delay less its jitter; it is scheduled only while an attempt is left, if
  -- attempts are limited, and before the message's greatest age, if there is one and the time of
  -- receipt is known.
  pub next_attempt-window :
      {t : ℕ}
      → random ≤ float_one
      → next_attempt b random now attempts received_at ≡ some t
      → (t ≤ now + base_delay b attempts)
        × (now + base_delay b attempts
            ≤ t + base_delay b attempts * clamp_jitter b.jitter / float_one)
        × ((b.max_attempts ≡ 0) ⊎ (attempts < b.max_attempts))
        × ((b.max_age ≡ 0) ⊎ (received_at ≡ 0) ⊎ (t ≤ received_at + b.max_age))
  unfolding next_attempt
  next_attempt-window r h = ground (arith, delay_for_bounds b random attempts r)

  within_deadline :
      {t : ℕ}
      → next_attempt b random now attempts received_at ≡ some t
      → 0 < b.max_age
      → received_at ≢ 0
      → (now ≤ t) × (t ≤ received_at + b.max_age)
  unfolding next_attempt
  within_deadline h aged received = ground arith

  -- When the schedule allows a retry, the delay that the upstream asked for only moves it later:
  -- the retry comes at the later of the scheduled time and the end of the delay asked for.
  pub next_attempt_after_lem :
      (requested : ℕ) {t : ℕ}
      → next_attempt b random now attempts received_at ≡ some t
      → next_attempt_after b random now attempts received_at requested
        ≡ some (max t (now + requested))
  unfolding next_attempt_after next_attempt
  next_attempt_after_lem requested h = ground arith

  -- The limits that hold whatever the upstream asked for, and the deadline if it asked for nothing.
  pub next_attempt_after-window :
      (requested : ℕ) {t : ℕ}
      → next_attempt_after b random now attempts received_at requested ≡ some t
      → (now + requested ≤ t)
        × ((b.max_attempts ≡ 0) ⊎ (attempts < b.max_attempts))
        × ((0 < requested) ⊎ (b.max_age ≡ 0) ⊎ (received_at ≡ 0) ⊎ (t ≤ received_at + b.max_age))
  unfolding next_attempt_after next_attempt
  next_attempt_after-window requested h = ground arith

  -- When the schedule allows a retry and the upstream asks for a delay that ends after the
  -- message's greatest age, the retry is scheduled all the same, after the deadline.
  pub next_attempt_after-past_deadline :
      {t : ℕ} (requested : ℕ)
      → 0 < b.max_age
      → received_at ≢ 0
      → next_attempt b random now attempts received_at ≡ some t
      → received_at + b.max_age < now + requested
      → (u : ℕ) × (next_attempt_after b random now attempts received_at requested ≡ some u)
        × (received_at + b.max_age < u)
  unfolding next_attempt_after
  next_attempt_after-past_deadline requested aged received h late =
      (now + requested, ground (arith, within_deadline h aged received), late)
