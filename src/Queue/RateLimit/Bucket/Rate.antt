-- ===== src/Queue/RateLimit/Bucket/Rate.antt =====
-- The rate that a token bucket grants: `tokenBucket` of internal/queue/ratelimit.go.
use native.Mathlib.Nat.{mul-le-mul_left, sub-add_cancel}
use smtp_auth_proxy.Prelude.{
  ap, ◌∙◌, ℕ, ◌+◌, ◌-◌, ◌*◌, ◌≤◌, ◌≡◌, List, ◌∷◌, All, arith, if◌then◌else◌, [],
}
use smtp_auth_proxy.Queue.Backoff.{minute}
use smtp_auth_proxy.Queue.RateLimit.Bucket.{TokenBucket, new_token_bucket, refill, take}

-- How many of the calls `take` at these readings of the clock get a token, and the bucket after.
abbrev pub grants : TokenBucket → List ℕ → TokenBucket × ℕ
grants b [] = (b, 0)
grants b (now ∷ rest) =
    let (b', delay, done) = take b now in
    let (b'', n) = grants b' rest in (b'', if done then n + 1 else n)

pub elapsed_parts :
    (now last rate : ℕ) → last ≤ now → (now - last) * rate + rate * last ≡ rate * now
elapsed_parts now last rate h =
    mul_comm_add (now - last) rate last ∙ ap (λ t. rate * t) (sub-add_cancel h)
  where
    mul_comm_add : (k r l : ℕ) → k * r + r * l ≡ r * (k + l)
    mul_comm_add k r l = omega arith

refill_parts :
    (b : TokenBucket) (now : ℕ)
    → ((refill b now).tokens + b.per_minute * b.last
        ≤ b.tokens + b.per_minute * (refill b now).last)
      × ((refill b now).per_minute ≡ b.per_minute)
      × (b.last ≤ (refill b now).last)
unfolding refill
refill_parts b now = ground (arith, elapsed_parts now b.last b.per_minute)

-- One call never creates tokens beyond the refill.
take_parts :
    (b : TokenBucket) (now : ℕ)
    → ((if (take b now).2 then minute else 0) + (take b now).0.tokens + b.per_minute * b.last
        ≤ b.tokens + b.per_minute * (take b now).0.last)
      × ((take b now).0.per_minute ≡ b.per_minute)
unfolding take
take_parts b now = ground (arith, refill_parts b now)

take_last :
    (b : TokenBucket) (now bound : ℕ) → b.last ≤ bound → now ≤ bound → (take b now).0.last ≤ bound
unfolding take refill
take_last b now bound h k = ground arith

grants_parts :
    (b : TokenBucket) (times : List ℕ)
    → (grants b times).1 * minute + (grants b times).0.tokens + b.per_minute * b.last
      ≤ b.tokens + b.per_minute * (grants b times).0.last
grants_parts b [] = omega arith
grants_parts b (now ∷ rest) =
    let b' = (take b now).0 in
    let same = (take_parts b now).1 in
    ground (
      arith,
      take_parts b now,
      grants_parts b' rest,
      ap (λ (r : ℕ). r * b'.last) same,
      ap (λ (r : ℕ). r * (grants b' rest).0.last) same,
    )

grants_last :
    (b : TokenBucket) (times : List ℕ) (bound : ℕ)
    → b.last ≤ bound
    → All (λ t. t ≤ bound) times
    → (grants b times).0.last ≤ bound
grants_last b [] bound h k = h
grants_last b (now ∷ rest) bound h k =
    grants_last (take b now).0 rest bound (take_last b now bound h k.0) k.1

-- Reckoned without rounding, a fresh token bucket grants, within any window of time, at most its
-- capacity and the refill of the window: counted in parts of a minute, the grants are at most the
-- rate times a minute and the window.
pub grants-le :
    (per_minute start window : ℕ) (times : List ℕ)
    → All (λ t. t ≤ start + window) times
    → (grants (new_token_bucket per_minute start) times).1 * minute ≤ per_minute * (minute + window)
unfolding new_token_bucket
grants-le per_minute start window times h =
    let b = new_token_bucket per_minute start in
    let last = grants_last b times (start + window) (omega arith) h in
    omega (arith, grants_parts b times, mul-le-mul_left per_minute last)
