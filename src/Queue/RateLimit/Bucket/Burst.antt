-- ===== src/Queue/RateLimit/Bucket/Burst.antt =====
-- A full bucket lets more than its rate through in one minute: `tokenBucket` of
-- internal/queue/ratelimit.go.
use native.Mathlib.Nat.{lt-div-mul-add, div-lt_self, add-sub_cancel_left}
use smtp_auth_proxy.Prelude.{
  subst, sym, ℕ, zero, suc, ◌+◌, ◌-◌, ◌*◌, ◌/◌, ◌≤◌, ◌<◌, ◌≡◌, true, List, ◌∷◌, ◌++◌, All,
  replicate, arith, All-append, [],
}
use smtp_auth_proxy.Queue.Backoff.{minute}
use smtp_auth_proxy.Queue.RateLimit.Bucket.{TokenBucket, new_token_bucket, refill, take}
use smtp_auth_proxy.Queue.RateLimit.Bucket.Rate.{grants}

-- `n` calls at the last refill's time, and one when the next token is due.
abbrev pub burst : ℕ → ℕ → ℕ → List ℕ
burst n start next = replicate n start ++ next ∷ []

take_at_once :
    (b : TokenBucket)
    → minute ≤ b.tokens
    → take b b.last ≡ (record b { tokens = b.tokens - minute }, 0, true)
unfolding take refill
take_at_once b h = ground arith

take_next :
    (b : TokenBucket) (next : ℕ)
    → minute ≤ b.capacity
    → b.last < next
    → minute ≤ (next - b.last) * b.per_minute
    → (take b next).2 ≡ true
unfolding take refill
take_next b next k l m = ground arith

grants-burst :
    (n next : ℕ) (b : TokenBucket)
    → n * minute ≤ b.tokens
    → minute ≤ b.capacity
    → b.last < next
    → minute ≤ (next - b.last) * b.per_minute
    → (grants b (burst n b.last next)).1 ≡ n + 1
grants-burst zero next b h k l m = rw (take_next b next k l m)
grants-burst (suc n) next b h k l m =
    let b' : TokenBucket = record b { tokens = b.tokens - minute } in
    rw (take_at_once b (omega arith)) (omega (arith, grants-burst n next b' (omega arith) k l m))

All-replicate : (n t bound : ℕ) → t ≤ bound → All (λ x. x ≤ bound) (replicate n t)
All-replicate zero t bound h = tt
All-replicate (suc n) t bound h = (h, All-replicate n t bound h)

-- A token is made up after a minute's share and a nanosecond.
share_enough : (rate : ℕ) → 2 ≤ rate → minute ≤ (minute / rate + 1) * rate
share_enough rate h = omega (arith, lt-div-mul-add {a = minute} {b = rate} (omega arith))

share_within : (rate : ℕ) → 2 ≤ rate → minute / rate + 1 ≤ minute
share_within rate h = omega (arith, div-lt_self {n = minute} {k = rate} (omega arith) h)

-- For a rate of two or more, there are moments within one minute at which a fresh token bucket
-- grants one message more than its rate.
pub burst-exceeds_rate :
    (rate start : ℕ)
    → 2 ≤ rate
    → let times = burst rate start (start + (minute / rate + 1)) in
      All (λ t. t ≤ start + minute) times
      × ((grants (new_token_bucket rate start) times).1 ≡ rate + 1)
unfolding new_token_bucket
burst-exceeds_rate rate start h = (
  All-append (λ x. x ≤ start + minute) (replicate rate start) _
      (All-replicate rate start _ (omega arith)) (omega (arith, share_within rate h)),
  grants-burst rate (start + (minute / rate + 1)) (new_token_bucket rate start) (omega arith)
      (omega arith) (omega arith) enough,
)
  where
    enough : minute ≤ (start + (minute / rate + 1) - start) * rate
    enough =
        subst (λ t. minute ≤ t * rate) (sym (add-sub_cancel_left start (minute / rate + 1)))
          (share_enough rate h)
