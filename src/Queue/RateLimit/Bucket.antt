-- ===== src/Queue/RateLimit/Bucket.antt =====
-- The token bucket: `tokenBucket` of internal/queue/ratelimit.go.
-- A token is divided into 60e9 parts, one minute's nanoseconds: in these parts a refill over `n`
-- nanoseconds is `n * perMinute` parts. The source counts tokens in float64 and rounds each refill; the
-- parts here are exact, so that a token may be due in the source one reading later.
pub mod Rate
pub mod Burst
use smtp_auth_proxy.Prelude.{
  ℕ, ◌+◌, ◌-◌, ◌*◌, ◌/◌, Bool, true, false, List, ◌∷◌, ltb, leb, if◌then◌else◌, [],
}
use smtp_auth_proxy.Queue.Backoff.{minute}

pub record TokenBucket : Type 0 where
  pub per_minute : ℕ
  pub tokens : ℕ
  pub capacity : ℕ
  pub last : ℕ

unfoldable pub new_token_bucket : ℕ → ℕ → TokenBucket
new_token_bucket per_minute now = record {
  per_minute = per_minute;
  tokens = per_minute * minute;
  capacity = per_minute * minute;
  last = now;
}

unfoldable pub refill : TokenBucket → ℕ → TokenBucket
refill b now =
    if ltb b.last now
    then (let tokens = b.tokens + (now - b.last) * b.per_minute in
        record b { tokens = if ltb b.capacity tokens then b.capacity else tokens; last = now })
    else b

-- The bucket after the call, the delay and whether a token was taken.
unfoldable pub take : TokenBucket → ℕ → TokenBucket × ℕ × Bool
unfolding refill
take b now =
    let r = refill b now in
    if leb minute r.tokens
    then (record r { tokens = r.tokens - minute }, 0, true)
    else (r, (minute - r.tokens) * (minute / b.per_minute) / minute, false)

-- What ends one round of the `select` in `wait`.
pub data Wake : Type 0 where
  timer canceled : Wake

pub data Waited : Type 0 where
  taken given_up still_waiting : Waited

-- Each entry is a reading of the clock and what the round then waits for. `still_waiting` means that
-- the readings ran out.
unfoldable pub wait : TokenBucket → List (ℕ × Wake) → TokenBucket × Waited
unfolding take
wait b [] = (b, still_waiting)
wait b ((now, wake) ∷ rest) =
    let (b', delay, done) = take b now in
    elim done [
      | true ↦ (b', taken)
      | false ↦ elim wake [ timer ↦ wait b' rest | canceled ↦ (b', given_up) ]
    ]
