-- ===== src/Queue/Backoff.antt =====
-- Retry scheduling: internal/queue/backoff.go.
-- Times are nanoseconds since Go's zero time, so `IsZero` is `t == 0`; durations are nanoseconds. A
-- setting at or below zero is 0: the code treats them alike.
pub mod Window
use smtp_auth_proxy.Prelude.{
  ℕ, ◌+◌, ◌-◌, ◌*◌, ◌/◌, ◌^◌, ◌&&◌, not, Option, none, some, List, ◌∷◌, ltb, leb, ◌==◌, length,
  get_or, if◌then◌else◌, [],
}

abbrev pub second : ℕ
second = 1_000_000_000

abbrev pub minute : ℕ
minute = 60 * second

abbrev pub hour : ℕ
hour = 60 * minute

-- A float64 between 0 and 1 is a count of 2^-53, as `rand.Float64` draws it; the two products in
-- `delayFor` are exact here.
abbrev pub float_one : ℕ
float_one = 2 ^ 53

pub record Backoff : Type 0 where
  pub delays : List ℕ
  pub jitter : ℕ
  pub max_attempts : ℕ
  pub max_age : ℕ

abbrev pub default_delays : List ℕ
default_delays = minute ∷ (5 * minute) ∷ (15 * minute) ∷ hour ∷ (4 * hour) ∷ (12 * hour) ∷ []

unfoldable pub clamp_jitter : ℕ → ℕ
clamp_jitter j = if ltb float_one j then float_one else j

-- The schedule in force, and the entry of it that `attempts` selects; the last one repeats.
unfoldable pub schedule : Backoff → List ℕ
schedule b = if length b.delays == 0 then default_delays else b.delays

unfoldable pub base_delay : Backoff → ℕ → ℕ
unfolding schedule
base_delay b attempts =
    let delays = schedule b in
    let index = attempts - 1 in
    get_or delays (if leb (length delays) index then length delays - 1 else index) 0

-- `random` is the value that `randomValue` draws.
unfoldable pub delay_for : Backoff → ℕ → ℕ → ℕ
unfolding base_delay clamp_jitter
delay_for b random attempts =
    let delay = base_delay b attempts in
    if b.jitter == 0
    then delay
    else delay - delay * clamp_jitter b.jitter * random / (float_one * float_one)

unfoldable pub next_attempt : Backoff → ℕ → ℕ → ℕ → ℕ → Option ℕ
unfolding delay_for
next_attempt b random now attempts received_at =
    if ltb 0 b.max_attempts && leb b.max_attempts attempts
    then none
    else let next = now + delay_for b random attempts in
      if ltb 0 b.max_age && not (received_at == 0) && ltb (received_at + b.max_age) next
      then none
      else some next

unfoldable pub next_attempt_after : Backoff → ℕ → ℕ → ℕ → ℕ → ℕ → Option ℕ
next_attempt_after b random now attempts received_at requested =
    elim (next_attempt b random now attempts received_at) [
      | none ↦ none
      | some next ↦
          some (if ltb 0 requested && ltb next (now + requested) then now + requested else next)
    ]
