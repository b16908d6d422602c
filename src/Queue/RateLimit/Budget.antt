-- ===== src/Queue/RateLimit/Budget.antt =====
-- A mailbox's allowance: `Budget`, `clamp` and `effective` of internal/queue/ratelimit.go.
-- A number at or below zero is 0: the code treats them alike.
use smtp_auth_proxy.Prelude.{ℕ, ◌≤◌, ◌<◌, ◌≡◌, ◌||◌, arith, ltb, ◌==◌, if◌then◌else◌}

abbrev pub exchange_messages_per_minute : ℕ
exchange_messages_per_minute = 30

abbrev pub exchange_concurrent_connections : ℕ
exchange_concurrent_connections = 3

pub record Budget : Type 0 where
  pub per_minute : ℕ
  pub max_concurrent : ℕ

unfoldable pub clamp : Budget → Budget
clamp b =
    let rate =
      if b.per_minute == 0 || ltb exchange_messages_per_minute b.per_minute
      then exchange_messages_per_minute
      else b.per_minute in
    let slots = if b.max_concurrent == 0 then 2 else b.max_concurrent in
    record {
      per_minute = rate;
      max_concurrent =
          if ltb exchange_concurrent_connections slots
          then exchange_concurrent_connections
          else slots;
    }

-- `defaults` is the limiter's field of that name.
unfoldable pub effective : Budget → Budget → Budget
effective defaults budget = clamp (record {
  per_minute = if budget.per_minute == 0 then defaults.per_minute else budget.per_minute;
  max_concurrent =
      if budget.max_concurrent == 0 then defaults.max_concurrent else budget.max_concurrent;
})

-- What Exchange Online permits, and something at all.
pub record IsPermitted (b : Budget) : Type 0 where
  pub some_rate : 0 < b.per_minute
  pub rate_within : b.per_minute ≤ exchange_messages_per_minute
  pub some_slot : 0 < b.max_concurrent
  pub slots_within : b.max_concurrent ≤ exchange_concurrent_connections

pub clamp-IsPermitted : (b : Budget) → IsPermitted (clamp b)
unfolding clamp
clamp-IsPermitted b = ground arith

clamp-clamp : (b : Budget) → clamp (clamp b) ≡ clamp b
unfolding clamp
clamp-clamp b = ground arith

pub clamp_of_IsPermitted : (b : Budget) → IsPermitted b → clamp b ≡ b
unfolding clamp
clamp_of_IsPermitted b h = ground arith

-- Whatever the defaults and the overrides, the budget in force has a rate from 1 to 30 a minute and
-- from 1 to 3 connections, and asking for it again changes nothing.
pub effective_lem :
    (defaults budget : Budget)
    → IsPermitted (effective defaults budget)
      × (effective defaults (effective defaults budget) ≡ effective defaults budget)
unfolding effective clamp
effective_lem defaults budget = ground arith
