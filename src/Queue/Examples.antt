-- ===== src/Queue/Examples.antt =====
-- The theorems about the queue at concrete inputs.

use smtp_auth_proxy.Prelude.{
  ℕ, ◌+◌, ◌*◌, ◌/◌, ◌≤◌, ◌≡◌, refl, ◌↔◌, ◌⊎◌, true, false, none, some, ◌∷◌, arith, All, [],
}
use smtp_auth_proxy.Strings.{codes, str_eq}
use smtp_auth_proxy.Store.Models.{Message, sent, failed, deferred}
use smtp_auth_proxy.Store.Rows.{find, Unique, update_where}
use smtp_auth_proxy.Store.Messages.{Db, id_of, owned_by, deferred_until, update_row, postpone}
use smtp_auth_proxy.Store.Fixtures.{sending_row, queue_db}
use smtp_auth_proxy.Transport.{is_permanent, retry_after, as_failure}
use smtp_auth_proxy.Queue.Backoff.{
  minute, hour, base_delay, next_attempt, next_attempt_after, delay_for, schedule,
}
use smtp_auth_proxy.Queue.RateLimit.Budget.{Budget}
use smtp_auth_proxy.Queue.RateLimit.Bucket.{new_token_bucket}
use smtp_auth_proxy.Queue.RateLimit.Bucket.Rate.{grants, grants-le}
use smtp_auth_proxy.Queue.RateLimit.Bucket.Burst.{burst, burst-exceeds_rate}
use smtp_auth_proxy.Queue.Worker.{prepare, record_failure, deliver}
use smtp_auth_proxy.Queue.Worker.Outcome.{IsOnlyChange, retry, deliver_stale}
use smtp_auth_proxy.Queue.Worker.Guarantees.{
  IsSettled, IsAccepted, IsUnrecorded, WithinLimits, deliver_settles, deliver_sent_iff,
  failure_final_iff, deferral_bounds,
}
use smtp_auth_proxy.Queue.Fixtures.{backoff, options, tables, busy, throttled, world}

queue_db-Unique : Unique id_of queue_db.messages
unfolding find str_eq
queue_db-Unique = ground arith

found : find id_of sending_row.id queue_db.messages ≡ some sending_row
unfolding find str_eq
found = refl

owned : owned_by options.worker_id sending_row ≡ true
unfolding str_eq
owned = refl

deliver_settles_example :
    (m' : Message) × IsOnlyChange queue_db sending_row.id m'
      (deliver options tables world queue_db sending_row)
    × (((m' ≡ sending_row)
          × IsUnrecorded options tables world queue_db queue_db-Unique sending_row found owned
              (prepare tables world queue_db sending_row))
        ⊎ (IsSettled sending_row m'
            × (¬ (
                IsUnrecorded options tables world queue_db queue_db-Unique sending_row found owned
                  (prepare tables world queue_db sending_row)))))
deliver_settles_example =
    deliver_settles options tables world queue_db queue_db-Unique sending_row found owned

deliver_sent_iff_example :
    (m' : Message) × (find id_of sending_row.id
        (deliver options tables world queue_db sending_row).messages
      ≡ some m')
    × ((m'.status ≡ sent)
        ↔ IsAccepted options tables world queue_db queue_db-Unique sending_row found owned
            (prepare tables world queue_db sending_row))
deliver_sent_iff_example =
    deliver_sent_iff options tables world queue_db queue_db-Unique sending_row found owned
      (record { owner_iff_sending = refl; expiry_iff_sending = refl })

failure_final_iff_example :
    (m' : Message) × (find id_of sending_row.id
        (record_failure options world queue_db sending_row busy).messages
      ≡ some m')
    × (((world.writable ≡ true)
          × ((m'.status ≡ failed)
              ↔ ((is_permanent busy ≡ true) ⊎ (retry options world sending_row busy ≡ none)))
          × ((m'.status ≡ deferred) ↔ (
              (is_permanent busy ≡ false)
              × (retry options world sending_row busy ≡ some m'.next_attempt_at))))
        ⊎ ((world.writable ≡ false) × (m' ≡ sending_row)))
failure_final_iff_example =
    failure_final_iff options tables world queue_db queue_db-Unique sending_row found owned busy

deferral_runs :
    find id_of sending_row.id (record_failure options world queue_db sending_row throttled).messages
    ≡ some (deferred_until (as_failure throttled) (300 + 2 * hour) 300 sending_row)
unfolding find str_eq record_failure is_permanent next_attempt_after next_attempt delay_for
    base_delay schedule retry_after postpone update_row update_where
deferral_runs = refl

deferral_bounds_example :
    WithinLimits options world sending_row throttled
      (deferred_until (as_failure throttled) (300 + 2 * hour) 300 sending_row)
deferral_bounds_example =
    deferral_bounds options tables world queue_db queue_db-Unique sending_row found owned throttled
      (deferred_until (as_failure throttled) (300 + 2 * hour) 300 sending_row) (ground arith)
      deferral_runs refl

-- The lease of `w1` lapsed, and `w2` has claimed the row since.
abbrev reclaimed_db : Db
reclaimed_db = record queue_db {
  messages =
      record sending_row { lease_owner = some (codes "w2"); lease_expires_at = some 900 } ∷ [];
}

reclaimed_db-Unique : Unique id_of reclaimed_db.messages
unfolding find str_eq
reclaimed_db-Unique = ground arith

deliver_stale_example : deliver options tables world reclaimed_db sending_row ≡ reclaimed_db
unfolding find str_eq
deliver_stale_example =
    deliver_stale options tables world reclaimed_db reclaimed_db-Unique sending_row refl

abbrev defaults : Budget
defaults = record { per_minute = 20; max_concurrent = 9 }

-- The defaults hold for the connections.
abbrev override : Budget
override = record { per_minute = 10; max_concurrent = 0 }

grants-le_example :
    (grants (new_token_bucket 2 100) (100 ∷ 100 ∷ 100 ∷ [])).1 * minute ≤ 2 * (minute + 0)
grants-le_example = grants-le 2 100 0 (100 ∷ 100 ∷ 100 ∷ []) (ground arith)

burst-exceeds_rate_example :
    All (λ t. t ≤ 7 + minute) (burst 30 7 (7 + (minute / 30 + 1)))
    × ((grants (new_token_bucket 30 7) (burst 30 7 (7 + (minute / 30 + 1)))).1 ≡ 31)
burst-exceeds_rate_example = burst-exceeds_rate 30 7 (omega arith)

next_runs : next_attempt backoff 0 300 1 100 ≡ some (300 + minute)
unfolding next_attempt delay_for base_delay schedule
next_runs = refl

abbrev received : ℕ
received = 100

abbrev last_try : Message
last_try = record sending_row { attempts = 1 }

abbrev last_db : Db
last_db = record queue_db { messages = last_try ∷ [] }

last_found : find id_of last_try.id last_db.messages ≡ some last_try
unfolding find str_eq
last_found = refl

last_owned : owned_by options.worker_id last_try ≡ true
unfolding str_eq
last_owned = refl

last_Unique : Unique id_of last_db.messages
unfolding find
last_Unique = ground arith

gives_up : retry options world last_try busy ≡ none
unfolding next_attempt_after next_attempt retry_after
gives_up = refl
