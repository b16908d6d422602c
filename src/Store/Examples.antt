-- ===== src/Store/Examples.antt =====
-- The theorems about the queue's table at concrete rows, and runs of its operations.
use smtp_auth_proxy.Prelude.{◌≡◌, refl, ◌⊎◌, true, false, ◌&&◌, some, List, ◌∷◌, arith, All, In, []}
use smtp_auth_proxy.Strings.{Str, codes, str_eq}
use smtp_auth_proxy.Store.Models.{Message, queued, sent, deferred, failed, held}
use smtp_auth_proxy.Store.Rows.{find, Unique, any, update_where, filter, insert_by, order_by}
use smtp_auth_proxy.Store.Messages.{
  ok, err, not_found, state_conflict, References, id_of, is_due, has_id, chosen, leased, owned_by,
  expires_at, update_row, claim_messages, extend_lease, mark_sent, postpone, fail, requeue, hold,
  marked_sent,
}
use smtp_auth_proxy.Store.Messages.Claims.{claim_sound}
use smtp_auth_proxy.Store.Messages.Ownership.{
  lease_required, lease_honored, operator_actions, Grants, Decides, IsExtended, IsOutcome, IsMoved,
  HasError,
}
use smtp_auth_proxy.Store.Messages.Lifecycle.{
  Op, claim_op, mark_sent_op, requeue_op, release_op, purge_op, run_op, IsConsistent, IsMove,
}
use smtp_auth_proxy.Store.Messages.Lifecycle.Moves.{run_op-IsMove}
use smtp_auth_proxy.Store.Messages.Lifecycle.Final.{
  run_ops, run_ops-IsConsistent, sent_final, StaysSent,
}
use smtp_auth_proxy.Store.Fixtures.{
  waiting_row, sending_row, sent_row, failed_message, queue_db, failure,
}

abbrev w1 : Str
w1 = codes "w1"

queue_db-Unique : Unique id_of queue_db.messages
unfolding find str_eq
queue_db-Unique = ground arith

queue_db-IsConsistent : IsConsistent queue_db
queue_db-IsConsistent = record { unique = queue_db-Unique; leases = ground arith }

find_sending : find id_of (codes "b") queue_db.messages ≡ some sending_row
unfolding find str_eq
find_sending = refl

find_failed : find id_of (codes "d") queue_db.messages ≡ some failed_message
unfolding find str_eq
find_failed = refl

find_sent : find id_of (codes "c") queue_db.messages ≡ some sent_row
unfolding find str_eq
find_sent = refl

-- A claim by another worker, a late outcome, a retry, the lapse of leases and a purge.
abbrev operations : List Op
operations =
    claim_op (codes "w2") 10 100 600
    ∷ mark_sent_op (codes "c") w1 700
    ∷ requeue_op (codes "c") 700
    ∷ release_op 900
    ∷ purge_op 50 50
    ∷ []

sent_final_example : StaysSent 1 (find id_of (codes "c") (run_ops queue_db operations).messages)
sent_final_example =
    sent_final queue_db operations (codes "c") sent_row queue_db-IsConsistent (ground arith)
      (ground arith) find_sent refl

run_ops-IsConsistent_example : IsConsistent (run_ops queue_db operations)
run_ops-IsConsistent_example =
    run_ops-IsConsistent queue_db operations queue_db-IsConsistent (ground arith)

-- Worker `w2` claims one message at time 300, for 200.
claim_runs :
    (claim_messages queue_db (codes "w2") 1 200 300).1
    ≡ ok (leased (codes "w2") 500 300 waiting_row ∷ [])
unfolding claim_messages chosen has_id is_due any update_where filter insert_by order_by str_eq
claim_runs = refl

queue_db-IsFresh :
    All (λ m. (owned_by (codes "w2") m && expires_at 500 m) ≡ false) queue_db.messages
unfolding str_eq
queue_db-IsFresh = ground arith

claim_sound_example :
    (m : Message) × (find id_of m.id queue_db.messages ≡ some m)
    × (is_due 300 m ≡ true)
    × (leased (codes "w2") 500 300 waiting_row ≡ leased (codes "w2") 500 300 m)
claim_sound_example =
    claim_sound queue_db queue_db-Unique (codes "w2") 1 200 300
      (leased (codes "w2") 500 300 waiting_row ∷ []) (leased (codes "w2") 500 300 waiting_row)
      queue_db-IsFresh claim_runs In.here

not_due : is_due 300 sending_row ≡ false
unfolding is_due
not_due = refl

lease_required_example :
    (extend_lease queue_db (codes "b") (codes "w2") 200 300 ≡ (queue_db, err not_found))
    × (mark_sent queue_db (codes "b") (codes "w2") 300 ≡ (queue_db, err not_found))
    × (postpone queue_db (codes "b") (codes "w2") failure 900 300 ≡ (queue_db, err not_found))
    × (fail queue_db (codes "b") (codes "w2") failure 300 ≡ (queue_db, err not_found))
unfolding str_eq
lease_required_example =
    lease_required queue_db queue_db-Unique (codes "b") sending_row find_sending (codes "w2")
      failure 900 200 300 refl

lease_honored_example :
    Grants queue_db
      (codes "b")
      (IsExtended 500 sending_row)
      (extend_lease queue_db (codes "b") w1 200 300)
    × Grants queue_db
        (codes "b")
        (λ m'. IsOutcome sent sending_row m' × (m'.sent_at ≡ some 300) × HasError m' [] [] false)
        (mark_sent queue_db (codes "b") w1 300)
    × Grants queue_db
        (codes "b")
        (λ m'.
          IsOutcome deferred sending_row m'
          × (m'.next_attempt_at ≡ 900)
          × HasError m' failure.code failure.message false)
        (postpone queue_db (codes "b") w1 failure 900 300)
    × Grants queue_db
        (codes "b")
        (λ m'. IsOutcome failed sending_row m' × HasError m' failure.code failure.message true)
        (fail queue_db (codes "b") w1 failure 300)
unfolding str_eq
lease_honored_example =
    lease_honored queue_db queue_db-Unique (codes "b") sending_row find_sending w1 failure 900 200
      300 refl

operator_actions_example :
    Decides
      ((failed_message.status ≡ failed)
        ⊎ (failed_message.status ≡ deferred)
        ⊎ (failed_message.status ≡ held))
      (Grants queue_db
        (codes "d")
        (λ m'. IsMoved queued failed_message m' × (m'.next_attempt_at ≡ 300))
        (requeue queue_db (codes "d") 300))
      (requeue queue_db (codes "d") 300 ≡ (queue_db, err state_conflict))
    × Decides
        ((failed_message.status ≡ queued)
          ⊎ (failed_message.status ≡ deferred)
          ⊎ (failed_message.status ≡ failed))
        (Grants queue_db
          (codes "d")
          (λ m'.
            IsMoved held failed_message m' × (m'.next_attempt_at ≡ failed_message.next_attempt_at))
          (hold queue_db (codes "d") 300))
        (hold queue_db (codes "d") 300 ≡ (queue_db, err state_conflict))
operator_actions_example =
    operator_actions queue_db queue_db-Unique (codes "d") failed_message find_failed 300

delivered :
    find id_of (codes "b") (run_op queue_db (mark_sent_op (codes "b") w1 300)).messages
    ≡ some (marked_sent 300 sending_row)
unfolding find str_eq run_op mark_sent update_row update_where
delivered = refl

run_op-IsMove_example : IsMove sending_row (marked_sent 300 sending_row)
run_op-IsMove_example =
    run_op-IsMove queue_db queue_db-IsConsistent (codes "b") sending_row
      (marked_sent 300 sending_row) find_sending (mark_sent_op (codes "b") w1 300) delivered

abbrev new_row : Message
new_row = record waiting_row { id = [] }

-- The mailbox of the row exists; the row names no account.
abbrev references : References
references = record { accounts = []; mailboxes = codes "box" ∷ [] }
