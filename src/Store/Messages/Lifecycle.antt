-- ===== src/Store/Messages/Lifecycle.antt =====
-- The life of a message under every operation of the repository: internal/store/messages.go.
pub mod Moves
pub mod Consistency
pub mod Final
use smtp_auth_proxy.Prelude.{ℕ, ◌+◌, ◌≡◌, ◌⊎◌, Option, is_some, All}
use smtp_auth_proxy.Strings.{Str, str_eq, str_eq_iff}
use smtp_auth_proxy.Store.Models.{
  MessageStatus, Message, Failure, queued, sending, sent, deferred, failed, held,
}
use smtp_auth_proxy.Store.Rows.{
  update_where, filter, find, Unique, changed, kept, find-update_where, update_where-Unique,
  find-delete_where, delete_where-Unique,
}
use smtp_auth_proxy.Store.Rows.Members.{All-update_where, All-filter, All-find}
use smtp_auth_proxy.Store.Messages.{
  Db, References, Result, ok, err, id_of, is_due, is_sending, is_waiting, claim_messages, stamped,
  enqueue, extend_lease, mark_sent, postpone, fail, requeue, hold, delete, release_expired_leases,
  purge, owned_by, extended, marked_sent, deferred_until, failed_with, requeued, may_requeue,
  may_hold, put_on_hold, may_delete, row_where, update_row, released, is_abandoned, is_finished,
  delete_rows, leased,
}
use smtp_auth_proxy.Store.Messages.Claims.{claim_row, claim_absent}

-- Every operation that writes.
pub data Op : Type 0 where
  enqueue_op : References → Message → Option Str → Str → ℕ → Op
  claim_op : Str → ℕ → ℕ → ℕ → Op
  extend_op : Str → Str → ℕ → ℕ → Op
  mark_sent_op : Str → Str → ℕ → Op
  postpone_op : Str → Str → Failure → ℕ → ℕ → Op
  fail_op : Str → Str → Failure → ℕ → Op
  requeue_op : Str → ℕ → Op
  hold_op : Str → ℕ → Op
  delete_op : Str → Op
  release_op : ℕ → Op
  purge_op : ℕ → ℕ → Op

-- The database after the operation, whatever it returned.
unfoldable pub run_op : Db → Op → Db
run_op db (enqueue_op refs m content new_id now) = (enqueue refs db m content new_id now).0
run_op db (claim_op owner limit lease_for now) = (claim_messages db owner limit lease_for now).0
run_op db (extend_op id owner lease_for now) = (extend_lease db id owner lease_for now).0
run_op db (mark_sent_op id owner now) = (mark_sent db id owner now).0
run_op db (postpone_op id owner f retry_at now) = (postpone db id owner f retry_at now).0
run_op db (fail_op id owner f now) = (fail db id owner f now).0
run_op db (requeue_op id now) = (requeue db id now).0
run_op db (hold_op id now) = (hold db id now).0
run_op db (delete_op id) = (delete db id).0
run_op db (release_op now) = (release_expired_leases db now).0
run_op db (purge_op sent_before failed_before) = (purge db sent_before failed_before).0

-- A row has an owner and an expiry exactly while it is being sent.
pub record IsLeased (m : Message) : Type 0 where
  pub owner_iff_sending : is_some m.lease_owner ≡ is_sending m.status
  pub expiry_iff_sending : is_some m.lease_expires_at ≡ is_sending m.status

pub record IsConsistent (db : Db) : Type 0 where
  pub unique : Unique id_of db.messages
  pub leases : All IsLeased db.messages

-- A row that is inserted holds no half of a lease; the proxy inserts rows with none.
abbrev pub IsAdmissible : Op → Type 0
IsAdmissible (enqueue_op refs m content new_id now) = IsLeased (stamped m new_id now)
IsAdmissible _ = Unit

-- The moves of a message's status. `sent` has no move out of it.
infix 40 ◌⟶◌
pub data ◌⟶◌ : MessageStatus → MessageStatus → Type 0 where
  stay : {s : MessageStatus} → s ⟶ s
  claim_queued : queued ⟶ sending
  claim_deferred : deferred ⟶ sending
  deliver : sending ⟶ sent
  retry_later : sending ⟶ deferred
  give_up : sending ⟶ failed
  lease_lapsed : sending ⟶ queued
  retry_failed : failed ⟶ queued
  retry_deferred : deferred ⟶ queued
  resume : held ⟶ queued
  hold_queued : queued ⟶ held
  hold_deferred : deferred ⟶ held
  hold_failed : failed ⟶ held

pub ruleset moves = (
  stay, claim_queued, claim_deferred, deliver, retry_later, give_up, lease_lapsed, retry_failed,
  retry_deferred, resume, hold_queued, hold_deferred, hold_failed,
)

-- A row before and after an operation that does not remove it.
pub record IsMove (m m' : Message) : Type 0 where
  pub status : m.status ⟶ m'.status
  -- An attempt is counted only when a message that is being sent gets its outcome.
  pub counted : (m'.attempts ≡ m.attempts) ⊎ ((m'.attempts ≡ m.attempts + 1) × (m.status ≡ sending))
