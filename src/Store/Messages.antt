-- ===== src/Store/Messages.antt =====
-- The message repository: internal/store/messages.go.
-- A statement is atomic, as the engines make it, and `now` is the clock that the operation reads. What
-- the driver reports when the engine itself fails is not modelled.
pub mod Lifecycle
pub mod Ownership
pub mod Enqueue
pub mod Claims
use smtp_auth_proxy.Prelude.{
  ℕ, ◌+◌, Bool, true, false, not, ◌&&◌, ◌||◌, Option, none, some, List, ◌∷◌, ltb, leb, ◌==◌,
  if◌then◌else◌, length, take, map, is_some, [],
}
use smtp_auth_proxy.Strings.{Str, str_eq, codes}
use smtp_auth_proxy.Store.Models.{
  MessageStatus, Message, Failure, unset, queued, sending, sent, deferred, failed, held,
}
use smtp_auth_proxy.Store.Rows.{
  any, update_where, filter, delete_where, count_where, order_by, find,
}

pub data StoreError : Type 0 where
  not_found conflict referenced body_not_stored state_conflict no_worker_identity : StoreError

pub data Result {ℓ} (A : Type ℓ) : Type ℓ where
  ok : A → Result A
  err : StoreError → Result A

pub record Blob : Type 0 where
  pub message_id : Str
  pub content : Str

pub record Db : Type 0 where
  pub messages : List Message
  pub message_blobs : List Blob

abbrev pub id_of : Message → Str
id_of m = m.id

abbrev pub blob_id : Blob → Str
blob_id b = b.message_id

abbrev pub is_sending : MessageStatus → Bool
is_sending sending = true
is_sending _ = false

-- status IN ('queued', 'deferred')
abbrev pub is_waiting : MessageStatus → Bool
is_waiting queued = true
is_waiting deferred = true
is_waiting _ = false

abbrev pub is_unset : MessageStatus → Bool
is_unset unset = true
is_unset _ = false

-- `lease_owner = ?`, which NULL does not satisfy.
abbrev pub owned_by : Str → Message → Bool
owned_by owner m = elim m.lease_owner [ none ↦ false | some o ↦ str_eq o owner ]

-- `lease_expires_at < ?`
abbrev pub expired_before : ℕ → Option ℕ → Bool
expired_before now none = false
expired_before now (some t) = ltb t now

unfoldable pub get : Db → Str → Result Message
get db id = elim (find id_of id db.messages) [ none ↦ err not_found | some m ↦ ok m ]

unfoldable pub body : Db → Str → Result Str
body db id = elim (find blob_id id db.message_blobs) [
  | none ↦ err not_found
  | some b ↦ ok b.content
]

-- The row that `enqueueTx` inserts; `new_id` is what `NewID` draws.
unfoldable pub stamped : Message → Str → ℕ → Message
stamped m new_id now = record m {
  origin = if length m.origin == 0 then codes "smtp" else m.origin;
  id = if length m.id == 0 then new_id else m.id;
  received_at = if m.received_at == 0 then now else m.received_at;
  next_attempt_at = if m.next_attempt_at == 0 then now else m.next_attempt_at;
  updated_at = now;
  status = if is_unset m.status then queued else m.status;
  recipient_count = length m.recipients;
}

unfoldable pub has_id : List Str → Str → Bool
has_id [] id = false
has_id (i ∷ ids) id = str_eq id i || has_id ids id

-- The ids of the rows that the foreign keys of a message may name.
pub record References : Type 0 where
  pub accounts : List Str
  pub mailboxes : List Str

-- A foreign key that is NULL names no row.
abbrev pub refers : List Str → Option Str → Bool
refers ids none = true
refers ids (some id) = has_id ids id

abbrev pub can_refer : References → Message → Bool
can_refer refs row =
    refers refs.accounts row.smtp_account_id && refers refs.mailboxes row.mailbox_id

-- Both inserts, or neither: a violated key rolls the transaction back.
unfoldable pub enqueue : References → Db → Message → Option Str → Str → ℕ → Db × Result Str
unfolding stamped has_id
enqueue refs db m content new_id now =
    let row = stamped m new_id now in
    if is_some (find id_of row.id db.messages)
    then (db, err conflict)
    else if not (can_refer refs row)
    then (db, err referenced)
    else elim content [
      | none ↦ (record db { messages = row ∷ db.messages }, ok row.id)
      | some bytes ↦
          if is_some (find blob_id row.id db.message_blobs) then (db, err body_not_stored) else (
            record {
              messages = row ∷ db.messages;
              message_blobs =
                  let blob : Blob = record { message_id = row.id; content = bytes } in
                  blob ∷ db.message_blobs;
            },
            ok row.id,
          )
    ]

-- Due for an attempt, or abandoned, and under no live lease.
unfoldable pub is_due : ℕ → Message → Bool
is_due now m =
    (is_waiting m.status && leb m.next_attempt_at now
      || is_sending m.status && is_some m.lease_expires_at && expired_before now m.lease_expires_at)
    && (not (is_some m.lease_owner)
        || not (is_some m.lease_expires_at)
        || expired_before now m.lease_expires_at)

abbrev pub next_of : Message → ℕ
next_of m = m.next_attempt_at

unfoldable pub chosen : Db → ℕ → ℕ → List Str
chosen db limit now = map id_of (take limit (order_by next_of (filter (is_due now) db.messages)))

abbrev pub leased : Str → ℕ → ℕ → Message → Message
leased owner until now m = record m {
  status = sending;
  lease_owner = some owner;
  lease_expires_at = some until;
  updated_at = now;
}

abbrev pub expires_at : ℕ → Message → Bool
expires_at t m = elim m.lease_expires_at [ none ↦ false | some u ↦ u == t ]

-- The UPDATE, and the SELECT that reads the claimed rows back.
unfoldable pub claim_messages : Db → Str → ℕ → ℕ → ℕ → Db × Result (List Message)
unfolding chosen
claim_messages db owner limit lease_for now =
    if length owner == 0
    then (db, err no_worker_identity)
    else if limit == 0
    then (db, ok [])
    else (let ids = chosen db limit now in
        let until = now + lease_for in
        let rows = update_where (λ m. has_id ids m.id) (leased owner until now) db.messages in
        if length ids == 0 then (db, ok []) else (
          record db { messages = rows },
          ok (
              order_by next_of
                (filter (λ m. owned_by owner m && expires_at until m && is_sending m.status) rows)),
        ))

-- A statement on one row with a condition, and the two readings of how many rows it touched:
-- `requireOneRow` and `requireAction`.
abbrev pub row_where : Str → (Message → Bool) → Message → Bool
row_where id p m = if str_eq m.id id then p m else false

unfoldable pub update_row : Db → Str → (Message → Bool) → (Message → Message) → Db
update_row db id p f = record db { messages = update_where (row_where id p) f db.messages }

unfoldable pub require_one_row : Db → Str → (Message → Bool) → Result (Unit {0})
require_one_row db id p = if any (row_where id p) db.messages then ok tt else err not_found

-- `db'` is the database that the lookup after the statement reads.
unfoldable pub require_action : Db → Db → Str → (Message → Bool) → Result (Unit {0})
unfolding get
require_action db db' id p =
    if any (row_where id p) db.messages
    then ok tt
    else elim (get db' id) [ ok m ↦ err state_conflict | err e ↦ err e ]

abbrev pub extended : ℕ → ℕ → Message → Message
extended lease_for now m = record m { lease_expires_at = some (now + lease_for); updated_at = now }

unfoldable pub extend_lease : Db → Str → Str → ℕ → ℕ → Db × Result (Unit {0})
unfolding update_row require_one_row
extend_lease db id owner lease_for now = (
  update_row db id (owned_by owner) (extended lease_for now),
  require_one_row db id (owned_by owner),
)

abbrev pub marked_sent : ℕ → Message → Message
marked_sent now m = record m {
  status = sent;
  sent_at = some now;
  updated_at = now;
  attempts = m.attempts + 1;
  lease_owner = none;
  lease_expires_at = none;
  last_error = [];
  last_error_code = [];
}

unfoldable pub mark_sent : Db → Str → Str → ℕ → Db × Result (Unit {0})
unfolding update_row require_one_row
mark_sent db id owner now =
    (update_row db id (owned_by owner) (marked_sent now), require_one_row db id (owned_by owner))

abbrev pub deferred_until : Failure → ℕ → ℕ → Message → Message
deferred_until f retry_at now m = record m {
  status = deferred;
  attempts = m.attempts + 1;
  next_attempt_at = retry_at;
  last_error = f.message;
  last_error_code = f.code;
  last_error_permanent = false;
  lease_owner = none;
  lease_expires_at = none;
  updated_at = now;
}

-- `Defer`
unfoldable pub postpone : Db → Str → Str → Failure → ℕ → ℕ → Db × Result (Unit {0})
unfolding update_row require_one_row
postpone db id owner f retry_at now = (
  update_row db id (owned_by owner) (deferred_until f retry_at now),
  require_one_row db id (owned_by owner),
)

abbrev pub failed_with : Failure → ℕ → Message → Message
failed_with f now m = record m {
  status = failed;
  attempts = m.attempts + 1;
  last_error = f.message;
  last_error_code = f.code;
  last_error_permanent = f.permanent;
  lease_owner = none;
  lease_expires_at = none;
  updated_at = now;
}

unfoldable pub fail : Db → Str → Str → Failure → ℕ → Db × Result (Unit {0})
unfolding update_row require_one_row
fail db id owner f now =
    (update_row db id (owned_by owner) (failed_with f now), require_one_row db id (owned_by owner))

-- status IN ('failed', 'deferred', 'held')
abbrev pub may_requeue : Message → Bool
may_requeue m = elim m.status [ failed ↦ true | deferred ↦ true | held ↦ true | _ ↦ false ]

abbrev pub requeued : ℕ → Message → Message
requeued now m = record m {
  status = queued;
  next_attempt_at = now;
  updated_at = now;
  lease_owner = none;
  lease_expires_at = none;
}

unfoldable pub requeue : Db → Str → ℕ → Db × Result (Unit {0})
unfolding update_row require_action
requeue db id now =
    let db' = update_row db id may_requeue (requeued now) in
    (db', require_action db db' id may_requeue)

-- status IN ('queued', 'deferred', 'failed')
abbrev pub may_hold : Message → Bool
may_hold m = elim m.status [ queued ↦ true | deferred ↦ true | failed ↦ true | _ ↦ false ]

abbrev pub put_on_hold : ℕ → Message → Message
put_on_hold now m = record m {
  status = held;
  updated_at = now;
  lease_owner = none;
  lease_expires_at = none;
}

unfoldable pub hold : Db → Str → ℕ → Db × Result (Unit {0})
unfolding update_row require_action
hold db id now =
    let db' = update_row db id may_hold (put_on_hold now) in
    (db', require_action db db' id may_hold)

abbrev pub may_delete : Message → Bool
may_delete m = not (is_sending m.status)

-- The body of a deleted row goes with it through the foreign key.
unfoldable pub delete_rows : Db → (Message → Bool) → Db
delete_rows db p =
    let rows = delete_where p db.messages in
    record {
      messages = rows;
      message_blobs = filter (λ b. is_some (find id_of b.message_id rows)) db.message_blobs;
    }

unfoldable pub delete : Db → Str → Db × Result (Unit {0})
unfolding delete_rows require_action
delete db id =
    let db' = delete_rows db (row_where id may_delete) in (db', require_action db db' id may_delete)

abbrev pub is_abandoned : ℕ → Message → Bool
is_abandoned now m =
    is_sending m.status && is_some m.lease_expires_at && expired_before now m.lease_expires_at

abbrev pub released : ℕ → Message → Message
released now m = record m {
  status = queued;
  lease_owner = none;
  lease_expires_at = none;
  updated_at = now;
}

unfoldable pub release_expired_leases : Db → ℕ → Db × Result ℕ
release_expired_leases db now = (
  record db { messages = update_where (is_abandoned now) (released now) db.messages },
  ok (count_where (is_abandoned now) db.messages),
)

abbrev pub is_finished : ℕ → ℕ → Message → Bool
is_finished sent_before failed_before m = elim m.status [
  | sent ↦ ltb m.updated_at sent_before
  | failed ↦ ltb m.updated_at failed_before
  | _ ↦ false
]

unfoldable pub purge : Db → ℕ → ℕ → Db × Result ℕ
unfolding delete_rows
purge db sent_before failed_before = (
  delete_rows db (is_finished sent_before failed_before),
  ok (count_where (is_finished sent_before failed_before) db.messages),
)
