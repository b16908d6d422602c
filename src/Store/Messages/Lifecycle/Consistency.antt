-- ===== src/Store/Messages/Lifecycle/Consistency.antt =====
-- Every operation keeps the table consistent: internal/store/messages.go.
use smtp_auth_proxy.Prelude.{
  ℕ, ◌+◌, ◌≡◌, refl, Bool, true, false, not, Option, none, some, List, ◌∷◌, arith, ◌==◌, is_some,
  length, if_cases,
}
use smtp_auth_proxy.Strings.{Str}
use smtp_auth_proxy.Store.Models.{Message}
use smtp_auth_proxy.Store.Rows.{update_where, find, update_where-Unique, delete_where-Unique}
use smtp_auth_proxy.Store.Rows.Members.{All-update_where, All-filter}
use smtp_auth_proxy.Store.Messages.{
  Db, References, can_refer, Blob, Result, blob_id, has_id, chosen, id_of, claim_messages, stamped,
  enqueue, extend_lease, mark_sent, postpone, fail, requeue, hold, delete, release_expired_leases,
  purge, owned_by, extended, marked_sent, deferred_until, failed_with, requeued, may_requeue,
  may_hold, put_on_hold, may_delete, row_where, update_row, released, is_abandoned, is_finished,
  delete_rows, leased,
}
use smtp_auth_proxy.Store.Messages.Lifecycle.{
  Op, enqueue_op, claim_op, extend_op, mark_sent_op, postpone_op, fail_op, requeue_op, hold_op,
  delete_op, release_op, purge_op, run_op, IsLeased, IsConsistent, IsAdmissible,
}

abbrev Inserted : Db × Result Str → Type 0
Inserted r = IsConsistent r.0

abbrev Claimed : Db × Result (List Message) → Type 0
Claimed r = IsConsistent r.0

module _ (db : Db) (c : IsConsistent db) where
  updated-IsConsistent :
      (p : Message → Bool) (f : Message → Message)
      → ((m : Message) → (f m).id ≡ m.id)
      → ((m : Message) → IsLeased m → p m ≡ true → IsLeased (f m))
      → IsConsistent (record db { messages = update_where p f db.messages })
  updated-IsConsistent p f keeps h = record {
    unique = update_where-Unique id_of p f keeps db.messages c.unique;
    leases = All-update_where IsLeased p f db.messages h c.leases;
  }

  deleted-IsConsistent : (p : Message → Bool) → IsConsistent (delete_rows db p)
  unfolding delete_rows
  deleted-IsConsistent p = record {
    unique = delete_where-Unique id_of p db.messages c.unique;
    leases = All-filter IsLeased (λ m. not (p m)) db.messages c.leases;
  }

  claimed-IsConsistent :
      (owner : Str) (limit lease_for now : ℕ)
      → IsConsistent (claim_messages db owner limit lease_for now).0
  unfolding claim_messages
  claimed-IsConsistent owner limit lease_for now =
      if_cases Claimed (length owner == 0) (λ _. c)
        (λ _.
          if_cases Claimed (limit == 0) (λ _. c)
            (λ _.
              if_cases Claimed (length (chosen db limit now) == 0) (λ _. c)
                (λ _.
                  updated-IsConsistent (λ m. has_id (chosen db limit now) m.id)
                    (leased owner (now + lease_for) now) (λ m. refl) (λ m l e. ground arith))))

  row-IsConsistent :
      (row : Message) (blobs : List Blob)
      → is_some (find id_of row.id db.messages) ≡ false
      → IsLeased row
      → IsConsistent (record { messages = row ∷ db.messages; message_blobs = blobs })
  row-IsConsistent row blobs e l = record {
    unique = (ground arith, c.unique);
    leases = (l, c.leases);
  }

  inserted-IsConsistent :
      (refs : References) (m : Message) (content : Option Str) (new_id : Str) (now : ℕ)
      → IsLeased (stamped m new_id now)
      → IsConsistent (enqueue refs db m content new_id now).0
  unfolding enqueue
  inserted-IsConsistent refs m none new_id now l =
      if_cases Inserted (is_some (find id_of (stamped m new_id now).id db.messages)) (λ _. c)
        (λ e.
          if_cases Inserted (not (can_refer refs (stamped m new_id now))) (λ _. c)
            (λ _. row-IsConsistent (stamped m new_id now) db.message_blobs e l))
  inserted-IsConsistent refs m (some bytes) new_id now l =
      if_cases Inserted (is_some (find id_of (stamped m new_id now).id db.messages)) (λ _. c)
        (λ e.
          if_cases Inserted (not (can_refer refs (stamped m new_id now))) (λ _. c)
            (λ _.
              if_cases Inserted (is_some (find blob_id (stamped m new_id now).id db.message_blobs))
                (λ _. c) (λ _. row-IsConsistent (stamped m new_id now) _ e l)))

  pub run_op-IsConsistent : (op : Op) → IsAdmissible op → IsConsistent (run_op db op)
  unfolding run_op extend_lease mark_sent postpone fail requeue hold delete release_expired_leases
      purge update_row
  run_op-IsConsistent (enqueue_op refs m content new_id now) a =
      inserted-IsConsistent refs m content new_id now a
  run_op-IsConsistent (claim_op owner limit lease_for now) a =
      claimed-IsConsistent owner limit lease_for now
  run_op-IsConsistent (extend_op id owner lease_for now) a =
      updated-IsConsistent (row_where id (owned_by owner)) (extended lease_for now) (λ m. refl)
        (λ m l e. ground arith)
  run_op-IsConsistent (mark_sent_op id owner now) a =
      updated-IsConsistent (row_where id (owned_by owner)) (marked_sent now) (λ m. refl)
        (λ m l e. ground arith)
  run_op-IsConsistent (postpone_op id owner f retry_at now) a =
      updated-IsConsistent (row_where id (owned_by owner)) (deferred_until f retry_at now)
        (λ m. refl) (λ m l e. ground arith)
  run_op-IsConsistent (fail_op id owner f now) a =
      updated-IsConsistent (row_where id (owned_by owner)) (failed_with f now) (λ m. refl)
        (λ m l e. ground arith)
  run_op-IsConsistent (requeue_op id now) a =
      updated-IsConsistent (row_where id may_requeue) (requeued now) (λ m. refl)
        (λ m l e. ground arith)
  run_op-IsConsistent (hold_op id now) a =
      updated-IsConsistent (row_where id may_hold) (put_on_hold now) (λ m. refl)
        (λ m l e. ground arith)
  run_op-IsConsistent (delete_op id) a = deleted-IsConsistent (row_where id may_delete)
  run_op-IsConsistent (release_op now) a =
      updated-IsConsistent (is_abandoned now) (released now) (λ m. refl) (λ m l e. ground arith)
  run_op-IsConsistent (purge_op sent_before failed_before) a =
      deleted-IsConsistent (is_finished sent_before failed_before)
