-- ===== src/Store/Messages/Lifecycle/Final.antt =====
-- Runs of operations: what never changes once a message is sent, and where a held one can go.
use smtp_auth_proxy.Prelude.{
  ℕ, ◌≡◌, refl, subst, inl, inr, Bool, false, Option, none, some, List, ◌∷◌, arith, Option-cases,
  All, [],
}
use smtp_auth_proxy.Strings.{Str, str_eq}
use smtp_auth_proxy.Store.Models.{MessageStatus, Message, sent}
use smtp_auth_proxy.Store.Rows.{find, find-update_where, find-delete_where, update_where}
use smtp_auth_proxy.Store.Messages.{
  Db, References, id_of, stamped, enqueue, extend_lease, mark_sent, postpone, fail, requeue, hold,
  delete, release_expired_leases, purge, update_row, delete_rows,
}
use smtp_auth_proxy.Store.Messages.Lifecycle.{
  Op, enqueue_op, claim_op, delete_op, purge_op, run_op, IsConsistent, IsAdmissible, IsMove, ◌⟶◌,
  stay,
}
use smtp_auth_proxy.Store.Messages.Lifecycle.Moves.{run_op-IsMove}
use smtp_auth_proxy.Store.Messages.Lifecycle.Consistency.{run_op-IsConsistent}
use smtp_auth_proxy.Store.Messages.Claims.{claim_absent}

unfoldable pub run_ops : Db → List Op → Db
run_ops db [] = db
run_ops db (op ∷ ops) = run_ops (run_op db op) ops

-- The run inserts no row under the id. Ids are UUIDs, drawn anew for each message.
abbrev pub IsOther : Str → Op → Type 0
IsOther k (enqueue_op refs m content new_id now) = str_eq (stamped m new_id now).id k ≡ false
IsOther k _ = Unit

-- Every sequence of operations whose inserted rows hold no half of a lease keeps a consistent
-- database consistent: the ids are unique, and a row has a lease owner and a lease expiry exactly
-- while its status is sending.
pub run_ops-IsConsistent :
    (db : Db) (ops : List Op)
    → IsConsistent db
    → All IsAdmissible ops
    → IsConsistent (run_ops db ops)
unfolding run_ops
run_ops-IsConsistent db [] c a = c
run_ops-IsConsistent db (op ∷ ops) c a =
    run_ops-IsConsistent (run_op db op) ops (run_op-IsConsistent db c op a.0) a.1

absent_update :
    (p : Message → Bool) (f : Message → Message) (k : Str) (ms : List Message)
    → ((m : Message) → (f m).id ≡ m.id)
    → find id_of k ms ≡ none
    → find id_of k (update_where p f ms) ≡ none
absent_update p f k ms keeps h = ground (arith, find-update_where id_of p f keeps k ms)

absent_delete :
    (db : Db) (c : IsConsistent db) (p : Message → Bool) (k : Str)
    → find id_of k db.messages ≡ none
    → find id_of k (delete_rows db p).messages ≡ none
unfolding delete_rows
absent_delete db c p k h = ground (arith, find-delete_where id_of p k db.messages c.unique)

absent_enqueue :
    (refs : References) (db : Db) (m : Message) (content : Option Str) (new_id : Str) (now : ℕ)
    (k : Str)
    → str_eq (stamped m new_id now).id k ≡ false
    → find id_of k db.messages ≡ none
    → find id_of k (enqueue refs db m content new_id now).0.messages ≡ none
unfolding enqueue find
absent_enqueue refs db m content new_id now k o h = ground arith

-- Nothing but an insert brings a row.
run_op_absent :
    (db : Db) (c : IsConsistent db) (op : Op) (k : Str)
    → IsOther k op
    → find id_of k db.messages ≡ none
    → find id_of k (run_op db op).messages ≡ none
unfolding run_op extend_lease mark_sent postpone fail requeue hold delete release_expired_leases
    purge update_row
run_op_absent db c (enqueue_op refs m content new_id now) k o h =
    absent_enqueue refs db m content new_id now k o h
run_op_absent db c (claim_op owner limit lease_for now) k o h =
    claim_absent db c.unique owner limit lease_for now k h
run_op_absent db c (delete_op id) k o h = absent_delete db c _ k h
run_op_absent db c (purge_op sent_before failed_before) k o h = absent_delete db c _ k h
run_op_absent db c _ k o h = absent_update _ _ k db.messages (λ m. refl) h

run_ops_absent :
    (db : Db) (ops : List Op) (k : Str)
    → IsConsistent db
    → All IsAdmissible ops
    → All (IsOther k) ops
    → find id_of k db.messages ≡ none
    → find id_of k (run_ops db ops).messages ≡ none
unfolding run_ops
run_ops_absent db [] k c a o h = h
run_ops_absent db (op ∷ ops) k c a o h =
    run_ops_absent (run_op db op) ops k (run_op-IsConsistent db c op a.0) a.1 o.1
      (run_op_absent db c op k o.0 h)

-- What becomes of a sent message: it stays sent, with its count of attempts, or it is removed.
abbrev pub StaysSent : ℕ → Option Message → Type 0
StaysSent n none = Unit
StaysSent n (some m) = (m.status ≡ sent) × (m.attempts ≡ n)

sent_stays : (s t : MessageStatus) → s ≡ sent → s ⟶ t → t ≡ sent
sent_stays s t e stay = e
sent_stays s t e _ = absurd (cc)

move_sent :
    (m m' : Message)
    → m.status ≡ sent
    → IsMove m m'
    → (m'.status ≡ sent) × (m'.attempts ≡ m.attempts)
move_sent m m' e v = (sent_stays m.status m'.status e v.status, ground arith)

-- In a consistent database, a message that is sent is never queued, claimed or counted again,
-- whatever operations of the repository follow that insert no row under its id: its row keeps the
-- status and the number of attempts until it is deleted or purged.
pub sent_final :
    (db : Db) (ops : List Op) (k : Str) (m : Message)
    → IsConsistent db
    → All IsAdmissible ops
    → All (IsOther k) ops
    → find id_of k db.messages ≡ some m
    → m.status ≡ sent
    → StaysSent m.attempts (find id_of k (run_ops db ops).messages)
unfolding run_ops
sent_final db [] k m c a o f e = rw f (e, refl)
sent_final db (op ∷ ops) k m c a o f e =
    let c' = run_op-IsConsistent db c op a.0 in
    elim (Option-cases (find id_of k (run_op db op).messages)) [
      | inl g ↦ rw (run_ops_absent (run_op db op) ops k c' a.1 o.1 g) tt
      | inr (m', g) ↦
          let (e', same) = move_sent m m' e (run_op-IsMove db c k m m' f op g) in
          subst (λ n. StaysSent n (find id_of k (run_ops (run_op db op) ops).messages)) same
            (sent_final (run_op db op) ops k m' c' a.1 o.1 g e')
    ]
