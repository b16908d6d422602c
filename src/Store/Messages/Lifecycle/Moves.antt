-- ===== src/Store/Messages/Lifecycle/Moves.antt =====
-- Every operation moves a message along the status diagram: internal/store/messages.go.
use smtp_auth_proxy.Prelude.{
  ℕ, ◌+◌, ◌≡◌, refl, sym, ap, subst, inl, inr, Bool, true, Option, some, List, arith, if◌then◌else◌,
  Bool-cases,
}
use smtp_auth_proxy.Strings.{Str, str_eq_iff}
use smtp_auth_proxy.Store.Models.{MessageStatus, Message, queued, sending, deferred, failed, held}
use smtp_auth_proxy.Store.Rows.{update_where, find, changed, find-update_where, find-delete_where}
use smtp_auth_proxy.Store.Rows.Members.{All-find}
use smtp_auth_proxy.Store.Messages.{
  Db, References, id_of, is_due, claim_messages, stamped, enqueue, extend_lease, mark_sent,
  postpone, fail, requeue, hold, delete, release_expired_leases, purge, owned_by, extended,
  marked_sent, deferred_until, failed_with, requeued, may_requeue, may_hold, put_on_hold,
  may_delete, row_where, update_row, released, is_abandoned, is_finished, delete_rows,
}
use smtp_auth_proxy.Store.Messages.Claims.{claim_row}
use smtp_auth_proxy.Store.Messages.Lifecycle.{
  Op, enqueue_op, claim_op, extend_op, mark_sent_op, postpone_op, fail_op, requeue_op, hold_op,
  delete_op, release_op, purge_op, run_op, IsLeased, IsConsistent, IsMove, ◌⟶◌, stay, claim_queued,
  claim_deferred, deliver, retry_later, give_up, lease_lapsed, retry_failed, retry_deferred, resume,
  hold_queued, hold_deferred, hold_failed,
}

quiet : {m m' : Message} → m.status ⟶ m'.status → m'.attempts ≡ m.attempts → IsMove m m'
quiet e a = record { status = e; counted = inl a }

outcome :
    {m m' : Message}
    → m.status ≡ sending
    → sending ⟶ m'.status
    → m'.attempts ≡ m.attempts + 1
    → IsMove m m'
outcome {m} {m'} s e a = record {
  status = subst (λ t. t ⟶ m'.status) (sym s) e;
  counted = inr (a, s);
}

IsMove-refl : (m : Message) → IsMove m m
IsMove-refl m = quiet stay refl

-- An UPDATE moves the row that it finds, if it moves each row that qualifies.
module _ (p : Message → Bool) (f : Message → Message) (m : Message) where
  moved : (p m ≡ true → IsMove m (f m)) → IsMove m (if p m then f m else m)
  moved h = elim (Bool-cases (p m)) [ inl e ↦ rw e (h e) | inr e ↦ rw e (IsMove-refl m) ]

  update-IsMove :
      (keeps : (x : Message) → (f x).id ≡ x.id) (k : Str) (ms : List Message) (m' : Message)
      → (p m ≡ true → IsMove m (f m))
      → find id_of k ms ≡ some m
      → find id_of k (update_where p f ms) ≡ some m'
      → IsMove m m'
  update-IsMove keeps k ms m' h e e' = subst (IsMove m) same (moved h)
    where
      same : (if p m then f m else m) ≡ m'
      same = cc (find-update_where id_of p f keeps k ms, ap (changed id_of p f) e, e, e')

-- A row that its lease's owner changes is being sent.
owned→sending :
    (id owner : Str) (m : Message)
    → IsLeased m
    → row_where id (owned_by owner) m ≡ true
    → m.status ≡ sending
owned→sending id owner m l h = ground arith

abandoned→sending : (now : ℕ) (m : Message) → is_abandoned now m ≡ true → m.status ≡ sending
abandoned→sending now m h = ground arith

requeue_edge :
    (s : MessageStatus) (id : Str) (m : Message)
    → m.status ≡ s
    → row_where id may_requeue m ≡ true
    → s ⟶ queued
requeue_edge failed id m e h = retry_failed
requeue_edge deferred id m e h = retry_deferred
requeue_edge held id m e h = resume
requeue_edge _ id m e h = absurd (ground arith)

hold_edge :
    (s : MessageStatus) (id : Str) (m : Message)
    → m.status ≡ s
    → row_where id may_hold m ≡ true
    → s ⟶ held
hold_edge failed id m e h = hold_failed
hold_edge deferred id m e h = hold_deferred
hold_edge queued id m e h = hold_queued
hold_edge _ id m e h = absurd (ground arith)

claim_edge :
    (s : MessageStatus) (now : ℕ) (m : Message) → m.status ≡ s → is_due now m ≡ true → s ⟶ sending
unfolding is_due
claim_edge queued now m e h = claim_queued
claim_edge deferred now m e h = claim_deferred
claim_edge sending now m e h = stay
claim_edge _ now m e h = absurd (ground arith)

-- An UPDATE of one row, by a status move and a count of attempts.
module _ (db : Db) (c : IsConsistent db) (k : Str) (m m' : Message)
    (before : find id_of k db.messages ≡ some m) where
  IsLeased-row : IsLeased m
  IsLeased-row = All-find IsLeased id_of k db.messages c.leases before

  owner-IsMove :
      (id owner : Str) (f : Message → Message)
      → ((x : Message) → (f x).id ≡ x.id)
      → (m.status ≡ sending → IsMove m (f m))
      → find id_of k (update_row db id (owned_by owner) f).messages ≡ some m'
      → IsMove m m'
  unfolding update_row
  owner-IsMove id owner f keeps h after =
      update-IsMove (row_where id (owned_by owner)) f m keeps k db.messages m'
        (λ e. h (owned→sending id owner m IsLeased-row e)) before after

  deleted-IsMove :
      (p : Message → Bool) → find id_of k (delete_rows db p).messages ≡ some m' → IsMove m m'
  unfolding delete_rows
  deleted-IsMove p after = subst (IsMove m) same (IsMove-refl m)
    where
      same : m ≡ m'
      same = ground (arith, find-delete_where id_of p k db.messages c.unique)

  enqueue-IsMove :
      (refs : References) (row : Message) (content : Option Str) (new_id : Str) (now : ℕ)
      → find id_of k (enqueue refs db row content new_id now).0.messages ≡ some m'
      → IsMove m m'
  unfolding enqueue find
  enqueue-IsMove refs row content new_id now after = subst (IsMove m) same (IsMove-refl m)
    where
      same : m ≡ m'
      same = ground (arith, str_eq_iff (stamped row new_id now).id k)

  -- In a consistent database, every operation of the repository moves a row's status along the
  -- message's life cycle or leaves it, and counts an attempt only for a message that was being
  -- sent.
  pub run_op-IsMove : (op : Op) → find id_of k (run_op db op).messages ≡ some m' → IsMove m m'
  unfolding run_op extend_lease mark_sent postpone fail requeue hold delete release_expired_leases
      purge
  run_op-IsMove (enqueue_op refs row content new_id now) after =
      enqueue-IsMove refs row content new_id now after
  run_op-IsMove (claim_op owner limit lease_for now) after =
      elim (claim_row db c.unique owner limit lease_for now k before) [
        | inl e ↦ subst (IsMove m) (same e) (IsMove-refl m)
        | inr (d, e) ↦ subst (IsMove m) (same e) (quiet (claim_edge m.status now m refl d) refl)
      ]
    where
      same :
          {x : Message}
          → find id_of k (claim_messages db owner limit lease_for now).0.messages ≡ some x
          → x ≡ m'
      same e = cc
  run_op-IsMove (extend_op id owner lease_for now) after =
      owner-IsMove id owner (extended lease_for now) (λ x. refl) (λ e. quiet stay refl) after
  run_op-IsMove (mark_sent_op id owner now) after =
      owner-IsMove id owner (marked_sent now) (λ x. refl) (λ e. outcome e deliver refl) after
  run_op-IsMove (postpone_op id owner f retry_at now) after =
      owner-IsMove id owner (deferred_until f retry_at now) (λ x. refl)
        (λ e. outcome e retry_later refl) after
  run_op-IsMove (fail_op id owner f now) after =
      owner-IsMove id owner (failed_with f now) (λ x. refl) (λ e. outcome e give_up refl) after
  run_op-IsMove (requeue_op id now) after =
      update-IsMove (row_where id may_requeue) (requeued now) m (λ x. refl) k db.messages m'
        (λ e. quiet (requeue_edge m.status id m refl e) refl) before (unfold update_row in after)
  run_op-IsMove (hold_op id now) after =
      update-IsMove (row_where id may_hold) (put_on_hold now) m (λ x. refl) k db.messages m'
        (λ e. quiet (hold_edge m.status id m refl e) refl) before (unfold update_row in after)
  run_op-IsMove (delete_op id) after = deleted-IsMove (row_where id may_delete) after
  run_op-IsMove (release_op now) after =
      update-IsMove (is_abandoned now) (released now) m (λ x. refl) k db.messages m'
        (λ e. quiet (rw (abandoned→sending now m e) lease_lapsed) refl) before after
  run_op-IsMove (purge_op sent_before failed_before) after =
      deleted-IsMove (is_finished sent_before failed_before) after
