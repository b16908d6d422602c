-- ===== src/Queue/Worker/Outcome.antt =====
-- What a delivery leaves behind: `deliver` and `recordFailure` of internal/queue/worker.go.
use smtp_auth_proxy.Prelude.{
  option_cases, ℕ, ◌+◌, ◌≡◌, refl, ap, inl, inr, true, false, not, Option, none, some,
  if◌then◌else◌, if_cases, Bool-cases, Option-cases, [],
}
use smtp_auth_proxy.Strings.{Str, str_eq, codes}
use smtp_auth_proxy.Store.Models.{Message, Failure}
use smtp_auth_proxy.Store.Rows.{find, Unique}
use smtp_auth_proxy.Store.Messages.{
  Db, Result, err, not_found, id_of, owned_by, mark_sent, fail, postpone, marked_sent,
  deferred_until, failed_with,
}
use smtp_auth_proxy.Store.Messages.Ownership.{holds, not_owner, owner_rows, IsGranted}
use smtp_auth_proxy.Transport.{
  SendError, plain, is_permanent, retry_after, as_failure, new_permanent,
}
use smtp_auth_proxy.Queue.Backoff.{next_attempt_after}
use smtp_auth_proxy.Queue.Worker.{
  Options, Tables, World, Prepared, ready, unready, prepare, gave_up, record_failure, settle,
  deliver_prepared, no_transport, written, delivery_budget, describe, deliver,
}

-- The row is as `m'` and every other row is as it was.
abbrev pub IsOnlyChange : Db → Str → Message → Db → Type 0
IsOnlyChange db id m' db' =
    (find id_of id db'.messages ≡ some m')
    × ((k : Str) → str_eq id k ≡ false → find id_of k db'.messages ≡ find id_of k db.messages)

module _ (opts : Options) (w : World) (m : Message) where
  -- The retry policy's answer to the failure.
  abbrev pub retry : SendError → Option ℕ
  retry e =
      next_attempt_after opts.backoff w.random w.now (m.attempts + 1) m.received_at (retry_after e)

  -- The row after a write of the outcome, which may not take place.
  abbrev pub written_row : Message → Message
  written_row m' = if w.writable then m' else m

  -- What a failure should make of the row.
  abbrev pub failed_row : SendError → Message
  failed_row e =
      if is_permanent e then failed_with (as_failure e) w.written_at m else elim (retry e) [
        | none ↦ failed_with (gave_up (as_failure e) (m.attempts + 1)) w.written_at m
        | some t ↦ deferred_until (as_failure e) t w.written_at m
      ]

  abbrev pub settled_row : Option SendError → Message
  settled_row none = marked_sent w.written_at m
  settled_row (some e) = failed_row e

  -- What the delivery makes of the row.
  abbrev pub delivered_row : Prepared → Message
  delivered_row (unready e) = written_row (failed_row (new_permanent (codes "proxy") (describe e)))
  delivered_row (ready out) =
      if not (w.acquired (delivery_budget out.mailbox))
      then m
      else if not (opts.transports out.mailbox.transport)
      then written_row (failed_row (no_transport out.mailbox.transport))
      else written_row (settled_row (w.answer out))

module _ (opts : Options) (tables : Tables) (w : World) (db : Db)
    (unique : Unique id_of db.messages) (m : Message)
    (stale : holds (owned_by opts.worker_id) (find id_of m.id db.messages) ≡ false) where
  unwritten : {r : Db × Result (Unit {0})} → r ≡ (db, err not_found) → written w db r ≡ db
  unwritten e = if_cases (λ d. d ≡ db) w.writable (λ _. ap (λ x. x.0) e) (λ _. refl)

  -- The three writes of an outcome.
  refusals :
      (f : Failure) (retry_at : ℕ)
      → (mark_sent db m.id opts.worker_id w.written_at ≡ (db, err not_found))
        × (postpone db m.id opts.worker_id f retry_at w.written_at ≡ (db, err not_found))
        × (fail db m.id opts.worker_id f w.written_at ≡ (db, err not_found))
  refusals f retry_at =
      let (_, sent, postponed, failed) =
        not_owner db unique m.id opts.worker_id f retry_at 0 w.written_at stale in
      (sent, postponed, failed)

  stale_failure : (e : SendError) → record_failure opts w db m e ≡ db
  unfolding record_failure
  stale_failure e =
      if_cases (λ d. d ≡ db) (is_permanent e) (λ _. unwritten (refusals (as_failure e) 0).2)
        (λ _.
          option_cases (λ d. d ≡ db) (retry opts w m e)
            (λ _. unwritten (refusals (gave_up (as_failure e) (m.attempts + 1)) 0).2)
            (λ t _. unwritten (refusals (as_failure e) t).1))

  stale_settle : (r : Option SendError) → settle opts w db m r ≡ db
  unfolding settle
  stale_settle none = unwritten (refusals (as_failure (plain [])) 0).0
  stale_settle (some e) = stale_failure e

  stale_prepared : (q : Prepared) → deliver_prepared opts w db m q ≡ db
  unfolding deliver_prepared
  stale_prepared (unready e) = stale_failure _
  stale_prepared (ready out) =
      if_cases (λ d. d ≡ db) (not (w.acquired (delivery_budget out.mailbox))) (λ _. refl)
        (λ _.
          if_cases (λ d. d ≡ db) (not (opts.transports out.mailbox.transport))
            (λ _. stale_failure _) (λ _. stale_settle (w.answer out)))

  -- A worker that delivers a message as it once read it, while the database holds no row under the
  -- message's id that is leased to this worker, changes nothing in the database, whatever came of
  -- its delivery.
  pub deliver_stale : deliver opts tables w db m ≡ db
  unfolding deliver
  deliver_stale = stale_prepared (prepare tables w db m)

module _ (opts : Options) (tables : Tables) (w : World) (db : Db)
    (unique : Unique id_of db.messages) (m : Message) (found : find id_of m.id db.messages ≡ some m)
    (owned : owned_by opts.worker_id m ≡ true) where
  abbrev Changes : Message → Db → Type 0
  Changes = IsOnlyChange db m.id

  write_change :
      {m' : Message} (r : Db × Result (Unit {0}))
      → IsGranted db m.id m' r
      → Changes (written_row opts w m m') (written w db r)
  write_change r g = elim (Bool-cases w.writable) [
    | inl e ↦ rw e (g.1, g.2)
    | inr e ↦ rw e (found, λ k ne. refl)
  ]

  grants :
      (f : Failure) (retry_at : ℕ)
      → IsGranted db m.id
          (marked_sent w.written_at m)
          (mark_sent db m.id opts.worker_id w.written_at)
        × IsGranted db m.id
            (deferred_until f retry_at w.written_at m)
            (postpone db m.id opts.worker_id f retry_at w.written_at)
        × IsGranted db m.id
            (failed_with f w.written_at m)
            (fail db m.id opts.worker_id f w.written_at)
  grants f retry_at =
      let (_, sent, postponed, failed) =
        owner_rows db unique m.id m found opts.worker_id f retry_at 0 w.written_at owned in
      (sent, postponed, failed)

  pub failure_change :
      (e : SendError)
      → Changes (written_row opts w m (failed_row opts w m e)) (record_failure opts w db m e)
  unfolding record_failure
  failure_change e = elim (Bool-cases (is_permanent e)) [
    | inl p ↦ rw p (write_change _ (grants (as_failure e) 0).2)
    | inr p ↦ elim (Option-cases (retry opts w m e)) [
      | inl r ↦ rw (p, r) (write_change _ (grants (gave_up (as_failure e) (m.attempts + 1)) 0).2)
      | inr (t, r) ↦ rw (p, r) (write_change _ (grants (as_failure e) t).1)
    ]
  ]

  settle_change :
      (r : Option SendError)
      → Changes (written_row opts w m (settled_row opts w m r)) (settle opts w db m r)
  unfolding settle
  settle_change none = write_change _ (grants (as_failure (plain [])) 0).0
  settle_change (some e) = failure_change e

  prepared_change :
      (q : Prepared) → Changes (delivered_row opts w m q) (deliver_prepared opts w db m q)
  unfolding deliver_prepared
  prepared_change (unready e) = failure_change _
  prepared_change (ready out) = elim (Bool-cases (w.acquired (delivery_budget out.mailbox))) [
    | inr a ↦ rw a (found, λ k ne. refl)
    | inl a ↦ elim (Bool-cases (opts.transports out.mailbox.transport)) [
      | inr t ↦ rw (a, t) (failure_change _)
      | inl t ↦ rw (a, t) (settle_change (w.answer out))
    ]
  ]

  -- A delivery under the lease changes the message's row alone.
  pub deliver_change :
      Changes (delivered_row opts w m (prepare tables w db m)) (deliver opts tables w db m)
  unfolding deliver
  deliver_change = prepared_change (prepare tables w db m)
