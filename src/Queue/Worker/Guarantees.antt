-- ===== src/Queue/Worker/Guarantees.antt =====
-- What a delivery promises: `deliver` and `recordFailure` of internal/queue/worker.go.
use smtp_auth_proxy.Prelude.{
  ◌+◌, ◌≤◌, ◌<◌, ◌≡◌, refl, sym, subst, ◌≢◌, ◌↔◌, ◌⊎◌, inl, inr, true, false, Option, none, some,
  arith, Bool-cases, Option-cases,
}
use smtp_auth_proxy.Store.Models.{Message, sending, sent, failed, deferred}
use smtp_auth_proxy.Store.Rows.{find, Unique}
use smtp_auth_proxy.Store.Messages.{Db, id_of, owned_by}
use smtp_auth_proxy.Store.Messages.Lifecycle.{IsLeased}
use smtp_auth_proxy.Transport.{SendError, is_permanent, retry_after}
use smtp_auth_proxy.Queue.Backoff.Window.{next_attempt_after-window}
use smtp_auth_proxy.Queue.Worker.{
  Options, Tables, World, Prepared, ready, unready, prepare, record_failure, delivery_budget,
  deliver,
}
use smtp_auth_proxy.Queue.Worker.Outcome.{
  IsOnlyChange, retry, failed_row, written_row, settled_row, delivered_row, deliver_change,
  failure_change,
}

-- The row has its outcome: an attempt is counted and the lease is given back.
pub record IsSettled (m m' : Message) : Type 0 where
  pub outcome : (m'.status ≡ sent) ⊎ (m'.status ≡ failed) ⊎ (m'.status ≡ deferred)
  pub counted : m'.attempts ≡ m.attempts + 1
  pub no_owner : m'.lease_owner ≡ none
  pub no_expiry : m'.lease_expires_at ≡ none

-- The limits on a deferral.
abbrev pub WithinLimits : Options → World → Message → SendError → Message → Type 0
WithinLimits opts w m e m' =
    (w.now + retry_after e ≤ m'.next_attempt_at)
    × ((opts.backoff.max_attempts ≡ 0) ⊎ (m'.attempts < opts.backoff.max_attempts))
    × ((0 < retry_after e)
        ⊎ (opts.backoff.max_age ≡ 0)
        ⊎ (m.received_at ≡ 0)
        ⊎ (m'.next_attempt_at ≤ m.received_at + opts.backoff.max_age))

row_bounds :
    (opts : Options) (w : World) (m : Message) (e : SendError)
    → (failed_row opts w m e).status ≡ deferred
    → WithinLimits opts w m e (failed_row opts w m e)
row_bounds opts w m e d = elim (Option-cases (retry opts w m e)) [
  | inl n ↦ absurd (ground arith)
  | inr (t, n) ↦ ground (
    arith,
    next_attempt_after-window opts.backoff w.random w.now (m.attempts + 1) m.received_at
        (retry_after e) n,
  )
]

module _ (opts : Options) (tables : Tables) (w : World) (db : Db)
    (unique : Unique id_of db.messages) (m : Message) (found : find id_of m.id db.messages ≡ some m)
    (owned : owned_by opts.worker_id m ≡ true) where
  -- The upstream was asked and took the message, and the database was told.
  abbrev pub IsAccepted : Prepared → Type 0
  IsAccepted (unready e) = ⊥
  IsAccepted (ready out) =
      (w.acquired (delivery_budget out.mailbox) ≡ true)
      × (opts.transports out.mailbox.transport ≡ true)
      × (w.answer out ≡ none)
      × (w.writable ≡ true)

  -- The context ended before the limiter let the delivery through.
  abbrev pub IsInterrupted : Prepared → Type 0
  IsInterrupted (unready e) = ⊥
  IsInterrupted (ready out) = w.acquired (delivery_budget out.mailbox) ≡ false

  -- The delivery came to no record: it was interrupted, or the write of its outcome did not take
  -- place.
  abbrev pub IsUnrecorded : Prepared → Type 0
  IsUnrecorded q = IsInterrupted q ⊎ (w.writable ≡ false)

  abbrev row_after : Prepared → Message
  row_after = delivered_row opts w m

  failed_row-IsSettled : (e : SendError) → IsSettled m (failed_row opts w m e)
  failed_row-IsSettled e = ground arith

  settled_row-IsSettled : (r : Option SendError) → IsSettled m (settled_row opts w m r)
  settled_row-IsSettled none = ground arith
  settled_row-IsSettled (some e) = failed_row-IsSettled e

  -- The row is as it was, for the reason `Kept`, or settled.
  abbrev Settles : Type 0 → Message → Type 0
  Settles Kept m' = ((m' ≡ m) × Kept) ⊎ (IsSettled m m' × (¬ Kept))

  written-Settles :
      {Kept : Type 0} (m' : Message)
      → (w.writable ≡ false → Kept)
      → (Kept → w.writable ≡ false)
      → IsSettled m m'
      → Settles Kept (written_row opts w m m')
  written-Settles m' kept only s = elim (Bool-cases w.writable) [
    | inl e ↦ rw e (inr (s, λ k. ground (arith, only k)))
    | inr e ↦ rw e (inl (refl, kept e))
  ]

  row-Settles : (q : Prepared) → Settles (IsUnrecorded q) (row_after q)
  row-Settles (unready e) = written-Settles _ (λ h. inr h) (ground arith) (failed_row-IsSettled _)
  row-Settles (ready out) = elim (Bool-cases (w.acquired (delivery_budget out.mailbox))) [
    | inr a ↦ rw a (inl (refl, inl refl))
    | inl a ↦ elim (Bool-cases (opts.transports out.mailbox.transport)) [
      | inr t ↦ rw (a, t) (written-Settles _ (λ h. inr h) (ground arith) (failed_row-IsSettled _))
      | inl t ↦
          rw (a, t)
            (written-Settles _ (λ h. inr h) (ground arith) (settled_row-IsSettled (w.answer out)))
    ]
  ]

  row_sent_iff : m.status ≡ sending → (q : Prepared) → ((row_after q).status ≡ sent) ↔ IsAccepted q
  row_sent_iff s (unready e) = (ground arith, λ h. absurd h)
  row_sent_iff s (ready out) = (ground arith, ground arith)

  -- A delivery by the worker that owns the lease changes its message's row alone. Either the row
  -- stays as it was, and this exactly when the context ended before the limiter let the delivery
  -- through or the write of the outcome did not take place, because the context had ended or the
  -- database failed; or the row becomes sent, failed or deferred, with one attempt more and the
  -- lease given back.
  pub deliver_settles :
      (m' : Message) × IsOnlyChange db m.id m' (deliver opts tables w db m)
      × (((m' ≡ m) × IsUnrecorded (prepare tables w db m))
          ⊎ (IsSettled m m' × (¬ (IsUnrecorded (prepare tables w db m)))))
  deliver_settles =
      let q = prepare tables w db m in
      (row_after q, deliver_change opts tables w db unique m found owned, row-Settles q)

  -- The worker that owns the lease of a message marks it as sent exactly when the message could be
  -- prepared, the limiter let it through, a transport is configured for the mailbox, the upstream
  -- took it, and the write of the outcome took place.
  pub deliver_sent_iff :
      IsLeased m
      → (m' : Message) × (find id_of m.id (deliver opts tables w db m).messages ≡ some m')
        × ((m'.status ≡ sent) ↔ IsAccepted (prepare tables w db m))
  deliver_sent_iff l =
      let q = prepare tables w db m in
      (
        row_after q,
        (deliver_change opts tables w db unique m found owned).0,
        row_sent_iff (ground arith) q,
      )

  -- After a failed delivery under the worker's own lease, if the write of the outcome takes place,
  -- the message is failed exactly when the error is permanent or the retry policy gives up, and
  -- deferred exactly when neither holds, with the time that the retry policy names. If the write
  -- does not take place, as when the context has ended, the row stays leased and as it was.
  pub failure_final_iff :
      (e : SendError)
      → (m' : Message) × (find id_of m.id (record_failure opts w db m e).messages ≡ some m')
        × (((w.writable ≡ true)
              × ((m'.status ≡ failed) ↔ ((is_permanent e ≡ true) ⊎ (retry opts w m e ≡ none)))
              × ((m'.status ≡ deferred)
                  ↔ ((is_permanent e ≡ false) × (retry opts w m e ≡ some m'.next_attempt_at))))
            ⊎ ((w.writable ≡ false) × (m' ≡ m)))
  failure_final_iff e = (
    written_row opts w m (failed_row opts w m e),
    (failure_change opts tables w db unique m found owned e).0,
    elim (Bool-cases w.writable) [
      | inl y ↦ inl (y, ground arith, ground arith)
      | inr n ↦ inr (n, ground arith)
    ],
  )

  -- A message that was not deferred and that a failure defers, under the worker's own lease, waits
  -- as long as the upstream asked for and has an attempt left, if attempts are limited; and if the
  -- upstream asked for nothing, it is tried again before its greatest age, if there is one.
  pub deferral_bounds :
      (e : SendError) (m' : Message)
      → m.status ≢ deferred
      → find id_of m.id (record_failure opts w db m e).messages ≡ some m'
      → m'.status ≡ deferred
      → WithinLimits opts w m e m'
  deferral_bounds e m' fresh after d =
      let same : written_row opts w m (failed_row opts w m e) ≡ m' =
        some_eq ((failure_change opts tables w db unique m found owned e).0) after in
      subst (λ r. WithinLimits opts w m e r) same
        (by_write (Bool-cases w.writable) (subst (λ r. r.status ≡ deferred) (sym same) d))
    where
      some_eq : {o : Option Message} {x y : Message} → o ≡ some x → o ≡ some y → x ≡ y
      some_eq p q = cc

      by_write :
          (w.writable ≡ true) ⊎ (w.writable ≡ false)
          → (written_row opts w m (failed_row opts w m e)).status ≡ deferred
          → WithinLimits opts w m e (written_row opts w m (failed_row opts w m e))
      by_write (inl y) h = rw y (row_bounds opts w m e (rw y at h))
      by_write (inr n) h = absurd (fresh (rw n at h))
