-- ===== src/Store/Messages/Ownership.antt =====
-- Who may finish a message: the statements with `lease_owner = ?`, and those that an operator makes,
-- of internal/store/messages.go.
use smtp_auth_proxy.Prelude.{
  ℕ, ◌≡◌, refl, ap, ◌∙◌, inl, inr, Bool, true, false, Option, none, some, List, ◌∷◌, arith,
  if◌then◌else◌, Option-cases, ◌+◌, ◌⊎◌, Bool-cases, [],
}
use smtp_auth_proxy.Strings.{Str, str_eq, str_eq_iff}
use smtp_auth_proxy.Store.Models.{
  MessageStatus, Message, Failure, queued, sent, deferred, failed, held,
}
use smtp_auth_proxy.Store.Rows.{any, update_where, find, Unique, find-update_where, any-find}
use smtp_auth_proxy.Store.Rows.Members.{find-key}
use smtp_auth_proxy.Store.Messages.{
  Db, Result, ok, err, not_found, state_conflict, id_of, owned_by, extend_lease, mark_sent,
  postpone, fail, requeue, hold, get, row_where, update_row, require_one_row, require_action,
  marked_sent, deferred_until, failed_with, extended, may_requeue, may_hold, requeued, put_on_hold,
}

update_none :
    (p : Message → Bool) (f : Message → Message) (ms : List Message)
    → any p ms ≡ false
    → update_where p f ms ≡ ms
unfolding any update_where
update_none p f [] h = refl
update_none p f (m ∷ ms) h = ground (arith, update_none p f ms)

-- Whether the row under an id, where there is one, satisfies a condition.
abbrev pub holds : (Message → Bool) → Option Message → Bool
holds p none = false
holds p (some m) = p m

module _ (db : Db) (unique : Unique id_of db.messages) (id : Str) (p : Message → Bool)
    (h : holds p (find id_of id db.messages) ≡ false) where
  untouched : any (row_where id p) db.messages ≡ false
  untouched = any-find id_of p id db.messages unique ∙ same (find id_of id db.messages) h
    where
      same :
          (o : Option Message) → holds p o ≡ false → elim o [ none ↦ false | some x ↦ p x ] ≡ false
      same none e = refl
      same (some x) e = e

  unchanged : (f : Message → Message) → update_row db id p f ≡ db
  unfolding update_row
  unchanged f =
      ap (λ (ms : List Message). record db { messages = ms })
        (update_none (row_where id p) f db.messages untouched)

-- A worker that owns no row under the id finds none, and changes nothing.
pub not_owner :
    (db : Db) (unique : Unique id_of db.messages) (id owner : Str) (f : Failure)
    (retry_at lease_for now : ℕ)
    → holds (owned_by owner) (find id_of id db.messages) ≡ false
    → (extend_lease db id owner lease_for now ≡ (db, err not_found))
      × (mark_sent db id owner now ≡ (db, err not_found))
      × (postpone db id owner f retry_at now ≡ (db, err not_found))
      × (fail db id owner f now ≡ (db, err not_found))
unfolding extend_lease mark_sent postpone fail require_one_row
not_owner db unique id owner f retry_at lease_for now h =
    (none_for _, none_for _, none_for _, none_for _)
  where
    none_for :
        (g : Message → Message)
        → ◌≡◌ {A = Db × Result (Unit {0})}
            (update_row db id (owned_by owner) g, require_one_row db id (owned_by owner))
            (db, err not_found)
    none_for g =
        rw (unchanged db unique id (owned_by owner) h g, untouched db unique id (owned_by owner) h)
          refl

-- A statement on one row, under a condition on that row.
module _ (db : Db) (unique : Unique id_of db.messages) (id : Str) (m : Message)
    (found : find id_of id db.messages ≡ some m) (p : Message → Bool) where
  touched : any (row_where id p) db.messages ≡ p m
  touched = any-find id_of p id db.messages unique ∙ ap (holds p) found

  refused : (f : Message → Message) → p m ≡ false → update_row db id p f ≡ db
  refused f h = unchanged db unique id p (ap (holds p) found ∙ h) f

  others :
      (f : Message → Message)
      → ((x : Message) → (f x).id ≡ x.id)
      → (k : Str) → str_eq id k ≡ false
      → find id_of k (update_row db id p f).messages ≡ find id_of k db.messages
  unfolding update_row
  others f keeps k ne =
      let here = find-update_where id_of (row_where id p) f keeps k db.messages in
      elim (Option-cases (find id_of k db.messages)) [
        | inl e ↦ ground arith
        | inr (x, e) ↦
            ground (arith, find-key id_of k db.messages e, str_eq_iff x.id id, str_eq_iff id k)
      ]

  -- The row that qualifies is changed, and no other.
  granted :
      (f : Message → Message)
      → ((x : Message) → (f x).id ≡ x.id)
      → p m ≡ true
      → (find id_of id (update_row db id p f).messages ≡ some (f m))
        × ((k : Str)
            → str_eq id k ≡ false
            → find id_of k (update_row db id p f).messages ≡ find id_of k db.messages)
  unfolding update_row
  granted f keeps h = (
    ground (
      arith,
      str_eq_iff m.id id,
      find-key id_of id db.messages found,
      find-update_where id_of (row_where id p) f keeps id db.messages,
    ),
    others f keeps,
  )

-- The statement succeeded: the row is changed, and no other.
abbrev pub IsGranted : Db → Str → Message → Db × Result (Unit {0}) → Type 0
IsGranted db id m' (db', r) =
    (r ≡ ok tt)
    × (find id_of id db'.messages ≡ some m')
    × ((k : Str) → str_eq id k ≡ false → find id_of k db'.messages ≡ find id_of k db.messages)

-- It succeeded, with a row of which the property holds.
abbrev pub Grants : Db → Str → (Message → Type 0) → Db × Result (Unit {0}) → Type 0
Grants db id P r = (m' : Message) × IsGranted db id m' r × P m'

-- The submission in the row is the same.
pub record IsSameSubmission (m m' : Message) : Type 0 where
  pub id : m'.id ≡ m.id
  pub account : m'.smtp_account_id ≡ m.smtp_account_id
  pub mailbox : m'.mailbox_id ≡ m.mailbox_id
  pub envelope : m'.envelope_from ≡ m.envelope_from
  pub header : m'.header_from ≡ m.header_from
  pub recipients : m'.recipients ≡ m.recipients
  pub size : m'.size_bytes ≡ m.size_bytes
  pub subject : m'.subject ≡ m.subject
  pub message_id : m'.message_id ≡ m.message_id
  pub blob : m'.blob_ref ≡ m.blob_ref
  pub received : m'.received_at ≡ m.received_at

-- The message has its outcome: one attempt more, and no lease.
abbrev pub IsOutcome : MessageStatus → Message → Message → Type 0
IsOutcome status m m' =
    (m'.status ≡ status)
    × (m'.attempts ≡ m.attempts + 1)
    × (m'.lease_owner ≡ none)
    × (m'.lease_expires_at ≡ none)
    × IsSameSubmission m m'

-- Another status, no lease, and the same count of attempts.
abbrev pub IsMoved : MessageStatus → Message → Message → Type 0
IsMoved status m m' =
    (m'.status ≡ status)
    × (m'.attempts ≡ m.attempts)
    × (m'.lease_owner ≡ none)
    × (m'.lease_expires_at ≡ none)
    × IsSameSubmission m m'

abbrev pub IsExtended : ℕ → Message → Message → Type 0
IsExtended until m m' =
    (m'.lease_expires_at ≡ some until)
    × (m'.lease_owner ≡ m.lease_owner)
    × (m'.status ≡ m.status)
    × (m'.attempts ≡ m.attempts)
    × IsSameSubmission m m'

abbrev pub HasError : Message → Str → Str → Bool → Type 0
HasError m' code message permanent =
    (m'.last_error_code ≡ code) × (m'.last_error ≡ message) × (m'.last_error_permanent ≡ permanent)

module _ (db : Db) (unique : Unique id_of db.messages) (id : Str) (m : Message)
    (found : find id_of id db.messages ≡ some m) (owner : Str) (f : Failure)
    (retry_at lease_for now : ℕ) where
  one_row :
      require_one_row db id (owned_by owner) ≡ (if owned_by owner m then ok tt else err not_found)
  unfolding require_one_row
  one_row = rw (touched db unique id m found (owned_by owner))

  -- For a worker that does not own the message's lease, extending it, marking the message as sent,
  -- deferring it and failing it all report that the row is not found and leave the database as it
  -- was.
  pub lease_required :
      owned_by owner m ≡ false
      → (extend_lease db id owner lease_for now ≡ (db, err not_found))
        × (mark_sent db id owner now ≡ (db, err not_found))
        × (postpone db id owner f retry_at now ≡ (db, err not_found))
        × (fail db id owner f now ≡ (db, err not_found))
  lease_required h =
      not_owner db unique id owner f retry_at lease_for now (ap (holds (owned_by owner)) found ∙ h)

  -- The rows that the statements write under the lease.
  pub owner_rows :
      owned_by owner m ≡ true
      → IsGranted db id (extended lease_for now m) (extend_lease db id owner lease_for now)
        × IsGranted db id (marked_sent now m) (mark_sent db id owner now)
        × IsGranted db id (deferred_until f retry_at now m) (postpone db id owner f retry_at now)
        × IsGranted db id (failed_with f now m) (fail db id owner f now)
  unfolding extend_lease mark_sent postpone fail
  owner_rows h =
      (all_for _ (λ x. refl), all_for _ (λ x. refl), all_for _ (λ x. refl), all_for _ (λ x. refl))
    where
      all_for :
          (g : Message → Message)
          → ((x : Message) → (g x).id ≡ x.id)
          → IsGranted db id
              (g m)
              (update_row db id (owned_by owner) g, require_one_row db id (owned_by owner))
      all_for g keeps =
          let (a, b) = granted db unique id m found (owned_by owner) g keeps h in
          (cc (one_row, h), a, b)

  -- For the worker that owns the message's lease, four statements succeed and change that row
  -- alone, and nothing of the submission in it. Extending the lease sets its expiry and keeps the
  -- status, the owner and the count of attempts. Marking as sent, deferring and failing set the
  -- status, count one attempt and give the lease back; they record the time it was sent and no
  -- error, the error and the time of the next attempt, and the error with whether it is permanent.
  pub lease_honored :
      owned_by owner m ≡ true
      → Grants db id (IsExtended (now + lease_for) m) (extend_lease db id owner lease_for now)
        × Grants db id
            (λ m'.
              IsOutcome sent m m'
              × (m'.sent_at ≡ some now)
              × HasError m' [] [] m.last_error_permanent)
            (mark_sent db id owner now)
        × Grants db id
            (λ m'.
              IsOutcome deferred m m'
              × (m'.next_attempt_at ≡ retry_at)
              × HasError m' f.code f.message false)
            (postpone db id owner f retry_at now)
        × Grants db id
            (λ m'. IsOutcome failed m m' × HasError m' f.code f.message f.permanent)
            (fail db id owner f now)
  lease_honored h =
      let (a, b, c, d) = owner_rows h in
      (
        (extended lease_for now m, a, ground arith),
        (marked_sent now m, b, ground arith),
        (deferred_until f retry_at now m, c, ground arith),
        (failed_with f now m, d, ground arith),
      )

-- Where the first holds, the second does, and elsewhere the third.
abbrev pub Decides : Type 0 → Type 0 → Type 0 → Type 0
Decides Allowed Done Refused = (Allowed × Done) ⊎ ((¬ Allowed) × Refused)

module _ (db : Db) (unique : Unique id_of db.messages) (id : Str) (m : Message)
    (found : find id_of id db.messages ≡ some m) where
  decided :
      {Allowed : Type 0} {Q : Message → Type 0} (p : Message → Bool) (g : Message → Message)
      → ((x : Message) → (g x).id ≡ x.id)
      → (p m ≡ true → Allowed)
      → (Allowed → p m ≡ true)
      → Q (g m)
      → Decides Allowed
          (Grants db id Q (update_row db id p g, require_action db (update_row db id p g) id p))
          (◌≡◌ {A = Db × Result (Unit {0})}
            (update_row db id p g, require_action db (update_row db id p g) id p)
            (db, err state_conflict))
  unfolding require_action get
  decided p g keeps to from q = elim (Bool-cases (p m)) [
    | inl e ↦
        let (a, b) = granted db unique id m found p g keeps e in
        inl (to e, (g m, (rw (touched db unique id m found p ∙ e), a, b), q))
    | inr e ↦
        let same = refused db unique id m found p g e in
        inr (λ h. ground (arith, from h), rw (same, touched db unique id m found p ∙ e, found))
  ]

  -- For a message that exists: if it is failed, deferred or held, requeue succeeds, and makes it
  -- queued and due now; if it is queued, deferred or failed, hold succeeds, and makes it held. Both
  -- then change that row alone, keep the submission and the count of attempts, and leave no lease.
  -- In any other status they report a state conflict and leave the database as it was.
  pub operator_actions :
      (now : ℕ)
      → Decides
          ((m.status ≡ failed) ⊎ (m.status ≡ deferred) ⊎ (m.status ≡ held))
          (Grants db id
            (λ m'. IsMoved queued m m' × (m'.next_attempt_at ≡ now))
            (requeue db id now))
          (requeue db id now ≡ (db, err state_conflict))
        × Decides
            ((m.status ≡ queued) ⊎ (m.status ≡ deferred) ⊎ (m.status ≡ failed))
            (Grants db id
              (λ m'. IsMoved held m m' × (m'.next_attempt_at ≡ m.next_attempt_at))
              (hold db id now))
            (hold db id now ≡ (db, err state_conflict))
  unfolding requeue hold
  operator_actions now = (
    decided may_requeue (requeued now) (λ x. refl) (ground arith) (ground arith) (ground arith),
    decided may_hold (put_on_hold now) (λ x. refl) (ground arith) (ground arith) (ground arith),
  )
