-- ===== src/Queue/Worker.antt =====
-- One delivery: `deliver`, `prepare`, `recordFailure` and `outcomeFor` of internal/queue/worker.go.
-- Logs and metrics are left out, but for the label of the metric. The clock, the random number, when
-- the context ends, and what the limiter, the upstream and the database answer are in `World`.
pub mod Outcome
pub mod Guarantees
use smtp_auth_proxy.Prelude.{
  ℕ, ◌+◌, ◌⊎◌, inl, inr, Bool, true, false, not, ◌||◌, Option, none, some, List, ◌∷◌, ◌++◌,
  if◌then◌else◌, [],
}
use smtp_auth_proxy.Strings.{Str, str_eq, codes, decimal}
use smtp_auth_proxy.Store.Models.{Message, Failure, Mailbox, Transport, smtp, graph, unknown}
use smtp_auth_proxy.Store.Rows.{find}
use smtp_auth_proxy.Store.Messages
use smtp_auth_proxy.Store.Messages.{Db, body, mark_sent, fail, postpone}
use smtp_auth_proxy.Transport.{SendError, is_permanent, retry_after, as_failure, new_permanent}
use smtp_auth_proxy.Transport.Message.{Outgoing}
use smtp_auth_proxy.Queue.RateLimit.Budget.{Budget}
use smtp_auth_proxy.Queue.Backoff.{Backoff, next_attempt_after}

-- The transports that the options map a name to.
pub record Options : Type 0 where
  pub worker_id : Str
  pub backoff : Backoff
  pub transports : Transport → Bool

-- The other tables that a delivery reads: mailboxes, and the ids of credentials.
pub record Tables : Type 0 where
  pub mailboxes : List Mailbox
  pub credentials : List Str

-- The reads of `prepare`.
pub data Read : Type 0 where
  of_mailbox of_credential of_body : Read

-- What happens to one delivery. `now` is the runner's clock and `written_at` that of the repository.
-- The same context reaches every call: when it ends, or the engine fails, a read returns the text of
-- `read_failure`, `acquired` says that the limiter did not grant a slot and a token under the budget,
-- `answer` is the error that `Send` returns, and the write of the outcome does not take place, which
-- `writable` says.
pub record World : Type 0 where
  pub now : ℕ
  pub written_at : ℕ
  pub random : ℕ
  pub read_failure : Read → Option Str
  pub acquired : Budget → Bool
  pub answer : Outgoing → Option SendError
  pub writable : Bool

pub data PrepareError : Type 0 where
  no_mailbox : PrepareError
  mailbox_missing : Str → PrepareError
  mailbox_disabled : Str → PrepareError
  credential_missing : Str → Str → PrepareError
  body_missing : Str → PrepareError
  mailbox_unread body_unread : Str → PrepareError
  credential_unread : Str → Str → PrepareError

-- The text of the error, with that of `store.ErrNotFound`.
unfoldable pub describe : PrepareError → Str
describe no_mailbox = codes "the message is not associated with a mailbox"
describe (mailbox_missing id) = codes "loading the mailbox: store: not found: mailbox " ++ id
describe (mailbox_disabled address) = codes "the mailbox " ++ (address ++ codes " is disabled")
describe (credential_missing address id) =
    codes "loading the credential for "
    ++ (address ++ (codes ": store: not found: credential " ++ id))
describe (body_missing id) =
    codes "loading the message body: store: not found: body of message " ++ id
describe (mailbox_unread e) = codes "loading the mailbox: " ++ e
describe (credential_unread address e) =
    codes "loading the credential for " ++ (address ++ (codes ": " ++ e))
describe (body_unread e) = codes "loading the message body: " ++ e

pub data Prepared : Type 0 where
  ready : Outgoing → Prepared
  unready : PrepareError → Prepared

unfoldable pub has_credential : List Str → Str → Bool
has_credential [] id = false
has_credential (c ∷ cs) id = str_eq c id || has_credential cs id

abbrev pub mailbox_id_of : Mailbox → Str
mailbox_id_of mb = mb.id

-- A read whose call may fail.
abbrev pub read {ℓ} :
    {A : Type ℓ} → World → Read → (Str → PrepareError) → A ⊎ PrepareError → A ⊎ PrepareError
read w r failed found = elim (w.read_failure r) [ none ↦ found | some e ↦ inr (failed e) ]

unfoldable pub load_mailbox : Tables → World → Str → Mailbox ⊎ PrepareError
load_mailbox tables w id =
    read w of_mailbox mailbox_unread (elim (find mailbox_id_of id tables.mailboxes) [
      | none ↦ inr (mailbox_missing id)
      | some mb ↦ inl mb
    ])

unfoldable pub load_credential : Tables → World → Mailbox → Str ⊎ PrepareError
unfolding has_credential
load_credential tables w mb = read w of_credential (credential_unread mb.address) (
    if has_credential tables.credentials mb.oauth_credential_id
    then inl mb.oauth_credential_id
    else inr (credential_missing mb.address mb.oauth_credential_id))

unfoldable pub load_body : World → Db → Str → Str ⊎ PrepareError
load_body w db id =
    read w of_body body_unread
      (elim (body db id) [ Messages.err _ ↦ inr (body_missing id) | Messages.ok raw ↦ inl raw ])

unfoldable pub prepare_with : Tables → World → Db → Message → Mailbox → Prepared
unfolding load_credential load_body
prepare_with tables w db m mb =
    if not mb.enabled
    then unready (mailbox_disabled mb.address)
    else elim (load_credential tables w mb) [
      | inr e ↦ unready e
      | inl credential ↦ elim (load_body w db m.id) [
        | inr e ↦ unready e
        | inl raw ↦ ready (record {
          id = m.id;
          mailbox = mb;
          credential = credential;
          recipients = m.recipients;
          raw = raw;
        })
      ]
    ]

unfoldable pub prepare : Tables → World → Db → Message → Prepared
unfolding load_mailbox prepare_with
prepare tables w db m = elim m.mailbox_id [
  | none ↦ unready no_mailbox
  | some id ↦ elim (load_mailbox tables w id) [
    | inr e ↦ unready e
    | inl mb ↦ prepare_with tables w db m mb
  ]
]

-- The database after a write of the outcome, which may not take place.
abbrev pub written : World → Db → Db × Messages.Result (Unit {0}) → Db
written w db r = if w.writable then r.0 else db

-- The failure that a give-up records.
unfoldable pub gave_up : Failure → ℕ → Failure
gave_up f attempts = record {
  code = f.code;
  message = codes "giving up after " ++ (decimal attempts ++ (codes " attempts: " ++ f.message));
  permanent = true;
}

unfoldable pub record_failure : Options → World → Db → Message → SendError → Db
record_failure opts w db m e =
    let failure = as_failure e in
    let attempts = m.attempts + 1 in
    if is_permanent e
    then written w db (fail db m.id opts.worker_id failure w.written_at)
    else elim (next_attempt_after opts.backoff w.random w.now attempts m.received_at
        (retry_after e)) [
          | none ↦
              written w db (fail db m.id opts.worker_id (gave_up failure attempts) w.written_at)
          | some retry_at ↦
              written w db (postpone db m.id opts.worker_id failure retry_at w.written_at)
        ]

-- What the limiter is asked for; a missing override is 0.
unfoldable pub delivery_budget : Mailbox → Budget
delivery_budget mb = record {
  per_minute = elim mb.rate_limit_per_min [ none ↦ 0 | some n ↦ n ];
  max_concurrent = elim mb.max_concurrent [ none ↦ 0 | some n ↦ n ];
}

-- The label of the metric.
pub data DeliveryLabel : Type 0 where
  delivery_deferred delivery_failed : DeliveryLabel

unfoldable pub outcome_for : SendError → DeliveryLabel
outcome_for e = if is_permanent e then delivery_failed else delivery_deferred

transport_name : Transport → Str
transport_name smtp = codes "smtp"
transport_name graph = codes "graph"
transport_name (unknown name) = name

-- %q of a name that needs no escape.
unfoldable pub no_transport : Transport → SendError
unfolding transport_name
no_transport t =
    new_permanent (codes "proxy")
      (codes "no transport is configured for \"" ++ (transport_name t ++ codes "\""))

-- What follows the upstream's answer.
unfoldable pub settle : Options → World → Db → Message → Option SendError → Db
settle opts w db m none = written w db (mark_sent db m.id opts.worker_id w.written_at)
settle opts w db m (some e) = record_failure opts w db m e

-- What follows `prepare`.
unfoldable pub deliver_prepared : Options → World → Db → Message → Prepared → Db
deliver_prepared opts w db m (unready e) =
    record_failure opts w db m (new_permanent (codes "proxy") (describe e))
deliver_prepared opts w db m (ready out) =
    if not (w.acquired (delivery_budget out.mailbox))
    then db
    else if not (opts.transports out.mailbox.transport)
    then record_failure opts w db m (no_transport out.mailbox.transport)
    else settle opts w db m (w.answer out)

unfoldable pub deliver : Options → Tables → World → Db → Message → Db
unfolding deliver_prepared
deliver opts tables w db m = deliver_prepared opts w db m (prepare tables w db m)
