-- ===== src/App/Submit.antt =====
-- The submitter, which puts an accepted submission in the queue: internal/app/submit.go.
use smtp_auth_proxy.Prelude.{ℕ, false, Option, none, some, length, []}
use smtp_auth_proxy.Strings.{Str}
use smtp_auth_proxy.Store.Models.{null_string, Message, unset}
use smtp_auth_proxy.Store.Messages.{Db, References, Result, enqueue, ok, err}
use smtp_auth_proxy.Smtp.Session.{Libraries, Submission}

unfoldable pub accepted_id : Result Str → Option Str
accepted_id (ok id) = some id
accepted_id (err _) = none

module _ (lib : Libraries) where
  unfoldable pub client_ip : Submission lib → Str
  client_ip sub = elim sub.client_ip [ none ↦ [] | some ip ↦ lib.net.show_ip ip ]

  -- The message of a submission; the fields that the source leaves out have their zero values.
  unfoldable pub message_of : Submission lib → Message
  unfolding null_string client_ip
  message_of sub = record {
    origin = [];
    id = [];
    smtp_account_id = null_string sub.identity.account_id;
    mailbox_id = null_string sub.mailbox.id;
    account_username = sub.identity.username;
    mailbox_address = sub.mailbox.address;
    envelope_from = sub.envelope_from.original;
    header_from = sub.header_from.original;
    recipients = sub.recipients;
    recipient_count = 0;
    size_bytes = length sub.raw;
    subject = sub.subject;
    message_id = sub.message_id;
    status = unset;
    attempts = 0;
    next_attempt_at = 0;
    lease_owner = none;
    lease_expires_at = none;
    last_error = [];
    last_error_code = [];
    last_error_permanent = false;
    client_ip = client_ip sub;
    blob_ref = [];
    received_at = sub.received_at;
    sent_at = none;
    updated_at = 0;
  }

  -- `new_id` is what `NewID` draws, and `now` the time of the store's clock.
  unfoldable pub submit : Str → ℕ → References → Db → Submission lib → Db × Option Str
  unfolding message_of accepted_id
  submit new_id now refs db sub =
      let (later, result) = enqueue refs db (message_of sub) (some sub.raw) new_id now in
      (later, accepted_id result)
