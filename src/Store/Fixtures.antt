-- ===== src/Store/Fixtures.antt =====
-- A small database, on which the theorems about the queue are run.
use smtp_auth_proxy.Prelude.{true, false, none, some, ◌∷◌, []}
use smtp_auth_proxy.Strings.{codes}
use smtp_auth_proxy.Store.Models.{Message, queued, sending, sent, failed, Failure}
use smtp_auth_proxy.Store.Messages.{Db, Blob}

abbrev blank : Message
blank = record {
  origin = codes "smtp";
  id = codes "a";
  smtp_account_id = none;
  mailbox_id = some (codes "box");
  account_username = codes "printer";
  mailbox_address = codes "box@example.org";
  envelope_from = [];
  header_from = codes "box@example.org";
  recipients = codes "to@example.org" ∷ [];
  recipient_count = 1;
  size_bytes = 4;
  subject = [];
  message_id = [];
  status = queued;
  attempts = 0;
  next_attempt_at = 100;
  lease_owner = none;
  lease_expires_at = none;
  last_error = [];
  last_error_code = [];
  last_error_permanent = false;
  client_ip = [];
  blob_ref = [];
  received_at = 100;
  sent_at = none;
  updated_at = 100;
}

abbrev pub waiting_row : Message
waiting_row = blank

-- Leased by the worker `w1` until 500.
abbrev pub sending_row : Message
sending_row = record blank {
  id = codes "b";
  status = sending;
  lease_owner = some (codes "w1");
  lease_expires_at = some 500;
}

abbrev pub sent_row : Message
sent_row = record blank { id = codes "c"; status = sent; attempts = 1; sent_at = some 200 }

abbrev pub failed_message : Message
failed_message = record blank { id = codes "d"; status = failed; attempts = 9 }

abbrev pub queue_db : Db
queue_db = record {
  messages = waiting_row ∷ sending_row ∷ sent_row ∷ failed_message ∷ [];
  message_blobs =
      (let blob : Blob = record { message_id = codes "b"; content = codes "mail" } in blob) ∷ [];
}

abbrev pub failure : Failure
failure = record { code = codes "550"; message = codes "no such user"; permanent = true }
