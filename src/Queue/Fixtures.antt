-- ===== src/Queue/Fixtures.antt =====
-- A mailbox, a runner and its world, on which the theorems about the queue are run.
use smtp_auth_proxy.Prelude.{◌*◌, true, false, none, ◌∷◌, []}
use smtp_auth_proxy.Strings.{codes}
use smtp_auth_proxy.Store.Models.{ui, Mailbox, smtp}
use smtp_auth_proxy.Transport.{SendError, classified}
use smtp_auth_proxy.Queue.Backoff.{Backoff, minute, hour}
use smtp_auth_proxy.Queue.Worker.{Options, Tables, World}

abbrev pub mailbox : Mailbox
mailbox = record {
  id = codes "box";
  address = codes "box@example.org";
  display_name = [];
  oauth_credential_id = codes "cred";
  transport = smtp;
  rate_limit_per_min = none;
  max_concurrent = none;
  enabled = true;
  managed_by = ui;
  created_at = 1;
  updated_at = 1;
}

-- Two attempts, within an hour.
abbrev pub backoff : Backoff
backoff = record { delays = minute ∷ []; jitter = 0; max_attempts = 2; max_age = hour }

abbrev pub options : Options
options = record { worker_id = codes "w1"; backoff = backoff; transports = λ _. true }

abbrev pub tables : Tables
tables = record { mailboxes = mailbox ∷ []; credentials = codes "cred" ∷ [] }

abbrev pub busy : SendError
busy = classified (record {
  code = codes "451";
  message = codes "busy";
  permanent = false;
  retry_after = 0;
  auth = false;
})

-- The upstream asks to wait for two hours.
abbrev pub throttled : SendError
throttled = classified (record {
  code = codes "451";
  message = codes "slow";
  permanent = false;
  retry_after = 2 * hour;
  auth = false;
})

-- The upstream takes everything.
abbrev pub world : World
world = record {
  now = 300;
  written_at = 300;
  random = 0;
  read_failure = λ _. none;
  acquired = λ _. true;
  answer = λ _. none;
  writable = true;
}
