-- ===== src/Policy/Fixtures.antt =====
-- Stand-ins for the standard library's parsers, and an account, on which the theorems about
-- submissions are run.
use smtp_auth_proxy.Prelude.{ℕ, true, none, some, ◌∷◌, ◌==◌, if◌then◌else◌, []}
use smtp_auth_proxy.Strings.{codes, str_eq, decimal}
use smtp_auth_proxy.Store.Models.{ui, Mailbox, smtp, rewrite}
use smtp_auth_proxy.Policy.Address.{Mail, Address, empty}
use smtp_auth_proxy.Policy.Resolve.{Account, Input}
use smtp_auth_proxy.Policy.Source.{Net}

-- Addresses without display names.
abbrev pub plain_mail : Mail
plain_mail = record {
  parse_one = λ s. some ([], s);
  parse_list = λ s. some (([], s) ∷ []);
  format = λ name address. address;
}

-- Addresses are numbers; a network is one address, and "lan" is the only text of one.
abbrev pub tiny_net : Net
tiny_net = record {
  Ip = ℕ;
  Network = ℕ;
  parse_cidr = λ s. if str_eq s (codes "lan") then some 7 else none;
  contains = λ network ip. network == ip;
  show_ip = decimal;
}

abbrev pub mailbox : Mailbox
mailbox = record {
  id = codes "box";
  address = codes "box@example.org";
  display_name = [];
  oauth_credential_id = codes "cred";
  transport = smtp;
  rate_limit_per_min = none;
  max_concurrent = none;
  enabled = true;
  managed_by = ui;
  created_at = 1;
  updated_at = 1;
}

abbrev pub account : Account
account = record {
  id = codes "acc";
  username = codes "printer";
  enabled = true;
  policy = rewrite;
  default_mailbox_id = [];
  allowed_senders = codes "*@lan" ∷ [];
  allow_cidrs = codes "lan" ∷ [];
}

abbrev pub printer : Address
printer = record {
  display = [];
  original = codes "p@other";
  normalized = codes "p@other";
  domain = codes "other";
}

-- A sender that no mailbox and no pattern covers.
abbrev pub stranger : Input
stranger = record {
  account = account;
  mailboxes = mailbox ∷ [];
  envelope_from = empty;
  header_from = printer;
}
