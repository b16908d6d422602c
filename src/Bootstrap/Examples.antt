-- ===== src/Bootstrap/Examples.antt =====
-- A file with one object of each kind, of which the mailbox and its credential are stored already.
use smtp_auth_proxy.Prelude.{◌≡◌, refl, false, Option, none, ◌∷◌, All, []}
use smtp_auth_proxy.Strings.{codes, str_eq, to_lower, trim_space, cut_prefix, last_index_byte}
use smtp_auth_proxy.Store.Models.{null_string, pos}
use smtp_auth_proxy.Store.Rows.{find, any}
use smtp_auth_proxy.Store.Directory.{Directory}
use smtp_auth_proxy.Store.Directory.Credentials.{get_credential_by_name}
use smtp_auth_proxy.Store.Directory.Mailboxes.{get_by_address}
use smtp_auth_proxy.Store.Directory.Accounts.{
  get_account_by_username, create_account, set_mailboxes, set_allowed_senders,
}
use smtp_auth_proxy.Policy.Address.{parse_address}
use smtp_auth_proxy.Policy.Fixtures.{plain_mail, mailbox}
use smtp_auth_proxy.Crypto.Fixtures.{glass}
use smtp_auth_proxy.Oauth.Fixtures.{registration}
use smtp_auth_proxy.Bootstrap.{File, Credential, Mailbox, Account, validate}
use smtp_auth_proxy.Bootstrap.Validation.{IsDeclared, validate-IsDeclared}
use smtp_auth_proxy.Bootstrap.Apply.{apply_file}
use smtp_auth_proxy.Bootstrap.Apply.Once.{apply_file-Extends}
use smtp_auth_proxy.Bootstrap.Apply.Progress.{Run, BootstrapError}
use smtp_auth_proxy.Bootstrap.Apply.Extension.{Extends}

abbrev file : File
file = record {
  credentials =
      (let c : Credential = record {
        name = codes "main";
        tenant_id = codes "tenant";
        client_id = codes "client";
        auth_type = codes "secret";
        client_secret = codes "hush";
        certificate_pem = [];
        certificate_key_pem = [];
        authority_host = [];
      } in
        c)
      ∷ [];
  mailboxes =
      (let m : Mailbox = record {
        address = codes "Box@example.org";
        display_name = [];
        credential = codes "main";
        transport = codes "graph";
        rate_limit_per_min = pos 10;
        max_concurrent = pos 0;
        disabled = false;
      } in
        m)
      ∷ [];
  accounts =
      (let a : Account = record {
        username = codes "printer";
        description = [];
        password_hash = codes "$argon2id$v=19$x";
        mailboxes = codes "box@example.org" ∷ [];
        default_mailbox = [];
        allowed_senders = [];
        from_policy = [];
        allow_cidrs = [];
        rate_limit_per_min = pos 0;
        disabled = false;
      } in
        a)
      ∷ [];
}

abbrev stored : Directory
stored = record {
  credentials = registration ∷ [];
  mailboxes = mailbox ∷ [];
  accounts = [];
  links = [];
  senders = [];
}

accepted : validate plain_mail file ≡ []
unfolding validate any str_eq parse_address trim_space last_index_byte cut_prefix
accepted = refl

validate-IsDeclared_example : All IsDeclared file.accounts
validate-IsDeclared_example = validate-IsDeclared plain_mail file accepted

apply_file-Extends_example :
    Extends stored
      (apply_file glass none false
        (λ n. codes "id")
        (λ n. (none, none))
        (λ a p. p)
        9
        stored
        file).0.directory
apply_file-Extends_example =
    apply_file-Extends glass none (λ n. codes "id") (λ n. (none, none)) (λ a p. p) 9 stored file

abbrev run : Run × Option BootstrapError
run = apply_file glass none false (λ n. codes "id") (λ n. (none, none)) (λ a p. p) 9 stored file

-- The account is new; the credential and the mailbox are skipped.
counted : (run.0.created ≡ 1) × (run.0.skipped ≡ 2) × (run.1 ≡ none)
unfolding apply_file get_credential_by_name find str_eq get_by_address to_lower
    get_account_by_username create_account any null_string set_mailboxes set_allowed_senders
counted = (refl, refl, refl)
