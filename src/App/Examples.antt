-- ===== src/App/Examples.antt =====
-- An accepted message, from the client to the queue.
use smtp_auth_proxy.Prelude.{ℕ, ◌≡◌, refl, none, List, ◌∷◌, true, []}
use smtp_auth_proxy.Strings.{
  codes, str_eq, trim_space, trim_left, trim_right, trim, contains_byte, contains_any, index,
  cut_prefix, last_index_byte, equal_fold, to_lower, lower,
}
use smtp_auth_proxy.Store.Fixtures.{queue_db}
use smtp_auth_proxy.Smtp.Session.{
  Session, Submission, done, read_message, read_loop, new_session, mail, rcpt,
}
use smtp_auth_proxy.Smtp.Session.Auth.{auth, authenticate, authenticate_plain}
use smtp_auth_proxy.Smtp.Session.Data.{
  data_command, finished, answer, prepare_data, decided, input_of, header_from_of, apply_decision,
  submission_of,
}
use smtp_auth_proxy.Smtp.Session.Submissions.{IsAuthorized}
use smtp_auth_proxy.Store.Rows.{find, filter, any, update_where, sort_by, insert_sorted, str_leb}
use smtp_auth_proxy.Store.Directory.Accounts.{
  get_account_by_username, allowed_senders, touch_last_used,
}
use smtp_auth_proxy.Store.Directory.Mailboxes.{list_for_account, may_send_as}
use smtp_auth_proxy.App.Auth.{authenticate as authenticate_account, admit, identity_of}
use smtp_auth_proxy.Store.Messages.{enqueue}
use smtp_auth_proxy.Policy.Address.{
  parse_header_from, parse_address, from_parsed, is_empty, must_parse_address, matches_pattern,
  matches_clean, to_string,
}
use smtp_auth_proxy.Policy.Resolve.{
  resolve, resolve_linked, resolve_sender, match_mailbox, find_mailbox, default_mailbox,
  matches_any, apply_from_policy, accept_rewritten, account_from_store,
}
use smtp_auth_proxy.Smtp.Headers.{parse_message, find_header_end, get}
use smtp_auth_proxy.App.Submit.{submit, accepted_id, message_of}
use smtp_auth_proxy.Smtp.Fixtures.{libraries, config, conn, reader}
use smtp_auth_proxy.Policy.Fixtures.{mailbox}
use smtp_auth_proxy.Policy.Source.{check_source_address, check_networks}
use smtp_auth_proxy.Admin.Fixtures.{plain_passwords}
use smtp_auth_proxy.Store.Models.{SmtpAccount, rewrite, ui}
use smtp_auth_proxy.Store.Directory.{Link, Directory}
use smtp_auth_proxy.App.Conversation.{
  Proxy, Command, auth_plain, mail_from, rcpt_to, services, command, Reached, opened, commanded,
  Proven, data_command-Proven,
}
use smtp_auth_proxy.App.Queued.{Stored}

abbrev row : SmtpAccount
row = record {
  id = codes "acc";
  username = codes "printer";
  password_hash = codes "secret";
  description = [];
  default_mailbox_id = none;
  from_policy = rewrite;
  allow_cidrs = codes "lan" ∷ [];
  rate_limit_per_min = none;
  enabled = true;
  last_used_at = none;
  managed_by = ui;
  created_at = 1;
  updated_at = 1;
}

abbrev directory : Directory
directory = record {
  credentials = [];
  mailboxes = mailbox ∷ [];
  accounts = row ∷ [];
  links =
      (let l : Link = record { smtp_account_id = codes "acc"; mailbox_id = codes "box" } in l) ∷ [];
  senders = [];
}

abbrev proxy : Proxy
proxy = record { directory = directory; queue = queue_db }

abbrev after : Session libraries × Proxy → Command → Session libraries × Proxy
after (s, p) c = command libraries plain_passwords config conn s p c 200

abbrev signed_in : Session libraries × Proxy
signed_in = after (new_session libraries, proxy) (auth_plain [] (codes "printer") (codes "secret"))

abbrev addressed : Session libraries × Proxy
addressed = after (after signed_in (mail_from (codes "p@other"))) (rcpt_to (codes "to@x"))

reached : Reached libraries plain_passwords config conn addressed.0 addressed.1
reached =
    commanded
      (commanded (commanded (opened proxy) (auth_plain [] (codes "printer") (codes "secret")) 200)
        (mail_from (codes "p@other")) 200)
      (rcpt_to (codes "to@x")) 200

accepted :
    (data_command libraries
      (services libraries plain_passwords config conn 300 (codes "new"))
      config
      conn
      addressed.0
      addressed.1
      reader
      300
      (codes "now")).1.1
    ≡ done
unfolding data_command str_eq trim_space trim_left trim_right trim contains_byte contains_any index
    cut_prefix last_index_byte equal_fold to_lower lower find enqueue parse_header_from
    parse_address from_parsed is_empty must_parse_address matches_pattern matches_clean to_string
    resolve resolve_linked resolve_sender match_mailbox find_mailbox default_mailbox matches_any
    apply_from_policy accept_rewritten parse_message find_header_end get read_message read_loop
    finished answer prepare_data decided input_of header_from_of apply_decision submission_of submit
    accepted_id message_of services command new_session mail rcpt auth authenticate
    authenticate_plain check_source_address authenticate_account admit get_account_by_username
    identity_of account_from_store list_for_account may_send_as allowed_senders sort_by
    insert_sorted str_leb filter any update_where touch_last_used check_networks
accepted = refl

data_command-Proven_example :
    (sub : Submission libraries) × (id : List ℕ) × IsAuthorized libraries addressed.0 sub
    × Proven libraries plain_passwords config conn sub.identity
    × Stored libraries
        (codes "new")
        300
        sub
        (data_command libraries
          (services libraries plain_passwords config conn 300 (codes "new"))
          config
          conn
          addressed.0
          addressed.1
          reader
          300
          (codes "now")).0.queue
        id
data_command-Proven_example =
    data_command-Proven libraries plain_passwords config conn reader 300 (codes "now") (codes "new")
      reached accepted
