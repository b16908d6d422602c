-- ===== src/Admin/Directory/Examples.antt =====
-- Requests against what the bootstrap file declares.
use smtp_auth_proxy.Prelude.{ℕ, ◌≡◌, refl, true, false, none, some, List, ◌∷◌, []}
use smtp_auth_proxy.Strings.{codes, str_eq}
use smtp_auth_proxy.Store.Models.{OauthCredential, Mailbox, SmtpAccount, bootstrap, rewrite}
use smtp_auth_proxy.Store.Rows.{find, any, update_where}
use smtp_auth_proxy.Store.Directory.{mailbox_id_of}
use smtp_auth_proxy.Policy.Fixtures.{plain_mail, tiny_net, mailbox}
use smtp_auth_proxy.Crypto.Fixtures.{glass}
use smtp_auth_proxy.Oauth.Fixtures.{plain_msal, registration}
use smtp_auth_proxy.Admin.Fixtures.{plain_passwords}
use smtp_auth_proxy.Admin.Directory.{is_bootstrap}
use smtp_auth_proxy.Admin.Directory.Credentials.{Managed, handle_delete_credential}
use smtp_auth_proxy.Admin.Directory.Mailboxes.{handle_update_mailbox, handle_delete_mailbox}
use smtp_auth_proxy.Admin.Directory.Accounts.{handle_reset_account_password}
use smtp_auth_proxy.Store.Directory.Credentials.{get_credential}
use smtp_auth_proxy.Store.Directory.Mailboxes.{get_mailbox}
use smtp_auth_proxy.Store.Directory.Accounts.{get_account, update_account}
use smtp_auth_proxy.Admin.Directory.Actions.{
  Action, patch_mailbox, delete_mailbox, delete_credential, post_password, run,
}
use smtp_auth_proxy.Admin.Directory.Protected.{run-mailbox}
use smtp_auth_proxy.Admin.Directory.Protected.Accounts.{AnyAccount, run-account}

abbrev box : Mailbox
box = record mailbox { managed_by = bootstrap }

abbrev main : OauthCredential
main = record registration { managed_by = bootstrap }

abbrev row : SmtpAccount
row = record {
  id = codes "acc";
  username = codes "printer";
  password_hash = codes "secret";
  description = [];
  default_mailbox_id = none;
  from_policy = rewrite;
  allow_cidrs = [];
  rate_limit_per_min = none;
  enabled = true;
  last_used_at = none;
  managed_by = bootstrap;
  created_at = 1;
  updated_at = 1;
}

abbrev declared : Managed glass plain_msal
declared = record {
  directory = record {
    credentials = main ∷ [];
    mailboxes = box ∷ [];
    accounts = row ∷ [];
    links = [];
    senders = [];
  };
  tokens = none;
}

-- Another address and no service, then the end of the mailbox and of its credential, and a password.
abbrev requests : List (Action × ℕ)
requests =
    (
      patch_mailbox (codes "box") (record {
        address = codes "other@example.org";
        display_name = [];
        oauth_credential_id = [];
        transport = [];
        rate_limit_per_min = none;
        max_concurrent = none;
        enabled = some false;
      }),
      2,
    )
    ∷ (delete_mailbox (codes "box"), 3)
    ∷ (delete_credential (codes "cred"), 4)
    ∷ (post_password (codes "acc") (some (codes "new")) none, 5)
    ∷ []

run-mailbox_example :
    find mailbox_id_of
      (codes "box")
      (run glass plain_msal plain_mail tiny_net plain_passwords none declared
        requests).directory.mailboxes
    ≡ some box
unfolding find str_eq is_bootstrap
run-mailbox_example =
    run-mailbox glass plain_msal plain_mail tiny_net plain_passwords none requests declared
      (codes "box") box refl refl

run-account_example :
    AnyAccount
      (codes "acc")
      row
      (run glass plain_msal plain_mail tiny_net plain_passwords none declared requests).directory
unfolding find str_eq is_bootstrap
run-account_example =
    run-account glass plain_msal plain_mail tiny_net plain_passwords none requests declared
      (codes "acc") row (row, refl, refl) refl

-- The password of the declared account is another one.
password_changed :
    find
      (λ (a : SmtpAccount). a.id)
      (codes "acc")
      (run glass plain_msal plain_mail tiny_net plain_passwords none declared
        requests).directory.accounts
    ≡ some (record row { password_hash = codes "new"; updated_at = 5 })
unfolding find any update_where str_eq run handle_reset_account_password get_account
    handle_delete_credential get_credential handle_delete_mailbox get_mailbox handle_update_mailbox
    update_account
password_changed = refl
