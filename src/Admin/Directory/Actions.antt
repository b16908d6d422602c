-- ===== src/Admin/Directory/Actions.antt =====
-- The requests that change the directory, one after another: the routes of
-- internal/adminapi/credentials.go, mailboxes.go and accounts.go.
use smtp_auth_proxy.Prelude.{ℕ, Option, List, ◌∷◌, []}
use smtp_auth_proxy.Strings.{Str}
use smtp_auth_proxy.Crypto.Keyring.{Ciphers, Keyring}
use smtp_auth_proxy.Oauth.Provider.{Msal}
use smtp_auth_proxy.Policy.Address.{Mail}
use smtp_auth_proxy.Policy.Source.{Net}
use smtp_auth_proxy.Admin.Local.{Passwords}
use smtp_auth_proxy.Admin.Directory.Credentials.{
  CredentialRequest, Nonces, Managed, handle_create_credential, handle_update_credential,
  handle_delete_credential,
}
use smtp_auth_proxy.Admin.Directory.Mailboxes.{
  MailboxRequest, handle_create_mailbox, handle_update_mailbox, handle_delete_mailbox,
}
use smtp_auth_proxy.Admin.Directory.Accounts.{
  AccountRequest, handle_create_account, handle_update_account, handle_delete_account,
  handle_reset_account_password,
}

-- A request with the id in its path, the ids that it draws, the nonces and the password that is
-- generated.
pub data Action : Type 0 where
  post_credential : Nonces → CredentialRequest → Str → Action
  patch_credential : Nonces → Str → CredentialRequest → Action
  delete_credential : Str → Action
  post_mailbox : MailboxRequest → Str → Action
  patch_mailbox : Str → MailboxRequest → Action
  delete_mailbox : Str → Action
  post_account : AccountRequest → Option Str → Str → (Str → Str) → Action
  patch_account : Str → AccountRequest → (Str → Str) → Action
  delete_account : Str → Action
  post_password : Str → Option Str → Option Str → Action

module _ (ciphers : Ciphers) (msal : Msal) (mail : Mail) (net : Net) (passwords : Passwords)
    (keyring : Option (Keyring ciphers)) where
  unfoldable pub perform : Managed ciphers msal → Action → ℕ → Managed ciphers msal
  perform m (post_credential nonces req id) now =
      (handle_create_credential ciphers msal keyring nonces m req id now).0
  perform m (patch_credential nonces id req) now =
      (handle_update_credential ciphers msal keyring nonces m id req now).0
  perform m (delete_credential id) now = (handle_delete_credential ciphers msal m id).0
  perform m (post_mailbox req id) now = record m {
    directory = (handle_create_mailbox mail m.directory req id now).0;
  }
  perform m (patch_mailbox id req) now = record m {
    directory = (handle_update_mailbox mail m.directory id req now).0;
  }
  perform m (delete_mailbox id) now = record m {
    directory = (handle_delete_mailbox m.directory id).0;
  }
  perform m (post_account req random id new_id) now = record m {
    directory = (handle_create_account mail net passwords m.directory req random id new_id now).0;
  }
  perform m (patch_account id req new_id) now = record m {
    directory = (handle_update_account mail net passwords m.directory id req new_id now).0;
  }
  perform m (delete_account id) now = record m {
    directory = (handle_delete_account mail net passwords m.directory id).0;
  }
  perform m (post_password id given random) now = record m {
    directory =
        (handle_reset_account_password mail net passwords m.directory id given random now).0;
  }

  -- Each action with its time.
  unfoldable pub run : Managed ciphers msal → List (Action × ℕ) → Managed ciphers msal
  unfolding perform
  run m [] = m
  run m ((action, now) ∷ rest) = run (perform m action now) rest
