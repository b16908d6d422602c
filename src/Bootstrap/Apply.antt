-- ===== src/Bootstrap/Apply.antt =====
-- Writing a bootstrap file into the directory: the `Applier` of internal/bootstrap/bootstrap.go. The
-- audit records are left out. `now` is the time of the run, and each object draws an id and nonces.
pub mod Progress
pub mod Credentials
pub mod Mailboxes
pub mod Accounts
pub mod Extension
pub mod Once
use smtp_auth_proxy.Prelude.{ℕ, Bool, Option, none, some}
use smtp_auth_proxy.Strings.{Str}
use smtp_auth_proxy.Store.Directory.{Directory}
use smtp_auth_proxy.Crypto.Keyring.{Ciphers, Keyring}
use smtp_auth_proxy.Bootstrap.{File}
use smtp_auth_proxy.Bootstrap.Apply.Progress.{Run, BootstrapError, apply_each, fresh_run}
use smtp_auth_proxy.Bootstrap.Apply.Credentials.{apply_credential}
use smtp_auth_proxy.Bootstrap.Apply.Mailboxes.{apply_mailbox}
use smtp_auth_proxy.Bootstrap.Apply.Accounts.{apply_account}

module _ (ciphers : Ciphers) (keyring : Option (Keyring ciphers)) (reconcile : Bool)
    (draw_id : ℕ → Str) (draw_nonces : ℕ → Option Str × Option Str) (sender_id : Str → Str → Str)
    (now : ℕ) where
  unfoldable pub apply_file : Directory → File → Run × Option BootstrapError
  unfolding apply_each apply_credential apply_mailbox apply_account
  apply_file dir f =
      let (first, e1) =
        apply_each (apply_credential ciphers keyring reconcile draw_id draw_nonces now)
          (fresh_run dir) f.credentials in
      elim e1 [
        | some e ↦ (first, some e)
        | none ↦
            let (second, e2) = apply_each (apply_mailbox reconcile draw_id now) first f.mailboxes in
            elim e2 [
              | some e ↦ (second, some e)
              | none ↦ apply_each (apply_account reconcile draw_id sender_id now) second f.accounts
            ]
      ]
