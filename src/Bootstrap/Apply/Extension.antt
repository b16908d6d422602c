-- ===== src/Bootstrap/Apply/Extension.antt =====
-- How the bootstrap file may extend a directory: new rows in front of those that are there.
use smtp_auth_proxy.Prelude.{ℕ, ◌≡◌, ap, ◌⊎◌, inl, inr, Option, none, some, List, ◌∷◌, ◌++◌}
use smtp_auth_proxy.Strings.{Str}
use smtp_auth_proxy.Store.Models.{
  OauthCredential, Mailbox as StoredMailbox, SmtpAccount, AllowedSender,
}
use smtp_auth_proxy.Store.Users.{Result, ok, err}
use smtp_auth_proxy.Store.Directory.{Directory, Link}
use smtp_auth_proxy.Store.Directory.Credentials.{create_credential, stamped_credential}
use smtp_auth_proxy.Store.Directory.Mailboxes.{create_mailbox, stamped_mailbox}
use smtp_auth_proxy.Store.Directory.Accounts.{create_account, stamped_account}
use smtp_auth_proxy.Store.Directory.Outcomes.{
  create_credential_elim, create_mailbox_elim, create_account_elim,
}
use smtp_auth_proxy.Bootstrap.Apply.Progress.{Run, BootstrapError, finish}

-- The tables of the second directory are those of the first behind new rows.
pub record Extends (d e : Directory) : Type 0 where
  pub new_credentials : List OauthCredential
  pub new_mailboxes : List StoredMailbox
  pub new_accounts : List SmtpAccount
  pub credentials : e.credentials ≡ new_credentials ++ d.credentials
  pub mailboxes : e.mailboxes ≡ new_mailboxes ++ d.mailboxes
  pub accounts : e.accounts ≡ new_accounts ++ d.accounts

pub sum_cases {ℓ κ} :
    {A : Type 0} {B : Type 0} {C : Type κ} (P : C → Type ℓ) (s : A ⊎ B) {f : A → C} {g : B → C}
    → ((a : A) → P (f a))
    → ((b : B) → P (g b))
    → P (elim s [ inl a ↦ f a | inr b ↦ g b ])
sum_cases P (inl a) h k = h a
sum_cases P (inr b) h k = k b

module _ (d : Directory) where
  abbrev pub Kept : Run × Option BootstrapError → Type 0
  Kept r = Extends d r.0.directory

  pub finish-Kept {ℓ} :
      {A : Type ℓ} (a : Result A) (x y : Run)
      → Extends d x.directory
      → Extends d y.directory
      → Kept (finish a x y)
  finish-Kept (ok _) x y h k = h
  finish-Kept (err e) x y h k = k

  abbrev pub Noted {κ} : {B : Type κ} → Option (Run × B) → Type 0
  Noted none = Unit
  Noted (some (noted, _)) = Extends d noted.directory

  abbrev pub After {κ} : {B : Type κ} → Directory × B → Type 0
  After w = Extends d w.0

module _ (now : ℕ) (d : Directory) (e : Directory) (x : Extends d e) where
  pub add_credential : (c : OauthCredential) (id : Str) → Extends d (create_credential e c id now).0
  add_credential c id = create_credential_elim (Extends d) e x c id now (λ _. record {
    new_credentials = stamped_credential c id now ∷ x.new_credentials;
    new_mailboxes = x.new_mailboxes;
    new_accounts = x.new_accounts;
    credentials = ap (λ cs. stamped_credential c id now ∷ cs) x.credentials;
    mailboxes = x.mailboxes;
    accounts = x.accounts;
  })

  pub add_mailbox : (m : StoredMailbox) (id : Str) → Extends d (create_mailbox e m id now).0
  add_mailbox m id = create_mailbox_elim (Extends d) e x m id now (λ _. record {
    new_credentials = x.new_credentials;
    new_mailboxes = stamped_mailbox m id now ∷ x.new_mailboxes;
    new_accounts = x.new_accounts;
    credentials = x.credentials;
    mailboxes = ap (λ ms. stamped_mailbox m id now ∷ ms) x.mailboxes;
    accounts = x.accounts;
  })

  pub add_account : (a : SmtpAccount) (id : Str) → Extends d (create_account e a id now).0
  add_account a id = create_account_elim (Extends d) e x a id now (λ _. record {
    new_credentials = x.new_credentials;
    new_mailboxes = x.new_mailboxes;
    new_accounts = stamped_account a id now ∷ x.new_accounts;
    credentials = x.credentials;
    mailboxes = x.mailboxes;
    accounts = ap (λ rows. stamped_account a id now ∷ rows) x.accounts;
  })

  pub relink :
      (links : List Link) (senders : List AllowedSender)
      → Extends d (record e { links = links; senders = senders })
  relink links senders = record {
    new_credentials = x.new_credentials;
    new_mailboxes = x.new_mailboxes;
    new_accounts = x.new_accounts;
    credentials = x.credentials;
    mailboxes = x.mailboxes;
    accounts = x.accounts;
  }
