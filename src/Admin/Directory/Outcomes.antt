-- ===== src/Admin/Directory/Outcomes.antt =====
-- What each handler can leave of the directory: internal/adminapi/credentials.go, mailboxes.go and
-- accounts.go.
use smtp_auth_proxy.Prelude.{
  ℕ, option_cases, ◌≡◌, refl, true, false, Option, none, some, List, ◌++◌, ltb, if_cases, length,
  [],
}
use smtp_auth_proxy.Strings.{Str}
use smtp_auth_proxy.Store.Models.{OauthCredential, Mailbox, SmtpAccount, AllowedSender}
use smtp_auth_proxy.Store.Rows.{find, delete_where}
use smtp_auth_proxy.Store.Users.{Result, ok, err, not_found, AdminError}
use smtp_auth_proxy.Store.Directory.{
  Directory, Link, credential_id_of, mailbox_id_of, account_id_of,
}
use smtp_auth_proxy.Store.Directory.Credentials.{
  create_credential, update_credential, delete_credential, get_credential,
}
use smtp_auth_proxy.Store.Directory.Mailboxes.{
  create_mailbox, update_mailbox, delete_mailbox, get_mailbox,
}
use smtp_auth_proxy.Store.Directory.Accounts.{
  create_account, update_account, delete_account, set_mailboxes, get_account, links_to, senders_to,
  distinct, link_of, sender_of, stamped_account, updated_account,
}
use smtp_auth_proxy.Store.Directory.Outcomes.{set_mailboxes_elim, set_allowed_senders_elim}
use smtp_auth_proxy.Admin.Directory.Accounts.{
  AccountRequest, password_for, apply_senders, apply_account_links, link_account, insert_account,
  save_account, invalid_account, new_account, edited_account, handle_create_account,
  handle_update_account, handle_delete_account, handle_reset_account_password,
}
use smtp_auth_proxy.Crypto.Keyring.{Ciphers, Keyring}
use smtp_auth_proxy.Oauth.Provider.{Msal, secret_context, certificate_key_context}
use smtp_auth_proxy.Policy.Address.{Mail}
use smtp_auth_proxy.Policy.Source.{Net}
use smtp_auth_proxy.Admin.Local.{Passwords}
use smtp_auth_proxy.Admin.Users.Administered.{result_cases}
use smtp_auth_proxy.Admin.Directory.{is_bootstrap}
use smtp_auth_proxy.Admin.Directory.Credentials.{
  CredentialRequest, Nonces, Managed, seal_credential, seal_text, edited_credential,
  invalid_credential, new_credential, save_credential, handle_create_credential,
  handle_update_credential, handle_delete_credential,
}
use smtp_auth_proxy.Admin.Directory.Mailboxes.{
  MailboxRequest, invalid_mailbox, edited_mailbox, new_mailbox, handle_create_mailbox,
  handle_update_mailbox, handle_delete_mailbox,
}

-- A lookup by a primary key, and the row that it finds.
lookup_cases {ℓ κ μ} :
    {A : Type ℓ} {B : Type κ} (P : B → Type μ) (o : Option A) {g : AdminError → B} {f : A → B}
    → ((e : AdminError) → P (g e))
    → ((a : A) → o ≡ some a → P (f a))
    → P (elim (elim o as (λ _. Result A) [ none ↦ err not_found | some a ↦ ok a ]) [
      | err e ↦ g e
      | ok a ↦ f a
    ])
lookup_cases P none h k = h not_found
lookup_cases P (some a) h k = k a refl

abbrev After {ℓ κ} : {B : Type κ} → (Directory → Type ℓ) → Directory × B → Type ℓ
After P r = P r.0

module _ {ℓ} (P : Directory → Type ℓ) (dir : Directory) (same : P dir) (mail : Mail) where
  pub handle_create_mailbox_elim :
      (req : MailboxRequest) (new_id : Str) (now : ℕ)
      → P (create_mailbox dir (new_mailbox req) new_id now).0
      → P (handle_create_mailbox mail dir req new_id now).0
  unfolding handle_create_mailbox
  handle_create_mailbox_elim req new_id now step =
      if_cases (After P) (ltb 0 (length (invalid_mailbox mail req true))) (λ _. same) (λ _. step)

  pub handle_update_mailbox_elim :
      (id : Str) (req : MailboxRequest) (now : ℕ)
      → ((m : Mailbox)
          → find mailbox_id_of id dir.mailboxes ≡ some m
          → is_bootstrap m.managed_by ≡ false
          → P (update_mailbox dir (edited_mailbox m req) now).0)
      → P (handle_update_mailbox mail dir id req now).0
  unfolding handle_update_mailbox get_mailbox
  handle_update_mailbox_elim id req now step =
      lookup_cases (After P) (find mailbox_id_of id dir.mailboxes) (λ _. same)
        (λ m f.
          if_cases (After P) (is_bootstrap m.managed_by) (λ _. same)
            (λ free.
              if_cases (After P) (ltb 0 (length (invalid_mailbox mail req false))) (λ _. same)
                (λ _. step m f free)))

  pub handle_delete_mailbox_elim :
      (id : Str)
      → ((m : Mailbox)
          → find mailbox_id_of id dir.mailboxes ≡ some m
          → is_bootstrap m.managed_by ≡ false
          → P (delete_mailbox dir m.id).0)
      → P (handle_delete_mailbox dir id).0
  unfolding handle_delete_mailbox get_mailbox
  handle_delete_mailbox_elim id step =
      lookup_cases (After P) (find mailbox_id_of id dir.mailboxes) (λ _. same)
        (λ m f. if_cases (After P) (is_bootstrap m.managed_by) (λ _. same) (λ free. step m f free))

  module _
      (relinked : (d : Directory) (links : List Link) (senders : List AllowedSender)
        → P d
        → P (record d { links = links; senders = senders }))
      (net : Net) (passwords : Passwords) where
    apply_senders-kept :
        (d : Directory) (id : Str) (patterns : Option (List Str)) (new_id : Str → Str) (now : ℕ)
        → P d
        → P (apply_senders d id patterns new_id now).0
    apply_senders-kept d id none new_id now h = h
    apply_senders-kept d id (some patterns) new_id now h =
        set_allowed_senders_elim P d h id patterns new_id now (
          relinked d d.links
            (senders_to id (distinct patterns []) new_id now
              ++ delete_where (sender_of id) d.senders)
            h)

    link_account-kept :
        (d : Directory) (a : SmtpAccount) (req : AccountRequest) (new_id : Str → Str) (now : ℕ)
        → P d
        → P (link_account d a req new_id now).0
    unfolding link_account apply_account_links
    link_account-kept d a req new_id now h =
        option_cases (After P) req.mailbox_ids
          (λ _. apply_senders-kept d a.id req.allowed_senders new_id now h)
          (λ ids _.
            (let linked = set_mailboxes_elim P d h a.id ids (
                relinked d (links_to a.id (distinct ids []) ++ delete_where (link_of a.id) d.links)
                  d.senders h) in
              result_cases (After P) (set_mailboxes d a.id ids).1 (λ _ _. linked)
                (λ _ _.
                  apply_senders-kept (set_mailboxes d a.id ids).0 a.id req.allowed_senders new_id
                    now linked)))

    pub handle_create_account_elim :
        (req : AccountRequest) (random : Option Str) (id : Str) (new_id : Str → Str) (now : ℕ)
        → ((hash : Str) → P (create_account dir (new_account req hash) id now).0)
        → P (handle_create_account mail net passwords dir req random id new_id now).0
    unfolding handle_create_account insert_account
    handle_create_account_elim req random id new_id now step =
        if_cases (After P) (ltb 0 (length (invalid_account mail net req true))) (λ _. same)
          (λ _.
            option_cases (After P) (password_for req.password random) (λ _. same)
              (λ chosen _.
                option_cases (After P) (passwords.hash chosen.0) (λ _. same)
                  (λ hash _.
                    result_cases (After P) (create_account dir (new_account req hash) id now).1
                      (λ _ _. step hash)
                      (λ _ _.
                        link_account-kept (create_account dir (new_account req hash) id now).0
                          (stamped_account (new_account req hash) id now) req new_id now
                          (step hash)))))

    pub handle_update_account_elim :
        (id : Str) (req : AccountRequest) (new_id : Str → Str) (now : ℕ)
        → ((a : SmtpAccount)
            → find account_id_of id dir.accounts ≡ some a
            → is_bootstrap a.managed_by ≡ false
            → P (update_account dir (edited_account a req) now).0)
        → P (handle_update_account mail net passwords dir id req new_id now).0
    unfolding handle_update_account get_account save_account
    handle_update_account_elim id req new_id now step =
        lookup_cases (After P) (find account_id_of id dir.accounts) (λ _. same)
          (λ a f.
            if_cases (After P) (is_bootstrap a.managed_by) (λ _. same)
              (λ free.
                if_cases (After P) (ltb 0 (length (invalid_account mail net req false))) (λ _. same)
                  (λ _.
                    result_cases (After P) (update_account dir (edited_account a req) now).1
                      (λ _ _. step a f free)
                      (λ _ _.
                        link_account-kept (update_account dir (edited_account a req) now).0
                          (updated_account (edited_account a req) now (edited_account a req)) req
                          new_id now (step a f free)))))

    pub handle_delete_account_elim :
        (id : Str)
        → ((a : SmtpAccount)
            → find account_id_of id dir.accounts ≡ some a
            → is_bootstrap a.managed_by ≡ false
            → P (delete_account dir a.id).0)
        → P (handle_delete_account mail net passwords dir id).0
    unfolding handle_delete_account get_account
    handle_delete_account_elim id step =
        lookup_cases (After P) (find account_id_of id dir.accounts) (λ _. same)
          (λ a f.
            if_cases (After P) (is_bootstrap a.managed_by) (λ _. same) (λ free. step a f free))

    pub handle_reset_account_password_elim :
        (id : Str) (given random : Option Str) (now : ℕ)
        → ((a : SmtpAccount) (hash : Str)
            → find account_id_of id dir.accounts ≡ some a
            → P (update_account dir (record a { password_hash = hash }) now).0)
        → P (handle_reset_account_password mail net passwords dir id given random now).0
    unfolding handle_reset_account_password get_account
    handle_reset_account_password_elim id given random now step =
        lookup_cases (After P) (find account_id_of id dir.accounts) (λ _. same)
          (λ a f.
            option_cases (After P) (password_for given random) (λ _. same)
              (λ chosen _.
                option_cases (After P) (passwords.hash chosen.0) (λ _. same)
                  (λ hash _. step a hash f)))

module _ (ciphers : Ciphers) (msal : Msal) (keyring : Option (Keyring ciphers))
    (nonces : Nonces) where
  abbrev Named : Str → Option OauthCredential → Type 0
  Named id none = Unit
  Named id (some row) = row.id ≡ id

  Named-id :
      (id : Str) (o : Option OauthCredential) {row : OauthCredential}
      → Named id o
      → o ≡ some row
      → row.id ≡ id
  Named-id id none n e = cc
  Named-id id (some c) n e = cc

  seal_credential-Named :
      (k : Option (Keyring ciphers)) (c : OauthCredential) (req : CredentialRequest)
      → Named c.id (seal_credential ciphers msal k nonces c req)
  unfolding seal_credential
  seal_credential-Named none c req = tt
  seal_credential-Named (some k) c req =
      option_cases (Named c.id)
        (seal_text ciphers msal k nonces.for_secret req.client_secret (secret_context c)
          c.client_secret_enc)
        (λ _. tt)
        (λ _ _.
          option_cases (Named c.id)
            (seal_text ciphers msal k nonces.for_key req.certificate_key_pem
              (certificate_key_context c) c.certificate_key_enc)
            (λ _. tt) (λ _ _. refl))

  seal_credential-id :
      (c : OauthCredential) (req : CredentialRequest) {row : OauthCredential}
      → seal_credential ciphers msal keyring nonces c req ≡ some row
      → row.id ≡ c.id
  seal_credential-id c req h =
      Named-id c.id (seal_credential ciphers msal keyring nonces c req)
        (seal_credential-Named keyring c req) h

  module _ {ℓ} (P : Directory → Type ℓ) (m : Managed ciphers msal) (same : P m.directory) where
    abbrev AfterManaged {κ} : {B : Type κ} → Managed ciphers msal × B → Type ℓ
    AfterManaged r = P r.0.directory

    pub handle_create_credential_elim :
        (req : CredentialRequest) (new_id : Str) (now : ℕ)
        → ((c : OauthCredential) → P (create_credential m.directory c new_id now).0)
        → P (handle_create_credential ciphers msal keyring nonces m req new_id now).0.directory
    unfolding handle_create_credential
    handle_create_credential_elim req new_id now step =
        if_cases AfterManaged (ltb 0 (length (invalid_credential req true))) (λ _. same)
          (λ _.
            option_cases AfterManaged
              (seal_credential ciphers msal keyring nonces (new_credential req new_id) req)
              (λ _. same) (λ c _. step c))

    pub handle_update_credential_elim :
        (id : Str) (req : CredentialRequest) (now : ℕ)
        → ((c row : OauthCredential)
            → find credential_id_of id m.directory.credentials ≡ some c
            → is_bootstrap c.managed_by ≡ false
            → row.id ≡ c.id
            → P (update_credential m.directory row now).0)
        → P (handle_update_credential ciphers msal keyring nonces m id req now).0.directory
    unfolding handle_update_credential get_credential save_credential edited_credential
    handle_update_credential_elim id req now step =
        lookup_cases AfterManaged (find credential_id_of id m.directory.credentials) (λ _. same)
          (λ c f.
            if_cases AfterManaged (is_bootstrap c.managed_by) (λ _. same)
              (λ free.
                if_cases AfterManaged (ltb 0 (length (invalid_credential req false))) (λ _. same)
                  (λ _.
                    option_cases AfterManaged
                      (seal_credential ciphers msal keyring nonces (edited_credential c req) req)
                      (λ _. same)
                      (λ row e.
                        result_cases AfterManaged (update_credential m.directory row now).1
                          (λ _ _.
                            step c row f free (seal_credential-id (edited_credential c req) req e))
                          (λ _ _.
                            step c row f free
                              (seal_credential-id (edited_credential c req) req e))))))

module _ {ℓ} (ciphers : Ciphers) (msal : Msal) (P : Directory → Type ℓ) (m : Managed ciphers msal)
    (same : P m.directory) where
  abbrev AfterDelete {κ} : {B : Type κ} → Managed ciphers msal × B → Type ℓ
  AfterDelete r = P r.0.directory

  pub handle_delete_credential_elim :
      (id : Str)
      → ((c : OauthCredential)
          → find credential_id_of id m.directory.credentials ≡ some c
          → is_bootstrap c.managed_by ≡ false
          → P (delete_credential m.directory id).0)
      → P (handle_delete_credential ciphers msal m id).0.directory
  unfolding handle_delete_credential get_credential
  handle_delete_credential_elim id step =
      lookup_cases AfterDelete (find credential_id_of id m.directory.credentials) (λ _. same)
        (λ c f.
          if_cases AfterDelete (is_bootstrap c.managed_by) (λ _. same)
            (λ free.
              result_cases AfterDelete (delete_credential m.directory id).1 (λ _ _. step c f free)
                (λ _ _. step c f free)))
