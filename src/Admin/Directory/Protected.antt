-- ===== src/Admin/Directory/Protected.antt =====
-- What is declared in the bootstrap file is out of the interface's reach: internal/adminapi/credentials.go,
-- mailboxes.go and accounts.go.
pub mod Accounts
use smtp_auth_proxy.Prelude.{
  ℕ, ◌≡◌, refl, sym, ap, ◌∙◌, inl, inr, Bool, true, false, Option, some, List, ◌∷◌, Bool-cases, [],
}
use smtp_auth_proxy.Strings.{Str, str_eq, str_eq→eq}
use smtp_auth_proxy.Store.Models.{OauthCredential, Mailbox, SmtpAccount}
use smtp_auth_proxy.Store.Rows.{find}
use smtp_auth_proxy.Store.Rows.Members.{find-key}
use smtp_auth_proxy.Store.Rows.Named.{find-cons_free, find-delete_other, find-update_other}
use smtp_auth_proxy.Store.Directory.{Directory, credential_id_of, mailbox_id_of, account_id_of}
use smtp_auth_proxy.Store.Directory.Credentials.{
  create_credential, update_credential, delete_credential, stamped_credential, updated_credential,
}
use smtp_auth_proxy.Store.Directory.Mailboxes.{
  create_mailbox, update_mailbox, delete_mailbox, stamped_mailbox, updated_mailbox,
}
use smtp_auth_proxy.Store.Directory.Outcomes.{
  create_credential_elim, update_credential_elim, delete_credential_elim, create_mailbox_elim,
  update_mailbox_elim, delete_mailbox_elim, create_account_elim, update_account_elim,
  delete_account_elim,
}
use smtp_auth_proxy.Crypto.Keyring.{Ciphers, Keyring}
use smtp_auth_proxy.Oauth.Provider.{Msal}
use smtp_auth_proxy.Policy.Address.{Mail}
use smtp_auth_proxy.Policy.Source.{Net}
use smtp_auth_proxy.Admin.Local.{Passwords}
use smtp_auth_proxy.Admin.Directory.{is_bootstrap}
use smtp_auth_proxy.Admin.Directory.Credentials.{Managed, Nonces}
use smtp_auth_proxy.Admin.Directory.Accounts.{new_account, edited_account}
use smtp_auth_proxy.Admin.Directory.Mailboxes.{new_mailbox, edited_mailbox}
use smtp_auth_proxy.Admin.Directory.Actions.{
  Action, post_credential, patch_credential, delete_credential as drop_credential, post_mailbox,
  patch_mailbox, delete_mailbox as drop_mailbox, post_account, patch_account,
  delete_account as drop_account, post_password, perform, run,
}
use smtp_auth_proxy.Admin.Directory.Outcomes.{
  handle_create_mailbox_elim, handle_update_mailbox_elim, handle_delete_mailbox_elim,
  handle_create_account_elim, handle_update_account_elim, handle_delete_account_elim,
  handle_reset_account_password_elim, handle_create_credential_elim, handle_update_credential_elim,
  handle_delete_credential_elim,
}

-- Two rows of a table that are found, of which one is of the bootstrap file, have other ids.
pub other_row {ℓ} :
    {A : Type ℓ} (key : A → Str) (free : A → Bool) (k id : Str) (xs : List A) {x y : A}
    → find key k xs ≡ some x
    → find key id xs ≡ some y
    → free x ≡ true
    → free y ≡ false
    → str_eq k id ≡ false
other_row key free k id xs {x} {y} f g b n = elim (Bool-cases (str_eq k id)) [
  | inr e ↦ e
  | inl e ↦
      (let q : ◌≡◌ {A = Option _} (some x) (some y) =
          sym f ∙ ap (λ j. find key j xs) (str_eq→eq k id e) ∙ g in
        (let same : x ≡ y = cc in absurd (true_ne_false (sym b ∙ ap free same ∙ n))))
]
  where
    true_ne_false : true ≡ false → ⊥
    true_ne_false e = cc

abbrev AnyMailbox : Str → Mailbox → Directory → Type 0
AnyMailbox k m d = find mailbox_id_of k d.mailboxes ≡ some m

create_mailbox-Any :
    (d : Directory) (row : Mailbox) (new_id : Str) (now : ℕ) (k : Str) (m : Mailbox)
    → AnyMailbox k m d
    → AnyMailbox k m (create_mailbox d row new_id now).0
create_mailbox-Any d row new_id now k m h =
    create_mailbox_elim (AnyMailbox k m) d h row new_id now (
      find-cons_free mailbox_id_of (stamped_mailbox row new_id now)
        (λ x. str_eq x.address (stamped_mailbox row new_id now).address) k d.mailboxes h)

update_mailbox-Any :
    (d : Directory) (row : Mailbox) (now : ℕ) (k : Str) (m : Mailbox)
    → AnyMailbox k m d
    → str_eq k row.id ≡ false
    → AnyMailbox k m (update_mailbox d row now).0
update_mailbox-Any d row now k m h n = update_mailbox_elim (AnyMailbox k m) d h row now (
    find-update_other mailbox_id_of (updated_mailbox row now) row.id k d.mailboxes (λ _. refl) h
      (ap (λ i. str_eq i row.id) (find-key mailbox_id_of k d.mailboxes h) ∙ n))

delete_mailbox-Any :
    (d : Directory) (id : Str) (k : Str) (m : Mailbox)
    → AnyMailbox k m d
    → str_eq k id ≡ false
    → AnyMailbox k m (delete_mailbox d id).0
delete_mailbox-Any d id k m h n =
    delete_mailbox_elim (AnyMailbox k m) d h id
      (find-delete_other mailbox_id_of id k d.mailboxes n ∙ h)

abbrev AnyCredential : Str → OauthCredential → Directory → Type 0
AnyCredential k c d = find credential_id_of k d.credentials ≡ some c

create_credential-Any :
    (d : Directory) (row : OauthCredential) (new_id : Str) (now : ℕ) (k : Str) (c : OauthCredential)
    → AnyCredential k c d
    → AnyCredential k c (create_credential d row new_id now).0
create_credential-Any d row new_id now k c h =
    create_credential_elim (AnyCredential k c) d h row new_id now (
      find-cons_free credential_id_of (stamped_credential row new_id now)
        (λ x. str_eq x.name (stamped_credential row new_id now).name) k d.credentials h)

update_credential-Any :
    (d : Directory) (row : OauthCredential) (now : ℕ) (k : Str) (c : OauthCredential)
    → AnyCredential k c d
    → str_eq k row.id ≡ false
    → AnyCredential k c (update_credential d row now).0
update_credential-Any d row now k c h n = update_credential_elim (AnyCredential k c) d h row now (
    find-update_other credential_id_of (updated_credential row now) row.id k d.credentials
      (λ _. refl) h (ap (λ i. str_eq i row.id) (find-key credential_id_of k d.credentials h) ∙ n))

delete_credential-Any :
    (d : Directory) (id : Str) (k : Str) (c : OauthCredential)
    → AnyCredential k c d
    → str_eq k id ≡ false
    → AnyCredential k c (delete_credential d id).0
delete_credential-Any d id k c h n =
    delete_credential_elim (AnyCredential k c) d h id
      (find-delete_other credential_id_of id k d.credentials n ∙ h)

module _ (ciphers : Ciphers) (msal : Msal) (mail : Mail) (net : Net) (passwords : Passwords)
    (keyring : Option (Keyring ciphers)) where
  module _ (m : Managed ciphers msal) (now : ℕ) where
    other_mailbox :
        (k id : Str) (v box : Mailbox)
        → AnyMailbox k box m.directory
        → AnyMailbox id v m.directory
        → is_bootstrap box.managed_by ≡ true
        → is_bootstrap v.managed_by ≡ false
        → str_eq k v.id ≡ false
    other_mailbox k id v box h f b n =
        ap (str_eq k) (find-key mailbox_id_of id m.directory.mailboxes f)
        ∙ other_row mailbox_id_of (λ (x : Mailbox). is_bootstrap x.managed_by) k id
            m.directory.mailboxes h f b n

    perform-mailbox :
        (action : Action) (k : Str) (box : Mailbox)
        → AnyMailbox k box m.directory
        → is_bootstrap box.managed_by ≡ true
        → AnyMailbox k box (perform ciphers msal mail net passwords keyring m action now).directory
    unfolding perform edited_mailbox
    perform-mailbox (post_credential nonces req id) k box h b =
        handle_create_credential_elim ciphers msal keyring nonces (AnyMailbox k box) m h req id now
          (λ c. create_credential_elim (AnyMailbox k box) m.directory h c id now (λ _. h))
    perform-mailbox (patch_credential nonces id req) k box h b =
        handle_update_credential_elim ciphers msal keyring nonces (AnyMailbox k box) m h id req now
          (λ c row _ _ _. update_credential_elim (AnyMailbox k box) m.directory h row now h)
    perform-mailbox (drop_credential id) k box h b =
        handle_delete_credential_elim ciphers msal (AnyMailbox k box) m h id
          (λ _ _ _. delete_credential_elim (AnyMailbox k box) m.directory h id h)
    perform-mailbox (post_mailbox req id) k box h b =
        handle_create_mailbox_elim (AnyMailbox k box) m.directory h mail req id now
          (create_mailbox-Any m.directory (new_mailbox req) id now k box h)
    perform-mailbox (patch_mailbox id req) k box h b =
        handle_update_mailbox_elim (AnyMailbox k box) m.directory h mail id req now (λ v f n.
          update_mailbox-Any m.directory (edited_mailbox v req) now k box h
            (other_mailbox k id v box h f b n))
    perform-mailbox (drop_mailbox id) k box h b =
        handle_delete_mailbox_elim (AnyMailbox k box) m.directory h mail id
          (λ v f n. delete_mailbox-Any m.directory v.id k box h (other_mailbox k id v box h f b n))
    perform-mailbox (post_account req random id new_id) k box h b =
        handle_create_account_elim (AnyMailbox k box) m.directory h mail (λ _ _ _ g. g) net
          passwords req random id new_id now
          (λ hash.
            create_account_elim (AnyMailbox k box) m.directory h (new_account req hash) id now
              (λ _. h))
    perform-mailbox (patch_account id req new_id) k box h b =
        handle_update_account_elim (AnyMailbox k box) m.directory h mail (λ _ _ _ g. g) net
          passwords id req new_id now
          (λ a _ _.
            update_account_elim (AnyMailbox k box) m.directory h (edited_account a req) now h)
    perform-mailbox (drop_account id) k box h b =
        handle_delete_account_elim (AnyMailbox k box) m.directory h mail (λ _ _ _ g. g) net
          passwords id (λ a _ _. delete_account_elim (AnyMailbox k box) m.directory h a.id h)
    perform-mailbox (post_password id given random) k box h b =
        handle_reset_account_password_elim (AnyMailbox k box) m.directory h mail (λ _ _ _ g. g) net
          passwords id given random now
          (λ a hash _.
            update_account_elim (AnyMailbox k box) m.directory h (record a { password_hash = hash })
              now h)

    other_credential :
        (k id : Str) (v kept : OauthCredential)
        → AnyCredential k kept m.directory
        → AnyCredential id v m.directory
        → is_bootstrap kept.managed_by ≡ true
        → is_bootstrap v.managed_by ≡ false
        → str_eq k v.id ≡ false
    other_credential k id v kept h f b n =
        ap (str_eq k) (find-key credential_id_of id m.directory.credentials f)
        ∙ other_row credential_id_of (λ (x : OauthCredential). is_bootstrap x.managed_by) k id
            m.directory.credentials h f b n

    perform-credential :
        (action : Action) (k : Str) (kept : OauthCredential)
        → AnyCredential k kept m.directory
        → is_bootstrap kept.managed_by ≡ true
        → AnyCredential k kept
            (perform ciphers msal mail net passwords keyring m action now).directory
    unfolding perform
    perform-credential (post_credential nonces req id) k kept h b =
        handle_create_credential_elim ciphers msal keyring nonces (AnyCredential k kept) m h req id
          now (λ c. create_credential-Any m.directory c id now k kept h)
    perform-credential (patch_credential nonces id req) k kept h b =
        handle_update_credential_elim ciphers msal keyring nonces (AnyCredential k kept) m h id req
          now
          (λ v row f n i.
            update_credential-Any m.directory row now k kept h
              (ap (str_eq k) i ∙ other_credential k id v kept h f b n))
    perform-credential (drop_credential id) k kept h b =
        handle_delete_credential_elim ciphers msal (AnyCredential k kept) m h id (λ v f n.
          delete_credential-Any m.directory id k kept h (
            other_row credential_id_of (λ (x : OauthCredential). is_bootstrap x.managed_by) k id
              m.directory.credentials h f b n))
    perform-credential (post_mailbox req id) k kept h b =
        handle_create_mailbox_elim (AnyCredential k kept) m.directory h mail req id now (
          create_mailbox_elim (AnyCredential k kept) m.directory h (new_mailbox req) id now
            (λ _. h))
    perform-credential (patch_mailbox id req) k kept h b =
        handle_update_mailbox_elim (AnyCredential k kept) m.directory h mail id req now (λ v _ _.
          update_mailbox_elim (AnyCredential k kept) m.directory h (edited_mailbox v req) now h)
    perform-credential (drop_mailbox id) k kept h b =
        handle_delete_mailbox_elim (AnyCredential k kept) m.directory h mail id
          (λ v _ _. delete_mailbox_elim (AnyCredential k kept) m.directory h v.id h)
    perform-credential (post_account req random id new_id) k kept h b =
        handle_create_account_elim (AnyCredential k kept) m.directory h mail (λ _ _ _ g. g) net
          passwords req random id new_id now
          (λ hash.
            create_account_elim (AnyCredential k kept) m.directory h (new_account req hash) id now
              (λ _. h))
    perform-credential (patch_account id req new_id) k kept h b =
        handle_update_account_elim (AnyCredential k kept) m.directory h mail (λ _ _ _ g. g) net
          passwords id req new_id now
          (λ a _ _.
            update_account_elim (AnyCredential k kept) m.directory h (edited_account a req) now h)
    perform-credential (drop_account id) k kept h b =
        handle_delete_account_elim (AnyCredential k kept) m.directory h mail (λ _ _ _ g. g) net
          passwords id (λ a _ _. delete_account_elim (AnyCredential k kept) m.directory h a.id h)
    perform-credential (post_password id given random) k kept h b =
        handle_reset_account_password_elim (AnyCredential k kept) m.directory h mail (λ _ _ _ g. g)
          net passwords id given random now
          (λ a hash _.
            update_account_elim (AnyCredential k kept) m.directory h
              (record a { password_hash = hash }) now h)

  -- Whatever sequence of requests to the management interface's handlers of credentials, mailboxes
  -- and accounts is made, a mailbox that the bootstrap file manages is found afterwards as it was
  -- before.
  pub run-mailbox :
      (actions : List (Action × ℕ)) (m : Managed ciphers msal) (k : Str) (box : Mailbox)
      → find mailbox_id_of k m.directory.mailboxes ≡ some box
      → is_bootstrap box.managed_by ≡ true
      → find mailbox_id_of k
          (run ciphers msal mail net passwords keyring m actions).directory.mailboxes
        ≡ some box
  unfolding run
  run-mailbox [] m k box h b = h
  run-mailbox ((action, now) ∷ rest) m k box h b =
      run-mailbox rest (perform ciphers msal mail net passwords keyring m action now) k box
        (perform-mailbox m now action k box h b) b

  -- A credential of the bootstrap file is the same after every sequence of requests.
  pub run-credential :
      (actions : List (Action × ℕ)) (m : Managed ciphers msal) (k : Str) (kept : OauthCredential)
      → find credential_id_of k m.directory.credentials ≡ some kept
      → is_bootstrap kept.managed_by ≡ true
      → find credential_id_of k
          (run ciphers msal mail net passwords keyring m actions).directory.credentials
        ≡ some kept
  unfolding run
  run-credential [] m k kept h b = h
  run-credential ((action, now) ∷ rest) m k kept h b =
      run-credential rest (perform ciphers msal mail net passwords keyring m action now) k kept
        (perform-credential m now action k kept h b) b
