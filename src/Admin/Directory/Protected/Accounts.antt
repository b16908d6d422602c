-- ===== src/Admin/Directory/Protected/Accounts.antt =====
-- What of an account of the bootstrap file the interface can change: internal/adminapi/accounts.go and
-- mailboxes.go.
use smtp_auth_proxy.Prelude.{
  ℕ, ◌≡◌, refl, sym, ap, ◌∙◌, subst, inl, inr, true, false, Option, some, List, ◌∷◌, if◌then◌else◌,
  Bool-cases, [],
}
use smtp_auth_proxy.Strings.{Str, str_eq, str_eq→eq}
use smtp_auth_proxy.Store.Models.{SmtpAccount}
use smtp_auth_proxy.Store.Rows.{find, update_where, find-update_where, changed}
use smtp_auth_proxy.Store.Rows.Members.{find-key}
use smtp_auth_proxy.Store.Rows.Named.{find-cons_free, find-delete_other}
use smtp_auth_proxy.Store.Directory.{Directory, account_id_of, has_account_id}
use smtp_auth_proxy.Store.Directory.Mailboxes.{delete_mailbox, default_is, without_default}
use smtp_auth_proxy.Store.Directory.Accounts.{
  create_account, update_account, delete_account, stamped_account, updated_account,
}
use smtp_auth_proxy.Store.Directory.Outcomes.{
  create_credential_elim, update_credential_elim, delete_credential_elim, create_mailbox_elim,
  update_mailbox_elim, delete_mailbox_elim, create_account_elim, update_account_elim,
  delete_account_elim,
}
use smtp_auth_proxy.Crypto.Keyring.{Ciphers, Keyring}
use smtp_auth_proxy.Oauth.Provider.{Msal}
use smtp_auth_proxy.Policy.Address.{Mail}
use smtp_auth_proxy.Policy.Source.{Net}
use smtp_auth_proxy.Admin.Local.{Passwords}
use smtp_auth_proxy.Admin.Directory.{is_bootstrap}
use smtp_auth_proxy.Admin.Directory.Credentials.{Managed}
use smtp_auth_proxy.Admin.Directory.Mailboxes.{new_mailbox, edited_mailbox}
use smtp_auth_proxy.Admin.Directory.Accounts.{new_account, edited_account}
use smtp_auth_proxy.Admin.Directory.Actions.{
  Action, post_credential, patch_credential, delete_credential as drop_credential, post_mailbox,
  patch_mailbox, delete_mailbox as drop_mailbox, post_account, patch_account,
  delete_account as drop_account, post_password, perform, run,
}
use smtp_auth_proxy.Admin.Directory.Outcomes.{
  handle_create_mailbox_elim, handle_update_mailbox_elim, handle_delete_mailbox_elim,
  handle_create_account_elim, handle_update_account_elim, handle_delete_account_elim,
  handle_reset_account_password_elim, handle_create_credential_elim, handle_update_credential_elim,
  handle_delete_credential_elim,
}
use smtp_auth_proxy.Admin.Directory.Protected.{other_row}

-- The second account is the first with another hash, default mailbox and time of update.
abbrev pub KeptBut : SmtpAccount → SmtpAccount → Type 0
KeptBut a b = b ≡ record a {
  password_hash = b.password_hash;
  default_mailbox_id = b.default_mailbox_id;
  updated_at = b.updated_at;
}

abbrev pub AnyAccount : Str → SmtpAccount → Directory → Type 0
AnyAccount k a d = (b : SmtpAccount) × (find account_id_of k d.accounts ≡ some b) × KeptBut a b

KeptBut-trans : (a b c : SmtpAccount) → KeptBut a b → KeptBut b c → KeptBut a c
KeptBut-trans a b c h k =
    k
    ∙ ap
        (λ (x : SmtpAccount). record x {
          password_hash = c.password_hash;
          default_mailbox_id = c.default_mailbox_id;
          updated_at = c.updated_at;
        })
        h

-- An update that keeps what `KeptBut` keeps of the row that it finds.
update_account-kept :
    (d : Directory) (v : SmtpAccount) (now : ℕ) (k : Str) (a : SmtpAccount)
    → AnyAccount k a d
    → ((b : SmtpAccount)
        → find account_id_of k d.accounts ≡ some b
        → str_eq b.id v.id ≡ true
        → KeptBut b (updated_account v now b))
    → AnyAccount k a (update_account d v now).0
update_account-kept d v now k a (b, f, e) same =
    update_account_elim (AnyAccount k a) d (b, f, e) v now
      (elim (Bool-cases (str_eq b.id v.id)) [
        | inl y ↦ (
          updated_account v now b,
          found ∙ ap some (rw y refl),
          KeptBut-trans a b (updated_account v now b) e (same b f y),
        )
        | inr n ↦ (b, found ∙ ap some (rw n refl), e)
      ])
  where
    found :
        find account_id_of k (update_where (has_account_id v.id) (updated_account v now) d.accounts)
        ≡ some (if str_eq b.id v.id then updated_account v now b else b)
    found =
        find-update_where account_id_of (has_account_id v.id) (updated_account v now) (λ _. refl) k
          d.accounts
        ∙ ap (changed account_id_of (has_account_id v.id) (updated_account v now)) f

-- The update of another account.
update_account-other :
    (d : Directory) (v : SmtpAccount) (now : ℕ) (k : Str) (a : SmtpAccount)
    → AnyAccount k a d
    → str_eq k v.id ≡ false
    → AnyAccount k a (update_account d v now).0
update_account-other d v now k a h n = update_account-kept d v now k a h (λ b f y.
    absurd
      (true_ne_false (sym y ∙ ap (λ i. str_eq i v.id) (find-key account_id_of k d.accounts f) ∙ n)))
  where
    true_ne_false : true ≡ false → ⊥
    true_ne_false e = cc

update_account-password :
    (d : Directory) (id : Str) (v : SmtpAccount) (hash : Str) (now : ℕ) (k : Str) (a : SmtpAccount)
    → AnyAccount k a d
    → find account_id_of id d.accounts ≡ some v
    → AnyAccount k a (update_account d (record v { password_hash = hash }) now).0
update_account-password d id v hash now k a h g =
    update_account-kept d (record v { password_hash = hash }) now k a h
      (λ b f y.
        (let i : k ≡ id =
            sym (find-key account_id_of k d.accounts f)
            ∙ str_eq→eq b.id v.id y
            ∙ find-key account_id_of id d.accounts g in
          (let q : ◌≡◌ {A = Option SmtpAccount} (some v) (some b) =
              sym g ∙ ap (λ j. find account_id_of j d.accounts) (sym i) ∙ f in
            (let same : v ≡ b = cc in
              subst
                (λ (x : SmtpAccount).
                  KeptBut b (updated_account (record x { password_hash = hash }) now b))
                (sym same) refl))))

create_account-kept :
    (d : Directory) (row : SmtpAccount) (new_id : Str) (now : ℕ) (k : Str) (a : SmtpAccount)
    → AnyAccount k a d
    → AnyAccount k a (create_account d row new_id now).0
create_account-kept d row new_id now k a (b, f, e) =
    create_account_elim (AnyAccount k a) d (b, f, e) row new_id now
      (λ free. (
        b,
        find-cons_free account_id_of (stamped_account row new_id now)
            (λ x. str_eq x.username (stamped_account row new_id now).username) k d.accounts f free,
        e,
      ))

delete_account-kept :
    (d : Directory) (id : Str) (k : Str) (a : SmtpAccount)
    → AnyAccount k a d
    → str_eq k id ≡ false
    → AnyAccount k a (delete_account d id).0
delete_account-kept d id k a (b, f, e) n =
    delete_account_elim (AnyAccount k a) d (b, f, e) id
      (b, find-delete_other account_id_of id k d.accounts n ∙ f, e)

delete_mailbox-kept :
    (d : Directory) (id : Str) (k : Str) (a : SmtpAccount)
    → AnyAccount k a d
    → AnyAccount k a (delete_mailbox d id).0
delete_mailbox-kept d id k a (b, f, e) =
    delete_mailbox_elim (AnyAccount k a) d (b, f, e) id
      (elim (Bool-cases (default_is id b)) [
        | inl y ↦ (
          without_default b,
          found ∙ ap some (rw y refl),
          KeptBut-trans a b (without_default b) e refl,
        )
        | inr n ↦ (b, found ∙ ap some (rw n refl), e)
      ])
  where
    found :
        find account_id_of k (update_where (default_is id) without_default d.accounts)
        ≡ some (if default_is id b then without_default b else b)
    found =
        find-update_where account_id_of (default_is id) without_default (λ _. refl) k d.accounts
        ∙ ap (changed account_id_of (default_is id) without_default) f

module _ (ciphers : Ciphers) (msal : Msal) (mail : Mail) (net : Net) (passwords : Passwords)
    (keyring : Option (Keyring ciphers)) where
  module _ (m : Managed ciphers msal) (now : ℕ) (k : Str) (a : SmtpAccount)
      (h : AnyAccount k a m.directory) (b : is_bootstrap a.managed_by ≡ true) where
    other_account :
        (id : Str) (v : SmtpAccount)
        → find account_id_of id m.directory.accounts ≡ some v
        → is_bootstrap v.managed_by ≡ false
        → str_eq k v.id ≡ false
    other_account id v f n =
        ap (str_eq k) (find-key account_id_of id m.directory.accounts f)
        ∙ other_row account_id_of (λ (x : SmtpAccount). is_bootstrap x.managed_by) k id
            m.directory.accounts h.1 f (ap (λ (x : SmtpAccount). is_bootstrap x.managed_by) h.2 ∙ b)
            n

    perform-account :
        (action : Action)
        → AnyAccount k a (perform ciphers msal mail net passwords keyring m action now).directory
    unfolding perform edited_account
    perform-account (post_credential nonces req id) =
        handle_create_credential_elim ciphers msal keyring nonces (AnyAccount k a) m h req id now
          (λ c. create_credential_elim (AnyAccount k a) m.directory h c id now (λ _. h))
    perform-account (patch_credential nonces id req) =
        handle_update_credential_elim ciphers msal keyring nonces (AnyAccount k a) m h id req now
          (λ c row _ _ _. update_credential_elim (AnyAccount k a) m.directory h row now h)
    perform-account (drop_credential id) =
        handle_delete_credential_elim ciphers msal (AnyAccount k a) m h id
          (λ _ _ _. delete_credential_elim (AnyAccount k a) m.directory h id h)
    perform-account (post_mailbox req id) =
        handle_create_mailbox_elim (AnyAccount k a) m.directory h mail req id now
          (create_mailbox_elim (AnyAccount k a) m.directory h (new_mailbox req) id now (λ _. h))
    perform-account (patch_mailbox id req) =
        handle_update_mailbox_elim (AnyAccount k a) m.directory h mail id req now
          (λ v _ _. update_mailbox_elim (AnyAccount k a) m.directory h (edited_mailbox v req) now h)
    perform-account (drop_mailbox id) =
        handle_delete_mailbox_elim (AnyAccount k a) m.directory h mail id
          (λ v _ _. delete_mailbox-kept m.directory v.id k a h)
    perform-account (post_account req random id new_id) =
        handle_create_account_elim (AnyAccount k a) m.directory h mail (λ _ _ _ g. g) net passwords
          req random id new_id now
          (λ hash. create_account-kept m.directory (new_account req hash) id now k a h)
    perform-account (patch_account id req new_id) =
        handle_update_account_elim (AnyAccount k a) m.directory h mail (λ _ _ _ g. g) net passwords
          id req new_id now
          (λ v f n.
            update_account-other m.directory (edited_account v req) now k a h
              (other_account id v f n))
    perform-account (drop_account id) =
        handle_delete_account_elim (AnyAccount k a) m.directory h mail (λ _ _ _ g. g) net passwords
          id (λ v f n. delete_account-kept m.directory v.id k a h (other_account id v f n))
    perform-account (post_password id given random) =
        handle_reset_account_password_elim (AnyAccount k a) m.directory h mail (λ _ _ _ g. g) net
          passwords id given random now
          (λ v hash f. update_account-password m.directory id v hash now k a h f)

  -- Whatever sequence of requests to the same handlers is made, an account that the bootstrap file
  -- manages is found afterwards, and at most the hash of its password, its default mailbox and the
  -- time of its update have changed.
  pub run-account :
      (actions : List (Action × ℕ)) (m : Managed ciphers msal) (k : Str) (a : SmtpAccount)
      → AnyAccount k a m.directory
      → is_bootstrap a.managed_by ≡ true
      → AnyAccount k a (run ciphers msal mail net passwords keyring m actions).directory
  unfolding run
  run-account [] m k a h b = h
  run-account ((action, now) ∷ rest) m k a h b =
      run-account rest (perform ciphers msal mail net passwords keyring m action now) k a
        (perform-account m now k a h b action) b
