-- ===== src/Store/Directory/Outcomes.antt =====
-- What each statement of the directory's repositories can leave: the rows as they were, or the one
-- change that it is about: internal/store/credentials.go, mailboxes.go and accounts.go.
use smtp_auth_proxy.Prelude.{
  ℕ, ◌≡◌, false, not, ◌&&◌, ◌||◌, List, ◌∷◌, ◌++◌, ltb, if_cases, length, [],
}
use smtp_auth_proxy.Strings.{Str, str_eq}
use smtp_auth_proxy.Store.Models.{OauthCredential, Mailbox, SmtpAccount}
use smtp_auth_proxy.Store.Rows.{any, update_where, delete_where}
use smtp_auth_proxy.Store.Directory.{
  Directory, Link, has_credential_id, has_mailbox_id, has_account_id, known_auth, known_transport,
  known_policy, known_manager,
}
use smtp_auth_proxy.Store.Directory.Credentials.{
  create_credential, update_credential, delete_credential, stamped_credential, updated_credential,
}
use smtp_auth_proxy.Store.Directory.Mailboxes.{
  create_mailbox, update_mailbox, delete_mailbox, stamped_mailbox, updated_mailbox, default_is,
  without_default,
}
use smtp_auth_proxy.Store.Directory.Accounts.{
  create_account, update_account, delete_account, stamped_account, updated_account, default_exists,
  link_of, sender_of, distinct, links_to, senders_to, missing_mailbox, set_mailboxes,
  set_allowed_senders,
}

module _ {ℓ} (P : Directory → Type ℓ) (dir : Directory) (same : P dir) where
  abbrev After {κ} : {B : Type κ} → Directory × B → Type ℓ
  After r = P r.0

  pub create_credential_elim :
      (c : OauthCredential) (new_id : Str) (now : ℕ)
      → (any
              (λ x.
                str_eq x.id (stamped_credential c new_id now).id
                || str_eq x.name (stamped_credential c new_id now).name)
              dir.credentials
            ≡ false
          → P (record dir { credentials = stamped_credential c new_id now ∷ dir.credentials }))
      → P (create_credential dir c new_id now).0
  unfolding create_credential
  create_credential_elim c new_id now step =
      let row = stamped_credential c new_id now in
      if_cases After (not (known_auth row.auth_type)) (λ _. same)
        (λ _.
          if_cases After (any (λ x. str_eq x.id row.id || str_eq x.name row.name) dir.credentials)
            (λ _. same) step)

  pub update_credential_elim :
      (c : OauthCredential) (now : ℕ)
      → P (record dir {
        credentials =
            update_where (has_credential_id c.id) (updated_credential c now) dir.credentials;
      })
      → P (update_credential dir c now).0
  unfolding update_credential
  update_credential_elim c now step =
      if_cases After (not (any (has_credential_id c.id) dir.credentials)) (λ _. same)
        (λ _.
          if_cases After (not (known_auth c.auth_type && known_manager c.managed_by)) (λ _. same)
            (λ _.
              if_cases After
                (any (λ x. not (str_eq x.id c.id) && str_eq x.name c.name) dir.credentials)
                (λ _. same) (λ _. step)))

  pub delete_credential_elim :
      (id : Str)
      → P (record dir { credentials = delete_where (has_credential_id id) dir.credentials })
      → P (delete_credential dir id).0
  unfolding delete_credential
  delete_credential_elim id step =
      if_cases After (not (any (has_credential_id id) dir.credentials)) (λ _. same)
        (λ _.
          if_cases After (any (λ m. str_eq m.oauth_credential_id id) dir.mailboxes) (λ _. same)
            (λ _. step))

  pub create_mailbox_elim :
      (m : Mailbox) (new_id : Str) (now : ℕ)
      → (any
              (λ x.
                str_eq x.id (stamped_mailbox m new_id now).id
                || str_eq x.address (stamped_mailbox m new_id now).address)
              dir.mailboxes
            ≡ false
          → P (record dir { mailboxes = stamped_mailbox m new_id now ∷ dir.mailboxes }))
      → P (create_mailbox dir m new_id now).0
  unfolding create_mailbox
  create_mailbox_elim m new_id now step =
      let row = stamped_mailbox m new_id now in
      if_cases After (not (known_transport row.transport)) (λ _. same)
        (λ _.
          if_cases After
            (any (λ x. str_eq x.id row.id || str_eq x.address row.address) dir.mailboxes)
            (λ _. same)
            (λ free.
              if_cases After (not (any (has_credential_id row.oauth_credential_id) dir.credentials))
                (λ _. same) (λ _. step free)))

  pub update_mailbox_elim :
      (m : Mailbox) (now : ℕ)
      → P (record dir {
        mailboxes = update_where (has_mailbox_id m.id) (updated_mailbox m now) dir.mailboxes;
      })
      → P (update_mailbox dir m now).0
  unfolding update_mailbox
  update_mailbox_elim m now step =
      if_cases After (not (any (has_mailbox_id m.id) dir.mailboxes)) (λ _. same)
        (λ _.
          if_cases After (not (known_transport m.transport && known_manager m.managed_by))
            (λ _. same)
            (λ _.
              if_cases After
                (any (λ x. not (str_eq x.id m.id) && str_eq x.address m.address) dir.mailboxes)
                (λ _. same)
                (λ _.
                  if_cases After
                    (not (any (has_credential_id m.oauth_credential_id) dir.credentials))
                    (λ _. same) (λ _. step))))

  pub delete_mailbox_elim :
      (id : Str)
      → P (record dir {
        mailboxes = delete_where (has_mailbox_id id) dir.mailboxes;
        accounts = update_where (default_is id) without_default dir.accounts;
        links = delete_where (λ (l : Link). str_eq l.mailbox_id id) dir.links;
      })
      → P (delete_mailbox dir id).0
  unfolding delete_mailbox
  delete_mailbox_elim id step =
      if_cases After (any (has_mailbox_id id) dir.mailboxes) (λ _. step) (λ _. same)

  pub create_account_elim :
      (a : SmtpAccount) (new_id : Str) (now : ℕ)
      → (any
              (λ x.
                str_eq x.id (stamped_account a new_id now).id
                || str_eq x.username (stamped_account a new_id now).username)
              dir.accounts
            ≡ false
          → P (record dir { accounts = stamped_account a new_id now ∷ dir.accounts }))
      → P (create_account dir a new_id now).0
  unfolding create_account
  create_account_elim a new_id now step =
      let row = stamped_account a new_id now in
      if_cases After (not (known_policy row.from_policy)) (λ _. same)
        (λ _.
          if_cases After
            (any (λ x. str_eq x.id row.id || str_eq x.username row.username) dir.accounts)
            (λ _. same)
            (λ free. if_cases After (not (default_exists dir row)) (λ _. same) (λ _. step free)))

  pub update_account_elim :
      (a : SmtpAccount) (now : ℕ)
      → P (record dir {
        accounts = update_where (has_account_id a.id) (updated_account a now) dir.accounts;
      })
      → P (update_account dir a now).0
  unfolding update_account
  update_account_elim a now step =
      if_cases After (not (any (has_account_id a.id) dir.accounts)) (λ _. same)
        (λ _.
          if_cases After (not (known_policy a.from_policy && known_manager a.managed_by))
            (λ _. same)
            (λ _.
              if_cases After
                (any (λ x. not (str_eq x.id a.id) && str_eq x.username a.username) dir.accounts)
                (λ _. same)
                (λ _. if_cases After (not (default_exists dir a)) (λ _. same) (λ _. step))))

  pub delete_account_elim :
      (id : Str)
      → P (record dir {
        accounts = delete_where (has_account_id id) dir.accounts;
        links = delete_where (link_of id) dir.links;
        senders = delete_where (sender_of id) dir.senders;
      })
      → P (delete_account dir id).0
  unfolding delete_account
  delete_account_elim id step =
      if_cases After (any (has_account_id id) dir.accounts) (λ _. step) (λ _. same)

  pub set_mailboxes_elim :
      (account_id : Str) (ids : List Str)
      → P (record dir {
        links =
            links_to account_id (distinct ids []) ++ delete_where (link_of account_id) dir.links;
      })
      → P (set_mailboxes dir account_id ids).0
  unfolding set_mailboxes
  set_mailboxes_elim account_id ids step =
      if_cases After
        (ltb 0 (length (distinct ids []))
          && (not (any (has_account_id account_id) dir.accounts)
              || any (missing_mailbox dir) (distinct ids [])))
        (λ _. same) (λ _. step)

  pub set_allowed_senders_elim :
      (account_id : Str) (patterns : List Str) (new_id : Str → Str) (now : ℕ)
      → P (record dir {
        senders =
            senders_to account_id (distinct patterns []) new_id now
            ++ delete_where (sender_of account_id) dir.senders;
      })
      → P (set_allowed_senders dir account_id patterns new_id now).0
  unfolding set_allowed_senders
  set_allowed_senders_elim account_id patterns new_id now step =
      if_cases After
        (ltb 0 (length (distinct patterns []))
          && not (any (has_account_id account_id) dir.accounts))
        (λ _. same) (λ _. step)
