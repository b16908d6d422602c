-- ===== src/Bootstrap/Apply/Once.antt =====
-- The mode apply-once of internal/bootstrap/bootstrap.go.
use smtp_auth_proxy.Prelude.{
  ℕ, option_cases, ◌+◌, ◌≡◌, refl, sym, subst, inl, inr, false, Option, none, some, List, ◌∷◌, ◌++◌,
  Option-cases, [],
}
use smtp_auth_proxy.Strings.{Str, to_lower}
use smtp_auth_proxy.Store.Rows.{find, delete_where}
use smtp_auth_proxy.Store.Users.{Result, ok, err}
use smtp_auth_proxy.Store.Directory.{Directory}
use smtp_auth_proxy.Store.Directory.Credentials.{
  create_credential, get_credential_by_name, credential_name_of,
}
use smtp_auth_proxy.Store.Directory.Mailboxes.{create_mailbox, get_by_address, address_of}
use smtp_auth_proxy.Store.Directory.Accounts.{
  get_account_by_username, account_name_of, set_mailboxes, links_to, senders_to, distinct, link_of,
  sender_of,
}
use smtp_auth_proxy.Store.Directory.Outcomes.{set_mailboxes_elim, set_allowed_senders_elim}
use smtp_auth_proxy.Crypto.Keyring.{Ciphers, Keyring}
use smtp_auth_proxy.Admin.Users.Administered.{result_cases}
use smtp_auth_proxy.Bootstrap.{File, Credential, Mailbox, Account}
use smtp_auth_proxy.Bootstrap.Apply.Progress.{
  Run, BootstrapError, apply_each, fresh_run, id_of, missing_credential, missing_mailbox,
}
use smtp_auth_proxy.Bootstrap.Apply.Credentials.{
  seal_into, declared_credential, create_declared, apply_credential,
}
use smtp_auth_proxy.Bootstrap.Apply.Mailboxes.{
  credential_of, declare_mailbox, place_mailbox, apply_mailbox, blank_mailbox,
}
use smtp_auth_proxy.Bootstrap.Apply.Accounts.{
  mailbox_of, mailboxes_of, link_account, linked, place_account, apply_account, count_created,
}
use smtp_auth_proxy.Bootstrap.Apply.{apply_file}
use smtp_auth_proxy.Bootstrap.Apply.Extension.{
  Extends, sum_cases, Kept, finish-Kept, Noted, After, add_credential, add_mailbox, add_account,
  relink,
}

module _ (ciphers : Ciphers) (keyring : Option (Keyring ciphers)) (draw_id : ℕ → Str)
    (draw_nonces : ℕ → Option Str × Option Str) (sender_id : Str → Str → Str) (now : ℕ)
    (d : Directory) where
  create_declared-Kept :
      (r : Run) (c : Credential)
      → Extends d r.directory
      → (Kept d) (create_declared ciphers keyring false draw_id draw_nonces now r c)
  unfolding create_declared
  create_declared-Kept r c x =
      sum_cases (Kept d)
        (seal_into ciphers keyring false draw_id draw_nonces now r
          (declared_credential ciphers keyring false draw_id draw_nonces now c (draw_id r.drawn)) c)
        (λ _. x)
        (λ row.
          (let added = add_credential now d r.directory x row row.id in
            finish-Kept d (create_credential r.directory row row.id now).1
              (record r {
                directory = (create_credential r.directory row row.id now).0;
                credential_ids = (c.name, row.id) ∷ r.credential_ids;
                created = r.created + 1;
                drawn = r.drawn + 1;
              })
              (record r { directory = (create_credential r.directory row row.id now).0 }) added
              added))

  apply_credential-Kept :
      (r : Run) (c : Credential)
      → Extends d r.directory
      → (Kept d) (apply_credential ciphers keyring false draw_id draw_nonces now r c)
  unfolding apply_credential get_credential_by_name
  apply_credential-Kept r c x =
      elim (Option-cases (find credential_name_of c.name r.directory.credentials)) [
        | inl e ↦ rw (apply_credential, get_credential_by_name, e) (create_declared-Kept r c x)
        | inr (stored, e) ↦ rw (apply_credential, get_credential_by_name, e) x
      ]

  place_mailbox-Kept :
      (r : Run) (m : Mailbox) (id : Str)
      → Extends d r.directory
      → (Kept d) (place_mailbox false draw_id now r m id)
  unfolding place_mailbox get_by_address
  place_mailbox-Kept r m id x =
      elim (Option-cases (find address_of (to_lower m.address) r.directory.mailboxes)) [
        | inl e ↦
            (let new_id = draw_id r.drawn in
              (let row =
                  declare_mailbox false draw_id now (blank_mailbox new_id (to_lower m.address)) m
                    id in
                (let added = add_mailbox now d r.directory x row new_id in
                  rw (place_mailbox, get_by_address, e)
                    (finish-Kept d (create_mailbox r.directory row new_id now).1 _ _ added added))))
        | inr (stored, e) ↦ rw (place_mailbox, get_by_address, e) x
      ]

  credential_of-Noted :
      (r : Run) (m : Mailbox) → Extends d r.directory → (Noted d) (credential_of r m)
  unfolding credential_of get_credential_by_name
  credential_of-Noted r m x =
      option_cases (Noted d) (id_of r.credential_ids m.credential)
        (λ _. elim (Option-cases (find credential_name_of m.credential r.directory.credentials)) [
          | inl e ↦ rw (get_credential_by_name, e) tt
          | inr (stored, e) ↦ rw (get_credential_by_name, e) x
        ])
        (λ _ _. x)

  apply_mailbox-Kept :
      (r : Run) (m : Mailbox)
      → Extends d r.directory
      → (Kept d) (apply_mailbox false draw_id now r m)
  unfolding apply_mailbox
  apply_mailbox-Kept r m x = by_credential (credential_of r m) (credential_of-Noted r m x)
    where
      by_credential :
          (o : Option (Run × Str))
          → (Noted d) o
          → (Kept d) (elim o [
            | none ↦ (r, some missing_credential)
            | some (noted, id) ↦ place_mailbox false draw_id now noted m id
          ])
      by_credential none n = x
      by_credential (some (noted, id)) n = place_mailbox-Kept noted m id n

  link_account-Extends :
      (e : Directory) (id : Str) (ids senders : List Str)
      → Extends d e
      → Extends d (link_account false draw_id sender_id now e id ids senders).0
  unfolding link_account
  link_account-Extends e id ids senders x =
      (let first = set_mailboxes_elim (Extends d) e x id ids (
          relink now d e x (links_to id (distinct ids []) ++ delete_where (link_of id) e.links)
            e.senders) in
        (let dir = (set_mailboxes e id ids).0 in
          result_cases (After d) (set_mailboxes e id ids).1 (λ _ _. first)
            (λ _ _. set_allowed_senders_elim (Extends d) dir first id senders (sender_id id) now (
              relink now d dir first dir.links (
                senders_to id (distinct senders []) (sender_id id) now
                ++ delete_where (sender_of id) dir.senders)))))

  linked-Kept :
      (r : Run) (w : Directory × Result (Unit {0})) (id : Str) (ids : List Str) (a : Account)
      (count : Run → Run)
      → ((s : Run) → (count s).directory ≡ s.directory)
      → Extends d w.0
      → (Kept d) (linked false draw_id sender_id now r w id ids a count)
  unfolding linked
  linked-Kept r (written, err e) id ids a count same x = x
  linked-Kept r (written, ok _) id ids a count same x =
      (let later = link_account-Extends written id ids a.allowed_senders x in
        (let run : Run = record r {
          directory = (link_account false draw_id sender_id now written id ids a.allowed_senders).0;
        } in
          finish-Kept d
            (link_account false draw_id sender_id now written id ids a.allowed_senders).1
            (count run) run (subst (Extends d) (sym (same run)) later) later))

  place_account-Kept :
      (r : Run) (a : Account) (ids : List Str)
      → Extends d r.directory
      → (Kept d) (place_account false draw_id sender_id now r a ids)
  unfolding place_account get_account_by_username
  place_account-Kept r a ids x =
      elim (Option-cases (find account_name_of a.username r.directory.accounts)) [
        | inl e ↦
            rw (place_account, get_account_by_username, e)
              (linked-Kept r _ _ ids a (count_created) (λ _. refl)
                (add_account now d r.directory x _ _))
        | inr (stored, e) ↦ rw (place_account, get_account_by_username, e) x
      ]

  mailbox_of-Noted :
      (r : Run) (address : Str) → Extends d r.directory → (Noted d) (mailbox_of r address)
  unfolding mailbox_of get_by_address
  mailbox_of-Noted r address x =
      option_cases (Noted d) (id_of r.mailbox_ids (to_lower address))
        (λ _. elim (Option-cases (find address_of (to_lower address) r.directory.mailboxes)) [
          | inl e ↦ rw (get_by_address, e) tt
          | inr (stored, e) ↦ rw (get_by_address, e) x
        ])
        (λ _ _. x)

  mailboxes_of-Noted :
      (r : Run) (addresses : List Str)
      → Extends d r.directory
      → (Noted d) (mailboxes_of r addresses)
  unfolding mailboxes_of
  mailboxes_of-Noted r [] x = x
  mailboxes_of-Noted r (address ∷ rest) x =
      by_head (mailbox_of r address) (mailbox_of-Noted r address x)
        (λ noted n. mailboxes_of-Noted noted rest n)
    where
      by_rest :
          (id : Str) (o : Option (Run × List Str))
          → (Noted d) o
          → (Noted d) (elim o as (λ _. Option (Run × List Str)) [
            | none ↦ none
            | some (later, ids) ↦ some (later, id ∷ ids)
          ])
      by_rest id none n = tt
      by_rest id (some (later, ids)) n = n

      by_head :
          (o : Option (Run × Str))
          → (Noted d) o
          → ((noted : Run) → Extends d noted.directory → (Noted d) (mailboxes_of noted rest))
          → (Noted d) (elim o as (λ _. Option (Run × List Str)) [
            | none ↦ none
            | some (noted, id) ↦ elim (mailboxes_of noted rest) [
              | none ↦ none
              | some (later, ids) ↦ some (later, id ∷ ids)
            ]
          ])
      by_head none n later = tt
      by_head (some (noted, id)) n later = by_rest id (mailboxes_of noted rest) (later noted n)

  apply_account-Kept :
      (r : Run) (a : Account)
      → Extends d r.directory
      → (Kept d) (apply_account false draw_id sender_id now r a)
  unfolding apply_account
  apply_account-Kept r a x =
      by_mailboxes (mailboxes_of r a.mailboxes) (mailboxes_of-Noted r a.mailboxes x)
    where
      by_mailboxes :
          (o : Option (Run × List Str))
          → (Noted d) o
          → (Kept d) (elim o [
            | none ↦ (r, some missing_mailbox)
            | some (noted, ids) ↦ place_account false draw_id sender_id now noted a ids
          ])
      by_mailboxes none n = x
      by_mailboxes (some (noted, ids)) n = place_account-Kept noted a ids n

  apply_each-Kept {ℓ} :
      {A : Type ℓ} (step : Run → A → Run × Option BootstrapError)
      → ((r : Run) (y : A) → Extends d r.directory → (Kept d) (step r y))
      → (r : Run) (ys : List A) → Extends d r.directory
      → (Kept d) (apply_each step r ys)
  unfolding apply_each
  apply_each-Kept step keeps r [] x = x
  apply_each-Kept step keeps r (y ∷ ys) x =
      option_cases (Kept d) (step r y).1
        (λ _. apply_each-Kept step keeps (step r y).0 ys (keeps r y x)) (λ _ _. keeps r y x)

  -- In the mode apply-once, whatever the bootstrap file and the keys, the tables of credentials,
  -- mailboxes and accounts are afterwards those from before behind new rows: no row is changed or
  -- goes, also where an error ends the run.
  pub apply_file-Extends :
      (f : File)
      → Extends d
          (apply_file ciphers keyring false draw_id draw_nonces sender_id now d f).0.directory
  unfolding apply_file
  apply_file-Extends f =
      (let first =
          apply_each-Kept (apply_credential ciphers keyring false draw_id draw_nonces now)
            apply_credential-Kept (fresh_run d) f.credentials none_added in
        (let r1 =
            apply_each (apply_credential ciphers keyring false draw_id draw_nonces now)
              (fresh_run d) f.credentials in
          option_cases (Kept d) r1.1
            (λ _.
              (let second =
                  apply_each-Kept (apply_mailbox false draw_id now) apply_mailbox-Kept r1.0
                    f.mailboxes first in
                (let r2 = apply_each (apply_mailbox false draw_id now) r1.0 f.mailboxes in
                  option_cases (Kept d) r2.1
                    (λ _.
                      apply_each-Kept (apply_account false draw_id sender_id now) apply_account-Kept
                        r2.0 f.accounts second)
                    (λ _ _. second))))
            (λ _ _. first)))
    where
      none_added : Extends d d
      none_added = record {
        new_credentials = [];
        new_mailboxes = [];
        new_accounts = [];
        credentials = refl;
        mailboxes = refl;
        accounts = refl;
      }
