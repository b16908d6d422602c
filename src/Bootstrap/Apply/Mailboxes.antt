-- ===== src/Bootstrap/Apply/Mailboxes.antt =====
-- `applyMailbox` of internal/bootstrap/bootstrap.go.
use smtp_auth_proxy.Prelude.{ℕ, ◌+◌, Bool, false, not, Option, none, some, ◌∷◌, if◌then◌else◌, []}
use smtp_auth_proxy.Strings.{Str, to_lower}
use smtp_auth_proxy.Store.Models.{null_int, Mailbox as StoredMailbox, smtp, ui}
use smtp_auth_proxy.Store.Users.{not_found, ok, err}
use smtp_auth_proxy.Store.Directory.Credentials.{get_credential_by_name}
use smtp_auth_proxy.Store.Directory.Mailboxes.{get_by_address, create_mailbox, update_mailbox}
use smtp_auth_proxy.Bootstrap.{Mailbox}
use smtp_auth_proxy.Bootstrap.Apply.Progress.{
  Run, BootstrapError, missing_credential, store_failed, id_of, mailbox_transport, finish,
  managed_by,
}

-- The id of a mailbox's credential, in this file or stored before.
unfoldable pub credential_of : Run → Mailbox → Option (Run × Str)
unfolding id_of
credential_of r m = elim (id_of r.credential_ids m.credential) [
  | some id ↦ some (r, id)
  | none ↦ elim (get_credential_by_name r.directory m.credential) [
    | err e ↦ none
    | ok c ↦ some (record r { credential_ids = (m.credential, c.id) ∷ r.credential_ids }, c.id)
  ]
]

abbrev pub blank_mailbox : Str → Str → StoredMailbox
blank_mailbox id address = record {
  id = id;
  address = address;
  display_name = [];
  oauth_credential_id = [];
  transport = smtp;
  rate_limit_per_min = none;
  max_concurrent = none;
  enabled = false;
  managed_by = ui;
  created_at = 0;
  updated_at = 0;
}

module _ (reconcile : Bool) (draw_id : ℕ → Str) (now : ℕ) where
  -- The fields of a stored mailbox that the file declares.
  unfoldable pub declare_mailbox : StoredMailbox → Mailbox → Str → StoredMailbox
  unfolding mailbox_transport
  declare_mailbox stored m credential_id = record stored {
    display_name = m.display_name;
    oauth_credential_id = credential_id;
    transport = mailbox_transport m;
    rate_limit_per_min = null_int m.rate_limit_per_min;
    max_concurrent = null_int m.max_concurrent;
    enabled = not m.disabled;
    managed_by = managed_by reconcile;
  }

  -- `applyMailbox` with the credential's id.
  unfoldable pub place_mailbox : Run → Mailbox → Str → Run × Option BootstrapError
  unfolding declare_mailbox
  place_mailbox r m credential_id =
      let address = to_lower m.address in
      elim (get_by_address r.directory address) [
        | ok existing ↦
            let noted : Run = record r { mailbox_ids = (address, existing.id) ∷ r.mailbox_ids } in
            if not reconcile
            then (record noted { skipped = r.skipped + 1 }, none)
            else let (later, result) =
                update_mailbox r.directory (declare_mailbox existing m credential_id) now in
              finish result (record noted { directory = later; updated = r.updated + 1 })
                (record noted { directory = later })
        | err not_found ↦
            let id = draw_id r.drawn in
            let (later, result) =
              create_mailbox r.directory
                (declare_mailbox (blank_mailbox id address) m credential_id) id now in
            finish result
              (record r {
                directory = later;
                mailbox_ids = (address, id) ∷ r.mailbox_ids;
                created = r.created + 1;
                drawn = r.drawn + 1;
              })
              (record r { directory = later })
        | err e ↦ (r, some (store_failed e))
      ]

  unfoldable pub apply_mailbox : Run → Mailbox → Run × Option BootstrapError
  unfolding credential_of place_mailbox
  apply_mailbox r m = elim (credential_of r m) [
    | none ↦ (r, some missing_credential)
    | some (noted, id) ↦ place_mailbox noted m id
  ]
