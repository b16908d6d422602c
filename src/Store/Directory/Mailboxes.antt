-- ===== src/Store/Directory/Mailboxes.antt =====
-- The shared mailboxes: internal/store/mailboxes.go. A message keeps its mailbox's address, and its
-- reference, in another table, becomes NULL with the mailbox.
use smtp_auth_proxy.Prelude.{
  ℕ, Bool, false, not, ◌&&◌, ◌||◌, none, some, List, ◌∷◌, ◌==◌, if◌then◌else◌, length,
}
use smtp_auth_proxy.Strings.{Str, str_eq}
use smtp_auth_proxy.Store.Models.{Mailbox, SmtpAccount, Transport, smtp, graph, unknown}
use smtp_auth_proxy.Store.Rows.{any, update_where, delete_where, filter, find, sort_by}
use smtp_auth_proxy.Store.Users.{not_found, conflict, referenced, check_failed, Result, ok, err}
use smtp_auth_proxy.Store.Directory.{
  Directory, Link, mailbox_id_of, has_mailbox_id, has_credential_id, managed, known_transport,
  known_manager,
}

abbrev pub address_of : Mailbox → Str
address_of m = m.address

-- The empty transport is SMTP.
unfoldable pub default_transport : Transport → Transport
default_transport smtp = smtp
default_transport graph = graph
default_transport (unknown s) = if length s == 0 then smtp else unknown s

unfoldable pub stamped_mailbox : Mailbox → Str → ℕ → Mailbox
unfolding managed default_transport
stamped_mailbox m new_id now = record m {
  id = if length m.id == 0 then new_id else m.id;
  managed_by = managed m.managed_by;
  transport = default_transport m.transport;
  created_at = now;
  updated_at = now;
}

unfoldable pub create_mailbox : Directory → Mailbox → Str → ℕ → Directory × Result (Unit {0})
unfolding stamped_mailbox known_transport
create_mailbox dir m new_id now =
    let row = stamped_mailbox m new_id now in
    if not (known_transport row.transport)
    then (dir, err check_failed)
    else if any (λ x. str_eq x.id row.id || str_eq x.address row.address) dir.mailboxes
    then (dir, err conflict)
    else if not (any (has_credential_id row.oauth_credential_id) dir.credentials)
    then (dir, err referenced)
    else (record dir { mailboxes = row ∷ dir.mailboxes }, ok tt)

unfoldable pub get_mailbox : Directory → Str → Result Mailbox
get_mailbox dir id = elim (find mailbox_id_of id dir.mailboxes) [
  | none ↦ err not_found
  | some m ↦ ok m
]

unfoldable pub get_by_address : Directory → Str → Result Mailbox
get_by_address dir address = elim (find address_of address dir.mailboxes) [
  | none ↦ err not_found
  | some m ↦ ok m
]

unfoldable pub list_mailboxes : Directory → List Mailbox
list_mailboxes dir = sort_by address_of dir.mailboxes

-- A link of the account, or its default, names the mailbox.
unfoldable pub may_send_as : Directory → Str → Mailbox → Bool
may_send_as dir account_id m =
    any (λ l. str_eq l.smtp_account_id account_id && str_eq l.mailbox_id m.id) dir.links
    || any
        (λ a.
          str_eq a.id account_id
          && elim a.default_mailbox_id [ none ↦ false | some id ↦ str_eq id m.id ])
        dir.accounts

unfoldable pub list_for_account : Directory → Str → List Mailbox
unfolding may_send_as
list_for_account dir account_id =
    sort_by address_of (filter (may_send_as dir account_id) dir.mailboxes)

abbrev pub updated_mailbox : Mailbox → ℕ → Mailbox → Mailbox
updated_mailbox m now row = record m { id = row.id; created_at = row.created_at; updated_at = now }

unfoldable pub update_mailbox : Directory → Mailbox → ℕ → Directory × Result (Unit {0})
unfolding known_transport known_manager
update_mailbox dir m now =
    if not (any (has_mailbox_id m.id) dir.mailboxes)
    then (dir, err not_found)
    else if not (known_transport m.transport && known_manager m.managed_by)
    then (dir, err check_failed)
    else if any (λ x. not (str_eq x.id m.id) && str_eq x.address m.address) dir.mailboxes
    then (dir, err conflict)
    else if not (any (has_credential_id m.oauth_credential_id) dir.credentials)
    then (dir, err referenced)
    else (
      record dir {
        mailboxes = update_where (has_mailbox_id m.id) (updated_mailbox m now) dir.mailboxes;
      },
      ok tt,
    )

abbrev pub default_is : Str → SmtpAccount → Bool
default_is id a = elim a.default_mailbox_id [ none ↦ false | some m ↦ str_eq m id ]

abbrev pub without_default : SmtpAccount → SmtpAccount
without_default a = record a { default_mailbox_id = none }

-- The links go by cascade, and a default becomes NULL.
unfoldable pub delete_mailbox : Directory → Str → Directory × Result (Unit {0})
delete_mailbox dir id =
    if any (has_mailbox_id id) dir.mailboxes
    then (
      record dir {
        mailboxes = delete_where (has_mailbox_id id) dir.mailboxes;
        accounts = update_where (default_is id) without_default dir.accounts;
        links = delete_where (λ (l : Link). str_eq l.mailbox_id id) dir.links;
      },
      ok tt,
    )
    else (dir, err not_found)
