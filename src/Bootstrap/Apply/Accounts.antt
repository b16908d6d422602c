-- ===== src/Bootstrap/Apply/Accounts.antt =====
-- `applyAccount` of internal/bootstrap/bootstrap.go.
use smtp_auth_proxy.Prelude.{
  ℕ, ◌+◌, Bool, false, not, Option, none, some, List, ◌∷◌, ◌==◌, if◌then◌else◌, length, [],
}
use smtp_auth_proxy.Strings.{Str, to_lower}
use smtp_auth_proxy.Store.Models.{null_int, null_string, SmtpAccount, reject, ui}
use smtp_auth_proxy.Store.Users.{not_found, Result, ok, err}
use smtp_auth_proxy.Store.Directory.{Directory}
use smtp_auth_proxy.Store.Directory.Mailboxes.{get_by_address}
use smtp_auth_proxy.Store.Directory.Accounts.{
  get_account_by_username, create_account, update_account, set_mailboxes, set_allowed_senders,
}
use smtp_auth_proxy.Bootstrap.{Account}
use smtp_auth_proxy.Bootstrap.Apply.Progress.{
  Run, BootstrapError, missing_mailbox, store_failed, id_of, account_policy, finish, managed_by,
}

-- The id of a mailbox, in this file or stored before.
unfoldable pub mailbox_of : Run → Str → Option (Run × Str)
unfolding id_of
mailbox_of r address =
    let normalized = to_lower address in
    elim (id_of r.mailbox_ids normalized) [
      | some id ↦ some (r, id)
      | none ↦ elim (get_by_address r.directory normalized) [
        | err e ↦ none
        | ok m ↦ some (record r { mailbox_ids = (normalized, m.id) ∷ r.mailbox_ids }, m.id)
      ]
    ]

-- The loop over an account's mailboxes; `none` is a mailbox that is nowhere.
unfoldable pub mailboxes_of : Run → List Str → Option (Run × List Str)
unfolding mailbox_of
mailboxes_of r [] = some (r, [])
mailboxes_of r (address ∷ rest) = elim (mailbox_of r address) [
  | none ↦ none
  | some (noted, id) ↦ elim (mailboxes_of noted rest) [
    | none ↦ none
    | some (later, ids) ↦ some (later, id ∷ ids)
  ]
]

abbrev pub first_or_blank : List Str → Str
first_or_blank [] = []
first_or_blank (id ∷ _) = id

-- A default mailbox that is not in the map gives the empty id.
unfoldable pub default_of : Run → Account → List Str → Str
unfolding id_of
default_of r a ids =
    if length a.default_mailbox == 0
    then first_or_blank ids
    else elim (id_of r.mailbox_ids (to_lower a.default_mailbox)) [ none ↦ [] | some id ↦ id ]

abbrev pub blank_account : Str → Str → SmtpAccount
blank_account id username = record {
  id = id;
  username = username;
  password_hash = [];
  description = [];
  default_mailbox_id = none;
  from_policy = reject;
  allow_cidrs = [];
  rate_limit_per_min = none;
  enabled = false;
  last_used_at = none;
  managed_by = ui;
  created_at = 0;
  updated_at = 0;
}

abbrev pub count_updated : Run → Run
count_updated r = record r { updated = r.updated + 1 }

abbrev pub count_created : Run → Run
count_created r = record r { created = r.created + 1; drawn = r.drawn + 1 }

module _ (reconcile : Bool) (draw_id : ℕ → Str) (sender_id : Str → Str → Str) (now : ℕ) where
  -- The fields of a stored account that the file declares.
  unfoldable pub declare_account : SmtpAccount → Account → Str → SmtpAccount
  unfolding account_policy
  declare_account stored a default_id = record stored {
    description = a.description;
    password_hash = a.password_hash;
    default_mailbox_id = null_string default_id;
    from_policy = account_policy a;
    allow_cidrs = a.allow_cidrs;
    rate_limit_per_min = null_int a.rate_limit_per_min;
    enabled = not a.disabled;
    managed_by = managed_by reconcile;
  }

  -- `linkAccount`
  unfoldable pub link_account :
      Directory → Str → List Str → List Str → Directory × Result (Unit {0})
  link_account dir id mailbox_ids senders =
      let (linked, result) = set_mailboxes dir id mailbox_ids in
      elim result [
        | err e ↦ (linked, err e)
        | ok _ ↦ set_allowed_senders linked id senders (sender_id id) now
      ]

  -- The links of an account that the statement wrote; `counted` is the run where they succeed.
  unfoldable pub linked :
      Run
      → Directory × Result (Unit {0})
      → Str
      → List Str
      → Account
      → (Run → Run)
      → Run × Option BootstrapError
  unfolding link_account
  linked r (written, result) id ids a count = elim result [
    | err e ↦ (record r { directory = written }, some (store_failed e))
    | ok _ ↦
        let (later, answer) = link_account written id ids a.allowed_senders in
        finish answer (count (record r { directory = later })) (record r { directory = later })
  ]

  -- `applyAccount` with the ids of the mailboxes.
  unfoldable pub place_account : Run → Account → List Str → Run × Option BootstrapError
  unfolding default_of declare_account linked
  place_account r a ids = elim (get_account_by_username r.directory a.username) [
    | ok existing ↦
        if not reconcile
        then (record r { skipped = r.skipped + 1 }, none)
        else linked r
            (update_account r.directory (declare_account existing a (default_of r a ids)) now)
            existing.id ids a count_updated
    | err not_found ↦
        let id = draw_id r.drawn in
        linked r
          (create_account r.directory
            (declare_account (blank_account id a.username) a (default_of r a ids)) id now)
          id ids a count_created
    | err e ↦ (r, some (store_failed e))
  ]

  unfoldable pub apply_account : Run → Account → Run × Option BootstrapError
  unfolding mailboxes_of place_account
  apply_account r a = elim (mailboxes_of r a.mailboxes) [
    | none ↦ (r, some missing_mailbox)
    | some (noted, ids) ↦ place_account noted a ids
  ]
