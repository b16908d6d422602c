-- ===== src/Store/Directory/Accounts.antt =====
-- The devices' credentials: internal/store/accounts.go.
use smtp_auth_proxy.Prelude.{
  ℕ, Bool, true, not, ◌&&◌, ◌||◌, none, some, List, ◌∷◌, ◌++◌, ltb, ◌==◌, if◌then◌else◌, length, [],
}
use smtp_auth_proxy.Strings.{Str, str_eq}
use smtp_auth_proxy.Store.Models.{
  SmtpAccount, AllowedSender, FromPolicy, reject, rewrite, passthrough, other,
}
use smtp_auth_proxy.Store.Rows.{any, update_where, delete_where, filter, find, sort_by}
use smtp_auth_proxy.Store.Users.{not_found, conflict, referenced, check_failed, Result, ok, err}
use smtp_auth_proxy.Store.Directory.{
  Directory, Link, account_id_of, has_account_id, has_mailbox_id, managed, known_policy,
  known_manager,
}

abbrev pub account_name_of : SmtpAccount → Str
account_name_of a = a.username

-- The empty policy is reject.
unfoldable pub default_policy : FromPolicy → FromPolicy
default_policy reject = reject
default_policy rewrite = rewrite
default_policy passthrough = passthrough
default_policy (other s) = if length s == 0 then reject else other s

unfoldable pub stamped_account : SmtpAccount → Str → ℕ → SmtpAccount
unfolding managed default_policy
stamped_account a new_id now = record a {
  id = if length a.id == 0 then new_id else a.id;
  managed_by = managed a.managed_by;
  from_policy = default_policy a.from_policy;
  created_at = now;
  updated_at = now;
}

-- The foreign key of the default mailbox.
unfoldable pub default_exists : Directory → SmtpAccount → Bool
default_exists dir a = elim a.default_mailbox_id [
  | none ↦ true
  | some id ↦ any (has_mailbox_id id) dir.mailboxes
]

unfoldable pub create_account : Directory → SmtpAccount → Str → ℕ → Directory × Result (Unit {0})
unfolding stamped_account known_policy default_exists
create_account dir a new_id now =
    let row = stamped_account a new_id now in
    if not (known_policy row.from_policy)
    then (dir, err check_failed)
    else if any (λ x. str_eq x.id row.id || str_eq x.username row.username) dir.accounts
    then (dir, err conflict)
    else if not (default_exists dir row)
    then (dir, err referenced)
    else (record dir { accounts = row ∷ dir.accounts }, ok tt)

unfoldable pub get_account : Directory → Str → Result SmtpAccount
get_account dir id = elim (find account_id_of id dir.accounts) [
  | none ↦ err not_found
  | some a ↦ ok a
]

unfoldable pub get_account_by_username : Directory → Str → Result SmtpAccount
get_account_by_username dir username = elim (find account_name_of username dir.accounts) [
  | none ↦ err not_found
  | some a ↦ ok a
]

unfoldable pub list_accounts : Directory → List SmtpAccount
list_accounts dir = sort_by account_name_of dir.accounts

-- What `Update` writes into the row; the time of the last use stays.
abbrev pub updated_account : SmtpAccount → ℕ → SmtpAccount → SmtpAccount
updated_account a now row = record a {
  id = row.id;
  last_used_at = row.last_used_at;
  created_at = row.created_at;
  updated_at = now;
}

unfoldable pub update_account : Directory → SmtpAccount → ℕ → Directory × Result (Unit {0})
unfolding known_policy known_manager default_exists
update_account dir a now =
    if not (any (has_account_id a.id) dir.accounts)
    then (dir, err not_found)
    else if not (known_policy a.from_policy && known_manager a.managed_by)
    then (dir, err check_failed)
    else if any (λ x. not (str_eq x.id a.id) && str_eq x.username a.username) dir.accounts
    then (dir, err conflict)
    else if not (default_exists dir a)
    then (dir, err referenced)
    else (
      record dir {
        accounts = update_where (has_account_id a.id) (updated_account a now) dir.accounts;
      },
      ok tt,
    )

abbrev pub used_at : ℕ → SmtpAccount → SmtpAccount
used_at now a = record a { last_used_at = some now }

unfoldable pub touch_last_used : Directory → Str → ℕ → Directory
touch_last_used dir id now = record dir {
  accounts = update_where (has_account_id id) (used_at now) dir.accounts;
}

abbrev pub link_of : Str → Link → Bool
link_of account_id l = str_eq l.smtp_account_id account_id

abbrev pub sender_of : Str → AllowedSender → Bool
sender_of account_id s = str_eq s.smtp_account_id account_id

-- The links and the allowed senders go by cascade.
unfoldable pub delete_account : Directory → Str → Directory × Result (Unit {0})
delete_account dir id =
    if any (has_account_id id) dir.accounts
    then (
      record dir {
        accounts = delete_where (has_account_id id) dir.accounts;
        links = delete_where (link_of id) dir.links;
        senders = delete_where (sender_of id) dir.senders;
      },
      ok tt,
    )
    else (dir, err not_found)

-- The set `seen` of `SetMailboxes` and `SetAllowedSenders`: the first of each text.
unfoldable pub distinct : List Str → List Str → List Str
distinct [] seen = []
distinct (s ∷ rest) seen =
    let later = distinct rest (s ∷ seen) in
    let same = distinct rest seen in if any (str_eq s) seen then same else s ∷ later

unfoldable pub links_to : Str → List Str → List Link
links_to account_id [] = []
links_to account_id (id ∷ ids) =
    record { smtp_account_id = account_id; mailbox_id = id } ∷ links_to account_id ids

abbrev pub missing_mailbox : Directory → Str → Bool
missing_mailbox dir id = not (any (has_mailbox_id id) dir.mailboxes)

-- A failure rolls the transaction back.
unfoldable pub set_mailboxes : Directory → Str → List Str → Directory × Result (Unit {0})
unfolding distinct links_to
set_mailboxes dir account_id mailbox_ids =
    let ids = distinct mailbox_ids [] in
    if ltb 0 (length ids)
      && (not (any (has_account_id account_id) dir.accounts) || any (missing_mailbox dir) ids)
    then (dir, err referenced)
    else (
      record dir { links = links_to account_id ids ++ delete_where (link_of account_id) dir.links },
      ok tt,
    )

abbrev pub pattern_of : AllowedSender → Str
pattern_of s = s.pattern

unfoldable pub allowed_senders : Directory → Str → List AllowedSender
allowed_senders dir account_id = sort_by pattern_of (filter (sender_of account_id) dir.senders)

-- The rows, with the id that each one draws.
unfoldable pub senders_to : Str → List Str → (Str → Str) → ℕ → List AllowedSender
senders_to account_id [] new_id now = []
senders_to account_id (p ∷ ps) new_id now =
    record { id = new_id p; smtp_account_id = account_id; pattern = p; created_at = now }
    ∷ senders_to account_id ps new_id now

-- `new_id` is the id that `NewID` draws for a pattern; no two ids that are drawn are the same.
unfoldable pub set_allowed_senders :
    Directory → Str → List Str → (Str → Str) → ℕ → Directory × Result (Unit {0})
unfolding distinct senders_to
set_allowed_senders dir account_id patterns new_id now =
    let ps = distinct patterns [] in
    if ltb 0 (length ps) && not (any (has_account_id account_id) dir.accounts)
    then (dir, err referenced)
    else (
      record dir {
        senders =
            senders_to account_id ps new_id now ++ delete_where (sender_of account_id) dir.senders;
      },
      ok tt,
    )
