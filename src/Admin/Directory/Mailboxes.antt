-- ===== src/Admin/Directory/Mailboxes.antt =====
-- The handlers of mailboxes: internal/adminapi/mailboxes.go.
use smtp_auth_proxy.Prelude.{
  ℕ, Bool, true, false, not, ◌&&◌, ◌||◌, Option, none, some, List, ltb, ◌==◌, if◌then◌else◌, length,
  [],
}
use smtp_auth_proxy.Strings.{Str, str_eq, codes, trim_space, to_lower}
use smtp_auth_proxy.Store.Models.{ℤ, null_int, Mailbox, Transport, smtp, graph, unknown, unmanaged}
use smtp_auth_proxy.Store.Users.{ok, err}
use smtp_auth_proxy.Store.Directory.{Directory}
use smtp_auth_proxy.Store.Directory.Mailboxes.{
  get_mailbox, create_mailbox, update_mailbox, delete_mailbox, stamped_mailbox, updated_mailbox,
}
use smtp_auth_proxy.Policy.Address.{Mail, parse_address, ok as parsed, err as unparsed}
use smtp_auth_proxy.Queue.RateLimit.Budget.{
  exchange_messages_per_minute, exchange_concurrent_connections,
}
use smtp_auth_proxy.Admin.Users.{checked_field, or_else}
use smtp_auth_proxy.Admin.Directory.{
  Answer, immutable, invalid, store_error, is_bootstrap, changed_text, limit_refused, answer_of,
}

pub record MailboxRequest : Type 0 where
  pub address : Str
  pub display_name : Str
  pub oauth_credential_id : Str
  pub transport : Str
  pub rate_limit_per_min : Option ℤ
  pub max_concurrent : Option ℤ
  pub enabled : Option Bool

-- The conversion of a string to a `Transport`.
unfoldable pub transport_of : Str → Transport
transport_of s =
    if str_eq s (codes "smtp") then smtp else if str_eq s (codes "graph") then graph else unknown s

abbrev pub transport_refused : Str → Bool → Bool
transport_refused s creating =
    if length s == 0 then creating else not (str_eq s (codes "smtp") || str_eq s (codes "graph"))

unfoldable pub address_refused : Mail → Str → Bool
address_refused mail raw =
    let address = trim_space raw in
    if length address == 0
    then true
    else elim (parse_address mail address) [ parsed a ↦ false | unparsed e ↦ true ]

-- `validateMailbox`
unfoldable pub invalid_mailbox : Mail → MailboxRequest → Bool → List Str
unfolding address_refused limit_refused
invalid_mailbox mail req creating =
    checked_field ((creating || not (length req.address == 0)) && address_refused mail req.address)
      (codes "address")
      (checked_field (creating && length (trim_space req.oauth_credential_id) == 0)
        (codes "oauthCredentialId")
        (checked_field (transport_refused req.transport creating) (codes "transport") (
          checked_field (limit_refused exchange_messages_per_minute req.rate_limit_per_min)
            (codes "rateLimitPerMin")
            (checked_field (limit_refused exchange_concurrent_connections req.max_concurrent)
              (codes "maxConcurrent") []))))

-- A limit of a request, or the old one.
abbrev pub changed_limit : Option ℤ → Option ℕ → Option ℕ
changed_limit none old = old
changed_limit (some n) old = null_int n

unfoldable pub new_mailbox : MailboxRequest → Mailbox
unfolding transport_of
new_mailbox req = record {
  id = [];
  address = to_lower (trim_space req.address);
  display_name = trim_space req.display_name;
  oauth_credential_id = req.oauth_credential_id;
  transport = transport_of req.transport;
  rate_limit_per_min = changed_limit req.rate_limit_per_min none;
  max_concurrent = changed_limit req.max_concurrent none;
  enabled = or_else req.enabled true;
  managed_by = unmanaged;
  created_at = 0;
  updated_at = 0;
}

unfoldable pub handle_create_mailbox :
    Mail → Directory → MailboxRequest → Str → ℕ → Directory × Answer Mailbox
unfolding invalid_mailbox new_mailbox
handle_create_mailbox mail dir req new_id now =
    let fields = invalid_mailbox mail req true in
    if ltb 0 (length fields)
    then (dir, invalid fields)
    else let (later, result) = create_mailbox dir (new_mailbox req) new_id now in
      (later, answer_of result (stamped_mailbox (new_mailbox req) new_id now))

unfoldable pub edited_mailbox : Mailbox → MailboxRequest → Mailbox
unfolding transport_of changed_text
edited_mailbox m req = record m {
  address = if length req.address == 0 then m.address else to_lower (trim_space req.address);
  display_name = changed_text req.display_name m.display_name;
  oauth_credential_id =
      if length req.oauth_credential_id == 0
      then m.oauth_credential_id
      else req.oauth_credential_id;
  transport = if length req.transport == 0 then m.transport else transport_of req.transport;
  rate_limit_per_min = changed_limit req.rate_limit_per_min m.rate_limit_per_min;
  max_concurrent = changed_limit req.max_concurrent m.max_concurrent;
  enabled = or_else req.enabled m.enabled;
}

unfoldable pub handle_update_mailbox :
    Mail → Directory → Str → MailboxRequest → ℕ → Directory × Answer Mailbox
unfolding is_bootstrap invalid_mailbox edited_mailbox
handle_update_mailbox mail dir id req now = elim (get_mailbox dir id) [
  | err e ↦ (dir, store_error e)
  | ok m ↦
      let fields = invalid_mailbox mail req false in
      if is_bootstrap m.managed_by
      then (dir, immutable)
      else if ltb 0 (length fields)
      then (dir, invalid fields)
      else let (later, result) = update_mailbox dir (edited_mailbox m req) now in
        (later, answer_of result (updated_mailbox (edited_mailbox m req) now m))
]

unfoldable pub handle_delete_mailbox : Directory → Str → Directory × Answer (Unit {0})
unfolding is_bootstrap
handle_delete_mailbox dir id = elim (get_mailbox dir id) [
  | err e ↦ (dir, store_error e)
  | ok m ↦
      if is_bootstrap m.managed_by
      then (dir, immutable)
      else let (later, result) = delete_mailbox dir m.id in (later, answer_of result tt)
]
