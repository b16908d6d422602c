-- ===== src/Admin/Directory/Accounts.antt =====
-- The handlers of accounts: internal/adminapi/accounts.go.
use smtp_auth_proxy.Prelude.{
  ℕ, Bool, true, false, not, ◌&&◌, ◌||◌, Option, none, some, List, map, ltb, ◌==◌, if◌then◌else◌,
  is_some, length, [],
}
use smtp_auth_proxy.Strings.{Str, str_eq, codes, trim_space}
use smtp_auth_proxy.Store.Models.{
  ℤ, null_string, SmtpAccount, FromPolicy, reject, rewrite, passthrough, other, ManagedBy,
  unmanaged,
}
use smtp_auth_proxy.Store.Rows.{any}
use smtp_auth_proxy.Store.Users.{Result, ok, err}
use smtp_auth_proxy.Store.Directory.{Directory, mailbox_id_of}
use smtp_auth_proxy.Store.Directory.Mailboxes.{list_for_account, address_of}
use smtp_auth_proxy.Store.Directory.Accounts.{
  get_account, create_account, update_account, delete_account, set_mailboxes, set_allowed_senders,
  allowed_senders, pattern_of, stamped_account, updated_account,
}
use smtp_auth_proxy.Policy.Address.{Mail, validate_pattern}
use smtp_auth_proxy.Policy.Source.{Net}
use smtp_auth_proxy.Queue.RateLimit.Budget.{exchange_messages_per_minute}
use smtp_auth_proxy.Admin.Local.{Passwords}
use smtp_auth_proxy.Admin.Users.{checked_field, or_else}
use smtp_auth_proxy.Admin.Directory.{
  Answer, answered, immutable, internal, invalid, store_error, is_bootstrap, changed_text,
  limit_refused, answer_of,
}
use smtp_auth_proxy.Admin.Directory.Mailboxes.{changed_limit}

pub record AccountRequest : Type 0 where
  pub username : Str
  pub description : Str
  pub password : Option Str
  pub default_mailbox_id : Option Str
  pub mailbox_ids : Option (List Str)
  pub allowed_senders : Option (List Str)
  pub from_policy : Str
  pub allow_cidrs : Option (List Str)
  pub rate_limit_per_min : Option ℤ
  pub enabled : Option Bool

-- The answer, which has no hash.
pub record AccountResponse : Type 0 where
  pub id : Str
  pub username : Str
  pub description : Str
  pub default_mailbox_id : Option Str
  pub mailbox_ids : List Str
  pub mailbox_addresses : List Str
  pub allowed_senders : List Str
  pub from_policy : FromPolicy
  pub allow_cidrs : List Str
  pub rate_limit_per_min : Option ℕ
  pub enabled : Bool
  pub last_used_at : Option ℕ
  pub managed_by : ManagedBy
  pub created_at : ℕ
  pub updated_at : ℕ

unfoldable pub to_account_response : Directory → SmtpAccount → AccountResponse
to_account_response dir a = record {
  id = a.id;
  username = a.username;
  description = a.description;
  default_mailbox_id = a.default_mailbox_id;
  mailbox_ids = map mailbox_id_of (list_for_account dir a.id);
  mailbox_addresses = map address_of (list_for_account dir a.id);
  allowed_senders = map pattern_of (allowed_senders dir a.id);
  from_policy = a.from_policy;
  allow_cidrs = a.allow_cidrs;
  rate_limit_per_min = a.rate_limit_per_min;
  enabled = a.enabled;
  last_used_at = a.last_used_at;
  managed_by = a.managed_by;
  created_at = a.created_at;
  updated_at = a.updated_at;
}

-- The conversion of a string to a `FromPolicy`.
unfoldable pub policy_of : Str → FromPolicy
policy_of s =
    if str_eq s (codes "reject")
    then reject
    else if str_eq s (codes "rewrite")
    then rewrite
    else if str_eq s (codes "passthrough")
    then passthrough
    else other s

-- The password, and whether it is the one that `GeneratePassword` gave; `none` is its failure.
unfoldable pub password_for : Option Str → Option Str → Option (Str × Bool)
password_for none random = elim random [ none ↦ none | some p ↦ some (p, true) ]
password_for (some given) random =
    if length given == 0
    then elim random [ none ↦ none | some p ↦ some (p, true) ]
    else some (given, false)

abbrev pub min_account_password : ℕ
min_account_password = 8

abbrev pub password_refused : Option Str → Bool
password_refused none = false
password_refused (some p) = not (length p == 0) && ltb (length p) min_account_password

abbrev pub policy_refused : Str → Bool
policy_refused s =
    not (length s == 0)
    && not
        (str_eq s (codes "reject") || str_eq s (codes "rewrite") || str_eq s (codes "passthrough"))

abbrev pub texts_refused : (Str → Bool) → Option (List Str) → Bool
texts_refused refused none = false
texts_refused refused (some texts) = any refused texts

-- `validateAccount`
unfoldable pub invalid_account : Mail → Net → AccountRequest → Bool → List Str
unfolding limit_refused
invalid_account mail net req creating =
    checked_field (creating && length (trim_space req.username) == 0) (codes "username") (
      checked_field (password_refused req.password) (codes "password") (
        checked_field (policy_refused req.from_policy) (codes "fromPolicy") (
          checked_field (texts_refused (λ p. is_some (validate_pattern mail p)) req.allowed_senders)
            (codes "allowedSenders")
            (checked_field (texts_refused (λ c. not (is_some (net.parse_cidr c))) req.allow_cidrs)
              (codes "allowCidrs")
              (checked_field (limit_refused exchange_messages_per_minute req.rate_limit_per_min)
                (codes "rateLimitPerMin") [])))))

unfoldable pub new_account : AccountRequest → Str → SmtpAccount
unfolding policy_of
new_account req hash = record {
  id = [];
  username = trim_space req.username;
  password_hash = hash;
  description = trim_space req.description;
  default_mailbox_id = elim req.default_mailbox_id [ none ↦ none | some id ↦ null_string id ];
  from_policy = if length req.from_policy == 0 then reject else policy_of req.from_policy;
  allow_cidrs = or_else req.allow_cidrs [];
  rate_limit_per_min = changed_limit req.rate_limit_per_min none;
  enabled = or_else req.enabled true;
  last_used_at = none;
  managed_by = unmanaged;
  created_at = 0;
  updated_at = 0;
}

unfoldable pub edited_account : SmtpAccount → AccountRequest → SmtpAccount
unfolding changed_text policy_of
edited_account a req = record a {
  username = changed_text req.username a.username;
  description = changed_text req.description a.description;
  default_mailbox_id = elim req.default_mailbox_id [
    | none ↦ a.default_mailbox_id
    | some id ↦ null_string id
  ];
  from_policy = if length req.from_policy == 0 then a.from_policy else policy_of req.from_policy;
  allow_cidrs = or_else req.allow_cidrs a.allow_cidrs;
  rate_limit_per_min = changed_limit req.rate_limit_per_min a.rate_limit_per_min;
  enabled = or_else req.enabled a.enabled;
}

-- The senders of `applyAccountLinks`.
abbrev pub apply_senders :
    Directory → Str → Option (List Str) → (Str → Str) → ℕ → Directory × Result (Unit {0})
apply_senders dir id none new_id now = (dir, ok tt)
apply_senders dir id (some patterns) new_id now = set_allowed_senders dir id patterns new_id now

-- Each of the two sets is a transaction of its own.
unfoldable pub apply_account_links :
    Directory → Str → AccountRequest → (Str → Str) → ℕ → Directory × Result (Unit {0})
apply_account_links dir id req new_id now = elim req.mailbox_ids [
  | none ↦ apply_senders dir id req.allowed_senders new_id now
  | some ids ↦
      let (later, result) = set_mailboxes dir id ids in
      elim result [
        | err e ↦ (later, err e)
        | ok _ ↦ apply_senders later id req.allowed_senders new_id now
      ]
]

-- The end of both handlers, for an account that is written.
unfoldable pub link_account :
    Directory → SmtpAccount → AccountRequest → (Str → Str) → ℕ → Directory × Answer AccountResponse
unfolding apply_account_links to_account_response
link_account dir a req new_id now =
    let (later, result) = apply_account_links dir a.id req new_id now in
    (later, answer_of result (to_account_response later a))

abbrev pub with_password {ℓ κ} : {A : Type ℓ} {B : Type κ} → B → Answer A → Answer (A × B)
with_password p (answered x) = answered (x, p)
with_password p immutable = immutable
with_password p internal = internal
with_password p (invalid fields) = invalid fields
with_password p (store_error e) = store_error e

module _ (mail : Mail) (net : Net) (passwords : Passwords) where
  -- The part of `handleCreateAccount` after the hash.
  unfoldable pub insert_account :
      Directory
      → SmtpAccount
      → AccountRequest
      → Str
      → (Str → Str)
      → ℕ
      → Directory × Answer AccountResponse
  unfolding link_account
  insert_account dir a req id new_id now =
      let (later, result) = create_account dir a id now in
      elim result [
        | err e ↦ (later, store_error e)
        | ok _ ↦ link_account later (stamped_account a id now) req new_id now
      ]

  -- `random` is what `GeneratePassword` gives, `id` the account's id, and `new_id` those of its
  -- senders. The answer has the password.
  unfoldable pub handle_create_account :
      Directory
      → AccountRequest
      → Option Str
      → Str
      → (Str → Str)
      → ℕ
      → Directory × Answer (AccountResponse × Str)
  unfolding invalid_account password_for new_account insert_account
  handle_create_account dir req random id new_id now =
      let fields = invalid_account mail net req true in
      if ltb 0 (length fields)
      then (dir, invalid fields)
      else elim (password_for req.password random) [
        | none ↦ (dir, internal)
        | some (password, generated) ↦ elim (passwords.hash password) [
          | none ↦ (dir, internal)
          | some hash ↦
              let (later, answer) = insert_account dir (new_account req hash) req id new_id now in
              (later, with_password password answer)
        ]
      ]

  unfoldable pub save_account :
      Directory
      → SmtpAccount
      → AccountRequest
      → (Str → Str)
      → ℕ
      → Directory × Answer AccountResponse
  unfolding link_account
  save_account dir a req new_id now =
      let (later, result) = update_account dir a now in
      elim result [
        | err e ↦ (later, store_error e)
        | ok _ ↦ link_account later (updated_account a now a) req new_id now
      ]

  unfoldable pub handle_update_account :
      Directory → Str → AccountRequest → (Str → Str) → ℕ → Directory × Answer AccountResponse
  unfolding is_bootstrap invalid_account edited_account save_account
  handle_update_account dir id req new_id now = elim (get_account dir id) [
    | err e ↦ (dir, store_error e)
    | ok a ↦
        let fields = invalid_account mail net req false in
        if is_bootstrap a.managed_by
        then (dir, immutable)
        else if ltb 0 (length fields)
        then (dir, invalid fields)
        else save_account dir (edited_account a req) req new_id now
  ]

  unfoldable pub handle_delete_account : Directory → Str → Directory × Answer (Unit {0})
  unfolding is_bootstrap
  handle_delete_account dir id = elim (get_account dir id) [
    | err e ↦ (dir, store_error e)
    | ok a ↦
        if is_bootstrap a.managed_by
        then (dir, immutable)
        else let (later, result) = delete_account dir a.id in (later, answer_of result tt)
  ]

  -- Who manages the account is not asked.
  unfoldable pub handle_reset_account_password :
      Directory → Str → Option Str → Option Str → ℕ → Directory × Answer Str
  unfolding password_for
  handle_reset_account_password dir id given random now = elim (get_account dir id) [
    | err e ↦ (dir, store_error e)
    | ok a ↦ elim (password_for given random) [
      | none ↦ (dir, internal)
      | some (password, generated) ↦ elim (passwords.hash password) [
        | none ↦ (dir, internal)
        | some hash ↦
            let (later, result) = update_account dir (record a { password_hash = hash }) now in
            (later, answer_of result password)
      ]
    ]
  ]
