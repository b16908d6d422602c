-- ===== src/App/Auth.antt =====
-- Whether a device may submit mail: internal/app/auth.go.
pub mod Proof
use smtp_auth_proxy.Prelude.{ℕ, Bool, not, Option, none, some, if◌then◌else◌}
use smtp_auth_proxy.Strings.{Str}
use smtp_auth_proxy.Store.Models.{SmtpAccount}
use smtp_auth_proxy.Store.Users.{Result, ok, err}
use smtp_auth_proxy.Store.Directory.{Directory}
use smtp_auth_proxy.Store.Directory.Mailboxes.{list_for_account}
use smtp_auth_proxy.Store.Directory.Accounts.{
  get_account_by_username, update_account, touch_last_used, allowed_senders,
}
use smtp_auth_proxy.Policy.Resolve.{Account, account_from_store}
use smtp_auth_proxy.Policy.Source.{Net, check_source_address}
use smtp_auth_proxy.Smtp.Session.{Identity}
use smtp_auth_proxy.Admin.Local.{Passwords}

-- A failure of the hash or of the update leaves the old hash.
unfoldable pub rehash : Passwords → Directory → SmtpAccount → Str → ℕ → Directory
rehash passwords dir account password now = elim (passwords.hash password) [
  | none ↦ dir
  | some h ↦ (update_account dir (record account { password_hash = h }) now).0
]

unfoldable pub identity_of : Directory → SmtpAccount → Identity
identity_of dir account = record {
  account_id = account.id;
  username = account.username;
  account = account_from_store account (allowed_senders dir account.id);
  mailboxes = list_for_account dir account.id;
}

module _ (net : Net) (passwords : Passwords) where
  -- The end of `Authenticate`, for an account with the right password.
  unfoldable pub admit :
      Directory → SmtpAccount → Str → Bool → Option net.Ip → ℕ → Directory × Option Identity
  unfolding rehash identity_of
  admit dir account password renew remote now =
      if not account.enabled
      then (dir, none)
      else elim (check_source_address net (identity_of dir account).account remote) [
        | some e ↦ (dir, none)
        | none ↦
            let renewed = if renew then rehash passwords dir account password now else dir in
            (touch_last_used renewed account.id now, some (identity_of dir account))
      ]

  -- Every refusal is `ErrAuthFailed`, here `none`.
  unfoldable pub authenticate :
      Directory → Str → Str → Option net.Ip → ℕ → Directory × Option Identity
  unfolding admit
  authenticate dir username password remote now = elim (get_account_by_username dir username) [
    | err e ↦ (dir, none)
    | ok account ↦ elim (passwords.verify account.password_hash password) [
      | none ↦ (dir, none)
      | some (match, renew) ↦
          if not match then (dir, none) else admit dir account password renew remote now
    ]
  ]
