-- ===== src/Store/Directory.antt =====
-- The tables that administrators manage and that a submission reads: `oauth_credentials`,
-- `mailboxes`, `smtp_accounts`, `smtp_account_mailboxes` and `allowed_senders`. The unique indices,
-- the checks and the foreign keys are those of the schema.
pub mod Credentials
pub mod Mailboxes
pub mod Accounts
pub mod Outcomes
use smtp_auth_proxy.Prelude.{Bool, true, false, List}
use smtp_auth_proxy.Strings.{Str, str_eq}
use smtp_auth_proxy.Store.Models.{
  OauthCredential, Mailbox, SmtpAccount, AllowedSender, ManagedBy, ui, bootstrap, unmanaged,
  AuthType, secret, certificate, other_auth, Transport, smtp, graph, unknown, FromPolicy, reject,
  rewrite, passthrough, other,
}

-- A row of `smtp_account_mailboxes`.
pub record Link : Type 0 where
  pub smtp_account_id : Str
  pub mailbox_id : Str

pub record Directory : Type 0 where
  pub credentials : List OauthCredential
  pub mailboxes : List Mailbox
  pub accounts : List SmtpAccount
  pub links : List Link
  pub senders : List AllowedSender

abbrev pub credential_id_of : OauthCredential → Str
credential_id_of c = c.id

abbrev pub mailbox_id_of : Mailbox → Str
mailbox_id_of m = m.id

abbrev pub account_id_of : SmtpAccount → Str
account_id_of a = a.id

abbrev pub has_credential_id : Str → OauthCredential → Bool
has_credential_id id c = str_eq c.id id

abbrev pub has_mailbox_id : Str → Mailbox → Bool
has_mailbox_id id m = str_eq m.id id

abbrev pub has_account_id : Str → SmtpAccount → Bool
has_account_id id a = str_eq a.id id

-- `Create` replaces the empty provenance.
unfoldable pub managed : ManagedBy → ManagedBy
managed unmanaged = ui
managed ui = ui
managed bootstrap = bootstrap

-- The checks of the schema.
unfoldable pub known_auth : AuthType → Bool
known_auth secret = true
known_auth certificate = true
known_auth (other_auth _) = false

unfoldable pub known_transport : Transport → Bool
known_transport smtp = true
known_transport graph = true
known_transport (unknown _) = false

unfoldable pub known_policy : FromPolicy → Bool
known_policy reject = true
known_policy rewrite = true
known_policy passthrough = true
known_policy (other _) = false

unfoldable pub known_manager : ManagedBy → Bool
known_manager ui = true
known_manager bootstrap = true
known_manager unmanaged = false
