-- ===== src/Store/Models.antt =====
-- The stored objects: internal/store/models.go and the `Failure` of internal/store/messages.go, with the
-- fields that the modelled code reads.
-- A nullable column is an `Option`; a time is nanoseconds since Go's zero time, so that `IsZero` is
-- `t == 0`, and is in UTC.
use smtp_auth_proxy.Prelude.{if◌then◌else◌, ◌==◌, length, none, some, ℕ, Bool, Option, List}
use smtp_auth_proxy.Strings.{Str}

-- A Go `int`, with `negsuc n` for -(n + 1).
pub data ℤ : Type 0 where
  pos negsuc : ℕ → ℤ

-- `unset` is the empty string, the zero value of a Go string.
pub data MessageStatus : Type 0 where
  unset queued sending sent deferred failed held : MessageStatus

pub MessageStatus-discrete : Discrete MessageStatus
MessageStatus-discrete = hlevel

pub record Message : Type 0 where
  pub origin : Str
  pub id : Str
  pub smtp_account_id : Option Str
  pub mailbox_id : Option Str
  pub account_username : Str
  pub mailbox_address : Str
  pub envelope_from : Str
  pub header_from : Str
  pub recipients : List Str
  pub recipient_count : ℕ
  pub size_bytes : ℕ
  pub subject : Str
  pub message_id : Str
  pub status : MessageStatus
  pub attempts : ℕ
  pub next_attempt_at : ℕ
  pub lease_owner : Option Str
  pub lease_expires_at : Option ℕ
  pub last_error : Str
  pub last_error_code : Str
  pub last_error_permanent : Bool
  pub client_ip : Str
  pub blob_ref : Str
  pub received_at : ℕ
  pub sent_at : Option ℕ
  pub updated_at : ℕ

pub record Failure : Type 0 where
  pub code : Str
  pub message : Str
  pub permanent : Bool

-- `FromPolicy` is a string column: a value that this program does not know is `other`.
pub data FromPolicy : Type 0 where
  reject rewrite passthrough : FromPolicy
  other : Str → FromPolicy

-- `unmanaged` is the empty string, which `Create` replaces.
pub data ManagedBy : Type 0 where
  ui bootstrap unmanaged : ManagedBy

pub data AuthType : Type 0 where
  secret certificate : AuthType
  other_auth : Str → AuthType

pub data Transport : Type 0 where
  smtp graph : Transport
  unknown : Str → Transport

pub record OauthCredential : Type 0 where
  pub id : Str
  pub name : Str
  pub tenant_id : Str
  pub client_id : Str
  pub auth_type : AuthType
  pub client_secret_enc : Str
  pub certificate_pem : Str
  pub certificate_key_enc : Str
  pub certificate_thumbprint : Str
  pub authority_host : Str
  pub expires_at : Option ℕ
  pub managed_by : ManagedBy
  pub created_at : ℕ
  pub updated_at : ℕ

pub record Mailbox : Type 0 where
  pub id : Str
  pub address : Str
  pub display_name : Str
  pub oauth_credential_id : Str
  pub transport : Transport
  pub rate_limit_per_min : Option ℕ
  pub max_concurrent : Option ℕ
  pub enabled : Bool
  pub managed_by : ManagedBy
  pub created_at : ℕ
  pub updated_at : ℕ

pub record SmtpAccount : Type 0 where
  pub id : Str
  pub username : Str
  pub password_hash : Str
  pub description : Str
  pub default_mailbox_id : Option Str
  pub from_policy : FromPolicy
  pub allow_cidrs : List Str
  pub rate_limit_per_min : Option ℕ
  pub enabled : Bool
  pub last_used_at : Option ℕ
  pub managed_by : ManagedBy
  pub created_at : ℕ
  pub updated_at : ℕ

pub record AllowedSender : Type 0 where
  pub id : Str
  pub smtp_account_id : Str
  pub pattern : Str
  pub created_at : ℕ

-- `Role` is a string: a value that the program does not know is `unknown_role`.
pub data Role : Type 0 where
  admin operator viewer : Role
  unknown_role : Str → Role

-- `NullString`: the empty string is NULL.
unfoldable pub null_string : Str → Option Str
null_string s = if length s == 0 then none else some s

-- `NullInt`: NULL unless positive.
unfoldable pub null_int : ℤ → Option ℕ
null_int (pos n) = if n == 0 then none else some n
null_int (negsuc n) = none

-- `NullTime`: the zero time is NULL.
unfoldable pub null_time : ℕ → Option ℕ
null_time t = if t == 0 then none else some t
