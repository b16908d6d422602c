-- ===== src/Admin/Directory.antt =====
-- The handlers that manage the directory: internal/adminapi/credentials.go, mailboxes.go and
-- accounts.go. A request is decoded, and its caller holds the permission for it; the audit records are
-- left out, and the lists of the read-only handlers.
pub mod Credentials
pub mod Mailboxes
pub mod Accounts
pub mod Actions
pub mod Outcomes
pub mod Protected
mod Examples
use smtp_auth_proxy.Prelude.{
  ℕ, Bool, true, false, Option, none, some, List, ltb, ◌==◌, if◌then◌else◌, length,
}
use smtp_auth_proxy.Strings.{Str, trim_space}
use smtp_auth_proxy.Store.Models.{ℤ, pos, negsuc, ManagedBy, ui, bootstrap, unmanaged}
use smtp_auth_proxy.Store.Users.{AdminError, Result, ok, err}
use smtp_auth_proxy.Store.Directory.{Directory}

-- `immutable` is the conflict on an object of the bootstrap file, and `invalid` names the fields that
-- are refused.
pub data Answer {ℓ} (A : Type ℓ) : Type ℓ where
  answered : A → Answer A
  immutable internal : Answer A
  invalid : List Str → Answer A
  store_error : AdminError → Answer A

unfoldable pub is_bootstrap : ManagedBy → Bool
is_bootstrap bootstrap = true
is_bootstrap ui = false
is_bootstrap unmanaged = false

-- A text of a request that is empty where the old one stays.
unfoldable pub changed_text : Str → Str → Str
changed_text s old = if length s == 0 then old else trim_space s

-- A limit that is negative or above what Exchange Online allows.
unfoldable pub limit_refused : ℕ → Option ℤ → Bool
limit_refused most none = false
limit_refused most (some (negsuc n)) = true
limit_refused most (some (pos n)) = ltb most n

-- `writeStoreError`, or the answer.
abbrev pub answer_of {ℓ κ} : {A : Type ℓ} {B : Type κ} → Result A → B → Answer B
answer_of (ok _) x = answered x
answer_of (err e) x = store_error e
