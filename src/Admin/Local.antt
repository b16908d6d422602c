-- ===== src/Admin/Local.antt =====
-- Signing in with a password: internal/adminauth/local.go.
pub mod Lockout
use smtp_auth_proxy.Prelude.{ℕ, Bool, not, Option, none, some, ◌==◌, if◌then◌else◌, length}
use smtp_auth_proxy.Strings.{Str}
use smtp_auth_proxy.Store.Models.{null_string}
use smtp_auth_proxy.Store.Users.{
  AdminUser, AdminDb, Result, ok, err, AdminError, not_found, locked_at, get_by_username, update,
  record_failed_login, record_successful_login,
}
use smtp_auth_proxy.Store.Sessions.{delete_for_user}

-- `HashPassword` and `VerifyPassword` of internal/crypto, over Argon2: whether the password matches
-- and whether the hash is to be renewed, or `none` for a hash that is unusable; `hash` fails for
-- a password that is too long, and when the source of randomness does.
pub record Passwords : Type 0 where
  pub verify : Str → Str → Option (Bool × Bool)
  pub hash : Str → Option Str

-- `lockout_threshold` is 0 where lockout is off.
pub record LocalConfig : Type 0 where
  pub enabled : Bool
  pub lockout_threshold : ℕ
  pub lockout_duration : ℕ

pub data SignInError : Type 0 where
  invalid_credentials locked_out local_disabled : SignInError
  store_failed : AdminError → SignInError
  hash_failed : SignInError

pub data SignIn : Type 0 where
  welcome : AdminUser → SignIn
  refused : SignInError → SignIn

-- What the user's row becomes in memory, and in the database unless the update fails.
unfoldable pub rehash : Passwords → AdminDb → AdminUser → Str → ℕ → AdminDb × AdminUser
rehash passwords db user password now = elim (passwords.hash password) [
  | none ↦ (db, user)
  | some h ↦
      let renewed = record user { password_hash = null_string h; updated_at = now } in
      ((update db renewed now).0, renewed)
]

-- The end of a sign-in with the right password.
unfoldable pub let_in : Passwords → AdminDb → AdminUser → Str → Bool → ℕ → AdminDb × SignIn
unfolding rehash
let_in passwords db user password renew now =
    if user.disabled
    then (db, refused invalid_credentials)
    else (let (later, known) =
          if renew then rehash passwords db user password now else (db, user) in
        (record_successful_login later user.id now, welcome known))

-- What follows the check of the hash.
unfoldable pub verified :
    Passwords
    → LocalConfig
    → AdminDb
    → AdminUser
    → Str
    → ℕ
    → Option (Bool × Bool)
    → AdminDb × SignIn
unfolding let_in
verified passwords config db user password now none = (db, refused invalid_credentials)
verified passwords config db user password now (some (match, renew)) =
    if not match
    then (
      (record_failed_login db user.id config.lockout_threshold config.lockout_duration now).0,
      refused invalid_credentials,
    )
    else let_in passwords db user password renew now

-- With the user's row. A missing or empty hash is that of a user who has no password.
unfoldable pub check_user :
    Passwords → LocalConfig → AdminDb → AdminUser → Str → ℕ → AdminDb × SignIn
unfolding verified
check_user passwords config db user password now =
    if locked_at user now then (db, refused locked_out) else elim user.password_hash [
      | none ↦ (db, refused invalid_credentials)
      | some h ↦
          if length h == 0
          then (db, refused invalid_credentials)
          else verified passwords config db user password now (passwords.verify h password)
    ]

unfoldable pub authenticate : Passwords → LocalConfig → AdminDb → Str → Str → ℕ → AdminDb × SignIn
unfolding check_user
authenticate passwords config db username password now =
    if not config.enabled
    then (db, refused local_disabled)
    else elim (get_by_username db username) [
      | err e ↦ (db, refused invalid_credentials)
      | ok user ↦ check_user passwords config db user password now
    ]

-- `SetPassword`; the update's failure leaves the sessions.
unfoldable pub set_password :
    Passwords → AdminDb → AdminUser → Str → ℕ → AdminDb × Option SignInError
set_password passwords db user password now = elim (passwords.hash password) [
  | none ↦ (db, some hash_failed)
  | some h ↦
      let (later, result) = update db (record user { password_hash = null_string h }) now in
      elim result [
        | err e ↦ (later, some (store_failed e))
        | ok _ ↦ ((delete_for_user later user.id).0, none)
      ]
]
