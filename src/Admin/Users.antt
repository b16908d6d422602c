-- ===== src/Admin/Users.antt =====
-- The handlers that manage administrators: internal/adminapi/users.go. A request is decoded, and the
-- caller, who holds the permission for it, is `actor`; the audit records and the JSON of the answers
-- are left out.
pub mod Administered
pub mod Revocation
use smtp_auth_proxy.Prelude.{
  ℕ, Bool, true, false, not, ◌&&◌, ◌||◌, Option, none, some, List, ◌∷◌, ltb, ◌==◌, if◌then◌else◌,
  is_some, length, [],
}
use smtp_auth_proxy.Strings.{Str, str_eq, codes, trim_space}
use smtp_auth_proxy.Store.Models.{Role, admin, operator, viewer, unknown_role, null_string}
use smtp_auth_proxy.Store.Rows.{any}
use smtp_auth_proxy.Store.Users.{
  AdminUser, AdminDb, AdminError, Result, ok, err, create, get, update, delete, stamped,
}
use smtp_auth_proxy.Store.Sessions.{delete_for_user}
use smtp_auth_proxy.Admin.Rbac.{parse_role}
use smtp_auth_proxy.Admin.Local.{Passwords, SignInError, set_password}

-- `invalid` names the fields that are refused.
pub data Answer : Type 0 where
  user_is : AdminUser → Answer
  no_content conflicting forbidden internal : Answer
  invalid : List Str → Answer
  store_error : AdminError → Answer
  password_error : SignInError → Answer

abbrev pub min_password_length : ℕ
min_password_length = 12

pub record CreateUserRequest : Type 0 where
  pub username : Str
  pub email : Str
  pub display_name : Str
  pub role : Str
  pub password : Str

pub record UpdateUserRequest : Type 0 where
  pub email : Option Str
  pub display_name : Option Str
  pub role : Option Str
  pub disabled : Option Bool

unfoldable pub is_admin : Role → Bool
is_admin admin = true
is_admin _ = false

-- `==` of roles, which are strings in the source.
unfoldable pub same_role : Role → Role → Bool
same_role admin admin = true
same_role operator operator = true
same_role viewer viewer = true
same_role (unknown_role s) (unknown_role t) = str_eq s t
same_role _ _ = false

-- An administrator who can act.
unfoldable pub is_active_admin : AdminUser → Bool
unfolding is_admin
is_active_admin u = is_admin u.role && not u.disabled

unfoldable pub another_admin : Str → AdminUser → Bool
unfolding is_active_admin
another_admin excluded u = not (str_eq u.id excluded) && is_active_admin u

-- `requireAnotherAdmin`; true is the nil error.
unfoldable pub require_another_admin : AdminDb → Str → Bool
unfolding another_admin
require_another_admin db excluded = any (another_admin excluded) db.users

unfoldable pub losing_admin : AdminUser → Role → Bool
unfolding is_admin
losing_admin user previous =
    if not (is_admin previous) then false else not (is_admin user.role) || user.disabled

abbrev pub checked_field : Bool → Str → List Str → List Str
checked_field wrong name rest = if wrong then name ∷ rest else rest

unfoldable pub invalid_fields : CreateUserRequest → List Str
invalid_fields req = checked_field (length (trim_space req.username) == 0) (codes "username") (
    checked_field (not (is_some (parse_role req.role))) (codes "role")
      (checked_field (ltb (length req.password) min_password_length) (codes "password") []))

-- The row of a valid request.
unfoldable pub new_user : CreateUserRequest → Role → Str → AdminUser
new_user req role hash = record {
  id = [];
  username = trim_space req.username;
  email = trim_space req.email;
  display_name = trim_space req.display_name;
  password_hash = null_string hash;
  role = role;
  source = codes "local";
  subject = none;
  totp_secret_enc = [];
  totp_enrolled_at = none;
  disabled = false;
  failed_logins = 0;
  locked_until = none;
  last_login_at = none;
  created_at = 0;
  updated_at = 0;
}

unfoldable pub create_user : Passwords → AdminDb → CreateUserRequest → Str → ℕ → AdminDb × Answer
unfolding invalid_fields new_user
create_user passwords db req new_id now =
    let fields = invalid_fields req in
    if ltb 0 (length fields) then (db, invalid fields) else elim (parse_role req.role) [
      | none ↦ (db, invalid fields)
      | some role ↦ elim (passwords.hash req.password) [
        | none ↦ (db, internal)
        | some hash ↦
            let user = new_user req role hash in
            let (later, result) = create db user new_id now in
            (
              later,
              elim result [ err e ↦ store_error e | ok _ ↦ user_is (stamped user new_id now) ],
            )
      ]
    ]

abbrev pub or_else {ℓ} : {A : Type ℓ} → Option A → A → A
or_else none x = x
or_else (some y) x = y

abbrev pub trimmed : Option Str → Str → Str
trimmed none old = old
trimmed (some s) old = trim_space s

-- The user with the fields of the request; `role` is the parsed one.
unfoldable pub edited : AdminUser → UpdateUserRequest → Role → AdminUser
edited user req role = record user {
  email = trimmed req.email user.email;
  display_name = trimmed req.display_name user.display_name;
  role = role;
  disabled = or_else req.disabled user.disabled;
}

-- The parsed role, or the old one; `none` is the validation error.
unfoldable pub requested_role : UpdateUserRequest → AdminUser → Option Role
requested_role req user = elim req.role [ none ↦ some user.role | some s ↦ parse_role s ]

-- The end of `handleUpdateUser`: the write, and the end of the sessions.
unfoldable pub save_user : AdminDb → AdminUser → Role → ℕ → AdminDb × Answer
unfolding same_role
save_user db user previous now =
    let (later, result) = update db user now in
    elim result [
      | err e ↦ (later, store_error e)
      | ok _ ↦
          if not (same_role user.role previous) || user.disabled
          then ((delete_for_user later user.id).0, user_is user)
          else (later, user_is user)
    ]

unfoldable pub update_user : AdminDb → Str → UpdateUserRequest → ℕ → AdminDb × Answer
unfolding edited requested_role losing_admin require_another_admin save_user
update_user db id req now = elim (get db id) [
  | err e ↦ (db, store_error e)
  | ok user ↦ elim (requested_role req user) [
    | none ↦ (db, invalid (codes "role" ∷ []))
    | some role ↦
        if losing_admin (edited user req role) user.role && not (require_another_admin db user.id)
        then (db, conflicting)
        else save_user db (edited user req role) user.role now
  ]
]

unfoldable pub delete_user : AdminDb → AdminUser → Str → AdminDb × Answer
unfolding is_active_admin require_another_admin
delete_user db actor id = elim (get db id) [
  | err e ↦ (db, store_error e)
  | ok user ↦
      if str_eq user.id actor.id
      then (db, conflicting)
      else if is_active_admin user && not (require_another_admin db user.id)
      then (db, conflicting)
      else (let (later, result) = delete db id in
          (later, elim result [ err e ↦ store_error e | ok _ ↦ no_content ]))
]

-- `local` is false where password sign-in is disabled.
unfoldable pub set_user_password : Passwords → Bool → AdminDb → Str → Str → ℕ → AdminDb × Answer
set_user_password passwords local db id password now =
    if not local
    then (db, forbidden)
    else if ltb (length password) min_password_length
    then (db, invalid (codes "password" ∷ []))
    else elim (get db id) [
      | err e ↦ (db, store_error e)
      | ok user ↦
          if not (str_eq user.source (codes "local"))
          then (db, conflicting)
          else (let (later, failure) = set_password passwords db user password now in
              (later, elim failure [ none ↦ no_content | some e ↦ password_error e ]))
    ]
