-- ===== src/Store/Users.antt =====
-- Administrators: internal/store/users.go. The unique indices and the checks of the table
-- `admin_users` are those of the schema; a row of `admin_sessions` goes with its user.
use smtp_auth_proxy.Prelude.{
  ℕ, ◌+◌, Bool, true, false, not, ◌&&◌, ◌||◌, Option, none, some, List, ◌∷◌, ltb, leb, ◌==◌,
  if◌then◌else◌, length,
}
use smtp_auth_proxy.Strings.{Str, str_eq, codes}
use smtp_auth_proxy.Store.Models.{Role, unknown_role}
use smtp_auth_proxy.Store.Rows.{any, update_where, delete_where, count_where, find}

pub record AdminUser : Type 0 where
  pub id : Str
  pub username : Str
  pub email : Str
  pub display_name : Str
  pub password_hash : Option Str
  pub role : Role
  pub source : Str
  pub subject : Option Str
  pub totp_secret_enc : Str
  pub totp_enrolled_at : Option ℕ
  pub disabled : Bool
  pub failed_logins : ℕ
  pub locked_until : Option ℕ
  pub last_login_at : Option ℕ
  pub created_at : ℕ
  pub updated_at : ℕ

pub record Session : Type 0 where
  pub id : Str
  pub user_id : Str
  pub token_hash : Str
  pub csrf_token : Str
  pub ip : Str
  pub user_agent : Str
  pub created_at : ℕ
  pub last_seen_at : ℕ
  pub expires_at : ℕ

-- The tables `admin_users` and `admin_sessions`.
pub record AdminDb : Type 0 where
  pub users : List AdminUser
  pub sessions : List Session

-- `check_failed` is a value that a check of the schema refuses.
pub data AdminError : Type 0 where
  not_found conflict referenced check_failed : AdminError

pub data Result {ℓ} (A : Type ℓ) : Type ℓ where
  ok : A → Result A
  err : AdminError → Result A

abbrev pub user_id_of : AdminUser → Str
user_id_of u = u.id

abbrev pub username_of : AdminUser → Str
username_of u = u.username

-- `LockedAt`
unfoldable pub locked_at : AdminUser → ℕ → Bool
locked_at u now = elim u.locked_until [ none ↦ false | some t ↦ ltb now t ]

unfoldable pub can_sign_in : AdminUser → ℕ → Bool
unfolding locked_at
can_sign_in u now = not u.disabled && not (locked_at u now)

abbrev pub known_role : Role → Bool
known_role (unknown_role _) = false
known_role _ = true

abbrev pub known_source : Str → Bool
known_source s = str_eq s (codes "local") || str_eq s (codes "oidc")

-- Another row with the same name, or with the same subject of the same source.
abbrev pub clashes : AdminUser → AdminUser → Bool
clashes u x = str_eq x.username u.username || elim u.subject [
  | none ↦ false
  | some s ↦ str_eq x.source u.source && elim x.subject [ none ↦ false | some t ↦ str_eq t s ]
]

-- The row that `Create` inserts.
unfoldable pub stamped : AdminUser → Str → ℕ → AdminUser
stamped u new_id now = record u {
  id = if length u.id == 0 then new_id else u.id;
  source = if length u.source == 0 then codes "local" else u.source;
  created_at = now;
  updated_at = now;
}

unfoldable pub create : AdminDb → AdminUser → Str → ℕ → AdminDb × Result (Unit {0})
unfolding stamped
create db u new_id now =
    let row = stamped u new_id now in
    if not (known_role row.role && known_source row.source)
    then (db, err check_failed)
    else if any (λ x. str_eq x.id row.id || clashes row x) db.users
    then (db, err conflict)
    else (record db { users = row ∷ db.users }, ok tt)

unfoldable pub get : AdminDb → Str → Result AdminUser
get db id = elim (find user_id_of id db.users) [ none ↦ err not_found | some u ↦ ok u ]

unfoldable pub get_by_username : AdminDb → Str → Result AdminUser
get_by_username db username = elim (find username_of username db.users) [
  | none ↦ err not_found
  | some u ↦ ok u
]

-- What `Update` writes into the row; the login counters stay.
abbrev pub updated : AdminUser → ℕ → AdminUser → AdminUser
updated u now row = record row {
  username = u.username;
  email = u.email;
  display_name = u.display_name;
  password_hash = u.password_hash;
  role = u.role;
  source = u.source;
  subject = u.subject;
  totp_secret_enc = u.totp_secret_enc;
  totp_enrolled_at = u.totp_enrolled_at;
  disabled = u.disabled;
  updated_at = now;
}

abbrev pub with_id : Str → AdminUser → Bool
with_id id u = str_eq u.id id

unfoldable pub update : AdminDb → AdminUser → ℕ → AdminDb × Result (Unit {0})
update db u now =
    if not (any (with_id u.id) db.users)
    then (db, err not_found)
    else if not (known_role u.role && known_source u.source)
    then (db, err check_failed)
    else if any (λ x. not (str_eq x.id u.id) && clashes u x) db.users
    then (db, err conflict)
    else (record db { users = update_where (with_id u.id) (updated u now) db.users }, ok tt)

-- The user's sessions go by cascade.
unfoldable pub delete : AdminDb → Str → AdminDb × Result (Unit {0})
delete db id =
    if any (with_id id) db.users
    then (
      record {
        users = delete_where (with_id id) db.users;
        sessions = delete_where (λ (s : Session). str_eq s.user_id id) db.sessions;
      },
      ok tt,
    )
    else (db, err not_found)

-- What `CountByRole` finds for one role, over the users that are not disabled.
unfoldable pub count_role : AdminDb → (Role → Bool) → ℕ
count_role db is_role = count_where (λ u. not u.disabled && is_role u.role) db.users

-- What `RecordFailedLogin` writes; the counter is that of the row.
abbrev pub failed_once : ℕ → ℕ → ℕ → AdminUser → AdminUser
failed_once threshold lock_for now u =
    let failures = u.failed_logins + 1 in
    record u {
      failed_logins = failures;
      locked_until =
          if ltb 0 threshold && leb threshold failures then some (now + lock_for) else none;
      updated_at = now;
    }

unfoldable pub record_failed_login : AdminDb → Str → ℕ → ℕ → ℕ → AdminDb × Result (Unit {0})
record_failed_login db id threshold lock_for now =
    if any (with_id id) db.users
    then (
      record db { users = update_where (with_id id) (failed_once threshold lock_for now) db.users },
      ok tt,
    )
    else (db, err not_found)

abbrev pub signed_in : ℕ → AdminUser → AdminUser
signed_in now u = record u {
  failed_logins = 0;
  locked_until = none;
  last_login_at = some now;
  updated_at = now;
}

unfoldable pub record_successful_login : AdminDb → Str → ℕ → AdminDb
record_successful_login db id now = record db {
  users = update_where (with_id id) (signed_in now) db.users;
}
