-- ===== src/Store/Sessions.antt =====
-- Admin sessions: internal/store/sessions.go. A session is found by the hash of its token; `hash` is
-- `HashSessionToken`, which is SHA-256 in hexadecimal.
pub mod Revocation
use smtp_auth_proxy.Prelude.{
  ℕ, ◌-◌, Bool, not, ◌&&◌, ◌||◌, none, some, ◌∷◌, ltb, ◌==◌, if◌then◌else◌, length,
}
use smtp_auth_proxy.Strings.{Str, str_eq}
use smtp_auth_proxy.Store.Rows.{
  any, update_where, filter, delete_where, count_where, find, order_by,
}
use smtp_auth_proxy.Store.Users.{
  AdminUser, Session, AdminDb, AdminError, not_found, conflict, referenced, Result, ok, err,
  user_id_of,
}

-- `Authenticated`
pub record Authenticated : Type 0 where
  pub session : Session
  pub user : AdminUser

abbrev pub hash_of : Session → Str
hash_of s = s.token_hash

abbrev pub session_id : Str → Session → Bool
session_id id s = str_eq s.id id

abbrev pub of_user : Str → Session → Bool
of_user user_id s = str_eq s.user_id user_id

-- The row that `Create` inserts.
unfoldable pub opened : Session → Str → ℕ → Session
opened s new_id now = record s {
  id = if length s.id == 0 then new_id else s.id;
  created_at = if s.created_at == 0 then now else s.created_at;
  last_seen_at = now;
}

unfoldable pub create_session : AdminDb → Session → Str → ℕ → AdminDb × Result (Unit {0})
unfolding opened
create_session db s new_id now =
    let row = opened s new_id now in
    if any (λ x. str_eq x.id row.id || str_eq x.token_hash row.token_hash) db.sessions
    then (db, err conflict)
    else if any (λ u. str_eq u.id row.user_id) db.users
    then (record db { sessions = row ∷ db.sessions }, ok tt)
    else (db, err referenced)

unfoldable pub delete_session : AdminDb → Str → AdminDb
delete_session db id = record db { sessions = delete_where (session_id id) db.sessions }

-- The checks on the joined row.
unfoldable pub check_live : AdminDb → Session → AdminUser → ℕ → ℕ → AdminDb × Result Authenticated
unfolding delete_session
check_live db s u idle_timeout now =
    if not (ltb now s.expires_at)
    then (delete_session db s.id, err not_found)
    else if ltb 0 idle_timeout && ltb idle_timeout (now - s.last_seen_at)
    then (delete_session db s.id, err not_found)
    else if u.disabled
    then (db, err not_found)
    else (db, ok (record { session = s; user = u }))

-- `Lookup`, with the hash of the token.
unfoldable pub lookup : AdminDb → Str → ℕ → ℕ → AdminDb × Result Authenticated
unfolding check_live
lookup db hash idle_timeout now = elim (find hash_of hash db.sessions) [
  | none ↦ (db, err not_found)
  | some s ↦ elim (find user_id_of s.user_id db.users) [
    | none ↦ (db, err not_found)
    | some u ↦ check_live db s u idle_timeout now
  ]
]

unfoldable pub touch : AdminDb → Str → ℕ → AdminDb
touch db id now = record db {
  sessions = update_where (session_id id) (λ s. record s { last_seen_at = now }) db.sessions;
}

-- `DeleteForUser`, with the number of rows.
unfoldable pub delete_for_user : AdminDb → Str → AdminDb × ℕ
delete_for_user db user_id = (
  record db { sessions = delete_where (of_user user_id) db.sessions },
  count_where (of_user user_id) db.sessions,
)

-- `PurgeExpired`, with the number of rows.
unfoldable pub purge_expired : AdminDb → ℕ → AdminDb × ℕ
purge_expired db now = (
  record db { sessions = delete_where (λ s. ltb s.expires_at now) db.sessions },
  count_where (λ s. ltb s.expires_at now) db.sessions,
)
