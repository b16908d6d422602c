-- ===== src/Store/Directory/Credentials.antt =====
-- The registrations of the proxy with Microsoft Entra: internal/store/credentials.go.
use smtp_auth_proxy.Prelude.{
  ℕ, Bool, false, not, ◌&&◌, ◌||◌, none, some, List, ◌∷◌, ltb, ◌==◌, if◌then◌else◌, length,
}
use smtp_auth_proxy.Strings.{Str, str_eq}
use smtp_auth_proxy.Store.Models.{OauthCredential}
use smtp_auth_proxy.Store.Rows.{any, update_where, delete_where, filter, find, sort_by, order_by}
use smtp_auth_proxy.Store.Users.{not_found, conflict, referenced, check_failed, Result, ok, err}
use smtp_auth_proxy.Store.Directory.{
  Directory, credential_id_of, has_credential_id, managed, known_auth, known_manager,
}

abbrev pub credential_name_of : OauthCredential → Str
credential_name_of c = c.name

-- The row that `Create` inserts.
unfoldable pub stamped_credential : OauthCredential → Str → ℕ → OauthCredential
unfolding managed
stamped_credential c new_id now = record c {
  id = if length c.id == 0 then new_id else c.id;
  managed_by = managed c.managed_by;
  created_at = now;
  updated_at = now;
}

unfoldable pub create_credential :
    Directory → OauthCredential → Str → ℕ → Directory × Result (Unit {0})
unfolding stamped_credential known_auth
create_credential dir c new_id now =
    let row = stamped_credential c new_id now in
    if not (known_auth row.auth_type)
    then (dir, err check_failed)
    else if any (λ x. str_eq x.id row.id || str_eq x.name row.name) dir.credentials
    then (dir, err conflict)
    else (record dir { credentials = row ∷ dir.credentials }, ok tt)

unfoldable pub get_credential : Directory → Str → Result OauthCredential
get_credential dir id = elim (find credential_id_of id dir.credentials) [
  | none ↦ err not_found
  | some c ↦ ok c
]

unfoldable pub get_credential_by_name : Directory → Str → Result OauthCredential
get_credential_by_name dir name = elim (find credential_name_of name dir.credentials) [
  | none ↦ err not_found
  | some c ↦ ok c
]

unfoldable pub list_credentials : Directory → List OauthCredential
list_credentials dir = sort_by credential_name_of dir.credentials

-- What `Update` writes into the row.
abbrev pub updated_credential : OauthCredential → ℕ → OauthCredential → OauthCredential
updated_credential c now row = record c {
  id = row.id;
  created_at = row.created_at;
  updated_at = now;
}

unfoldable pub update_credential : Directory → OauthCredential → ℕ → Directory × Result (Unit {0})
unfolding known_auth known_manager
update_credential dir c now =
    if not (any (has_credential_id c.id) dir.credentials)
    then (dir, err not_found)
    else if not (known_auth c.auth_type && known_manager c.managed_by)
    then (dir, err check_failed)
    else if any (λ x. not (str_eq x.id c.id) && str_eq x.name c.name) dir.credentials
    then (dir, err conflict)
    else (
      record dir {
        credentials =
            update_where (has_credential_id c.id) (updated_credential c now) dir.credentials;
      },
      ok tt,
    )

-- A mailbox that uses the credential restricts the deletion.
unfoldable pub delete_credential : Directory → Str → Directory × Result (Unit {0})
delete_credential dir id =
    if not (any (has_credential_id id) dir.credentials)
    then (dir, err not_found)
    else if any (λ m. str_eq m.oauth_credential_id id) dir.mailboxes
    then (dir, err referenced)
    else (record dir { credentials = delete_where (has_credential_id id) dir.credentials }, ok tt)

abbrev pub expires_before : ℕ → OauthCredential → Bool
expires_before cutoff c = elim c.expires_at [ none ↦ false | some t ↦ ltb t cutoff ]

abbrev pub expiry_of : OauthCredential → ℕ
expiry_of c = elim c.expires_at [ none ↦ 0 | some t ↦ t ]

unfoldable pub expiring_before : Directory → ℕ → List OauthCredential
expiring_before dir cutoff = order_by expiry_of (filter (expires_before cutoff) dir.credentials)
