-- ===== src/Admin/Directory/Credentials.antt =====
-- The handlers of credentials: internal/adminapi/credentials.go. The provider of tokens, which may be
-- absent, keeps a map of clients (internal/oauth/provider.go).
use smtp_auth_proxy.Prelude.{
  ℕ, Bool, true, false, not, ◌&&◌, ◌||◌, Option, none, some, List, ◌∷◌, ltb, ◌==◌, if◌then◌else◌,
  is_some, length, [],
}
use smtp_auth_proxy.Strings.{Str, str_eq, codes, trim_space, cut_prefix}
use smtp_auth_proxy.Store.Models.{
  OauthCredential, AuthType, secret, certificate, other_auth, ManagedBy, unmanaged, Mailbox,
  null_time,
}
use smtp_auth_proxy.Store.Rows.{filter}
use smtp_auth_proxy.Store.Users.{ok, err}
use smtp_auth_proxy.Store.Directory.{Directory}
use smtp_auth_proxy.Store.Directory.Credentials.{
  get_credential, create_credential, update_credential, delete_credential, stamped_credential,
  updated_credential,
}
use smtp_auth_proxy.Crypto.Keyring.{Ciphers, Keyring, ok as sealed, err as unsealed, encrypt}
use smtp_auth_proxy.Oauth.Provider.{
  Msal, CachedClient, forget, secret_context, certificate_key_context,
}
use smtp_auth_proxy.Admin.Users.{checked_field, or_else}
use smtp_auth_proxy.Admin.Directory.{
  Answer, answered, immutable, invalid, store_error, is_bootstrap, changed_text, answer_of,
}

pub record CredentialRequest : Type 0 where
  pub name : Str
  pub tenant_id : Str
  pub client_id : Str
  pub auth_type : Str
  pub client_secret : Option Str
  pub certificate_pem : Option Str
  pub certificate_key_pem : Option Str
  pub authority_host : Str
  pub expires_at : Option ℕ

-- The nonces that the two encryptions read.
pub record Nonces : Type 0 where
  pub for_secret : Option Str
  pub for_key : Option Str

-- The answer, without the days to the expiry. It has no secret, sealed or not.
pub record CredentialResponse : Type 0 where
  pub id : Str
  pub name : Str
  pub tenant_id : Str
  pub client_id : Str
  pub auth_type : AuthType
  pub has_secret : Bool
  pub certificate_thumbprint : Str
  pub authority_host : Str
  pub expires_at : Option ℕ
  pub managed_by : ManagedBy
  pub mailbox_count : ℕ
  pub created_at : ℕ
  pub updated_at : ℕ

unfoldable pub to_credential_response : OauthCredential → ℕ → CredentialResponse
to_credential_response c mailboxes = record {
  id = c.id;
  name = c.name;
  tenant_id = c.tenant_id;
  client_id = c.client_id;
  auth_type = c.auth_type;
  has_secret = not (length c.client_secret_enc == 0) || not (length c.certificate_key_enc == 0);
  certificate_thumbprint = c.certificate_thumbprint;
  authority_host = c.authority_host;
  expires_at = c.expires_at;
  managed_by = c.managed_by;
  mailbox_count = mailboxes;
  created_at = c.created_at;
  updated_at = c.updated_at;
}

abbrev pub uses_credential : Str → Mailbox → Bool
uses_credential id m = str_eq m.oauth_credential_id id

unfoldable pub count_mailboxes : Directory → Str → ℕ
count_mailboxes dir id = length (filter (uses_credential id) dir.mailboxes)

-- The conversion of a string to an `AuthType`.
unfoldable pub auth_type_of : Str → AuthType
auth_type_of s =
    if str_eq s (codes "secret")
    then secret
    else if str_eq s (codes "certificate")
    then certificate
    else other_auth s

abbrev pub missing : Option Str → Bool
missing none = true
missing (some s) = length s == 0

abbrev pub auth_type_refused : Str → Bool → Bool
auth_type_refused s creating =
    if length s == 0
    then creating
    else not (str_eq s (codes "secret") || str_eq s (codes "certificate"))

-- `validateCredential`
unfoldable pub invalid_credential : CredentialRequest → Bool → List Str
invalid_credential req creating =
    let certified = creating && str_eq req.auth_type (codes "certificate") in
    let host_refused =
      not (length req.authority_host == 0)
      && not (is_some (cut_prefix req.authority_host (codes "https://"))) in
    checked_field (creating && length (trim_space req.name) == 0) (codes "name") (
      checked_field (creating && length (trim_space req.tenant_id) == 0) (codes "tenantId") (
        checked_field (creating && length (trim_space req.client_id) == 0) (codes "clientId") (
          checked_field (auth_type_refused req.auth_type creating) (codes "authType") (
            checked_field
              (creating && str_eq req.auth_type (codes "secret") && missing req.client_secret)
              (codes "clientSecret")
              (checked_field (certified && missing req.certificate_pem) (codes "certificatePem") (
                checked_field (certified && missing req.certificate_key_pem)
                  (codes "certificateKeyPem")
                  (checked_field host_refused (codes "authorityHost") [])))))))

unfoldable pub new_credential : CredentialRequest → Str → OauthCredential
unfolding auth_type_of
new_credential req new_id = record {
  id = new_id;
  name = trim_space req.name;
  tenant_id = trim_space req.tenant_id;
  client_id = trim_space req.client_id;
  auth_type = auth_type_of req.auth_type;
  client_secret_enc = [];
  certificate_pem = [];
  certificate_key_enc = [];
  certificate_thumbprint = [];
  authority_host = trim_space req.authority_host;
  expires_at = elim req.expires_at [ none ↦ none | some t ↦ null_time t ];
  managed_by = unmanaged;
  created_at = 0;
  updated_at = 0;
}

unfoldable pub edited_credential : OauthCredential → CredentialRequest → OauthCredential
unfolding changed_text auth_type_of
edited_credential c req = record c {
  name = changed_text req.name c.name;
  tenant_id = changed_text req.tenant_id c.tenant_id;
  client_id = changed_text req.client_id c.client_id;
  auth_type = if length req.auth_type == 0 then c.auth_type else auth_type_of req.auth_type;
  authority_host = changed_text req.authority_host c.authority_host;
  expires_at = elim req.expires_at [ none ↦ c.expires_at | some t ↦ null_time t ];
}

module _ (ciphers : Ciphers) (msal : Msal) where
  -- What the handlers act on.
  pub record Managed : Type 0 where
    pub directory : Directory
    pub tokens : Option (List (CachedClient ciphers msal))

  -- A text that is sealed, or the old ciphertext without one; `none` is the error.
  unfoldable pub seal_text : Keyring ciphers → Option Str → Option Str → Str → Str → Option Str
  seal_text keyring random none context old = some old
  seal_text keyring random (some plain) context old =
      elim (encrypt ciphers keyring random plain context) [ sealed s ↦ some s | unsealed e ↦ none ]

  -- `none` is an error, also where the proxy has no keys.
  unfoldable pub seal_credential :
      Option (Keyring ciphers)
      → Nonces
      → OauthCredential
      → CredentialRequest
      → Option OauthCredential
  unfolding seal_text secret_context certificate_key_context
  seal_credential none nonces c req = none
  seal_credential (some keyring) nonces c req =
      elim (seal_text keyring nonces.for_secret req.client_secret (secret_context c)
        c.client_secret_enc) [
          | none ↦ none
          | some secret_enc ↦
              elim (seal_text keyring nonces.for_key req.certificate_key_pem
                (certificate_key_context c) c.certificate_key_enc) [
                  | none ↦ none
                  | some key_enc ↦ some (record c {
                    client_secret_enc = secret_enc;
                    certificate_pem = or_else req.certificate_pem c.certificate_pem;
                    certificate_key_enc = key_enc;
                  })
                ]
        ]

  unfoldable pub handle_create_credential :
      Option (Keyring ciphers)
      → Nonces
      → Managed
      → CredentialRequest
      → Str
      → ℕ
      → Managed × Answer CredentialResponse
  unfolding invalid_credential new_credential seal_credential to_credential_response
  handle_create_credential keyring nonces m req new_id now =
      let fields = invalid_credential req true in
      if ltb 0 (length fields)
      then (m, invalid fields)
      else elim (seal_credential keyring nonces (new_credential req new_id) req) [
        | none ↦ (m, invalid (codes "clientSecret" ∷ []))
        | some c ↦
            let (later, result) = create_credential m.directory c new_id now in
            (
              record m { directory = later },
              answer_of result (to_credential_response (stamped_credential c new_id now) 0),
            )
      ]

  abbrev pub forgotten :
      Option (List (CachedClient ciphers msal)) → Str → Option (List (CachedClient ciphers msal))
  forgotten none id = none
  forgotten (some clients) id = some (forget ciphers msal clients id)

  -- The end of `handleUpdateCredential`: the write, and the end of the cached client.
  unfoldable pub save_credential :
      Managed → OauthCredential → ℕ → Managed × Answer CredentialResponse
  unfolding to_credential_response count_mailboxes
  save_credential m c now =
      let (later, result) = update_credential m.directory c now in
      elim result [
        | err e ↦ (record m { directory = later }, store_error e)
        | ok _ ↦ (
          record { directory = later; tokens = forgotten m.tokens c.id },
          answered
              (to_credential_response (updated_credential c now c) (count_mailboxes later c.id)),
        )
      ]

  unfoldable pub handle_update_credential :
      Option (Keyring ciphers)
      → Nonces
      → Managed
      → Str
      → CredentialRequest
      → ℕ
      → Managed × Answer CredentialResponse
  unfolding is_bootstrap invalid_credential edited_credential seal_credential save_credential
  handle_update_credential keyring nonces m id req now = elim (get_credential m.directory id) [
    | err e ↦ (m, store_error e)
    | ok c ↦
        let fields = invalid_credential req false in
        if is_bootstrap c.managed_by
        then (m, immutable)
        else if ltb 0 (length fields)
        then (m, invalid fields)
        else elim (seal_credential keyring nonces (edited_credential c req) req) [
          | none ↦ (m, invalid (codes "clientSecret" ∷ []))
          | some sealed_row ↦ save_credential m sealed_row now
        ]
  ]

  unfoldable pub handle_delete_credential : Managed → Str → Managed × Answer (Unit {0})
  unfolding is_bootstrap
  handle_delete_credential m id = elim (get_credential m.directory id) [
    | err e ↦ (m, store_error e)
    | ok c ↦
        if is_bootstrap c.managed_by
        then (m, immutable)
        else let (later, result) = delete_credential m.directory id in
          elim result [
            | err e ↦ (record m { directory = later }, store_error e)
            | ok _ ↦ (record { directory = later; tokens = forgotten m.tokens id }, answered tt)
          ]
  ]
