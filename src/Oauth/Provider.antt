-- ===== src/Oauth/Provider.antt =====
-- Access tokens for stored credentials: internal/oauth/provider.go. A lock makes each read and each
-- write of the map of clients one step; what the errors say is left out.

pub mod Fingerprint
pub mod Cache
use smtp_auth_proxy.Prelude.{
  ℕ, ◌+◌, ◌*◌, ◌⊎◌, inl, inr, Bool, not, ◌&&◌, Option, none, some, List, ◌∷◌, ◌++◌, ltb, ◌==◌,
  if◌then◌else◌, length, [],
}
use smtp_auth_proxy.Strings.{Str, str_eq, codes, trim_right}
use smtp_auth_proxy.Store.Models.{OauthCredential, AuthType, secret, certificate, other_auth}
use smtp_auth_proxy.Store.Rows.{delete_where}
use smtp_auth_proxy.Crypto.Keyring.{Ciphers, Keyring, Outcome, ok, err, decrypt}

pub data OauthError : Type 0 where
  no_scope no_tenant unusable request_failed : OauthError

-- `github.com/AzureAD/microsoft-authentication-library-for-go`, and the hexadecimal SHA-256 digest.
pub record Msal : Type 1 where
  pub Credential : Type 0
  pub Certificates : Type 0
  pub Client : Type 0
  pub from_secret : Str → Option Credential
  pub cert_from_pem : Str → Option Certificates
  pub cert_count : Certificates → ℕ
  pub from_cert : Certificates → Option Credential
  pub new_client : Str → Str → Credential → Option Client
  pub digest : Str → Str

pub record Token : Type 0 where
  pub access_token : Str
  pub expires_at : ℕ

abbrev pub second : ℕ
second = 1000000000

abbrev pub refresh_margin : ℕ
refresh_margin = 300 * second

unfoldable pub expired : Token → ℕ → ℕ → Bool
expired t now margin = not (ltb (now + margin) t.expires_at)

unfoldable pub usable : Token → ℕ → Bool
unfolding expired
usable t now = not (length t.access_token == 0) && not (expired t now refresh_margin)

abbrev pub default_authority_host : Str
default_authority_host = codes "https://login.microsoftonline.com"

unfoldable pub authority_url : Str → Str → OauthError ⊎ Str
authority_url host tenant_id =
    if length tenant_id == 0
    then inl no_tenant
    else let chosen = if length host == 0 then default_authority_host else host in
      inr (trim_right (λ c. c == b'/') chosen ++ b'/' ∷ tenant_id)

-- `SecretContext` and `CertificateKeyContext`
unfoldable pub secret_context : OauthCredential → Str
secret_context c = codes "oauth_credentials/client_secret/" ++ c.id

unfoldable pub certificate_key_context : OauthCredential → Str
certificate_key_context c = codes "oauth_credentials/certificate_key/" ++ c.id

-- An `AuthType` as the string that it is in the source.
unfoldable pub auth_text : AuthType → Str
auth_text secret = codes "secret"
auth_text certificate = codes "certificate"
auth_text (other_auth s) = s

-- Each part with the zero byte that ends it.
unfoldable pub terminated : List Str → Str
terminated [] = []
terminated (part ∷ parts) = part ++ 0 ∷ terminated parts

-- What a client is built of.
unfoldable pub parts_of : OauthCredential → Str → List Str
unfolding auth_text
parts_of c default_host =
    c.tenant_id
    ∷ c.client_id
    ∷ auth_text c.auth_type
    ∷ c.authority_host
    ∷ c.client_secret_enc
    ∷ c.certificate_pem
    ∷ c.certificate_key_enc
    ∷ default_host
    ∷ []

module _ (ciphers : Ciphers) (msal : Msal) where
  -- `Provider` without the map; the HTTP client is left out.
  pub record Provider : Type 0 where
    pub keyring : Keyring ciphers
    pub default_host : Str

  -- `NewProvider` with the option for the login host.
  unfoldable pub new_provider : Keyring ciphers → Str → Provider
  new_provider keyring host = record {
    keyring = keyring;
    default_host = if length host == 0 then default_authority_host else host;
  }

  pub record CachedClient : Type 0 where
    pub credential_id : Str
    pub client : msal.Client
    pub fingerprint : Str

  unfoldable pub fingerprint_of : Provider → OauthCredential → Str
  unfolding parts_of terminated
  fingerprint_of p c = msal.digest (terminated (parts_of c p.default_host))

  unfoldable pub certificate_for : Provider → OauthCredential → OauthError ⊎ msal.Certificates
  unfolding certificate_key_context
  certificate_for p c =
      elim (decrypt ciphers p.keyring c.certificate_key_enc (certificate_key_context c)) [
        | err e ↦ inl unusable
        | ok key ↦ elim (msal.cert_from_pem (c.certificate_pem ++ 10 ∷ key)) [
          | none ↦ inl unusable
          | some certs ↦ if msal.cert_count certs == 0 then inl unusable else inr certs
        ]
      ]

  abbrev usable_or {ℓ} : {A : Type ℓ} → Option A → OauthError ⊎ A
  usable_or none = inl unusable
  usable_or (some x) = inr x

  unfoldable pub credential_for : Provider → OauthCredential → OauthError ⊎ msal.Credential
  unfolding secret_context certificate_for
  credential_for p c = elim c.auth_type [
    | secret ↦ elim (decrypt ciphers p.keyring c.client_secret_enc (secret_context c)) [
      | err e ↦ inl unusable
      | ok plain ↦ usable_or (msal.from_secret plain)
    ]
    | certificate ↦ elim (certificate_for p c) [
      | inl e ↦ inl e
      | inr certs ↦ usable_or (msal.from_cert certs)
    ]
    | other_auth s ↦ inl unusable
  ]

  unfoldable pub build_client : Provider → OauthCredential → OauthError ⊎ msal.Client
  unfolding credential_for authority_url
  build_client p c = elim (credential_for p c) [
    | inl e ↦ inl e
    | inr credential ↦
        let host = if length c.authority_host == 0 then p.default_host else c.authority_host in
        elim (authority_url host c.tenant_id) [
          | inl e ↦ inl e
          | inr authority ↦ usable_or (msal.new_client authority c.client_id credential)
        ]
  ]

  -- The map's lookup.
  unfoldable pub cached : List CachedClient → Str → Option CachedClient
  cached [] id = none
  cached (e ∷ rest) id =
      let later = cached rest id in if str_eq e.credential_id id then some e else later

  unfoldable pub forget : List CachedClient → Str → List CachedClient
  forget clients id = delete_where (λ (e : CachedClient). str_eq e.credential_id id) clients

  -- The assignment to the map.
  unfoldable pub store_client :
      List CachedClient → OauthCredential → Str → msal.Client → List CachedClient
  unfolding forget
  store_client clients c fingerprint client =
      record { credential_id = c.id; client = client; fingerprint = fingerprint }
      ∷ forget clients c.id

  -- A client that is not in the map, or has another fingerprint.
  unfoldable pub fresh_client :
      Provider
      → List CachedClient
      → OauthCredential
      → List CachedClient × (OauthError ⊎ msal.Client)
  unfolding build_client store_client fingerprint_of
  fresh_client p clients c = elim (build_client p c) [
    | inl e ↦ (clients, inl e)
    | inr client ↦ (store_client clients c (fingerprint_of p c) client, inr client)
  ]

  unfoldable pub client_for :
      Provider
      → List CachedClient
      → OauthCredential
      → List CachedClient × (OauthError ⊎ msal.Client)
  unfolding cached fingerprint_of fresh_client
  client_for p clients c = elim (cached clients c.id) [
    | none ↦ fresh_client p clients c
    | some e ↦
        if str_eq e.fingerprint (fingerprint_of p c)
        then (clients, inr e.client)
        else fresh_client p clients c
  ]

  -- `Token`; `acquire` is what the client, which has a cache of its own, answers.
  unfoldable pub token :
      Provider
      → (msal.Client → Str → Option Token)
      → List CachedClient
      → OauthCredential
      → Str
      → List CachedClient × (OauthError ⊎ Token)
  unfolding client_for
  token p acquire clients c scope =
      if length scope == 0
      then (clients, inl no_scope)
      else let (later, answer) = client_for p clients c in
        (
          later,
          elim answer [
            | inl e ↦ inl e
            | inr client ↦ elim (acquire client scope) [
              | none ↦ inl request_failed
              | some t ↦ if length t.access_token == 0 then inl request_failed else inr t
            ]
          ],
        )
