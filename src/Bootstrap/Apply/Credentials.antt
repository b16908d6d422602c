-- ===== src/Bootstrap/Apply/Credentials.antt =====
-- `applyCredential` of internal/bootstrap/bootstrap.go, and the sealing of its secrets.
use smtp_auth_proxy.Prelude.{
  ℕ, ◌+◌, ◌⊎◌, inl, inr, Bool, not, Option, none, some, ◌∷◌, ◌==◌, if◌then◌else◌, length, [],
}
use smtp_auth_proxy.Strings.{Str}
use smtp_auth_proxy.Store.Models.{OauthCredential, bootstrap}
use smtp_auth_proxy.Store.Users.{not_found, ok, err}
use smtp_auth_proxy.Store.Directory.Credentials.{
  get_credential_by_name, create_credential, update_credential,
}
use smtp_auth_proxy.Crypto.Keyring.{Ciphers, Keyring, ok as sealed, err as unsealed, encrypt}
use smtp_auth_proxy.Oauth.Provider.{secret_context, certificate_key_context}
use smtp_auth_proxy.Bootstrap.{Credential}
use smtp_auth_proxy.Bootstrap.Apply.Progress.{
  Run, BootstrapError, no_keys, not_sealed, store_failed, credential_auth_type, text_or, finish,
  managed_by,
}

module _ (ciphers : Ciphers) (keyring : Option (Keyring ciphers)) (reconcile : Bool)
    (draw_id : ℕ → Str) (draw_nonces : ℕ → Option Str × Option Str) (now : ℕ) where
  -- An empty text leaves the old ciphertext; `none` is the error.
  unfoldable pub seal_or : Keyring ciphers → Option Str → Str → Str → Str → Option Str
  seal_or k random plain context old =
      if length plain == 0
      then some old
      else elim (encrypt ciphers k random plain context) [ sealed s ↦ some s | unsealed e ↦ none ]

  unfoldable pub seal_into : Run → OauthCredential → Credential → BootstrapError ⊎ OauthCredential
  unfolding seal_or secret_context certificate_key_context
  seal_into r stored c = elim keyring [
    | none ↦ inl no_keys
    | some k ↦
        elim (seal_or k (draw_nonces r.drawn).0 c.client_secret (secret_context stored)
          stored.client_secret_enc) [
            | none ↦ inl not_sealed
            | some secret_enc ↦
                elim (seal_or k (draw_nonces r.drawn).1 c.certificate_key_pem
                  (certificate_key_context stored) stored.certificate_key_enc) [
                    | none ↦ inl not_sealed
                    | some key_enc ↦ inr (record stored {
                      client_secret_enc = secret_enc;
                      certificate_pem = text_or c.certificate_pem stored.certificate_pem;
                      certificate_key_enc = key_enc;
                    })
                  ]
          ]
  ]

  unfoldable pub update_declared : Run → OauthCredential → Credential → Run × Option BootstrapError
  unfolding seal_into credential_auth_type
  update_declared r stored c =
      elim (seal_into r
        (record stored {
          tenant_id = c.tenant_id;
          client_id = c.client_id;
          auth_type = credential_auth_type c;
          authority_host = c.authority_host;
          managed_by = bootstrap;
        })
        c) [
          | inl e ↦ (r, some e)
          | inr row ↦
              let (later, result) = update_credential r.directory row now in
              finish result
                (record r { directory = later; updated = r.updated + 1; drawn = r.drawn + 1 })
                (record r { directory = later })
        ]

  unfoldable pub declared_credential : Credential → Str → OauthCredential
  unfolding credential_auth_type
  declared_credential c id = record {
    id = id;
    name = c.name;
    tenant_id = c.tenant_id;
    client_id = c.client_id;
    auth_type = credential_auth_type c;
    client_secret_enc = [];
    certificate_pem = [];
    certificate_key_enc = [];
    certificate_thumbprint = [];
    authority_host = c.authority_host;
    expires_at = none;
    managed_by = managed_by reconcile;
    created_at = 0;
    updated_at = 0;
  }

  unfoldable pub create_declared : Run → Credential → Run × Option BootstrapError
  unfolding declared_credential seal_into
  create_declared r c = elim (seal_into r (declared_credential c (draw_id r.drawn)) c) [
    | inl e ↦ (r, some e)
    | inr row ↦
        let (later, result) = create_credential r.directory row row.id now in
        finish result
          (record r {
            directory = later;
            credential_ids = (c.name, row.id) ∷ r.credential_ids;
            created = r.created + 1;
            drawn = r.drawn + 1;
          })
          (record r { directory = later })
  ]

  unfoldable pub apply_credential : Run → Credential → Run × Option BootstrapError
  unfolding update_declared create_declared
  apply_credential r c = elim (get_credential_by_name r.directory c.name) [
    | ok existing ↦
        let noted : Run = record r { credential_ids = (c.name, existing.id) ∷ r.credential_ids } in
        if not reconcile
        then (record noted { skipped = r.skipped + 1 }, none)
        else update_declared noted existing c
    | err not_found ↦ create_declared r c
    | err e ↦ (r, some (store_failed e))
  ]
