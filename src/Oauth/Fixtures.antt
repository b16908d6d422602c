-- ===== src/Oauth/Fixtures.antt =====
-- A credential, and a library that accepts everything, with a digest of any length.
use smtp_auth_proxy.Prelude.{none, some, ◌∷◌, ◌++◌, []}
use smtp_auth_proxy.Strings.{Str, codes}
use smtp_auth_proxy.Store.Models.{OauthCredential, secret, ui}
use smtp_auth_proxy.Crypto.Fixtures.{glass}
use smtp_auth_proxy.Oauth.Provider.{Msal, Provider, default_authority_host}

abbrev pub plain_msal : Msal
plain_msal = record {
  Credential = Str;
  Certificates = Str;
  Client = Str;
  from_secret = λ s. some s;
  cert_from_pem = λ s. some s;
  cert_count = λ s. 1;
  from_cert = λ s. some s;
  new_client = λ authority client credential. some (authority ++ client ++ credential);
  digest = λ s. s;
}

abbrev pub registration : OauthCredential
registration = record {
  id = codes "cred";
  name = codes "main";
  tenant_id = codes "tenant";
  client_id = codes "client";
  auth_type = secret;
  client_secret_enc = codes "v1.a.nnhush";
  certificate_pem = [];
  certificate_key_enc = [];
  certificate_thumbprint = [];
  authority_host = [];
  expires_at = none;
  managed_by = ui;
  created_at = 1;
  updated_at = 1;
}

abbrev pub provider : Provider glass plain_msal
provider = record {
  keyring = record { primary_id = codes "a"; keys = (codes "a", codes "k") ∷ [] };
  default_host = default_authority_host;
}
