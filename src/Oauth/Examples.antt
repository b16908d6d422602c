-- ===== src/Oauth/Examples.antt =====
-- The theorems about tokens at a stored credential.
use smtp_auth_proxy.Prelude.{◌≡◌, refl, inr, List, ◌∷◌, ◌++◌, []}
use smtp_auth_proxy.Strings.{
  Str, codes, str_eq, cut, contains_byte, contains_any, split, trim_right,
}
use smtp_auth_proxy.Store.Directory.{known_auth}
use smtp_auth_proxy.Crypto.Keyring.{decrypt}
use smtp_auth_proxy.Crypto.Fixtures.{glass}
use smtp_auth_proxy.Oauth.Fixtures.{plain_msal, registration, provider}
use smtp_auth_proxy.Oauth.Xoauth2.{build_xoauth2, build_xoauth2-split, separator}
use smtp_auth_proxy.Oauth.Provider.{
  CachedClient, default_authority_host, build_client, client_for, store_client, fingerprint_of,
  parts_of, auth_text,
}
use smtp_auth_proxy.Oauth.Provider.Fingerprint.{IsClean}
use smtp_auth_proxy.Oauth.Provider.Cache.{Reached, empty, stored, client_for-build_client}

build_xoauth2-split_example :
    split
      (codes "user=a@b" ++ separator ∷ codes "auth=Bearer t" ++ separator ∷ separator ∷ [])
      separator
    ≡ codes "user=a@b" ∷ codes "auth=Bearer t" ∷ [] ∷ [] ∷ []
unfolding build_xoauth2 contains_any contains_byte
build_xoauth2-split_example = build_xoauth2-split (codes "a@b") (codes "t") refl

clean : IsClean registration default_authority_host
unfolding known_auth parts_of auth_text contains_byte
clean = record {
  typed = refl;
  without_zero = (refl, (refl, (refl, (refl, (refl, (refl, (refl, (refl, tt))))))));
}

abbrev built_client : Str
built_client = codes "https://login.microsoftonline.com/tenantclienthush"

built : build_client glass plain_msal provider registration ≡ inr built_client
unfolding build_client decrypt cut str_eq trim_right
built = refl

abbrev one_client : List (CachedClient glass plain_msal)
one_client =
    store_client glass plain_msal [] registration
      (fingerprint_of glass plain_msal provider registration) built_client

client_for-build_client_example :
    ((client_for glass plain_msal provider one_client registration).1
      ≡ build_client glass plain_msal provider registration)
    × Reached glass plain_msal provider
        (client_for glass plain_msal provider one_client registration).0
client_for-build_client_example =
    client_for-build_client glass plain_msal provider registration (λ s t e. e)
      (stored empty registration built_client clean built) clean
