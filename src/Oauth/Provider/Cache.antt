-- ===== src/Oauth/Provider/Cache.antt =====
-- The clients that the provider keeps are those of the credentials as they are:
-- internal/oauth/provider.go.
use smtp_auth_proxy.Prelude.{
  option_cases, ◌≡◌, refl, sym, ap, ◌∙◌, subst, ◌⊎◌, inl, inr, Bool, not, some, List, ◌∷◌, arith,
  if_cases, Bool-cases, All, [],
}
use smtp_auth_proxy.Strings.{Str, str_eq, str_eq→eq}
use smtp_auth_proxy.Store.Models.{OauthCredential, AuthType}
use smtp_auth_proxy.Store.Rows.{filter}
use smtp_auth_proxy.Crypto.Keyring.{Ciphers}
use smtp_auth_proxy.Oauth.Provider.{
  Msal, Provider, OauthError, CachedClient, secret_context, certificate_key_context, fingerprint_of,
  certificate_for, credential_for, build_client, cached, forget, store_client, fresh_client,
  client_for, terminated, parts_of,
}
use smtp_auth_proxy.Oauth.Provider.Fingerprint.{IsClean, Alike, terminated-Alike}

module _ (ciphers : Ciphers) (msal : Msal) (p : Provider ciphers msal) where
  -- The maps that the provider can have. A client that another thread builds meanwhile is stored
  -- like one's own.
  pub data Reached : List (CachedClient ciphers msal) → Type 0 where
    empty : Reached []
    stored :
        {clients : List (CachedClient ciphers msal)}
        → Reached clients
        → (c : OauthCredential) (client : msal.Client) → IsClean c p.default_host
        → build_client ciphers msal p c ≡ inr client
        → Reached (store_client ciphers msal clients c (fingerprint_of ciphers msal p c) client)
    forgotten :
        {clients : List (CachedClient ciphers msal)}
        → Reached clients
        → (id : Str) → Reached (forget ciphers msal clients id)

  -- An entry of the map is what building gave for a credential of its id and fingerprint.
  record Built (e : CachedClient ciphers msal) : Type 0 where
    source : OauthCredential
    clean : IsClean source p.default_host
    id : e.credential_id ≡ source.id
    print : e.fingerprint ≡ fingerprint_of ciphers msal p source
    same : build_client ciphers msal p source ≡ inr e.client

  All-filter :
      (q : CachedClient ciphers msal → Bool) (es : List (CachedClient ciphers msal))
      → All Built es
      → All Built (filter q es)
  unfolding filter
  All-filter q [] h = tt
  All-filter q (e ∷ es) h =
      if_cases (All Built) (q e) (λ _. (h.0, All-filter q es h.1)) (λ _. All-filter q es h.1)

  reached-Built : {clients : List (CachedClient ciphers msal)} → Reached clients → All Built clients
  unfolding store_client forget
  reached-Built empty = tt
  reached-Built (stored {clients} r c client clean e) = (
    record { source = c; clean = clean; id = refl; print = refl; same = e },
    All-filter (λ (x : CachedClient ciphers msal). not (str_eq x.credential_id c.id)) clients
        (reached-Built r),
  )
  reached-Built (forgotten {clients} r id) =
      All-filter (λ (x : CachedClient ciphers msal). not (str_eq x.credential_id id)) clients
        (reached-Built r)

  -- A client built of the fields; the credential gives the name and the rest.
  built_of :
      OauthCredential
      → Str
      → Str
      → Str
      → AuthType
      → Str
      → Str
      → Str
      → Str
      → OauthError ⊎ msal.Client
  built_of c id tenant client type host sealed_secret pem sealed_key =
      build_client ciphers msal p (record c {
        id = id;
        tenant_id = tenant;
        client_id = client;
        auth_type = type;
        authority_host = host;
        client_secret_enc = sealed_secret;
        certificate_pem = pem;
        certificate_key_enc = sealed_key;
      })

  built_of_lem :
      (c d : OauthCredential)
      → built_of c d.id d.tenant_id d.client_id d.auth_type d.authority_host d.client_secret_enc
          d.certificate_pem d.certificate_key_enc
        ≡ build_client ciphers msal p d
  unfolding built_of build_client credential_for certificate_for secret_context
      certificate_key_context
  built_of_lem c d = refl

  build_client-Alike :
      (c d : OauthCredential)
      → c.id ≡ d.id
      → Alike c d
      → build_client ciphers msal p c ≡ build_client ciphers msal p d
  build_client-Alike c d i a =
      sym (built_of_lem c c)
      ∙ rw (i, a.tenant, a.client, a.type, a.host, a.sealed_secret, a.pem, a.sealed_key) refl
      ∙ built_of_lem c d

  cached-Built :
      (clients : List (CachedClient ciphers msal)) (id : Str) {e : CachedClient ciphers msal}
      → All Built clients
      → cached ciphers msal clients id ≡ some e
      → Built e × (e.credential_id ≡ id)
  unfolding cached
  cached-Built [] id h q = cc
  cached-Built (x ∷ xs) id {e} h q = elim (Bool-cases (str_eq x.credential_id id)) [
    | inl same ↦
        (let f : x ≡ e = ground arith in
          (
            subst Built f h.0,
            ap (λ (y : CachedClient ciphers msal). y.credential_id) (sym f)
                ∙ str_eq→eq x.credential_id id same,
          ))
    | inr other ↦ cached-Built xs id h.1 (ground arith)
  ]

  abbrev Good :
      OauthCredential → List (CachedClient ciphers msal) × (OauthError ⊎ msal.Client) → Type 0
  Good c result = (result.1 ≡ build_client ciphers msal p c) × Reached result.0

  fresh_client-Good :
      {clients : List (CachedClient ciphers msal)} (c : OauthCredential)
      → Reached clients
      → IsClean c p.default_host
      → Good c (fresh_client ciphers msal p clients c)
  unfolding fresh_client
  fresh_client-Good {clients} c r clean = by_client (build_client ciphers msal p c) refl
    where
      by_client :
          (o : OauthError ⊎ msal.Client)
          → build_client ciphers msal p c ≡ o
          → ((elim o as (λ _. List (CachedClient ciphers msal) × (OauthError ⊎ msal.Client)) [
            | inl e ↦ (clients, inl e)
            | inr client ↦ (
              store_client ciphers msal clients c (fingerprint_of ciphers msal p c) client,
              inr client,
            )
          ]).1
              ≡ o)
            × Reached
                (elim o as (λ _. List (CachedClient ciphers msal) × (OauthError ⊎ msal.Client)) [
                  | inl e ↦ (clients, inl e)
                  | inr client ↦ (
                    store_client ciphers msal clients c (fingerprint_of ciphers msal p c) client,
                    inr client,
                  )
                ]).0
      by_client (inl e) q = (refl, r)
      by_client (inr client) q = (refl, stored r c client clean q)

  rebuilt :
      (c d : OauthCredential)
      → IsClean c p.default_host
      → IsClean d p.default_host
      → ((s t : Str) → msal.digest s ≡ msal.digest t → s ≡ t)
      → c.id ≡ d.id
      → fingerprint_of ciphers msal p c ≡ fingerprint_of ciphers msal p d
      → build_client ciphers msal p d ≡ build_client ciphers msal p c
  unfolding fingerprint_of
  rebuilt c d h k inj i e = sym (
      build_client-Alike c d i (
        terminated-Alike c d p.default_host h k (
          inj (terminated (parts_of c p.default_host)) (terminated (parts_of d p.default_host)) e)))

  -- Where the digest of fingerprints does not collide, the cache of clients refines building one
  -- each time: whatever was stored, also by other threads, and forgotten before, for a stored
  -- credential without zero bytes the provider answers with the client, or the error, that building
  -- from the credential as it is now would give; and its cache is again one of those that can be
  -- reached.
  pub client_for-build_client :
      {clients : List (CachedClient ciphers msal)} (c : OauthCredential)
      → ((s t : Str) → msal.digest s ≡ msal.digest t → s ≡ t)
      → Reached clients
      → IsClean c p.default_host
      → ((client_for ciphers msal p clients c).1 ≡ build_client ciphers msal p c)
        × Reached (client_for ciphers msal p clients c).0
  unfolding client_for
  client_for-build_client {clients} c inj r clean =
      option_cases (Good c) (cached ciphers msal clients c.id) (λ _. fresh_client-Good c r clean)
        (λ e q.
          if_cases (Good c) (str_eq e.fingerprint (fingerprint_of ciphers msal p c))
            (λ same.
              (let (b, i) = cached-Built clients c.id (reached-Built r) q in
                (
                  sym b.same
                      ∙ (rebuilt c b.source clean b.clean inj (sym i ∙ b.id) (
                          sym (str_eq→eq e.fingerprint (fingerprint_of ciphers msal p c) same)
                          ∙ b.print)),
                  r,
                )))
            (λ _. fresh_client-Good c r clean))
