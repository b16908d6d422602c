-- ===== src/Oauth/Provider/Fingerprint.antt =====
-- What two credentials of one fingerprint share: internal/oauth/provider.go.
use smtp_auth_proxy.Prelude.{◌≡◌, refl, sym, ap, ◌∙◌, true, false, Option, some, List, ◌∷◌, All, []}
use smtp_auth_proxy.Strings.{Str, cut, cut-append, contains_byte}
use smtp_auth_proxy.Store.Models.{OauthCredential, AuthType, secret, certificate, other_auth}
use smtp_auth_proxy.Store.Directory.{known_auth}
use smtp_auth_proxy.Oauth.Provider.{auth_text, terminated, parts_of}

-- A credential as the table holds it: of a known type, with no zero byte in what is hashed.
pub record IsClean (c : OauthCredential) (default_host : Str) : Type 0 where
  pub typed : known_auth c.auth_type ≡ true
  pub without_zero : All (λ part. contains_byte part 0 ≡ false) (parts_of c default_host)

pair_inj :
    {a c : Str} {b d : Str}
    → ◌≡◌ {A = Option (Str × Str)} (some (a, b)) (some (c, d))
    → (a ≡ c) × (b ≡ d)
pair_inj h = (cc, cc)

terminated_inj :
    (xs bs : List Str)
    → All (λ part. contains_byte part 0 ≡ false) xs
    → All (λ part. contains_byte part 0 ≡ false) bs
    → terminated xs ≡ terminated bs
    → xs ≡ bs
unfolding terminated
terminated_inj [] [] h k e = refl
terminated_inj [] ([] ∷ bs) h k e = cc
terminated_inj [] ((x ∷ b) ∷ bs) h k e = cc
terminated_inj ([] ∷ xs) [] h k e = cc
terminated_inj ((x ∷ a) ∷ xs) [] h k e = cc
terminated_inj (a ∷ xs) (b ∷ bs) h k e =
    let (same, rest) = pair_inj (
      sym (cut-append a (terminated xs) 0 h.0)
      ∙ ap (λ s. cut s 0) e
      ∙ cut-append b (terminated bs) 0 k.0) in
    ap (λ x. x ∷ xs) same ∙ ap (λ later. b ∷ later) (terminated_inj xs bs h.1 k.1 rest)

auth_text_inj :
    (s t : AuthType) → known_auth s ≡ true → known_auth t ≡ true → auth_text s ≡ auth_text t → s ≡ t
unfolding auth_text known_auth
auth_text_inj secret secret h k e = refl
auth_text_inj certificate certificate h k e = refl
auth_text_inj secret certificate h k e = cc
auth_text_inj certificate secret h k e = cc
auth_text_inj (other_auth s) t h k e = cc
auth_text_inj secret (other_auth t) h k e = cc
auth_text_inj certificate (other_auth t) h k e = cc

-- All that a client is built of, except for the id.
pub record Alike (c d : OauthCredential) : Type 0 where
  pub tenant : c.tenant_id ≡ d.tenant_id
  pub client : c.client_id ≡ d.client_id
  pub type : c.auth_type ≡ d.auth_type
  pub host : c.authority_host ≡ d.authority_host
  pub sealed_secret : c.client_secret_enc ≡ d.client_secret_enc
  pub pem : c.certificate_pem ≡ d.certificate_pem
  pub sealed_key : c.certificate_key_enc ≡ d.certificate_key_enc

pub terminated-Alike :
    (c d : OauthCredential) (default_host : Str)
    → IsClean c default_host
    → IsClean d default_host
    → terminated (parts_of c default_host) ≡ terminated (parts_of d default_host)
    → Alike c d
unfolding parts_of
terminated-Alike c d default_host h k e =
    let q =
      terminated_inj (parts_of c default_host) (parts_of d default_host) h.without_zero
        k.without_zero e in
    record {
      tenant = cc;
      client = cc;
      type = auth_text_inj c.auth_type d.auth_type h.typed k.typed cc;
      host = cc;
      sealed_secret = cc;
      pem = cc;
      sealed_key = cc;
    }
