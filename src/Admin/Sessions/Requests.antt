-- ===== src/Admin/Sessions/Requests.antt =====
-- Which requests pass: `Authenticate`, `CheckCSRF` and `ClientIP` of internal/adminauth/session.go.
use smtp_auth_proxy.Prelude.{
  ℕ, ◌≡◌, subst, ◌≢◌, inl, inr, false, none, some, List, arith, Option-cases, [],
}
use smtp_auth_proxy.Strings.{Str, str_eq_iff}
use smtp_auth_proxy.Policy.Source.{Net}
use smtp_auth_proxy.Store.Users.{AdminDb, ok}
use smtp_auth_proxy.Store.Sessions.{Authenticated, lookup}
use smtp_auth_proxy.Store.Sessions.Revocation.{Live, lookup-Live}
use smtp_auth_proxy.Admin.Sessions.{
  SessionConfig, Request, Web, is_safe_method, check_csrf, show_ip, remote_ip, contains_ip,
  client_ip, resume, authenticate,
}

module _ (net : Net) (web : Web net) where
  -- A request with an unsafe method that passes the session check and the CSRF check carries a
  -- cookie whose hash is that of a stored session which has neither expired nor idled too long, of
  -- a stored user who is not disabled, and its CSRF header is that session's token and not empty.
  pub request_authorized :
      (config : SessionConfig) (db : AdminDb) (r : Request) (now : ℕ) (a : Authenticated)
      → (authenticate net web config db r now).1 ≡ ok a
      → check_csrf a r ≡ none
      → is_safe_method r.method ≡ false
      → (token : Str) × (r.cookie config.cookie_name ≡ some token)
        × Live db (web.hash_token token) config.idle_timeout now (ok a)
        × (r.csrf_header ≡ a.session.csrf_token)
        × (r.csrf_header ≢ [])
  unfolding authenticate resume check_csrf
  request_authorized config db r now a h c unsafe =
      elim (Option-cases (r.cookie config.cookie_name)) [
        | inl e ↦ absurd (no_cookie e)
        | inr (token, e) ↦ (
          token,
          e,
          live token e,
          ground (arith, str_eq_iff r.csrf_header a.session.csrf_token),
          λ z. empty z,
        )
      ]
    where
      no_cookie : r.cookie config.cookie_name ≡ none → ⊥
      no_cookie e = ground arith

      found :
          (token : Str)
          → r.cookie config.cookie_name ≡ some token
          → (lookup db (web.hash_token token) config.idle_timeout now).1 ≡ ok a
      found token e = ground arith

      live :
          (token : Str)
          → r.cookie config.cookie_name ≡ some token
          → Live db (web.hash_token token) config.idle_timeout now (ok a)
      live token e =
          subst (Live db (web.hash_token token) config.idle_timeout now) (found token e)
            (lookup-Live db (web.hash_token token) config.idle_timeout now)

      empty : r.csrf_header ≡ [] → ⊥
      empty z = ground arith

  -- The forwarded header of an untrusted peer is not read.
  pub client_ip_untrusted :
      (r : Request) (header : Str) (trusted : List net.Network) (ip : net.Ip)
      → remote_ip net web r.remote_addr ≡ some ip
      → contains_ip net web trusted ip ≡ false
      → client_ip net web (record r { forwarded_for = header }) trusted ≡ net.show_ip ip
  unfolding client_ip show_ip
  client_ip_untrusted r header trusted ip e c = ground arith
